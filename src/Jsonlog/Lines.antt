-- ===== src/Jsonlog/Lines.antt =====
-- The logger's output: one line for each message at or above the least level.
use panfs_container_storage.Base.{
  ℕ, suc, ◌+◌, ◌≡◌, refl, inl, inr, ◌⊎◌, Option, none, List, [], ◌∷◌, ◌++◌, arith, length, ◌==◌,
  if◌then◌else◌, Bool-cases,
}
use panfs_container_storage.Base.Texts.{Text, codes}
use panfs_container_storage.Base.Int.{pos, ltb_ℤ}
use panfs_container_storage.Jsonlog.{
  Level, level_debug, level_info, level_error, level_string, Entry, Runtime, Writer, Logger,
  line_of, line, print, print_debug, print_info, print_error, write,
}

-- A buffer as the writer.
abbrev pub buffer : Writer
buffer = record { State = Text; write = λ text s. ((pos (length text), none), s ++ text) }

abbrev pub into_buffer : Level → Logger
into_buffer min_level = record { out = buffer; min_level = min_level }

pub data Message (LogField : Type 0) : Type 0 where
  debug info error : Text → Option LogField → Message LogField
  written : Text → Message LogField

-- The newlines of a text.
unfoldable pub newlines : Text → ℕ
newlines [] = 0
newlines (c ∷ text) = (if c == 10 then 1 else 0) + newlines text

newlines-append : (a b : Text) → newlines (a ++ b) ≡ newlines a + newlines b
unfolding newlines
newlines-append [] b = omega arith
newlines-append (c ∷ a) b = omega (arith, newlines-append a b)

line_of-newlines :
    (r : Text ⊎ Text)
    → ((text : Text) → (r ≡ inl text) ⊎ (r ≡ inr text) → newlines text ≡ 0)
    → newlines (line_of r) ≡ 0
unfolding line_of newlines level_string
line_of-newlines (inl text) one = one text (inl refl)
line_of-newlines (inr e) one =
    let prefix = codes "ERROR: unable to marshal log message: " in
    let bare : newlines prefix ≡ 0 = refl in
    omega (arith, newlines-append prefix e, bare, one e (inr refl))

module _ {LogField : Type 0} where
  abbrev pub level_of : Message LogField → Level
  level_of (debug message properties) = level_debug
  level_of (info message properties) = level_info
  level_of (error message properties) = level_error
  level_of (written message) = level_error

  -- How many of the messages are at or above a level.
  unfoldable pub enabled : Level → List (Message LogField) → ℕ
  enabled min_level [] = 0
  enabled min_level (m ∷ messages) =
      (if ltb_ℤ (level_of m) min_level then 0 else 1) + enabled min_level messages

  module _ (runtime : Runtime LogField) (min_level : Level) where
    -- The messages one after another, from the moment on.
    unfoldable pub log : ℕ → Message LogField → Text → Text
    unfolding print_debug print_info print_error write
    log moment (debug message properties) s =
        print_debug runtime (into_buffer min_level) moment message properties s
    log moment (info message properties) s =
        print_info runtime (into_buffer min_level) moment message properties s
    log moment (error message properties) s =
        print_error runtime (into_buffer min_level) moment message properties s
    log moment (written message) s = (write runtime (into_buffer min_level) moment message s).1

    unfoldable pub log_all : ℕ → List (Message LogField) → Text → Text
    unfolding log
    log_all moment [] s = s
    log_all moment (m ∷ messages) s = log_all (suc moment) messages (log moment m s)

    -- json.Marshal escapes a newline, and no error of it has one.
    abbrev pub IsOneLine : Type 0
    IsOneLine =
        (entry : Entry LogField) (text : Text)
        → (runtime.marshal entry ≡ inl text) ⊎ (runtime.marshal entry ≡ inr text)
        → newlines text ≡ 0

    line-newlines :
        IsOneLine
        → (moment : ℕ) (level : Level) (message : Text) (properties : Option LogField)
        → newlines (line runtime moment level message properties) ≡ 0
    unfolding line
    line-newlines one moment level message properties = line_of-newlines (runtime.marshal _) (one _)

    print-newlines :
        IsOneLine
        → (moment : ℕ) (level : Level) (message : Text) (properties : Option LogField) (s : Text)
        → newlines (print runtime (into_buffer min_level) moment level message properties s).1
          ≡ newlines s + (if ltb_ℤ level min_level then 0 else 1)
    unfolding print newlines
    print-newlines one moment level message properties s =
        elim (Bool-cases (ltb_ℤ level min_level)) [
          | inl t ↦ rw t (omega arith)
          | inr f ↦
              let whole = line runtime moment level message properties in
              rw f (
                omega (
                  arith,
                  newlines-append s (whole ++ 10 ∷ []),
                  newlines-append whole (10 ∷ []),
                  line-newlines one moment level message properties,
                ))
        ]

    log-newlines :
        IsOneLine
        → (moment : ℕ) (m : Message LogField) (s : Text)
        → newlines (log moment m s) ≡ newlines s + (if ltb_ℤ (level_of m) min_level then 0 else 1)
    unfolding log print_debug print_info print_error write
    log-newlines one moment (debug message properties) s =
        print-newlines one moment level_debug message properties s
    log-newlines one moment (info message properties) s =
        print-newlines one moment level_info message properties s
    log-newlines one moment (error message properties) s =
        print-newlines one moment level_error message properties s
    log-newlines one moment (written message) s =
        print-newlines one moment level_error message none s

    -- When neither a marshalled message nor an error of json.Marshal has a newline, a sequence of
    -- messages adds just one line to the output for each message at or above the least level, and
    -- none for any other.
    pub log_all-newlines :
        IsOneLine
        → (moment : ℕ) (messages : List (Message LogField)) (s : Text)
        → newlines (log_all moment messages s) ≡ newlines s + enabled min_level messages
    unfolding log_all enabled
    log_all-newlines one moment [] s = omega arith
    log_all-newlines one moment (m ∷ messages) s = omega (
      arith,
      log_all-newlines one (suc moment) messages (log moment m s),
      log-newlines one moment m s,
    )
