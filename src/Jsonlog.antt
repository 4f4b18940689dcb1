-- ===== src/Jsonlog.antt =====
-- internal/jsonlog/logger.go: the logger of JSON lines, which no other package uses. The writer, the
-- clock, debug.Stack and json.Marshal are parameters. A Level is an int, and any int can be given.
pub mod Lines
use panfs_container_storage.Base.{
  ℕ, String, ◌<>◌, not, Option, none, some, List, [], ◌∷◌, ◌++◌, ◌⊎◌, inl, inr, if◌then◌else◌,
}
use panfs_container_storage.Base.Texts.{Text, codes}
use panfs_container_storage.Base.Int.{ℤ, pos, ltb_ℤ, eqb_ℤ}

abbrev pub Level : Type 0
Level = ℤ

abbrev pub level_debug : Level
level_debug = pos 0

abbrev pub level_info : Level
level_info = pos 1

abbrev pub level_error : Level
level_error = pos 2

abbrev pub level_fatal : Level
level_fatal = pos 3

abbrev pub level_off : Level
level_off = pos 4

-- Level.String
unfoldable pub level_string : Level → String
level_string l =
    if eqb_ℤ l level_debug
    then "DEBUG"
    else if eqb_ℤ l level_info
    then "INFO"
    else if eqb_ℤ l level_error
    then "ERROR"
    else if eqb_ℤ l level_fatal
    then "FATAL"
    else ""

-- The struct that print marshals; `LogField` is the type of the property maps, and a nil one is
-- `none`.
pub record Entry (LogField : Type 0) : Type 0 where
  pub level : String
  pub time : String
  pub message : Text
  pub properties : Option LogField
  pub trace : Text

-- time.Now, formatted, debug.Stack, and json.Marshal: the line, or the message of its error.
pub record Runtime (LogField : Type 0) : Type 0 where
  pub now : ℕ → String
  pub stack : Text
  pub marshal : Entry LogField → Text ⊎ Text

-- io.Writer
pub record Writer : Type 1 where
  pub State : Type 0
  pub write : Text → State → (ℤ × Option Text) × State

pub record Logger : Type 1 where
  pub out : Writer
  pub min_level : Level

-- A message that json.Marshal refuses is replaced by its error.
unfoldable pub line_of : Text ⊎ Text → Text
unfolding level_string
line_of (inl marshalled) = marshalled
line_of (inr e) = codes (level_string level_error <> ": unable to marshal log message: ") ++ e

module _ {LogField : Type 0} (runtime : Runtime LogField) where
  -- The line that print writes, without the newline. `moment` is when time.Now is called.
  unfoldable pub line : ℕ → Level → Text → Option LogField → Text
  unfolding level_string line_of
  line moment level message properties =
      let entry : Entry LogField = record {
        level = level_string level;
        time = runtime.now moment;
        message = message;
        properties = properties;
        trace = if not (ltb_ℤ level level_error) then runtime.stack else [];
      } in
      line_of (runtime.marshal entry)

  module _ (l : Logger) where
    unfoldable pub print :
        ℕ → Level → Text → Option LogField → l.out.State → (ℤ × Option Text) × l.out.State
    unfolding line
    print moment level message properties s =
        if ltb_ℤ level l.min_level
        then ((pos 0, none), s)
        else l.out.write (line moment level message properties ++ (10 ∷ [])) s

    -- PrintDebug, PrintInfo, PrintError, and Write with what it returns. The error of PrintError and
    -- PrintFatal is its message.
    unfoldable pub print_debug : ℕ → Text → Option LogField → l.out.State → l.out.State
    unfolding print
    print_debug moment message properties s = (print moment level_debug message properties s).1

    unfoldable pub print_info : ℕ → Text → Option LogField → l.out.State → l.out.State
    unfolding print
    print_info moment message properties s = (print moment level_info message properties s).1

    unfoldable pub print_error : ℕ → Text → Option LogField → l.out.State → l.out.State
    unfolding print
    print_error moment err properties s = (print moment level_error err properties s).1

    -- PrintFatal: the exit code of the process, and what it has written.
    unfoldable pub print_fatal : ℕ → Text → Option LogField → l.out.State → ℕ × l.out.State
    unfolding print
    print_fatal moment err properties s = (1, (print moment level_fatal err properties s).1)

    unfoldable pub write : ℕ → Text → l.out.State → (ℤ × Option Text) × l.out.State
    unfolding print
    write moment message s = print moment level_error message none s
