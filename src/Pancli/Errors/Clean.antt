-- ===== src/Pancli/Errors/Clean.antt =====
-- The cleaning of an error message in parseErrorString of pkg/pancli/errors.go.
use panfs_container_storage.Base.{
  ℕ, ◌-◌, Bool, true, false, ◌||◌, ◌&&◌, Option, none, some, [], ◌∷◌, map, leb, ◌==◌, if◌then◌else◌,
  is_empty,
}
use panfs_container_storage.Base.Texts.{Text, codes}

-- unicode.IsSpace
abbrev pub is_space : ℕ → Bool
is_space c =
    (leb 0x9 c && leb c 0xd)
    || c == 0x20
    || c == 0x85
    || c == 0xa0
    || c == 0x1680
    || (leb 0x2000 c && leb c 0x200a)
    || c == 0x2028
    || c == 0x2029
    || c == 0x202f
    || c == 0x205f
    || c == 0x3000

-- The class \s of a regular expression.
abbrev is_ascii_space : ℕ → Bool
is_ascii_space c = c == 0x9 || c == 0xa || c == 0xc || c == 0xd || c == 0x20

-- strings.Join(strings.Fields(s), " "): `pending` says that a space is due before the next field.
unfoldable pub collapse : Bool → Bool → Text → Text
collapse begun pending [] = []
collapse begun pending (c ∷ s) =
    let skip = collapse begun begun s in
    let keep = collapse true false s in
    if is_space c then skip else if pending then 0x20 ∷ (c ∷ keep) else c ∷ keep

abbrev unbreak : ℕ → ℕ
unbreak c = if c == 0xa0 then 0x20 else c

unfoldable pub skip_while : (ℕ → Bool) → Text → Text
skip_while p [] = []
skip_while p (c ∷ s) = let rest = skip_while p s in if p c then rest else c ∷ s

-- The rest of a text behind a prefix.
unfoldable pub strip_text? : Text → Text → Option Text
strip_text? s [] = some s
strip_text? [] (d ∷ t) = none
strip_text? (c ∷ s) (d ∷ t) = if c == d then strip_text? s t else none

abbrev optional_dot : Text → Text
optional_dot [] = []
optional_dot (c ∷ s) = if c == b'.' then s else c ∷ s

-- Does the whole text match \s*Use the command "[^"]*" to get more help\.?\s*$ ?
is_help_line : Text → Bool
is_help_line s = elim (strip_text? (skip_while is_ascii_space s) (codes "Use the command \"")) [
  | none ↦ false
  | some quoted ↦
      elim (strip_text? (skip_while (λ c. if c == 0x22 then false else true) quoted)
        (codes "\" to get more help")) [
          | none ↦ false
          | some rest ↦ is_empty (skip_while is_ascii_space (optional_dot rest))
        ]
]

-- Does the whole text match ,\s*-f\.$ ?
is_trailing_f : Text → Bool
is_trailing_f s = elim (strip_text? s (codes ",")) [
  | none ↦ false
  | some rest ↦ elim (strip_text? (skip_while is_ascii_space rest) (codes "-f.")) [
    | none ↦ false
    | some end ↦ is_empty end
  ]
]

-- The text without its longest tail that matches; the expressions match only at the end.
unfoldable pub cut_tail : (Text → Bool) → Text → Text
cut_tail matches [] = []
cut_tail matches (c ∷ s) = let rest = cut_tail matches s in if matches (c ∷ s) then [] else c ∷ rest

-- strings.TrimSpace
unfoldable pub trim_right : Text → Text
trim_right [] = []
trim_right (c ∷ s) = let rest = trim_right s in if is_space c && is_empty rest then [] else c ∷ rest

abbrev trim_space : Text → Text
trim_space s = trim_right (skip_while is_space s)

-- The first letter in upper case. PanFS answers in English: a first letter outside ASCII stays.
unfoldable pub capitalize : Text → Text
capitalize [] = []
capitalize (c ∷ s) = (if leb b'a' c && leb c b'z' then c - 32 else c) ∷ s

unfoldable pub clean : Text → Text
unfolding collapse skip_while strip_text? is_help_line is_trailing_f cut_tail trim_right capitalize
clean output = capitalize (
    trim_space
      (cut_tail is_trailing_f (cut_tail is_help_line (collapse false false (map unbreak output)))))
