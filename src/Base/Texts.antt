-- ===== src/Base/Texts.antt =====
-- Go strings. A `String` is compared whole; the functions of package strings that the driver
-- calls (Contains, TrimPrefix, ToLower, Join) and slices.Contains are written here. A `Text` is a
-- list of code points, for error messages, which the code cuts and cleans.
pub mod Search
use Prim.Native.String
use mathlib.Core.Option.{get_or}
use text.Mathlib.TextLemmas.{nil-append, cons-append}
use panfs_container_storage.Base.{
  ℕ, ◌+◌, Char, code, String, ◌<>◌, ◌≡◌, refl, ap, Bool, true, false, ◌||◌, ◌&&◌, Option, none,
  some, List, [], ◌∷◌, map, arith, leb, ◌==◌, ==_iff, str_eq, if◌then◌else◌, ◌↔◌, eq_iff, inl, inr,
  ◌⊎◌,
}

abbrev pub Text : Type 0
Text = List ℕ

-- The code points of a string.
abbrev pub codes : String → Text
codes String.[] = []
codes (String.◌∷◌ c s) = code c ∷ codes s

-- Does the text begin with the other one?
unfoldable pub begins : Text → Text → Bool
begins s [] = true
begins [] (d ∷ t) = false
begins (c ∷ s) (d ∷ t) = c == d && begins s t

-- strings.Contains
unfoldable pub contains : Text → Text → Bool
unfolding begins
contains [] t = begins [] t
contains (c ∷ s) t = begins (c ∷ s) t || contains s t

-- strings.ToLower of one character, as far as a search for ASCII letters can tell: outside ASCII
-- only U+0130 and U+212A (the Kelvin sign) have an ASCII letter for their lower case.
unfoldable pub lower : ℕ → ℕ
lower c =
    if leb b'A' c && leb c b'Z'
    then c + 32
    else if c == 0x130
    then b'i'
    else if c == 0x212a
    then b'k'
    else c

unfoldable pub to_lower : Text → Text
unfolding lower
to_lower = map lower

-- The rest of the string behind a prefix.
unfoldable pub strip_prefix? : String → String → Option String
strip_prefix? s String.[] = some s
strip_prefix? String.[] (String.◌∷◌ d p) = none
strip_prefix? (String.◌∷◌ c s) (String.◌∷◌ d p) =
    if code c == code d then strip_prefix? s p else none

-- strings.TrimPrefix
unfoldable pub trim_prefix : String → String → String
unfolding strip_prefix?
trim_prefix s p = get_or (strip_prefix? s p) s

-- strings.Join
unfoldable pub join : List String → String → String
join [] sep = ""
join (s ∷ []) sep = s
join (s ∷ (t ∷ more)) sep = s <> sep <> join (t ∷ more) sep

-- slices.Contains, on strings.
unfoldable pub contains_string : List String → String → Bool
contains_string [] v = false
contains_string (s ∷ more) v = str_eq s v || contains_string more v

pub str_eq-cases :
    (s t : String) → ((str_eq s t ≡ true) × (s ≡ t)) ⊎ ((str_eq s t ≡ false) × (s ≡ t → ⊥))
str_eq-cases s t = ground (arith, eq_iff s t)

pub strip_prefix?-append : (p s : String) → strip_prefix? (p <> s) p ≡ some s
unfolding strip_prefix?
strip_prefix?-append String.[] s = rw nil-append
strip_prefix?-append (String.◌∷◌ c p) s =
    rw cons-append (ground (arith, strip_prefix?-append p s, ==_iff (code c) (code c)))

pub trim_prefix-append : (p s : String) → trim_prefix (p <> s) p ≡ s
unfolding trim_prefix
trim_prefix-append p s = rw strip_prefix?-append
