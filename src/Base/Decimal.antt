-- ===== src/Base/Decimal.antt =====
-- strconv.ParseInt and strconv.Atoi in base 10 and 64 bits, and the verb %d of package fmt.
pub mod RoundTrip
pub mod Digits
use Prim.Native.String
use mathlib.Core.Logic.{dite}
use mathlib.Core.WellFounded.{Acc}
use native.Mathlib.Decide.{dec_lt}
use panfs_container_storage.Base.{
  ℕ, zero, suc, ◌+◌, ◌-◌, ◌*◌, ◌/◌, ◌%◌, ◌^◌, ◌<◌, Char, String, ◌<>◌, Bool, ◌||◌, Option, none,
  some, [], ◌∷◌, arith, ltb, leb, ◌==◌, if◌then◌else◌,
}
use panfs_container_storage.Base.Texts.{Text, codes}
use panfs_container_storage.Base.Int.{ℤ, pos, negsuc, signed}
use panfs_container_storage.Base.Order.{lt_wf}

-- The digits, with `n` for the value of those in front. Go refuses a value that leaves the range
-- while it scans; here the whole value is compared with the range at the end.
unfoldable pub scan : Text → ℕ → Option ℕ
scan [] n = some n
scan (c ∷ s) n = if ltb c b'0' || ltb b'9' c then none else scan s (n * 10 + (c - b'0'))

unfoldable pub parse_digits : Text → Option ℕ
unfolding scan
parse_digits [] = none
parse_digits (c ∷ s) = scan (c ∷ s) 0

-- The range of int64: below 2^63, and down to -2^63.
unfoldable pub in_range : Bool → Option ℕ → Option ℤ
in_range negative none = none
in_range negative (some n) =
    if ltb (if negative then 2 ^ 63 else 2 ^ 63 - 1) n then none else some (signed negative n)

-- strconv.ParseInt(s, 10, 64); `none` stands for the errors ErrSyntax and ErrRange.
unfoldable pub parse_text : Text → Option ℤ
unfolding parse_digits in_range
parse_text [] = none
parse_text (c ∷ s) =
    if c == b'-'
    then in_range Bool.true (parse_digits s)
    else in_range Bool.false (parse_digits (if c == b'+' then s else c ∷ s))

unfoldable pub parse_int : String → Option ℤ
unfolding parse_text
parse_int s = parse_text (codes s)

unfoldable pub digit : ℕ → Char
digit zero = Prim.Native.Char.char b'0' tt
digit (suc zero) = Prim.Native.Char.char b'1' tt
digit (suc (suc zero)) = Prim.Native.Char.char b'2' tt
digit (suc (suc (suc zero))) = Prim.Native.Char.char b'3' tt
digit (suc (suc (suc (suc zero)))) = Prim.Native.Char.char b'4' tt
digit (suc (suc (suc (suc (suc zero))))) = Prim.Native.Char.char b'5' tt
digit (suc (suc (suc (suc (suc (suc zero)))))) = Prim.Native.Char.char b'6' tt
digit (suc (suc (suc (suc (suc (suc (suc zero))))))) = Prim.Native.Char.char b'7' tt
digit (suc (suc (suc (suc (suc (suc (suc (suc zero)))))))) = Prim.Native.Char.char b'8' tt
digit (suc (suc (suc (suc (suc (suc (suc (suc (suc n))))))))) = Prim.Native.Char.char b'9' tt

pub tenth_lt : (n : ℕ) → 0 < n → n / 10 < n
tenth_lt n h = omega arith

-- The digits of a number in front of a string, none for 0.
unfoldable pub emit : (n : ℕ) → Acc ◌<◌ n → String → String
unfolding digit dec_lt
emit n (Acc.intro _ smaller) out =
    dite (dec_lt 0 n)
      (λ h. emit (n / 10) (smaller (n / 10) (tenth_lt n h)) (String.◌∷◌ (digit (n % 10)) out))
      (λ _. out)

unfoldable pub format_ℕ : ℕ → String
unfolding emit lt_wf
format_ℕ n = if n == 0 then "0" else emit n (lt_wf.apply n) ""

-- fmt.Sprintf("%d", a)
unfoldable pub format_int : ℤ → String
unfolding format_ℕ
format_int (pos n) = format_ℕ n
format_int (negsuc n) = "-" <> format_ℕ (suc n)
