-- ===== src/Driver/Validators/StripeUnit.antt =====
-- validateStripeUnit of pkg/driver/validators.go.
pub mod Overflow
use panfs_container_storage.Base.{
  ℕ, ◌+◌, ◌*◌, ◌%◌, ◌^◌, String, Bool, true, false, not, ◌&&◌, ◌||◌, none, some, [], ◌∷◌, ltb, leb,
  ◌==◌, if◌then◌else◌,
}
use panfs_container_storage.Base.Texts.{Text, codes}
use panfs_container_storage.Base.Int.{ℤ, pos, negsuc, of_bits, ltb_ℤ, pos_part}
use panfs_container_storage.Base.Decimal.{parse_text}

abbrev pub is_digit : ℕ → Bool
is_digit c = leb b'0' c && leb c b'9'

-- The longest front of digits, and the rest.
unfoldable pub span_digits : Text → Text × Text
span_digits [] = ([], [])
span_digits (c ∷ s) =
    let rest = span_digits s in if is_digit c then (c ∷ rest.0, rest.1) else ([], c ∷ s)

abbrev pub is_unit : ℕ → Bool
is_unit c = c == b'K' || c == b'k' || c == b'M' || c == b'm'

abbrev starts_nonzero : Text → Bool
starts_nonzero [] = false
starts_nonzero (c ∷ s) = not (c == b'0')

-- num *= 1024, in int64. The number that Atoi returned is not negative.
abbrev pub in_kilobytes : ℤ → ℕ → ℤ
in_kilobytes num unit =
    if unit == b'M' || unit == b'm' then of_bits ((pos_part num * 1024) % 2 ^ 64) else num

-- The two tests on the number of kilobytes.
unfoldable pub is_stripe_size : ℤ → Bool
is_stripe_size num =
    if ltb_ℤ num (pos 1) || ltb_ℤ (pos 4096) num then false else pos_part num % 16 == 0

-- The expression ^([1-9][0-9]*)[KkMm]$ splits the text into digits and one more character.
unfoldable pub check_parts : Text → Text → Bool
unfolding is_stripe_size
check_parts num_str (unit ∷ []) =
    if starts_nonzero num_str && is_unit unit
    then elim (parse_text num_str) [
      | none ↦ false
      | some num ↦ is_stripe_size (in_kilobytes num unit)
    ]
    else false
check_parts num_str _ = false

unfoldable pub validate_stripe_unit : String → Bool
unfolding span_digits check_parts
validate_stripe_unit input = let parts = span_digits (codes input) in check_parts parts.0 parts.1
