-- ===== src/Driver/Validators/StripeUnit/Overflow.antt =====
-- Which stripe units validateStripeUnit lets pass, in kilobytes and in megabytes.
use text.Mathlib.TextLemmas.{nil-append, cons-append}
use panfs_container_storage.Base.{
  ℕ, ◌*◌, ◌%◌, ◌^◌, ◌≤◌, ◌<◌, code, String, ◌<>◌, ◌≡◌, refl, ◌↔◌, true, some, [], ◌∷◌, ◌++◌, arith,
  All, ap,
}
use panfs_container_storage.Base.Texts.{Text, codes}
use panfs_container_storage.Base.Int.{pos, of_bits}
use panfs_container_storage.Base.Decimal.{parse_text, format_ℕ}
use panfs_container_storage.Base.Decimal.RoundTrip.{parse_text-format_ℕ}
use panfs_container_storage.Base.Decimal.Digits.{IsDigit, IsNumber, format_ℕ-IsNumber}
use panfs_container_storage.Driver.Validators.StripeUnit.{
  span_digits, is_unit, in_kilobytes, is_stripe_size, check_parts, validate_stripe_unit,
}

codes-append : (s t : String) → codes (s <> t) ≡ codes s ++ codes t
codes-append String.[] t = rw nil-append
codes-append (String.◌∷◌ c s) t = rw cons-append (ap (λ r. code c ∷ r) (codes-append s t))

span_digits-append :
    (s : Text) (unit : ℕ)
    → All IsDigit s
    → is_unit unit ≡ true
    → span_digits (s ++ unit ∷ []) ≡ (s, unit ∷ [])
unfolding span_digits
span_digits-append [] unit h u = ground arith
span_digits-append (c ∷ s) unit ((low, high), h) u = ground (arith, span_digits-append s unit h u)

-- A number behind which stands one unit is checked by its size in kilobytes.
check_parts_number :
    (s : Text) (unit n : ℕ)
    → IsNumber s
    → is_unit unit ≡ true
    → parse_text s ≡ some (pos n)
    → check_parts s (unit ∷ []) ≡ is_stripe_size (in_kilobytes (pos n) unit)
unfolding check_parts
check_parts_number [] unit n h u e = elim h [ ]
check_parts_number (c ∷ s) unit n (nonzero, _) u e = rw e (ground arith)

number-digits : (s : Text) → IsNumber s → All IsDigit s
number-digits [] h = elim h [ ]
number-digits (c ∷ s) (nonzero, h) = h

validate_number :
    (n unit : ℕ) (suffix : String)
    → 0 < n
    → n < 2 ^ 63
    → codes suffix ≡ unit ∷ []
    → is_unit unit ≡ true
    → validate_stripe_unit (format_ℕ n <> suffix) ≡ is_stripe_size (in_kilobytes (pos n) unit)
unfolding validate_stripe_unit
validate_number n unit suffix p fits e u =
    let number = format_ℕ-IsNumber n p in
    rw
      (
        codes-append (format_ℕ n) suffix,
        e,
        span_digits-append (codes (format_ℕ n)) unit (number-digits _ number) u,
      )
      (check_parts_number (codes (format_ℕ n)) unit n number u (parse_text-format_ℕ n fits))

-- A size in kilobytes, printed with K, passes exactly if it is at most 4096 and a multiple of 16.
kilobytes_iff :
    (n : ℕ)
    → 0 < n
    → n < 2 ^ 63
    → (validate_stripe_unit (format_ℕ n <> "K") ≡ true) ↔ ((n ≤ 4096) × (n % 16 ≡ 0))
unfolding is_stripe_size
kilobytes_iff n p fits = rw (validate_number n b'K' "K" p fits refl refl) (ground arith)

wrapped_megabytes :
    (n : ℕ)
    → (is_stripe_size (of_bits ((n * 1024) % 2 ^ 64)) ≡ true)
      ↔ ((0 < n % 2 ^ 54) × (n % 2 ^ 54 ≤ 4))
unfolding is_stripe_size
wrapped_megabytes n =
    let e : (n * 1024) % 2 ^ 64 ≡ n % 2 ^ 54 * 1024 = omega arith in rw e (ground arith)

-- A size in megabytes, printed with M, passes exactly if its remainder by 2^54 is from 1 to 4: the
-- product with 1024 wraps around in int64. So beside 1M to 4M, sizes from 2^54 megabytes on pass.
pub megabytes_iff :
    (n : ℕ)
    → 0 < n
    → n < 2 ^ 63
    → (validate_stripe_unit (format_ℕ n <> "M") ≡ true) ↔ ((0 < n % 2 ^ 54) × (n % 2 ^ 54 ≤ 4))
megabytes_iff n p fits = rw (validate_number n b'M' "M" p fits refl refl) (wrapped_megabytes n)
