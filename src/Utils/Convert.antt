-- ===== src/Utils/Convert.antt =====
-- pkg/utils/convert.go: quotas in bytes (int64) and in gigabytes (float64).
-- A float64 of the program is a whole number over a power of two; the one rounding that occurs,
-- int64 to float64, is to 53 significant bits, ties to even. Infinities, NaN and the sizes at which
-- a product of 2^30 overflows do not arise from an int64 or from a quota of a realm.
pub mod RoundTrip
pub mod Decimals
pub mod Range
use panfs_container_storage.Base.{
  ℕ, zero, suc, ◌+◌, ◌-◌, ◌*◌, ◌/◌, ◌%◌, ◌^◌, ◌<◌, String, ◌<>◌, Bool, Option, none, some, arith,
  ltb, leb, ◌==◌, if◌then◌else◌, ◌&&◌,
}
use panfs_container_storage.Base.Int.{ℤ, pos, negsuc, abs, signed, is_negative}
use panfs_container_storage.Base.Decimal.{parse_int, format_ℕ}

-- num / 2^scale
pub record Float64 : Type 0 where
  pub num : ℤ
  pub scale : ℕ

-- a / b to the nearest whole number, ties to even.
unfoldable pub round_half_even : ℕ → ℕ → ℕ
round_half_even a b =
    let q = a / b in
    let r = a % b in if ltb (2 * r) b then q else if ltb b (2 * r) then q + 1 else q + q % 2

-- How many bits a number has beyond the 53 of a float64's significand, counting at most `fuel`.
unfoldable pub excess : ℕ → ℕ → ℕ
excess zero n = 0
excess (suc fuel) n = let rest = excess fuel (n / 2) in if ltb n (2 ^ 53) then 0 else suc rest

-- An absolute value of int64, at most 2^63, has at most 11 bits too many.
unfoldable pub round_53 : ℕ → ℕ
unfolding excess round_half_even
round_53 n = let unit = 2 ^ excess 11 n in round_half_even n unit * unit

-- float64(a), of an int64
unfoldable pub of_int64 : ℤ → Float64
unfolding round_53
of_int64 a = record { num = signed (is_negative a) (round_53 (abs a)); scale = 0 }

-- int64(f): cut towards zero; amd64 answers -2^63 for what does not fit, and Go leaves it open.
unfoldable pub to_int64 : Float64 → ℤ
to_int64 f =
    let n = abs f.num / 2 ^ f.scale in
    if ltb n (2 ^ 63) then signed (is_negative f.num) n else negsuc (2 ^ 63 - 1)

-- BytesToGB: the division by 2^30 is exact.
unfoldable pub bytes_to_gb : ℤ → Float64
unfolding of_int64
bytes_to_gb bytes = let f = of_int64 bytes in record { num = f.num; scale = f.scale + 30 }

-- GBToBytes: the product with 2^30 is exact.
unfoldable pub gb_to_bytes : Float64 → ℤ
unfolding to_int64
gb_to_bytes f = to_int64 (record {
  num = signed (is_negative f.num) (abs f.num * 2 ^ (30 - f.scale));
  scale = f.scale - 30;
})

-- BytesStringToGB
unfoldable pub bytes_string_to_gb : String → Float64
unfolding bytes_to_gb
bytes_string_to_gb s = elim (parse_int s) [
  | some size ↦ bytes_to_gb size
  | none ↦ record { num = pos 0; scale = 0 }
]

abbrev pub pad2 : ℕ → String
pad2 n = if ltb n 10 then "0" <> format_ℕ n else format_ℕ n

-- How many hundredths the verb %.2f prints.
unfoldable pub hundredths : Float64 → ℕ
unfolding round_half_even
hundredths f = round_half_even (abs f.num * 100) (2 ^ f.scale)

-- fmt.Sprintf("%.2f", f) and strconv.FormatFloat(f, 'f', 2, 64)
unfoldable pub format_2 : Float64 → String
unfolding hundredths
format_2 f =
    let h = hundredths f in
    let digits = format_ℕ (h / 100) <> "." <> pad2 (h % 100) in
    if is_negative f.num then "-" <> digits else digits
