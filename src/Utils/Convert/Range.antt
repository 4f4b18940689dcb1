-- ===== src/Utils/Convert/Range.antt =====
-- Bytes to gigabytes and back in pkg/utils/convert.go, over the whole range of an int64.
use native.Mathlib.Nat.{pow-le-pow_right, two-pow-succ, div-add-mod', suc-mul, mod-lt}
use panfs_container_storage.Base.{
  ℕ, zero, suc, ◌+◌, ◌-◌, ◌*◌, ◌/◌, ◌%◌, ◌^◌, ◌≤◌, ◌<◌, ◌≡◌, refl, arith, inl, inr, ◌⊎◌, ltb,
  ltb→lt, Bool, Bool-cases, true, false,
}
use panfs_container_storage.Base.Int.{ℤ, pos, negsuc, abs, signed, is_negative}
use panfs_container_storage.Utils.Convert.RoundTrip.{excess_small}
use panfs_container_storage.Utils.Convert.{
  round_half_even, excess, round_53, bytes_to_gb, gb_to_bytes,
}

halve : (n m : ℕ) → n < 2 ^ 53 * 2 ^ suc m → n / 2 < 2 ^ 53 * 2 ^ m
halve n m h = omega (arith, two-pow-succ m)

double : (n m : ℕ) → n / 2 < 2 ^ 53 * 2 ^ m → n < 2 ^ 53 * 2 ^ suc m
double n m h = omega (arith, two-pow-succ m)

-- A number below 2^53 times 2^k has at most k bits too many.
excess-le : (fuel k n : ℕ) → k ≤ fuel → n < 2 ^ 53 * 2 ^ k → excess fuel n ≤ k
unfolding excess
excess-le fuel zero n f h = rw (excess_small fuel n h) (omega arith)
excess-le zero (suc k) n f h = omega arith
excess-le (suc fuel) (suc k) n f h =
    let rest = excess-le fuel k (n / 2) (omega arith) (halve n k h) in ground (arith, rest)

-- The fuel of `excess` is enough: without its excess of bits the number fits into 53.
excess-fits : (fuel n : ℕ) → n < 2 ^ 53 * 2 ^ fuel → n < 2 ^ 53 * 2 ^ excess fuel n
unfolding excess
excess-fits zero n h = h
excess-fits (suc fuel) n h = elim (Bool-cases (ltb n (2 ^ 53))) [
  | inl t ↦ rw t (ltb→lt n (2 ^ 53) t)
  | inr f ↦ rw f (double n (excess fuel (n / 2)) (excess-fits fuel (n / 2) (halve n fuel h)))
]

doubled : (n e : ℕ) → 2 ^ 53 ≤ n → (e ≡ 0) ⊎ (2 ^ 52 * 2 ^ e ≤ n / 2) → 2 ^ 52 * 2 ^ suc e ≤ n
doubled n e h (inl z) = rw z h
doubled n e h (inr le) = omega (arith, two-pow-succ e)

excess-needed : (fuel n : ℕ) → (excess fuel n ≡ 0) ⊎ (2 ^ 52 * 2 ^ excess fuel n ≤ n)
unfolding excess
excess-needed zero n = inl refl
excess-needed (suc fuel) n = elim (Bool-cases (ltb n (2 ^ 53))) [
  | inl t ↦ inl (rw t refl)
  | inr f ↦ inr (rw f (doubled n (excess fuel (n / 2)) (ground arith) (excess-needed fuel (n / 2))))
]

-- The fuel 11 is enough for the absolute value of any int64: the count it gives is exactly how many
-- bits the value has beyond 53, so the significand that is rounded has 53 bits.
excess-exact :
    (n : ℕ)
    → n ≤ 2 ^ 63
    → (n < 2 ^ 53 * 2 ^ excess 11 n) × ((excess 11 n ≡ 0) ⊎ (2 ^ 52 * 2 ^ excess 11 n ≤ n))
excess-exact n h = (excess-fits 11 n (omega arith), excess-needed 11 n)

parity : (q : ℕ) → (q % 2 ≡ 0) ⊎ (q % 2 ≡ 1)
parity q = omega arith

half_even-cases :
    (a b : ℕ)
    → ((round_half_even a b ≡ a / b) × (2 * (a % b) ≤ b))
      ⊎ ((round_half_even a b ≡ a / b + 1) × (b ≤ 2 * (a % b)))
unfolding round_half_even
half_even-cases a b = elim (Bool-cases (ltb (2 * (a % b)) b)) [
  | inl t ↦ inl (rw t refl, omega (arith, ltb→lt (2 * (a % b)) b t))
  | inr f ↦
      let low : b ≤ 2 * (a % b) = ground arith in
      elim (Bool-cases (ltb b (2 * (a % b)))) [
        | inl t ↦ inr (rw (f, t) refl, low)
        | inr g ↦
            let high : 2 * (a % b) ≤ b = ground arith in
            elim (parity (a / b)) [
              | inl even ↦ inl (rw (f, g) (omega (arith, even)), high)
              | inr odd ↦ inr (rw (f, g) (omega (arith, odd)), low)
            ]
      ]
]

half_even-near :
    (a b : ℕ)
    → 0 < b
    → (2 * (round_half_even a b * b) ≤ 2 * a + b) × (2 * a ≤ 2 * (round_half_even a b * b) + b)
half_even-near a b h = elim (half_even-cases a b) [
  | inl (e, r) ↦ rw e (omega (arith, div-add-mod' a b), omega (arith, div-add-mod' a b))
  | inr (e, r) ↦ rw e (
    omega (arith, div-add-mod' a b, suc-mul (a / b) b, mod-lt a h),
    omega (arith, div-add-mod' a b, suc-mul (a / b) b, mod-lt a h),
  )
]

-- float64(a) of an int64 is within 512 of it.
round_53-near : (n : ℕ) → n < 2 ^ 63 → (round_53 n ≤ n + 512) × (n ≤ round_53 n + 512)
unfolding round_53
round_53-near n h =
    let most = excess-le 11 10 n (omega arith) (omega arith) in
    let unit = pow-le-pow_right {n = 2} (omega arith) most in
    let positive = pow-le-pow_right {n = 2} (omega arith) {i = 0} {j = excess 11 n} (omega arith) in
    let near = half_even-near n (2 ^ excess 11 n) (omega (arith, positive)) in
    (omega (arith, near.0, unit), omega (arith, near.1, unit))

-- A whole number of bytes in an int64's range, as gigabytes, comes back exactly.
back :
    (negative : Bool) (m : ℕ)
    → m < 2 ^ 63
    → gb_to_bytes (record { num = signed negative m; scale = 0 + 30 }) ≡ signed negative m
unfolding gb_to_bytes
back true m h = ground arith
back false m h = ground arith

-- A size of an absolute value below 2^63 - 512 bytes comes back from its conversion to GB, where a
-- float64 keeps 53 bits of it, within 512 bytes and with its sign.
pub gb_to_bytes-near :
    (a : ℤ)
    → abs a < 2 ^ 63 - 512
    → (m : ℕ) × (gb_to_bytes (bytes_to_gb a) ≡ signed (is_negative a) m)
      × (m ≤ abs a + 512)
      × (abs a ≤ m + 512)
unfolding gb_to_bytes bytes_to_gb
gb_to_bytes-near (pos n) h =
    let (a, b) = round_53-near (n + 0) (omega arith) in
    (round_53 (n + 0), back false (round_53 (n + 0)) (omega (arith, a)), a, b)
gb_to_bytes-near (negsuc n) h =
    let (a, b) = round_53-near (0 + suc n) (omega arith) in
    (round_53 (0 + suc n), back true (round_53 (0 + suc n)) (omega (arith, a)), a, b)
