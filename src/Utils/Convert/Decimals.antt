-- ===== src/Utils/Convert/Decimals.antt =====
-- The gigabytes with two decimals in which a size in bytes goes to PanFS.
use panfs_container_storage.Base.{
  ℕ, ◌+◌, ◌*◌, ◌^◌, ◌/◌, ◌%◌, ◌<◌, ◌≤◌, ◌≡◌, refl, arith, ◌<>◌, false, ap, ◌∙◌,
}
use panfs_container_storage.Base.Int.{pos, is_negative}
use panfs_container_storage.Base.Decimal.{format_ℕ}
use panfs_container_storage.Utils.Convert.{
  round_half_even, of_int64, bytes_to_gb, hundredths, format_2, pad2,
}
use panfs_container_storage.Utils.Convert.RoundTrip.{round_53_small}

nearest :
    (a : ℕ)
    → (2 * (round_half_even a (2 ^ 30) * 2 ^ 30) ≤ 2 * a + 2 ^ 30)
      × (2 * a ≤ 2 * (round_half_even a (2 ^ 30) * 2 ^ 30) + 2 ^ 30)
unfolding round_half_even
nearest a = ground arith

hundredths-eq :
    (n : ℕ) → n < 2 ^ 53 → hundredths (bytes_to_gb (pos n)) ≡ round_half_even (n * 100) (2 ^ 30)
unfolding hundredths bytes_to_gb of_int64
hundredths-eq n h =
    rw (round_53_small (n + 0) (omega arith))
      (let same : n + 0 + 0 ≡ n = omega arith in ap (λ x. round_half_even (x * 100) (2 ^ 30)) same)

-- The size that is written for n bytes below 2^53, h hundredths of a gigabyte, is within half a
-- hundredth of a gigabyte of the size that was asked for.
pub hundredths-near :
    (n : ℕ)
    → n < 2 ^ 53
    → (2 * (hundredths (bytes_to_gb (pos n)) * 2 ^ 30) ≤ 2 * (n * 100) + 2 ^ 30)
      × (2 * (n * 100) ≤ 2 * (hundredths (bytes_to_gb (pos n)) * 2 ^ 30) + 2 ^ 30)
hundredths-near n h = rw (hundredths-eq n h) (nearest (n * 100))

exact : (k : ℕ) → round_half_even (k * 2 ^ 30 * 100) (2 ^ 30) ≡ k * 100
unfolding round_half_even
exact k = ground arith

not_negative : (n : ℕ) → is_negative (bytes_to_gb (pos n)).num ≡ false
unfolding bytes_to_gb of_int64
not_negative n = refl

zeros : "." <> pad2 0 ≡ ".00"
unfolding format_ℕ
zeros = refl

-- A whole number of gigabytes is written exactly, with two zeros.
format_2-whole :
    (k : ℕ) → k < 2 ^ 23 → format_2 (bytes_to_gb (pos (k * 2 ^ 30))) ≡ format_ℕ k <> ".00"
unfolding format_2
format_2-whole k h =
    let written : hundredths (bytes_to_gb (pos (k * 2 ^ 30))) ≡ k * 100 =
      hundredths-eq (k * 2 ^ 30) (omega arith) ∙ exact k in
    let whole : k * 100 / 100 ≡ k = omega arith in
    let rest : k * 100 % 100 ≡ 0 = omega arith in
    rw (written, not_negative (k * 2 ^ 30), whole, rest) (ap (λ x. format_ℕ k <> x) zeros)
