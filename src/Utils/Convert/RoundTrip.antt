-- ===== src/Utils/Convert/RoundTrip.antt =====
-- Bytes to gigabytes and back, in pkg/utils/convert.go.
use panfs_container_storage.Base.{ℕ, zero, suc, ◌+◌, ◌^◌, ◌<◌, ◌≡◌, refl, arith}
use panfs_container_storage.Base.Int.{ℤ, pos, negsuc, abs}
use panfs_container_storage.Utils.Convert.{
  round_half_even, excess, round_53, bytes_to_gb, gb_to_bytes,
}

pub excess_small : (fuel n : ℕ) → n < 2 ^ 53 → excess fuel n ≡ 0
unfolding excess
excess_small zero n h = refl
excess_small (suc fuel) n h = ground arith

pub round_53_small : (n : ℕ) → n < 2 ^ 53 → round_53 n ≡ n
unfolding round_half_even round_53
round_53_small n h = rw (excess_small 11 n h) (ground arith)

-- A size below 2^53 bytes is converted to gigabytes and back without loss.
pub gb_to_bytes-bytes_to_gb : (a : ℤ) → abs a < 2 ^ 53 → gb_to_bytes (bytes_to_gb a) ≡ a
unfolding gb_to_bytes bytes_to_gb
gb_to_bytes-bytes_to_gb (pos n) h = rw (round_53_small (n + 0)) (ground arith)
gb_to_bytes-bytes_to_gb (negsuc n) h = rw (round_53_small (0 + suc n)) (ground arith)
