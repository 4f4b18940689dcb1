-- ===== src/Base/Int.antt =====
-- Go's int64, as an integer with its range. Sums and products that may leave the range are wrapped
-- where the code computes them.
use panfs_container_storage.Base.{
  ℕ, suc, ◌+◌, ◌-◌, ◌*◌, ◌%◌, ◌^◌, ◌≤◌, ◌<◌, ◌≡◌, Bool, arith, ltb, leb, if◌then◌else◌, ==_iff,
}
use panfs_container_storage.Base

-- `negsuc n` is -(n + 1).
pub data ℤ : Type 0 where
  pos : ℕ → ℤ
  negsuc : ℕ → ℤ

abbrev pub pos_part : ℤ → ℕ
pos_part (pos n) = n
pos_part (negsuc n) = 0

abbrev pub neg_part : ℤ → ℕ
neg_part (pos n) = 0
neg_part (negsuc n) = suc n

abbrev pub abs : ℤ → ℕ
abs a = pos_part a + neg_part a

abbrev pub ltb_ℤ : ℤ → ℤ → Bool
ltb_ℤ a b = ltb (pos_part a + neg_part b) (pos_part b + neg_part a)

abbrev pub eqb_ℤ : ℤ → ℤ → Bool
eqb_ℤ a b = Base.◌==◌ (pos_part a + neg_part b) (pos_part b + neg_part a)

abbrev pub ◌≤ℤ◌ : ℤ → ℤ → Type 0
a ≤ℤ b = pos_part a + neg_part b ≤ pos_part b + neg_part a

infix 50 ◌≤ℤ◌
-- The sign put back on an absolute value.
abbrev pub signed : Bool → ℕ → ℤ
signed negative n = if negative then (if Base.◌==◌ n 0 then pos 0 else negsuc (n - 1)) else pos n

abbrev pub is_negative : ℤ → Bool
is_negative (pos n) = Bool.false
is_negative (negsuc n) = Bool.true

-- The value of a 64-bit pattern in two's complement.
abbrev pub of_bits : ℕ → ℤ
of_bits n = if ltb n (2 ^ 63) then pos n else negsuc (2 ^ 64 - 1 - n)

eqb_ℤ_iff : (a b : ℤ) → eqb_ℤ a b ≡ Bool.true → a ≡ b
eqb_ℤ_iff a b h = ground arith
