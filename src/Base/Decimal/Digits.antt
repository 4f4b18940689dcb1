-- ===== src/Base/Decimal/Digits.antt =====
-- The digits of a printed number.
use mathlib.Core.Logic.{dite}
use mathlib.Core.WellFounded.{Acc}
use native.Mathlib.Decide.{dec_lt}
use panfs_container_storage.Base.{
  ℕ, ◌/◌, ◌%◌, ◌≤◌, ◌<◌, code, String, ◌≡◌, ◌≢◌, refl, [], ◌∷◌, arith, All, ◌==◌, Bool-cases, inl,
  inr,
}
use panfs_container_storage.Base.Texts.{Text, codes}
use panfs_container_storage.Base.Order.{lt_wf}
use panfs_container_storage.Base.Decimal.{tenth_lt, digit, emit, format_ℕ}
use panfs_container_storage.Base.Decimal.RoundTrip.{code-digit}

abbrev pub IsDigit : ℕ → Type 0
IsDigit c = (b'0' ≤ c) × (c ≤ b'9')

-- Digits that begin with another than 0.
abbrev pub IsNumber : Text → Type 0
IsNumber [] = ⊥
IsNumber (c ∷ s) = (c ≢ b'0') × All IsDigit (c ∷ s)

emit_zero : (n : ℕ) (w : Acc ◌<◌ n) (out : String) → ¬ (0 < n) → emit n w out ≡ out
unfolding emit
emit_zero n (Acc.intro _ smaller) out p =
    elim (dec_lt 0 n)
      as (λ d.
        dite d
          (λ h. emit (n / 10) (smaller (n / 10) (tenth_lt n h)) (String.◌∷◌ (digit (n % 10)) out))
          (λ _. out)
        ≡ out) [ yes h ↦ absurd (p h) | no h ↦ refl ]

digit-IsDigit : (n : ℕ) → IsDigit (code (digit (n % 10)))
digit-IsDigit n = omega (arith, code-digit (n % 10) (omega arith))

leading : (n : ℕ) → 0 < n → ¬ (0 < n / 10) → code (digit (n % 10)) ≢ 48
leading n h q = omega (arith, code-digit (n % 10) (omega arith))

emit-IsNumber :
    (n : ℕ) (w : Acc ◌<◌ n) (out : String)
    → 0 < n
    → All IsDigit (codes out)
    → IsNumber (codes (emit n w out))
unfolding emit
emit-IsNumber n (Acc.intro _ smaller) out p k =
    elim (dec_lt 0 n)
      as (λ d. IsNumber (
        codes (
          dite d
            (λ h. emit (n / 10) (smaller (n / 10) (tenth_lt n h)) (String.◌∷◌ (digit (n % 10)) out))
            (λ _. out)))) [
              | yes h ↦ elim (dec_lt 0 (n / 10)) [
                | yes q ↦
                    emit-IsNumber (n / 10) (smaller (n / 10) (tenth_lt n h))
                      (String.◌∷◌ (digit (n % 10)) out) q (digit-IsDigit n, k)
                | no q ↦
                    rw
                      (emit_zero (n / 10) (smaller (n / 10) (tenth_lt n h))
                        (String.◌∷◌ (digit (n % 10)) out) q)
                      (leading n h q, (digit-IsDigit n, k))
              ]
              | no h ↦ absurd (h p)
            ]

pub format_ℕ-IsNumber : (n : ℕ) → 0 < n → IsNumber (codes (format_ℕ n))
unfolding format_ℕ
format_ℕ-IsNumber n p = elim (Bool-cases (n == 0)) [
  | inl e ↦ absurd (ground arith)
  | inr e ↦ rw e (emit-IsNumber n (lt_wf.apply n) "" p tt)
]
