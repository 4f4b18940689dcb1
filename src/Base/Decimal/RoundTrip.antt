-- ===== src/Base/Decimal/RoundTrip.antt =====
-- Printing with %d, and reading with ParseInt.
use mathlib.Core.Logic.{dite}
use mathlib.Core.WellFounded.{Acc}
use text.Mathlib.TextLemmas.{nil-append, cons-append}
use native.Mathlib.Decide.{dec_lt}
use panfs_container_storage.Base.{
  ℕ, zero, suc, ◌+◌, ◌-◌, ◌*◌, ◌/◌, ◌%◌, ◌^◌, ◌≤◌, ◌<◌, code, String, ◌<>◌, ◌≡◌, refl, ◌∙◌, true,
  false, some, [], ◌∷◌, arith, ◌==◌, Bool-cases, inl, inr,
}
use panfs_container_storage.Base.Texts.{Text, codes}
use panfs_container_storage.Base.Int.{ℤ, pos, negsuc}
use panfs_container_storage.Base.Order.{lt_wf}
use panfs_container_storage.Base.Decimal.{
  tenth_lt, scan, parse_digits, in_range, parse_text, parse_int, digit, emit, format_ℕ, format_int,
}

-- Texts whose first character is a digit.
abbrev StartsWithDigit : Text → Type 0
StartsWithDigit [] = ⊥
StartsWithDigit (c ∷ s) = (b'0' ≤ c) × (c ≤ b'9')

pub code-digit : (d : ℕ) → d < 10 → code (digit d) ≡ 48 + d
unfolding digit
code-digit zero h = refl
code-digit (suc zero) h = refl
code-digit (suc (suc zero)) h = refl
code-digit (suc (suc (suc zero))) h = refl
code-digit (suc (suc (suc (suc zero)))) h = refl
code-digit (suc (suc (suc (suc (suc zero))))) h = refl
code-digit (suc (suc (suc (suc (suc (suc zero)))))) h = refl
code-digit (suc (suc (suc (suc (suc (suc (suc zero))))))) h = refl
code-digit (suc (suc (suc (suc (suc (suc (suc (suc zero)))))))) h = refl
code-digit (suc (suc (suc (suc (suc (suc (suc (suc (suc n))))))))) h = omega arith

scan-digit :
    (n : ℕ) (out : String)
    → scan (codes (String.◌∷◌ (digit (n % 10)) out)) (n / 10) ≡ scan (codes out) n
unfolding scan
scan-digit n out =
    let e : code (digit (n % 10)) ≡ 48 + n % 10 = code-digit (n % 10) (omega arith) in
    let whole : n / 10 * 10 + (code (digit (n % 10)) - 48) ≡ n = omega arith in
    ground (arith, e, whole)

scan-emit :
    (n : ℕ) (w : Acc ◌<◌ n) (out : String) → scan (codes (emit n w out)) 0 ≡ scan (codes out) n
unfolding emit
scan-emit n (Acc.intro _ smaller) out =
    elim (dec_lt 0 n)
      as (λ d.
        scan
          (codes (
            dite d
              (λ h.
                emit (n / 10) (smaller (n / 10) (tenth_lt n h)) (String.◌∷◌ (digit (n % 10)) out))
              (λ _. out)))
          0
        ≡ scan (codes out) n) [
          | yes h ↦
              scan-emit (n / 10) (smaller (n / 10) (tenth_lt n h)) (String.◌∷◌ (digit (n % 10)) out)
              ∙ scan-digit n out
          | no h ↦ let e : n ≡ 0 = omega arith in rw e
        ]

emit-StartsWithDigit_onto :
    (n : ℕ) (w : Acc ◌<◌ n) (out : String)
    → StartsWithDigit (codes out)
    → StartsWithDigit (codes (emit n w out))
unfolding emit
emit-StartsWithDigit_onto n (Acc.intro _ smaller) out k =
    elim (dec_lt 0 n)
      as (λ d. StartsWithDigit (
        codes (
          dite d
            (λ h. emit (n / 10) (smaller (n / 10) (tenth_lt n h)) (String.◌∷◌ (digit (n % 10)) out))
            (λ _. out)))) [
              | yes h ↦
                  emit-StartsWithDigit_onto (n / 10) (smaller (n / 10) (tenth_lt n h))
                    (String.◌∷◌ (digit (n % 10)) out)
                    (omega (arith, code-digit (n % 10) (omega arith)))
              | no h ↦ k
            ]

emit-StartsWithDigit : (n : ℕ) (w : Acc ◌<◌ n) → 0 < n → StartsWithDigit (codes (emit n w ""))
unfolding emit
emit-StartsWithDigit n (Acc.intro _ smaller) p =
    elim (dec_lt 0 n)
      as (λ d. StartsWithDigit (
        codes (
          dite d
            (λ h. emit (n / 10) (smaller (n / 10) (tenth_lt n h)) (String.◌∷◌ (digit (n % 10)) ""))
            (λ _. "")))) [
              | yes h ↦
                  emit-StartsWithDigit_onto (n / 10) (smaller (n / 10) (tenth_lt n h))
                    (String.◌∷◌ (digit (n % 10)) "")
                    (omega (arith, code-digit (n % 10) (omega arith)))
              | no h ↦ absurd (h p)
            ]

parse_digits_of_StartsWithDigit : (s : Text) → StartsWithDigit s → parse_digits s ≡ scan s 0
unfolding parse_digits
parse_digits_of_StartsWithDigit [] h = absurd h
parse_digits_of_StartsWithDigit (c ∷ s) h = refl

parse_text_of_StartsWithDigit :
    (s : Text) → StartsWithDigit s → parse_text s ≡ in_range false (parse_digits s)
unfolding parse_text
parse_text_of_StartsWithDigit [] h = absurd h
parse_text_of_StartsWithDigit (c ∷ s) (low, high) = ground arith

format_ℕ-StartsWithDigit : (n : ℕ) → StartsWithDigit (codes (format_ℕ n))
unfolding format_ℕ
format_ℕ-StartsWithDigit n = elim (Bool-cases (n == 0)) [
  | inl e ↦ rw e (omega arith)
  | inr e ↦ rw e (emit-StartsWithDigit n (lt_wf.apply n) (ground arith))
]

scan-format_ℕ : (n : ℕ) → scan (codes (format_ℕ n)) 0 ≡ some n
unfolding format_ℕ scan
scan-format_ℕ n = elim (Bool-cases (n == 0)) [
  | inl e ↦ let z : n ≡ 0 = ground arith in rw z refl
  | inr e ↦ rw e (scan-emit n (lt_wf.apply n) "")
]

parse_digits-format_ℕ : (n : ℕ) → parse_digits (codes (format_ℕ n)) ≡ some n
parse_digits-format_ℕ n =
    parse_digits_of_StartsWithDigit _ (format_ℕ-StartsWithDigit n) ∙ scan-format_ℕ n

-- The numbers that int64 holds.
abbrev pub IsInt64 : ℤ → Type 0
IsInt64 (pos n) = n < 2 ^ 63
IsInt64 (negsuc n) = n < 2 ^ 63

parse_text-minus : (s : Text) → parse_text (b'-' ∷ s) ≡ in_range true (parse_digits s)
unfolding parse_text
parse_text-minus s = refl

codes-minus : (s : String) → codes ("-" <> s) ≡ b'-' ∷ codes s
codes-minus s = rw (cons-append, nil-append)

-- A number of int64, printed with %d, is read back by ParseInt as itself.
pub parse_int-format_int : (a : ℤ) → IsInt64 a → parse_int (format_int a) ≡ some a
unfolding parse_int format_int
parse_int-format_int (pos n) h =
    rw (parse_text_of_StartsWithDigit _ (format_ℕ-StartsWithDigit n), parse_digits-format_ℕ n)
      (unfold in_range in ground arith)
parse_int-format_int (negsuc n) h =
    rw (codes-minus (format_ℕ (suc n)), parse_text-minus, parse_digits-format_ℕ (suc n))
      (unfold in_range in ground arith)

pub parse_text-format_ℕ : (n : ℕ) → n < 2 ^ 63 → parse_text (codes (format_ℕ n)) ≡ some (pos n)
parse_text-format_ℕ n h =
    rw (parse_text_of_StartsWithDigit _ (format_ℕ-StartsWithDigit n), parse_digits-format_ℕ n)
      (unfold in_range in ground arith)
