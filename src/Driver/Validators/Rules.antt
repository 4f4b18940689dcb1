-- ===== src/Driver/Validators/Rules.antt =====
-- What validateVolumeParameters of pkg/driver/validators.go lets pass, without its tests.
use panfs_container_storage.Base.{
  String, ◌≡◌, ◌≢◌, refl, ◌↔◌, ◌⊎◌, inl, inr, true, not, ◌||◌, Option, none, some, List, [], ◌∷◌,
  arith, str_eq, eq_iff, All, Option-cases,
}
use panfs_container_storage.Base.Texts.{Text, contains_string}
use panfs_container_storage.Base.Int.{ℤ, pos, ◌≤ℤ◌, ltb_ℤ}
use panfs_container_storage.Base.Decimal.{parse_int}
use panfs_container_storage.Base.GoMap.{GoMap, find}
use panfs_container_storage.Utils.Context.{get_sc_key}
use panfs_container_storage.Driver.Validators.{
  layout_list, perm_list, validate_encryption_parameter, integer, validate_volume_parameters,
}
use panfs_container_storage.Driver.Validators.Check.{
  refuse_if, if_present, both, if_present-eq-none,
}
use panfs_container_storage.Driver.Validators.StripeUnit.{validate_stripe_unit}

-- The value is one of the list.
abbrev pub IsOneOf : String → List String → Type 0
IsOneOf v [] = ⊥
IsOneOf v (s ∷ more) = (s ≡ v) ⊎ IsOneOf v more

-- The text is an integer of int64 between two bounds.
abbrev pub IsIntegerIn : ℤ → ℤ → String → Type 0
IsIntegerIn low high v = (n : ℤ) × (parse_int v ≡ some n) × (low ≤ℤ n) × (n ≤ℤ high)

abbrev pub IsIntegerFrom : ℤ → String → Type 0
IsIntegerFrom low v = (n : ℤ) × (parse_int v ≡ some n) × (low ≤ℤ n)

-- What each parameter may hold.
abbrev pub parameter_rules : List (String × (String → Type 0))
parameter_rules =
    ("bladeset", λ v. v ≢ "")
    ∷ ("volservice", λ v. v ≢ "")
    ∷ ("layout", λ v. IsOneOf v layout_list)
    ∷ ("maxwidth", IsIntegerFrom (pos 1))
    ∷ ("stripeunit", λ v. validate_stripe_unit v ≡ true)
    ∷ ("rgwidth", IsIntegerIn (pos 3) (pos 20))
    ∷ ("rgdepth", IsIntegerFrom (pos 1))
    ∷ ("user", λ v. v ≢ "")
    ∷ ("group", λ v. v ≢ "")
    ∷ ("uperm", λ v. IsOneOf v perm_list)
    ∷ ("gperm", λ v. IsOneOf v perm_list)
    ∷ ("operm", λ v. IsOneOf v perm_list)
    ∷ ("encryption", λ v. IsOneOf v ("on" ∷ "off" ∷ "aes-xts-256" ∷ "none" ∷ []))
    ∷ []

-- Every parameter that is present obeys its rule.
abbrev pub HasValidParameters : GoMap → Type 0
HasValidParameters m =
    All (λ (name, Rule). (v : String) → find (get_sc_key name) m ≡ some v → Rule v) parameter_rules

nonempty-check : (v : String) (message : Text) → (refuse_if (str_eq v "") message ≡ none) ↔ (v ≢ "")
nonempty-check v message = ground (arith, eq_iff v "")

contains_string_iff : (l : List String) (v : String) → (contains_string l v ≡ true) ↔ IsOneOf v l
unfolding contains_string
contains_string_iff [] v = (λ e. cc, λ h. absurd h)
contains_string_iff (s ∷ more) v = ground (arith, eq_iff s v, contains_string_iff more v)

IsOneOf-check :
    (l : List String) (v : String) (message : Text)
    → (refuse_if (not (contains_string l v)) message ≡ none) ↔ IsOneOf v l
IsOneOf-check l v message = ground (arith, contains_string_iff l v)

stripe-check :
    (v : String) (message : Text)
    → (refuse_if (not (validate_stripe_unit v)) message ≡ none) ↔ (validate_stripe_unit v ≡ true)
stripe-check v message = ground arith

encryption-check :
    (v : String) (message : Text)
    → (refuse_if (not (validate_encryption_parameter v)) message ≡ none)
      ↔ IsOneOf v ("on" ∷ "off" ∷ "aes-xts-256" ∷ "none" ∷ [])
unfolding validate_encryption_parameter
encryption-check v message = IsOneOf-check ("on" ∷ "off" ∷ "aes-xts-256" ∷ "none" ∷ []) v message

IsIntegerFrom-check :
    (key v : String) (message : Text) (low : ℤ)
    → (integer key v message (λ n. ltb_ℤ n low) ≡ none) ↔ IsIntegerFrom low v
IsIntegerFrom-check key v message low = elim (Option-cases (parse_int v)) [
  | inl e ↦ rw e ((λ h. cc), λ (n, p, _). cc)
  | inr (n, e) ↦ rw e ((λ h. (n, refl, ground arith)), λ (k, p, q). ground arith)
]

IsIntegerIn-check :
    (key v : String) (message : Text) (low high : ℤ)
    → (integer key v message (λ n. ltb_ℤ n low || ltb_ℤ high n) ≡ none) ↔ IsIntegerIn low high v
IsIntegerIn-check key v message low high = elim (Option-cases (parse_int v)) [
  | inl e ↦ rw e ((λ h. cc), λ (n, p, _, _). cc)
  | inr (n, e) ↦ rw e ((λ h. (n, refl, ground arith, ground arith)), λ (k, p, q, r). ground arith)
]

nothing-check : ((◌≡◌ {A = Option Text} none none)) ↔ Unit {0}
nothing-check = (λ _. tt, λ _. refl)

rule-check :
    (key : String) (m : GoMap) (check : String → Option Text) (Rule : String → Type 0)
    → ((v : String) → (check v ≡ none) ↔ Rule v)
    → (if_present (get_sc_key key) m check ≡ none)
      ↔ ((v : String) → find (get_sc_key key) m ≡ some v → Rule v)
rule-check key m check Rule h = if_present-eq-none (get_sc_key key) m check Rule h

pub validate_volume_parameters_iff :
    (m : GoMap) → (validate_volume_parameters m ≡ none) ↔ HasValidParameters m
unfolding validate_volume_parameters
validate_volume_parameters_iff m = both (rule-check "bladeset" m _ _ (λ v. nonempty-check v _)) (
    both (rule-check "volservice" m _ _ (λ v. nonempty-check v _)) (
      both (rule-check "layout" m _ _ (λ v. IsOneOf-check layout_list v _)) (
        both (rule-check "maxwidth" m _ _ (λ v. IsIntegerFrom-check "maxwidth" v _ (pos 1))) (
          both (rule-check "stripeunit" m _ _ (λ v. stripe-check v _)) (
            both
              (rule-check "rgwidth" m _ _ (λ v. IsIntegerIn-check "rgwidth" v _ (pos 3) (pos 20)))
              (both (rule-check "rgdepth" m _ _ (λ v. IsIntegerFrom-check "rgdepth" v _ (pos 1))) (
                both (rule-check "user" m _ _ (λ v. nonempty-check v _)) (
                  both (rule-check "group" m _ _ (λ v. nonempty-check v _)) (
                    both (rule-check "uperm" m _ _ (λ v. IsOneOf-check perm_list v _)) (
                      both (rule-check "gperm" m _ _ (λ v. IsOneOf-check perm_list v _)) (
                        both (rule-check "operm" m _ _ (λ v. IsOneOf-check perm_list v _)) (
                          both (rule-check "encryption" m _ _ (λ v. encryption-check v _))
                            nothing-check))))))))))))
