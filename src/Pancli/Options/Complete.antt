-- ===== src/Pancli/Options/Complete.antt =====
-- The options of `volume create`: the parameters that always give one.
use mathlib.Core.List.{Mem, mem-filter_map}
use panfs_container_storage.Base.{
  All, String, ◌≡◌, ◌≢◌, refl, sym, ◌∙◌, inl, inr, false, some, [], ◌∷◌, arith, str_eq, eq_refl,
  Bool-cases,
}
use panfs_container_storage.Base.Texts.{str_eq-cases}
use panfs_container_storage.Base.GoMap.{Entries, lookup}
use panfs_container_storage.Utils.Context.{volume_parameters, get_sc_key}
use panfs_container_storage.Utils.Context.Keys.{
  IsSupported, get_sc_key_of_IsSupported, get_fmt_of_IsSupported,
}
use panfs_container_storage.Pancli.Options.{
  sprintf, render, is_skipped_encryption, option_of, get_optional_parameters,
}
use panfs_container_storage.Pancli.Options.Laws.{get_optional_parameters-filter_map}

lookup-All :
    (P : String → Type 0) (key value : String) (m : Entries)
    → All (λ (entry : String × String). P entry.1) m
    → lookup key m ≡ some value
    → P value
unfolding lookup
lookup-All P key value [] a h = cc
lookup-All P key value ((k, v) ∷ m) (here, a) h = elim (Bool-cases (str_eq k key)) [
  | inl t ↦ let same : v ≡ value = ground arith in rw (← same) here
  | inr f ↦ lookup-All P key value m a (ground arith)
]

format-nonempty :
    (short format : String)
    → lookup short volume_parameters ≡ some format
    → str_eq format "" ≡ false
unfolding volume_parameters
format-nonempty short format =
    lookup-All (λ f. str_eq f "" ≡ false) short format volume_parameters
      (
        refl,
        (
          refl,
          (
            refl,
            (
              refl,
              (
                refl,
                (
                  refl,
                  (
                    refl,
                    (
                      refl,
                      (
                        refl,
                        (refl, (refl, (refl, (refl, (refl, (refl, (refl, (refl, (refl, tt))))))))),
                      ),
                    ),
                  ),
                ),
              ),
            ),
          ),
        ),
      )

str_eq-other : {s t : String} → s ≢ t → str_eq s t ≡ false
str_eq-other {s} {t} differs = elim (str_eq-cases s t) [
  | inl (_, same) ↦ absurd (differs same)
  | inr (f, _) ↦ f
]

skipped-other :
    (key value : String)
    → get_sc_key key ≢ get_sc_key "encryption"
    → is_skipped_encryption key value ≡ false
unfolding is_skipped_encryption
skipped-other key value differs = let e = str_eq-other differs in ground arith

plain_option :
    (key value format : String)
    → IsSupported key format
    → value ≢ ""
    → key ≢ get_sc_key "soft"
    → key ≢ get_sc_key "hard"
    → key ≢ get_sc_key "encryption"
    → option_of (key, value) ≡ some (sprintf format value)
unfolding option_of render is_skipped_encryption
plain_option key value format s given not_soft not_hard not_encrypted =
    let kept = get_sc_key_of_IsSupported s in
    let form = get_fmt_of_IsSupported s in
    let nonempty = format-nonempty s.short format s.listed in
    let skipped = skipped-other key value (λ e. not_encrypted (sym kept ∙ e)) in
    let v = str_eq-other given in
    let soft = str_eq-other not_soft in
    let hard = str_eq-other not_hard in let same = eq_refl key in ground arith

-- A supported parameter with a value gives its option, if it is no quota and not the encryption.
get_optional_parameters-Mem :
    (params : Entries) (key value format : String)
    → IsSupported key format
    → value ≢ ""
    → key ≢ get_sc_key "soft"
    → key ≢ get_sc_key "hard"
    → key ≢ get_sc_key "encryption"
    → Mem (key, value) params
    → Mem (sprintf format value) (get_optional_parameters params)
get_optional_parameters-Mem params key value format s given not_soft not_hard not_encrypted m =
    rw (get_optional_parameters-filter_map params) (
      (mem-filter_map option_of params).1 ∣ (
        (key, value),
        m,
        plain_option key value format s given not_soft not_hard not_encrypted,
      ) ∣₁)
