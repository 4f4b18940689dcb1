-- ===== src/Pancli/Options/Laws.antt =====
-- The options of `volume create`, whatever the order in which Go walks through the parameters.
use mathlib.Core.List.Perm
use mathlib.Core.List.{Perm, Mem, filter_map, mem-filter_map}
use mathlib.Core.Logic.{∥∥₁_map}
use panfs_container_storage.Base.{
  String, ◌≡◌, ◌≢◌, refl, sym, ◌∙◌, ap, ◌⊎◌, inl, inr, false, not, some, List, [], ◌∷◌, ◌++◌,
  append_assoc, append-nil, arith, str_eq, Option-cases, Bool-cases,
}
use panfs_container_storage.Base.Int.{ℤ}
use panfs_container_storage.Base.Texts.{contains, str_eq-cases}
use panfs_container_storage.Base.GoMap.{Entries}
use panfs_container_storage.Base.Decimal.{parse_int}
use panfs_container_storage.Utils.Context.{get_sc_key, get_fmt}
use panfs_container_storage.Utils.Context.Keys.{
  IsSupported, IsSupported-of_kept, get_fmt_of_IsSupported,
}
use panfs_container_storage.Utils.Convert.{bytes_to_gb, format_2}
use panfs_container_storage.Pancli.Options.{
  sprintf, render, is_skipped_encryption, option_of, append_option, collect_options,
  get_optional_parameters,
}

-- The loop collects what each entry gives.
collect_options-filter_map :
    (opts : List String) (params : Entries)
    → collect_options opts params ≡ opts ++ filter_map option_of params
unfolding collect_options append_option filter_map
collect_options-filter_map opts [] = sym (append-nil opts)
collect_options-filter_map opts (entry ∷ params) = elim (Option-cases (option_of entry)) [
  | inl e ↦ rw e (collect_options-filter_map opts params)
  | inr (o, e) ↦
      rw e (collect_options-filter_map (opts ++ o ∷ []) params ∙ append_assoc opts (o ∷ []) _)
]

pub get_optional_parameters-filter_map :
    (params : Entries) → get_optional_parameters params ≡ filter_map option_of params
unfolding get_optional_parameters
get_optional_parameters-filter_map params = collect_options-filter_map [] params

-- The order in which Go walks through the map decides the order of the options, and nothing else.
get_optional_parameters-Perm :
    {params params' : Entries}
    → Perm params params'
    → Perm (get_optional_parameters params) (get_optional_parameters params')
get_optional_parameters-Perm {params} {params'} p =
    rw (get_optional_parameters-filter_map params, get_optional_parameters-filter_map params')
      (Perm.filter_map option_of p)

-- The option that a parameter may give: its own format, filled with its value; a quota's value is
-- read as a size in bytes and given in gigabytes.
pub record Gives (key value option : String) : Type 0 where
  pub format : String
  pub supported : IsSupported key format
  pub given : value ≢ ""
  pub text : String
  pub filled : option ≡ sprintf format text
  pub shown :
      (text ≡ value)
      ⊎ (((key ≡ get_sc_key "soft") ⊎ (key ≡ get_sc_key "hard"))
          × ((n : ℤ) × (parse_int value ≡ some n) × (text ≡ format_2 (bytes_to_gb n))))

render-some :
    (key text option : String)
    → render key text ≡ some option
    → (get_fmt key ≢ "") × (option ≡ sprintf (get_fmt key) text)
unfolding render
render-some key text option h = elim (str_eq-cases (get_fmt key) "") [
  | inl (t, _) ↦ absurd (ground arith)
  | inr (f, formatted) ↦ (formatted, ground arith)
]

get_fmt-nil : get_fmt "" ≡ ""
unfolding get_fmt
get_fmt-nil = refl

-- A key that is kept as it is and has a format is supported.
gives :
    (key value text option : String)
    → get_sc_key key ≡ key
    → value ≢ ""
    → render key text ≡ some option
    → ((text ≡ value)
        ⊎ (((key ≡ get_sc_key "soft") ⊎ (key ≡ get_sc_key "hard"))
            × ((n : ℤ) × (parse_int value ≡ some n) × (text ≡ format_2 (bytes_to_gb n)))))
    → Gives key value option
gives key value text option kept given h shown =
    let (formatted, filled) = render-some key text option h in
    let (f, s) = IsSupported-of_kept key (λ nil. formatted (ap get_fmt nil ∙ get_fmt-nil)) kept in
    record {
      format = f;
      supported = s;
      given = given;
      text = text;
      filled = filled ∙ ap (λ x. sprintf x text) (get_fmt_of_IsSupported s);
      shown = shown;
    }

option_of-Gives :
    (key value option : String)
    → option_of (key, value) ≡ some option
    → Gives key value option × (is_skipped_encryption key value ≡ false)
unfolding option_of
option_of-Gives key value option h = elim (str_eq-cases value "") [
  | inl (t, _) ↦ absurd (ground arith)
  | inr (f, given) ↦ elim (Bool-cases (is_skipped_encryption key value)) [
    | inl skipped ↦ absurd (ground arith)
    | inr used ↦ elim (str_eq-cases (get_sc_key key) key) [
      | inr (other, _) ↦ absurd (ground arith)
      | inl (same, kept) ↦ elim (str_eq-cases (get_sc_key key) (get_sc_key "soft")) [
        | inl (s, soft) ↦ elim (Option-cases (parse_int value)) [
          | inl n ↦ absurd (ground arith)
          | inr (n, p) ↦ (
            gives key value (format_2 (bytes_to_gb n)) option kept given (ground arith)
                (inr (inl (sym kept ∙ soft), (n, p, refl))),
            used,
          )
        ]
        | inr (s, not_soft) ↦ elim (str_eq-cases (get_sc_key key) (get_sc_key "hard")) [
          | inl (r, hard) ↦ elim (Option-cases (parse_int value)) [
            | inl n ↦ absurd (ground arith)
            | inr (n, p) ↦ (
              gives key value (format_2 (bytes_to_gb n)) option kept given (ground arith)
                  (inr (inr (sym kept ∙ hard), (n, p, refl))),
              used,
            )
          ]
          | inr (r, not_hard) ↦
              (gives key value value option kept given (ground arith) (inl refl), used)
        ]
      ]
    ]
  ]
]

skipped-encryption :
    (value : String)
    → is_skipped_encryption (get_sc_key "encryption") value ≡ not (str_eq value "on")
unfolding is_skipped_encryption get_sc_key contains
skipped-encryption value = refl

used_encryption :
    (key value : String)
    → is_skipped_encryption key value ≡ false
    → key ≡ get_sc_key "encryption"
    → value ≡ "on"
used_encryption key value h same = elim (str_eq-cases value "on") [
  | inl (_, on) ↦ on
  | inr (f, _) ↦
      let e : is_skipped_encryption (get_sc_key "encryption") value ≡ false =
        ap (λ k. is_skipped_encryption k value) (sym same) ∙ h in
      absurd (cc (skipped-encryption value))
]

-- Each option comes from an entry of the map: a supported parameter with a value, in the parameter's
-- own format. Encryption is asked for only by the value "on".
pub get_optional_parameters-Gives :
    (params : Entries) (option : String)
    → Mem option (get_optional_parameters params)
    → ∥ (
        (entry : String × String) × Mem entry params
        × Gives entry.0 entry.1 option
        × (entry.0 ≡ get_sc_key "encryption" → entry.1 ≡ "on")) ∥₁
get_optional_parameters-Gives params option m =
    ∥∥₁_map
      ((mem-filter_map option_of params).0 (rw (get_optional_parameters-filter_map params) at m))
      (λ (entry, listed, e).
        let (g, used) = option_of-Gives entry.0 entry.1 option e in
        (entry, listed, g, used_encryption entry.0 entry.1 used))
