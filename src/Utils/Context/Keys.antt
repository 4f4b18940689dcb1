-- ===== src/Utils/Context/Keys.antt =====
-- The keys that GetSCKey and GetFmt of pkg/utils/context.go accept.
use panfs_container_storage.Base.{
  String, ◌<>◌, ◌≡◌, refl, ◌⊎◌, inl, inr, none, some, Option-cases, ◌∙◌, ap, ◌≢◌, sym,
}
use panfs_container_storage.Base.Texts.{trim_prefix, trim_prefix-append}
use panfs_container_storage.Base.GoMap.{lookup}
use panfs_container_storage.Utils.Context.{vendor_prefix, volume_parameters, get_sc_key, get_fmt}

-- The key is a supported parameter's name behind the vendor's prefix, and `f` is its format.
pub record IsSupported (key f : String) : Type 0 where
  pub short : String
  pub listed : lookup short volume_parameters ≡ some f
  pub spelled : key ≡ vendor_prefix <> short

get_sc_key_listed :
    (k f : String)
    → lookup (trim_prefix k vendor_prefix) volume_parameters ≡ some f
    → get_sc_key k ≡ vendor_prefix <> trim_prefix k vendor_prefix
unfolding get_sc_key
get_sc_key_listed k f e = rw (e, get_sc_key)

get_sc_key_unlisted :
    (k : String) → lookup (trim_prefix k vendor_prefix) volume_parameters ≡ none → get_sc_key k ≡ ""
unfolding get_sc_key
get_sc_key_unlisted k e = rw (e, get_sc_key)

-- A normalised key is empty or supported.
pub get_sc_key-cases :
    (k : String) → ((f : String) × IsSupported (get_sc_key k) f) ⊎ (get_sc_key k ≡ "")
get_sc_key-cases k = elim (Option-cases (lookup (trim_prefix k vendor_prefix) volume_parameters)) [
  | inl e ↦ inr (get_sc_key_unlisted k e)
  | inr (f, e) ↦ inl (
    f,
    record { short = trim_prefix k vendor_prefix; listed = e; spelled = get_sc_key_listed k f e },
  )
]

pub get_sc_key_of_IsSupported : {k f : String} → IsSupported k f → get_sc_key k ≡ k
get_sc_key_of_IsSupported {k} {f} s =
    let e : trim_prefix k vendor_prefix ≡ s.short =
      ap (λ x. trim_prefix x vendor_prefix) s.spelled ∙ trim_prefix-append vendor_prefix s.short in
    get_sc_key_listed k f (rw e s.listed) ∙ ap (λ x. vendor_prefix <> x) e ∙ sym s.spelled

pub get_fmt_of_IsSupported : {k f : String} → IsSupported k f → get_fmt k ≡ f
unfolding get_fmt
get_fmt_of_IsSupported {k} {f} s =
    rw (get_sc_key_of_IsSupported s, s.spelled, trim_prefix-append vendor_prefix s.short, s.listed)

get_sc_key-nil : get_sc_key "" ≡ ""
unfolding get_sc_key
get_sc_key-nil = refl

-- Normalising a key a second time changes nothing.
get_sc_key_idem : (k : String) → get_sc_key (get_sc_key k) ≡ get_sc_key k
get_sc_key_idem k = elim (get_sc_key-cases k) [
  | inl (f, s) ↦ get_sc_key_of_IsSupported s
  | inr e ↦ ap get_sc_key e ∙ get_sc_key-nil ∙ sym e
]

-- A key is kept as it is exactly if it is empty or supported.
pub IsSupported-of_kept : (k : String) → k ≢ "" → get_sc_key k ≡ k → (f : String) × IsSupported k f
IsSupported-of_kept k nonempty kept = elim (get_sc_key-cases k) [
  | inl (f, s) ↦ (f, rw kept at s)
  | inr e ↦ absurd (nonempty (sym kept ∙ e))
]
