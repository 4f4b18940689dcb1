-- ===== src/Utils/Context.antt =====
-- pkg/utils/context.go: the storage class keys of volume parameters, and the keys of the secrets.
pub mod Keys
pub mod Secret
use mathlib.Core.Option.{get_or}
use panfs_container_storage.Base.{
  String, ◌<>◌, ◌≡◌, refl, Option, none, some, [], ◌∷◌, arith, if◌then◌else◌, Option-cases, inl,
  inr, ◌⊎◌,
}
use panfs_container_storage.Base.Texts.{trim_prefix, trim_prefix-append}
use panfs_container_storage.Base.GoMap.{Entries, lookup}

abbrev pub vendor_prefix : String
vendor_prefix = "panfs.csi.vdura.com/"

-- The supported volume parameters, each with the format of its option.
unfoldable pub volume_parameters : Entries
volume_parameters =
    ("description", "description \"%s\"")
    ∷ ("bladeset", "bladeset \"%s\"")
    ∷ ("recovery", "recoverypriority %s")
    ∷ ("efsa", "efsa %s")
    ∷ ("volservice", "volservice %s")
    ∷ ("layout", "layout %s")
    ∷ ("maxwidth", "maxwidth %s")
    ∷ ("stripeunit", "stripeunit %s")
    ∷ ("rgwidth", "rgwidth %s")
    ∷ ("rgdepth", "rgdepth %s")
    ∷ ("user", "user \"%s\"")
    ∷ ("group", "group \"%s\"")
    ∷ ("uperm", "uperm %s")
    ∷ ("gperm", "gperm %s")
    ∷ ("operm", "operm %s")
    ∷ ("encryption", "encryption %s")
    ∷ ("soft", "soft %v")
    ∷ ("hard", "hard %v")
    ∷ []

-- VolumeParameters.GetSCKey
unfoldable pub get_sc_key : String → String
unfolding volume_parameters lookup trim_prefix
get_sc_key k =
    let short = trim_prefix k vendor_prefix in
    elim (lookup short volume_parameters) [ some _ ↦ vendor_prefix <> short | none ↦ "" ]

-- VolumeParameters.GetFmt
unfoldable pub get_fmt : String → String
unfolding get_sc_key
get_fmt k = get_or (lookup (trim_prefix (get_sc_key k) vendor_prefix) volume_parameters) ""
