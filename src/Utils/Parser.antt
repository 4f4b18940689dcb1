-- ===== src/Utils/Parser.antt =====
-- pkg/utils/parser.go: volumes as PanFS lists them. The XML decoder of the standard library is not
-- modelled: a listing is taken as decoded, up to the one field that the file decodes itself.
use panfs_container_storage.Base.{String, List, [], ◌∷◌, str_eq, if◌then◌else◌, ◌==◌, code}
use panfs_container_storage.Base.Int.{ℤ}
use panfs_container_storage.Base.GoMap.{Entries}
use panfs_container_storage.Base.Results.{Result}
use panfs_container_storage.Utils.Context.{get_sc_key}
use panfs_container_storage.Utils.Convert.{Float64, gb_to_bytes}

pub record Bladeset : Type 0 where
  pub id : String
  pub name : String

pub record Volume : Type 0 where
  pub id : String
  pub name : String
  pub state : String
  pub soft : Float64
  pub hard : Float64
  pub bset : Bladeset
  pub encryption : String

pub record VolumeList : Type 0 where
  pub version : String
  pub volumes : List Volume
  pub supported_urls : List String

-- VolumeName.UnmarshalXML, of the element's content: a leading slash goes.
unfoldable pub volume_name : String → String
volume_name String.[] = String.[]
volume_name (String.◌∷◌ c s) = if code c == b'/' then s else String.◌∷◌ c s

unfoldable pub get_soft_quota_bytes : Volume → ℤ
get_soft_quota_bytes v = gb_to_bytes v.soft

pub get_hard_quota_bytes : Volume → ℤ
get_hard_quota_bytes v = gb_to_bytes v.hard

unfoldable pub volume_context : Volume → Entries
volume_context v =
    if str_eq v.encryption "" then [] else (get_sc_key "encryption", v.encryption) ∷ []

-- MarshalVolumeToPasXML, over xml.MarshalIndent.
unfoldable pub marshal_volume_to_pas_xml : (VolumeList → Result String) → Volume → Result String
marshal_volume_to_pas_xml marshal v =
    marshal (record { version = "6.0.0"; volumes = v ∷ []; supported_urls = [] })
