-- ===== src/Driver/Csi.antt =====
-- The messages of the CSI specification that the handlers of pkg/driver read and return, with the
-- fields that they use, and gRPC's status codes. A pointer that may be nil is an `Option`.
use panfs_container_storage.Base.{String, Bool, Option, none, some, List}
use panfs_container_storage.Base.Texts.{Text}
use panfs_container_storage.Base.Int.{ℤ, pos}
use panfs_container_storage.Base.GoMap.{Entries, GoMap}

-- google.golang.org/grpc/codes
pub data Code : Type 0 where
  invalid_argument not_found already_exists failed_precondition : Code
  unimplemented internal unavailable : Code

-- What a handler comes back with: a response, status.Error, or a panic.
pub data Reply {ℓ} (A : Type ℓ) : Type ℓ where
  reply : A → Reply A
  status : Code → Text → Reply A
  panicked : Reply A

pub record CapacityRange : Type 0 where
  pub required_bytes : ℤ
  pub limit_bytes : ℤ

-- The getters answer 0 on a nil range.
abbrev pub get_required_bytes : Option CapacityRange → ℤ
get_required_bytes none = pos 0
get_required_bytes (some r) = r.required_bytes

abbrev pub get_limit_bytes : Option CapacityRange → ℤ
get_limit_bytes none = pos 0
get_limit_bytes (some r) = r.limit_bytes

-- The field access_type of a capability: a mount with its flags, a block device, or unset.
pub data AccessType : Type 0 where
  mount : List String → AccessType
  block unset : AccessType

pub record VolumeCapability : Type 0 where
  pub access_type : AccessType

pub record CreateVolumeRequest : Type 0 where
  pub name : String
  pub capacity_range : Option CapacityRange
  pub volume_capabilities : List VolumeCapability
  pub parameters : GoMap
  pub secrets : GoMap
  -- volume_content_source is not nil
  pub has_content_source : Bool

pub record CsiVolume : Type 0 where
  pub capacity_bytes : ℤ
  pub volume_id : String
  pub volume_context : Entries

pub record DeleteVolumeRequest : Type 0 where
  pub volume_id : String
  pub secrets : GoMap

pub record ValidateVolumeCapabilitiesRequest : Type 0 where
  pub volume_id : String
  pub volume_capabilities : List VolumeCapability
  pub secrets : GoMap

pub record ControllerExpandVolumeRequest : Type 0 where
  pub volume_id : String
  pub capacity_range : Option CapacityRange
  pub secrets : GoMap

pub record ControllerExpandVolumeResponse : Type 0 where
  pub capacity_bytes : ℤ
  pub node_expansion_required : Bool

pub record NodePublishVolumeRequest : Type 0 where
  pub volume_id : String
  pub target_path : String
  pub volume_capability : Option VolumeCapability
  pub readonly : Bool
  pub volume_context : GoMap
  pub secrets : GoMap

pub record NodeUnpublishVolumeRequest : Type 0 where
  pub volume_id : String
  pub target_path : String
