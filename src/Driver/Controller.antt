-- ===== src/Driver/Controller.antt =====
-- pkg/driver/controller.go: the controller service, over any storage provider. Each handler takes
-- the provider's state and returns its reply with the new state. The calls of the logger are left
-- out; so is the write to the request's own parameter map, which the handler only passes on.
pub mod Create
pub mod Outcomes
pub mod Quotas
pub mod Repeat
pub mod Lifecycle
pub mod Expand
pub mod Confirm
pub mod Realm
pub mod Sanity
pub mod Safety
pub mod Overlap
use panfs_container_storage.Base.{
  String, ◌<>◌, Bool, true, false, not, Option, none, some, List, [], ◌∷◌, ◌++◌, str_eq,
  if◌then◌else◌, is_empty, map,
}
use panfs_container_storage.Base.Texts.{Text, codes}
use panfs_container_storage.Base.Int.{ℤ, pos, ltb_ℤ}
use panfs_container_storage.Base.Decimal.{format_int}
use panfs_container_storage.Base.GoMap.{Entries, GoMap, insert}
use panfs_container_storage.Base.Results.{
  Error, Result, ok, err, panic, is_not_found, is_already_exist, Exec,
}
use panfs_container_storage.Utils.Context.{get_sc_key}
use panfs_container_storage.Utils.Parser.{Volume, get_soft_quota_bytes, volume_context}
use panfs_container_storage.Driver.Csi.{
  Code, Reply, reply, status, panicked, CapacityRange, get_required_bytes, get_limit_bytes,
  AccessType, mount, VolumeCapability, CreateVolumeRequest, CsiVolume, DeleteVolumeRequest,
  ValidateVolumeCapabilitiesRequest, ControllerExpandVolumeRequest, ControllerExpandVolumeResponse,
}
use panfs_container_storage.Driver.Provider.{StorageProvider}
use panfs_container_storage.Driver.Validators.{
  validate_create_volume_request, validate_req_secrets, validate_volume_capacity,
}

-- A handler's code from some line on.
abbrev pub Handler : Type 0 → Type 0 → Type 0
Handler S A = S → Reply A × S

-- `if err := …; err != nil { return nil, status.Error(code, err.Error()) }`, and then the rest.
abbrev pub require : {S A : Type 0} → Option Text → Code → Handler S A → Handler S A
require (some message) code rest s = (status code message, s)
require none code rest s = rest s

-- `if bad { return nil, status.Error(code, message) }`, and then the rest.
abbrev pub reject_if : {S A : Type 0} → Bool → Code → Text → Handler S A → Handler S A
reject_if true code message rest s = (status code message, s)
reject_if false code message rest s = rest s

abbrev pub unexpected_internal : Text
unexpected_internal = codes "Unexpected internal error"

-- All access modes are supported; of the access types, only a mount is.
unfoldable pub is_supported_capability : VolumeCapability → Bool
is_supported_capability c = elim c.access_type [ mount _ ↦ true | _ ↦ false ]

module _ (show_capability : VolumeCapability → Text) where
  unfoldable pub validate_volume_capabilities : List VolumeCapability → Option Text
  unfolding is_supported_capability
  validate_volume_capabilities [] = none
  validate_volume_capabilities (c ∷ caps) =
      if is_supported_capability c
      then validate_volume_capabilities caps
      else some (codes "unsupported volume capability: " ++ show_capability c)

-- ValidateVolumeCapabilities answers an unsupported capability with a message of its own.
abbrev mismatch : Option Text → Option Text
mismatch none = none
mismatch (some _) =
    some (codes "Requested volume capabilities do not match existing volume capabilities")

abbrev pub entries_of : GoMap → Entries
entries_of none = []
entries_of (some m) = m

-- The parameters that are passed on: those of the request, with the quotas in bytes.
unfoldable pub quota_parameters : CreateVolumeRequest → Entries
unfolding insert
quota_parameters req =
    insert (get_sc_key "hard") (format_int (get_limit_bytes req.capacity_range)) (
      insert (get_sc_key "soft") (format_int (get_required_bytes req.capacity_range))
        (entries_of req.parameters))

unfoldable pub created_volume : String → Volume → CsiVolume
created_volume name vol = record {
  capacity_bytes = get_soft_quota_bytes vol;
  volume_id = name;
  volume_context = volume_context vol;
}

-- The reply for a volume that exists already, from what GetVolume returned.
unfoldable pub reply_existing : CreateVolumeRequest → Result (Option Volume) → Reply CsiVolume
unfolding created_volume
reply_existing req (ok (some vol)) = elim (validate_volume_capacity req.capacity_range vol) [
  | some message ↦ status Code.already_exists (codes "Volume capacity does not match: " ++ message)
  | none ↦ reply (created_volume req.name vol)
]
reply_existing req (ok none) = status Code.internal unexpected_internal
reply_existing req (err e) = status Code.internal unexpected_internal
reply_existing req panic = panicked

unfoldable pub answer_delete : Result (Unit {0}) → Reply (Unit {0})
answer_delete (ok _) = reply tt
answer_delete (err e) =
    if is_not_found e then reply tt else status Code.internal unexpected_internal
answer_delete panic = panicked

unfoldable pub answer_validate :
    List VolumeCapability → Result (Option Volume) → Reply (List VolumeCapability)
answer_validate caps (ok _) = reply caps
answer_validate caps (err e) =
    if is_not_found e
    then status Code.not_found (codes "Volume not found")
    else status Code.internal e.message
answer_validate caps panic = panicked

unfoldable pub answer_expand : ℤ → Result (Unit {0}) → Reply ControllerExpandVolumeResponse
answer_expand required (ok _) =
    reply (record { capacity_bytes = required; node_expansion_required = false })
answer_expand required (err e) =
    if is_not_found e
    then status Code.not_found (codes "Volume not found")
    else status Code.internal unexpected_internal
answer_expand required panic = panicked

module _ (P : StorageProvider) where
  -- CreateVolume from the provider's answer on. A nil volume without an error would be dereferenced.
  unfoldable pub answer_create :
      CreateVolumeRequest → Result (Option Volume) → Handler P.State CsiVolume
  unfolding reply_existing
  answer_create req (ok (some vol)) s = (reply (created_volume req.name vol), s)
  answer_create req (ok none) s = (panicked, s)
  answer_create req panic s = (panicked, s)
  answer_create req (err e) s =
      if is_already_exist e
      then (let found = P.get_volume req.name req.secrets s in
          (reply_existing req found.0, found.1))
      else (status Code.internal unexpected_internal, s)

  unfoldable pub provision : CreateVolumeRequest → Handler P.State CsiVolume
  unfolding answer_create quota_parameters
  provision req s =
      let done = P.create_volume req.name (quota_parameters req) req.secrets s in
      answer_create req done.0 done.1

  unfoldable pub create_volume :
      (VolumeCapability → Text) → CreateVolumeRequest → Handler P.State CsiVolume
  unfolding provision validate_volume_capabilities
  create_volume show req = require (validate_create_volume_request req) Code.invalid_argument (
      require (validate_volume_capabilities show req.volume_capabilities) Code.invalid_argument
        (require (validate_req_secrets req.secrets) Code.invalid_argument (provision req)))

  unfoldable pub delete_volume : DeleteVolumeRequest → Handler P.State (Unit {0})
  unfolding answer_delete
  delete_volume req =
      reject_if (str_eq req.volume_id "") Code.invalid_argument (codes "volume id must be provided")
        (require (validate_req_secrets req.secrets) Code.invalid_argument (λ s.
          let done = P.delete_volume req.volume_id req.secrets s in (answer_delete done.0, done.1)))

  unfoldable pub validate_capabilities :
      (VolumeCapability → Text)
      → ValidateVolumeCapabilitiesRequest
      → Handler P.State (List VolumeCapability)
  unfolding validate_volume_capabilities answer_validate
  validate_capabilities show req =
      reject_if (str_eq req.volume_id "") Code.invalid_argument
        (codes "volume id must not be empty")
        (reject_if (is_empty req.volume_capabilities) Code.invalid_argument
          (codes "volume capabilities must be provided")
          (require (validate_req_secrets req.secrets) Code.invalid_argument (
            require (mismatch (validate_volume_capabilities show req.volume_capabilities))
              Code.invalid_argument
              (λ s.
                let found = P.get_volume req.volume_id req.secrets s in
                (answer_validate req.volume_capabilities found.0, found.1)))))

  -- ControllerExpandVolume behind the test that the range is not nil, with expandVolume.
  unfoldable pub expand_in_range :
      ControllerExpandVolumeRequest → CapacityRange → Handler P.State ControllerExpandVolumeResponse
  unfolding answer_expand
  expand_in_range req range = require (validate_req_secrets req.secrets) Code.invalid_argument (
      reject_if (ltb_ℤ range.required_bytes (pos 1)) Code.invalid_argument
        (codes "Invalid capacity range")
        (λ s.
          let done = P.expand_volume req.volume_id range.required_bytes req.secrets s in
          (answer_expand range.required_bytes done.0, done.1)))

  unfoldable pub controller_expand_volume :
      ControllerExpandVolumeRequest → Handler P.State ControllerExpandVolumeResponse
  unfolding expand_in_range
  controller_expand_volume req =
      reject_if (str_eq req.volume_id "") Code.invalid_argument (codes "volume id must be provided")
        (elim req.capacity_range [
          | none ↦ λ s.
              (status Code.invalid_argument (codes "volume capacity range must be provided"), s)
          | some range ↦ expand_in_range req range
        ])
