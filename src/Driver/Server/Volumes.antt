-- ===== src/Driver/Server/Volumes.antt =====
-- What the calls about volumes promise, as changes of a map from names to volumes: the sanity mode
-- of the server implements it.
pub mod Handlers
pub mod Confirmed
pub mod Refine
pub mod Linear
use panfs_container_storage.Base.{
  String, ◌≡◌, ◌≢◌, ◌⊎◌, false, Option, none, some, List, [], ◌∷◌, str_eq, if◌then◌else◌,
}
use panfs_container_storage.Base.Texts.{Text}
use panfs_container_storage.Base.Int.{ℤ}
use panfs_container_storage.Utils.Convert.{bytes_to_gb}
use panfs_container_storage.Utils.Parser.{Volume}
use panfs_container_storage.Driver.Csi.{
  Code, reply, status, CapacityRange, CreateVolumeRequest, DeleteVolumeRequest,
  ValidateVolumeCapabilitiesRequest, ControllerExpandVolumeRequest,
}
use panfs_container_storage.Driver.Validators.Requests.{Fits}
use panfs_container_storage.Driver.Controller.{created_volume}
use panfs_container_storage.Driver.Controller.Create.{IsAcceptable}
use panfs_container_storage.Driver.Controller.Lifecycle.{IsIdentified}
use panfs_container_storage.Driver.Controller.Confirm.{IsConfirmable}
use panfs_container_storage.Driver.Controller.Expand.{IsSized, IsExpandable}
use panfs_container_storage.Driver.Server.{
  VolumeCall, create_volume, delete_volume, validate_volume_capabilities, controller_expand_volume,
  Answer, empty, volume, confirmed, expanded,
}

-- The volume that stands under a name.
abbrev pub Catalogue : Type 0
Catalogue = String → Option Volume

-- `g` is `f` with `v` under the name.
abbrev pub IsUpdate : Catalogue → String → Option Volume → Catalogue → Type 0
IsUpdate f name v g = (other : String) → g other ≡ (if str_eq name other then v else f other)

abbrev pub IsSame : Catalogue → Catalogue → Type 0
IsSame f g = (name : String) → g name ≡ f name

-- A call, its answer, and the catalogue before and after it. A volume is created under a free name
-- only, and one that exists is answered again if its quotas fit; a deletion goes by the identifier,
-- and one of nothing succeeds; an expansion writes the soft quota of the volume under the name. A
-- call is refused with nothing changed: with InvalidArgument if its request does not pass, and only
-- then, and with another code for what the catalogue holds. `vanished` is for a volume that is gone
-- once CreateVolume looks for it.
pub data Serves : VolumeCall → Answer → Catalogue → Catalogue → Type 0 where
  created :
      (req : CreateVolumeRequest) (vol : Volume) {f g : Catalogue}
      → IsAcceptable req
      → f req.name ≡ none
      → vol.name ≡ req.name
      → IsUpdate f req.name (some vol) g
      → Serves (create_volume req) (volume (reply (created_volume req.name vol))) f g
  repeated :
      (req : CreateVolumeRequest) (vol : Volume) {f g : Catalogue}
      → IsAcceptable req
      → f req.name ≡ some vol
      → Fits req.capacity_range vol
      → IsSame f g
      → Serves (create_volume req) (volume (reply (created_volume req.name vol))) f g
  mismatched :
      (req : CreateVolumeRequest) (vol : Volume) (message : Text) {f g : Catalogue}
      → IsAcceptable req
      → f req.name ≡ some vol
      → ¬ Fits req.capacity_range vol
      → IsSame f g
      → Serves (create_volume req) (volume (status Code.already_exists message)) f g
  vanished :
      (req : CreateVolumeRequest) (message : Text) {f g : Catalogue}
      → IsAcceptable req
      → f req.name ≡ none
      → IsSame f g
      → Serves (create_volume req) (volume (status Code.internal message)) f g
  not_created :
      (req : CreateVolumeRequest) (message : Text) {f g : Catalogue}
      → ¬ IsAcceptable req
      → IsSame f g
      → Serves (create_volume req) (volume (status Code.invalid_argument message)) f g
  deleted :
      (req : DeleteVolumeRequest) (vol : Volume) {f g : Catalogue}
      → IsIdentified req.volume_id req.secrets
      → f vol.name ≡ some vol
      → vol.id ≡ req.volume_id
      → IsUpdate f vol.name none g
      → Serves (delete_volume req) (empty (reply tt)) f g
  absent :
      (req : DeleteVolumeRequest) {f g : Catalogue}
      → IsIdentified req.volume_id req.secrets
      → ((name : String) (vol : Volume) → f name ≡ some vol → vol.id ≢ req.volume_id)
      → IsSame f g
      → Serves (delete_volume req) (empty (reply tt)) f g
  not_deleted :
      (req : DeleteVolumeRequest) (message : Text) {f g : Catalogue}
      → ¬ IsIdentified req.volume_id req.secrets
      → IsSame f g
      → Serves (delete_volume req) (empty (status Code.invalid_argument message)) f g
  validated :
      (req : ValidateVolumeCapabilitiesRequest) (vol : Volume) {f g : Catalogue}
      → IsConfirmable req
      → f req.volume_id ≡ some vol
      → IsSame f g
      → Serves (validate_volume_capabilities req) (confirmed (reply req.volume_capabilities)) f g
  not_validated :
      (req : ValidateVolumeCapabilitiesRequest) (code : Code) (message : Text) {f g : Catalogue}
      → ((code ≡ Code.invalid_argument) × (¬ IsConfirmable req))
        ⊎ ((code ≡ Code.not_found) × IsConfirmable req × (f req.volume_id ≡ none))
      → IsSame f g
      → Serves (validate_volume_capabilities req) (confirmed (status code message)) f g
  resized :
      (req : ControllerExpandVolumeRequest) (vol : Volume) (range : CapacityRange) {f g : Catalogue}
      → IsIdentified req.volume_id req.secrets
      → IsSized req range
      → f req.volume_id ≡ some vol
      → IsUpdate f req.volume_id (some (record vol { soft = bytes_to_gb range.required_bytes })) g
      → Serves
          (controller_expand_volume req)
          (expanded (
            reply
              (record { capacity_bytes = range.required_bytes; node_expansion_required = false })))
          f
          g
  not_resized :
      (req : ControllerExpandVolumeRequest) (code : Code) (message : Text) {f g : Catalogue}
      → ((code ≡ Code.invalid_argument) × (¬ IsExpandable req))
        ⊎ ((code ≡ Code.not_found) × IsExpandable req × (f req.volume_id ≡ none))
      → IsSame f g
      → Serves (controller_expand_volume req) (expanded (status code message)) f g

-- The calls one after another, with their answers.
pub data ServesAll : List VolumeCall → List Answer → Catalogue → Catalogue → Type 0 where
  done : {f : Catalogue} → ServesAll [] [] f f
  step :
      {c : VolumeCall} {a : Answer} {calls : List VolumeCall} {answers : List Answer}
      {f g h : Catalogue}
      → Serves c a f g
      → ServesAll calls answers g h
      → ServesAll (c ∷ calls) (a ∷ answers) f h
