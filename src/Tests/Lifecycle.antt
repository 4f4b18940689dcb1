-- ===== src/Tests/Lifecycle.antt =====
-- DeleteVolume, ControllerExpandVolume and ValidateVolumeCapabilities, and the states of the sanity
-- mode.
use panfs_container_storage.Base.{
  String, ◌≡◌, ◌≢◌, ◌<◌, ◌^◌, refl, ◌⊎◌, none, some, false, true, List, [], ◌∷◌, arith, All, Option,
}
use panfs_container_storage.Base.Int.{pos}
use panfs_container_storage.Base.Texts.{codes}
use panfs_container_storage.Base.Results.{Error, ok, err, is_not_found}
use panfs_container_storage.Utils.Parser.{Volume}
use panfs_container_storage.Pancli.Fake.{Fake, find_volume}
use panfs_container_storage.Driver.Csi.{
  Code, reply, status, CapacityRange, ControllerExpandVolumeResponse, DeleteVolumeRequest,
}
use panfs_container_storage.Driver.Controller.{
  create_volume, delete_volume, controller_expand_volume, validate_capabilities,
}
use panfs_container_storage.Driver.Controller.Create.{IsMount}
use panfs_container_storage.Driver.Controller.Lifecycle.{
  IsIdentified, IsGone, delete_volume-reply, delete_volume-status,
}
use panfs_container_storage.Driver.Controller.Expand.{
  IsSized, IsExpandable, controller_expand_volume-reply, controller_expand_volume-status,
}
use panfs_container_storage.Driver.Controller.Confirm.{validate_capabilities-reply}
use panfs_container_storage.Driver.Controller.Sanity.{delete_volume-kept}
use panfs_container_storage.Driver.Validators.Requests.{validate_req_secrets_iff}
use panfs_container_storage.Tests.Inputs.{
  uuid, show, sanity, empty_fake, pvc, removal, growth, question, secrets, capability,
}

abbrev one_volume : Fake
one_volume = (create_volume sanity show pvc empty_fake).1

deleted_nothing : delete_volume sanity removal empty_fake ≡ (reply tt, empty_fake)
unfolding delete_volume panfs_container_storage.Driver.Validators.validate_req_secrets
    panfs_container_storage.Pancli.Fake.delete_volume
deleted_nothing = refl

delete_volume-reply_example :
    IsIdentified "pvc-1" secrets × IsGone sanity removal empty_fake empty_fake
delete_volume-reply_example =
    delete_volume-reply sanity removal empty_fake empty_fake deleted_nothing

abbrev no_id : DeleteVolumeRequest
no_id = record removal { volume_id = "" }

refused_no_id :
    delete_volume sanity no_id empty_fake
    ≡ (status Code.invalid_argument (codes "volume id must be provided"), empty_fake)
unfolding delete_volume
refused_no_id = refl

delete_volume-status_example :
    ((Code.invalid_argument ≡ Code.invalid_argument)
      × (¬ IsIdentified "" secrets)
      × (empty_fake ≡ empty_fake))
    ⊎ ((Code.invalid_argument ≡ Code.internal)
        × IsIdentified "" secrets
        × ((e : Error) × (sanity.delete_volume "" secrets empty_fake ≡ (err e, empty_fake))
            × (is_not_found e ≡ false)))
delete_volume-status_example =
    delete_volume-status sanity no_id empty_fake empty_fake Code.invalid_argument
      (codes "volume id must be provided") refused_no_id

abbrev response : ControllerExpandVolumeResponse
response = record { capacity_bytes = pos 2147483648; node_expansion_required = false }

abbrev grown : Fake
grown = (controller_expand_volume sanity growth one_volume).1

expanded_one : controller_expand_volume sanity growth one_volume ≡ (reply response, grown)
unfolding controller_expand_volume panfs_container_storage.Driver.Validators.validate_req_secrets
    panfs_container_storage.Pancli.Fake.expand_volume create_volume
    panfs_container_storage.Driver.Validators.validate_create_volume_request
    panfs_container_storage.Utils.Context.get_sc_key
    panfs_container_storage.Pancli.Fake.create_volume
expanded_one = refl

controller_expand_volume-reply_example :
    IsIdentified "pvc-1" secrets
    × ((range : CapacityRange) × IsSized growth range
        × (sanity.expand_volume "pvc-1" range.required_bytes secrets one_volume ≡ (ok tt, grown))
        × (pos 2147483648 ≡ range.required_bytes)
        × (false ≡ false))
controller_expand_volume-reply_example =
    controller_expand_volume-reply sanity growth one_volume grown response expanded_one

missing_volume :
    controller_expand_volume sanity growth empty_fake
    ≡ (status Code.not_found (codes "Volume not found"), empty_fake)
unfolding controller_expand_volume panfs_container_storage.Driver.Validators.validate_req_secrets
    panfs_container_storage.Pancli.Fake.expand_volume
missing_volume = refl

controller_expand_volume-status_example :
    ((Code.not_found ≡ Code.invalid_argument) × (empty_fake ≡ empty_fake) × (¬ IsExpandable growth))
    ⊎ ((range : CapacityRange) × (e : Error) × IsSized growth range
        × (sanity.expand_volume "pvc-1" range.required_bytes secrets empty_fake
            ≡ (err e, empty_fake))
        × (((Code.not_found ≡ Code.not_found) × (is_not_found e ≡ true))
            ⊎ ((Code.not_found ≡ Code.internal) × (is_not_found e ≡ false))))
controller_expand_volume-status_example =
    controller_expand_volume-status sanity growth empty_fake empty_fake Code.not_found
      (codes "Volume not found") missing_volume

valid_secrets : IsIdentified "pvc-1" secrets
unfolding panfs_container_storage.Driver.Validators.validate_req_secrets
valid_secrets = (λ same. absurd (cc same), (validate_req_secrets_iff secrets).0 refl)

other_ids : All (λ (v : Volume). v.id ≢ "pvc-1") one_volume.volumes
unfolding create_volume panfs_container_storage.Driver.Validators.validate_create_volume_request
    panfs_container_storage.Base.GoMap.find panfs_container_storage.Utils.Context.get_sc_key
    panfs_container_storage.Driver.Validators.validate_req_secrets
    panfs_container_storage.Pancli.Fake.create_volume
other_ids = (λ same. cc same, tt)

delete_volume-kept_example : delete_volume sanity removal one_volume ≡ (reply tt, one_volume)
delete_volume-kept_example = delete_volume-kept uuid removal one_volume valid_secrets other_ids

confirmed_one :
    validate_capabilities sanity show question one_volume ≡ (reply (capability ∷ []), one_volume)
unfolding validate_capabilities panfs_container_storage.Driver.Validators.validate_req_secrets
    panfs_container_storage.Pancli.Fake.get_volume create_volume
    panfs_container_storage.Driver.Validators.validate_create_volume_request
    panfs_container_storage.Pancli.Fake.create_volume
    panfs_container_storage.Utils.Context.get_sc_key
confirmed_one = refl

validate_capabilities-reply_example :
    IsIdentified "pvc-1" secrets
    × (capability ∷ [] ≡ capability ∷ [])
    × (capability ∷ [] ≢ [])
    × All IsMount (capability ∷ [])
    × ((vol : Option Volume) × (sanity.get_volume "pvc-1" secrets one_volume
          ≡ (ok vol, one_volume)))
validate_capabilities-reply_example =
    validate_capabilities-reply sanity show question one_volume one_volume (capability ∷ [])
      confirmed_one
