-- ===== src/Tests/Create.antt =====
-- CreateVolume.
use panfs_container_storage.Base.{
  String, ◌≢◌, ◌≡◌, ◌<◌, ◌^◌, refl, ◌⊎◌, none, some, List, [], ◌∷◌, arith,
}
use panfs_container_storage.Base.Int.{pos}
use panfs_container_storage.Base.Texts.{codes}
use panfs_container_storage.Utils.Convert.{gb_to_bytes}
use panfs_container_storage.Utils.Parser.{Volume}
use panfs_container_storage.Pancli.Fake.{Fake, find_volume, new_fake}
use panfs_container_storage.Driver.Csi.{Code, reply, status, CsiVolume}
use panfs_container_storage.Driver.Controller.{create_volume, provision, created_volume}
use panfs_container_storage.Driver.Controller.Create.{IsAcceptable, IsRefused, create_volume-gate}
use panfs_container_storage.Driver.Controller.Outcomes.{
  Provides, Conflicts, create_volume-reply, create_volume-status,
}
use panfs_container_storage.Driver.Controller.Repeat.{create_volume-quotas, create_volume-repeat}
use panfs_container_storage.Driver.Controller.Realm.{
  CreatesOnRealm, FindsOnRealm, create_volume-realm,
}
use panfs_container_storage.Driver.Provider.{ssh_provider}
use panfs_container_storage.Driver.Validators.Requests.{Fits}
use panfs_container_storage.Base.{ℕ, List, ◌≤◌, arith}
use panfs_container_storage.Driver.Controller.Overlap.{creating, answered, times, interleave}
use panfs_container_storage.Driver.Controller.Overlap.Once.{response, interleave-answered}
use panfs_container_storage.Driver.Controller.Repeat
use panfs_container_storage.Tests.Inputs.{
  runner, unmarshal, uuid, show, sanity, empty_fake, pvc, unnamed,
}

abbrev volume : CsiVolume
volume = record {
  capacity_bytes = pos 2147483648;
  volume_id = "pvc-1";
  volume_context = ("panfs.csi.vdura.com/encryption", "none") ∷ [];
}

abbrev after : Fake
after = (create_volume sanity show pvc empty_fake).1

created_first : create_volume sanity show pvc empty_fake ≡ (reply volume, after)
unfolding create_volume panfs_container_storage.Driver.Validators.validate_create_volume_request
    panfs_container_storage.Base.GoMap.find panfs_container_storage.Utils.Context.get_sc_key
    panfs_container_storage.Driver.Validators.validate_req_secrets
    panfs_container_storage.Pancli.Fake.create_volume
    panfs_container_storage.Utils.Parser.get_soft_quota_bytes
    panfs_container_storage.Utils.Parser.volume_context gb_to_bytes
    panfs_container_storage.Utils.Convert.bytes_string_to_gb
    panfs_container_storage.Base.Decimal.parse_int panfs_container_storage.Base.Decimal.format_int
created_first = refl

create_volume-repeat_example : create_volume sanity show pvc after ≡ (reply volume, after)
create_volume-repeat_example =
    create_volume-repeat uuid pvc show empty_fake after volume created_first (omega arith)
      (omega arith)

nothing_there : find_volume "pvc-1" empty_fake.volumes ≡ none
unfolding find_volume
nothing_there = refl

create_volume-quotas_example :
    (volume.capacity_bytes ≡ pos 2147483648)
    × (vol : Volume) × (find_volume "pvc-1" after.volumes ≡ some vol)
    × (gb_to_bytes vol.soft ≡ pos 2147483648)
    × (gb_to_bytes vol.hard ≡ pos 4294967296)
create_volume-quotas_example =
    create_volume-quotas uuid pvc show empty_fake after volume created_first nothing_there
      (omega arith) (omega arith)

create_volume-gate_example :
    (IsAcceptable pvc × ((s : Fake) → create_volume sanity show pvc s ≡ provision sanity pvc s))
    ⊎ ((¬ IsAcceptable pvc) × IsRefused sanity show pvc)
create_volume-gate_example = create_volume-gate sanity show pvc

create_volume-reply_example :
    IsAcceptable pvc
    × ((vol : Volume) × Provides sanity pvc empty_fake vol after
        × (created_volume "pvc-1" vol ≡ volume))
create_volume-reply_example =
    create_volume-reply sanity pvc show empty_fake after volume created_first

refused_unnamed :
    create_volume sanity show unnamed empty_fake
    ≡ (status Code.invalid_argument (codes "name must be provided"), empty_fake)
unfolding create_volume panfs_container_storage.Driver.Validators.validate_create_volume_request
refused_unnamed = refl

create_volume-status_example :
    ((Code.invalid_argument ≡ Code.invalid_argument)
      × (¬ IsAcceptable unnamed)
      × (empty_fake ≡ empty_fake))
    ⊎ ((Code.invalid_argument ≡ Code.already_exists)
        × IsAcceptable unnamed
        × Conflicts sanity unnamed empty_fake empty_fake)
    ⊎ ((Code.invalid_argument ≡ Code.internal) × IsAcceptable unnamed)
create_volume-status_example =
    create_volume-status sanity unnamed show empty_fake empty_fake Code.invalid_argument
      (codes "name must be provided") refused_unnamed

abbrev listed : CsiVolume
listed = record {
  capacity_bytes = pos 0;
  volume_id = "pvc-1";
  volume_context = ("panfs.csi.vdura.com/encryption", "none") ∷ [];
}

created_on_realm : create_volume (ssh_provider runner unmarshal) show pvc tt ≡ (reply listed, tt)
unfolding create_volume panfs_container_storage.Driver.Validators.validate_create_volume_request
    panfs_container_storage.Base.GoMap.find panfs_container_storage.Utils.Context.get_sc_key
    panfs_container_storage.Driver.Validators.validate_req_secrets
    panfs_container_storage.Pancli.Client.create_volume
    panfs_container_storage.Utils.Parser.get_soft_quota_bytes
    panfs_container_storage.Utils.Parser.volume_context gb_to_bytes
    panfs_container_storage.Pancli.Fake.new_volume
    panfs_container_storage.Utils.Convert.bytes_string_to_gb
    panfs_container_storage.Base.Decimal.parse_int
created_on_realm = refl

create_volume-realm_example :
    IsAcceptable pvc
    × ((vol : Volume) × (created_volume "pvc-1" vol ≡ listed)
        × (CreatesOnRealm runner unmarshal pvc tt vol tt
            ⊎ (FindsOnRealm runner unmarshal pvc tt vol tt × Fits pvc.capacity_range vol)))
create_volume-realm_example =
    create_volume-realm runner unmarshal pvc show tt tt listed created_on_realm

-- Three overlapping calls, of which the second makes the volume.
abbrev schedule : List ℕ
schedule = 1 ∷ 0 ∷ 2 ∷ 2 ∷ 0 ∷ 1 ∷ []

interleave-answered_example :
    ((interleave sanity pvc schedule
          (record { progress = λ j. creating; state = empty_fake })).progress
        2
      ≡ answered (reply (response uuid pvc empty_fake)))
    × ((interleave sanity pvc schedule
          (record { progress = λ j. creating; state = empty_fake })).state
        ≡ Repeat.after uuid pvc empty_fake)
unfolding times find_volume
interleave-answered_example =
    interleave-answered uuid pvc empty_fake refl (omega arith) (omega arith) schedule 2
      (omega arith)
