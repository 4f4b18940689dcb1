-- ===== src/Tests/Node.antt =====
-- NodePublishVolume, the mounter and the label of the node.
use panfs_container_storage.Base.{
  ◌≢◌, ◌↔◌, String, ◌≡◌, ◌≢◌, refl, ◌⊎◌, inl, inr, none, some, false, true, Bool, List, [], ◌∷◌,
  Option,
}
use panfs_container_storage.Base.Texts.{codes}
use panfs_container_storage.Driver.Csi.{Code, reply, status, VolumeCapability}
use panfs_container_storage.Driver.Mounter.{OsError, MountInterface, mount}
use panfs_container_storage.Driver.Mounter.Laws.{Finds, IsMade, Mounts, mount-success}
use panfs_container_storage.Driver.Node.{
  Event, mounted, node_publish_volume, mount_options, is_encrypted,
}
use panfs_container_storage.Driver.Node.Publish.{IsPublishable}
use panfs_container_storage.Driver.Node.Trace.{
  IsEncryptedMount, mount_call, encrypted_calls, node_publish_volume-reply,
}
use panfs_container_storage.Driver.Node.Cleanup.{
  left_over, FailsToMount, node_publish_volume-status, node_publish_volume-left_over,
}
use panfs_container_storage.Driver.Node.{node_unpublish_volume}
use panfs_container_storage.Driver.Node.Unpublish.{node_unpublish_volume_iff}
use panfs_container_storage.Base.Int.{pos}
use panfs_container_storage.Pancli.Fake.{Fake}
use panfs_container_storage.Utils.Parser.{Volume}
use panfs_container_storage.Driver.Csi.{CreateVolumeRequest, CsiVolume}
use panfs_container_storage.Driver.Controller.{create_volume}
use panfs_container_storage.Driver.Controller.Outcomes.{Provides}
use panfs_container_storage.Driver.Node.Publish.{source_of}
use panfs_container_storage.Driver.Node.Encryption.{IsEncrypted, created-published}
use panfs_container_storage.Tests.Inputs.{
  sanity, show, pvc, empty_fake, mounter, broken_mounter, os, publication,
}

abbrev events : List Event
events = encrypted_calls mounter os publication ("noatime" ∷ "ro" ∷ []) "/tmp/kmip-1.conf"

published : node_publish_volume mounter os publication [] ≡ (reply tt, events, "/mnt/pvc-1" ∷ [])
unfolding node_publish_volume panfs_container_storage.Driver.Validators.validate_req_secrets
    panfs_container_storage.Utils.Context.get_sc_key
published = refl

node_publish_volume-reply_example :
    (c : VolumeCapability) × IsPublishable publication c
    × (((is_encrypted publication.volume_context ≡ false)
          × (mount_call mounter os publication (mount_options publication c) []
              ≡ (none, "/mnt/pvc-1" ∷ []))
          × (events
              ≡ mounted "panfs://10.0.0.1/pvc-1" "/mnt/pvc-1" (mount_options publication c) none
                ∷ []))
        ⊎ ((is_encrypted publication.volume_context ≡ true)
            × IsEncryptedMount mounter os publication
                (mount_options publication c)
                events
                []
                ("/mnt/pvc-1" ∷ [])))
unfolding panfs_container_storage.Base.GoMap.value_at
node_publish_volume-reply_example =
    node_publish_volume-reply mounter os publication [] ("/mnt/pvc-1" ∷ []) events published

node_publish_volume-left_over_example :
    left_over [] (node_publish_volume mounter os publication []).1 ≡ []
node_publish_volume-left_over_example = node_publish_volume-left_over mounter os publication []

abbrev failed_events : List Event
failed_events = (node_publish_volume broken_mounter os publication []).1

failed :
    node_publish_volume broken_mounter os publication []
    ≡ (status Code.internal (codes "Failed to publish volume: "), failed_events, [])
unfolding node_publish_volume panfs_container_storage.Driver.Validators.validate_req_secrets
    panfs_container_storage.Utils.Context.get_sc_key
failed = refl

node_publish_volume-status_example :
    (◌≡◌ {A = List String} [] [])
    ⊎ ((Code.internal ≡ Code.internal) × FailsToMount broken_mounter os publication [] [])
node_publish_volume-status_example =
    node_publish_volume-status broken_mounter os publication [] [] failed_events Code.internal
      (codes "Failed to publish volume: ") failed

-- A file system without the target.
abbrev no_entry : OsError
no_entry = record { is_not_exist = true; is_exist = false; message = [] }

abbrev bare : MountInterface
bare = record {
  State = List String;
  is_likely_not_mount_point = λ target s. (true, some no_entry);
  is_mount_point = λ target s. (false, some no_entry);
  mount = λ source target type options s. (none, "mounted" ∷ s);
  cleanup_mount_point = λ target s. (none, s);
  mkdir_all = λ path s. (none, "made" ∷ s);
}

mounted_bare : mount bare "panfs://10.0.0.1/pvc-1" "/mnt" [] [] ≡ (none, "mounted" ∷ "made" ∷ [])
unfolding mount
mounted_bare = refl

mount-success_example :
    (not_mnt : Bool) × (e : Option OsError) × (t : List String) × Finds bare
      "panfs://10.0.0.1/pvc-1" "/mnt" [] [] not_mnt e
    × (((e ≡ none) × ([] ≡ t))
        ⊎ ((x : OsError) × (e ≡ some x)
            × (x.is_not_exist ≡ true)
            × IsMade bare "panfs://10.0.0.1/pvc-1" "/mnt" [] [] t))
    × (((not_mnt ≡ false) × (t ≡ "mounted" ∷ "made" ∷ []))
        ⊎ ((not_mnt ≡ true)
            × Mounts bare "panfs://10.0.0.1/pvc-1" "/mnt" [] t ("mounted" ∷ "made" ∷ [])))
mount-success_example =
    mount-success bare "panfs://10.0.0.1/pvc-1" "/mnt" [] [] ("mounted" ∷ "made" ∷ []) mounted_bare

node_unpublish_volume_iff_example :
    (node_unpublish_volume mounter
        (record { volume_id = "pvc-1"; target_path = "/mnt" })
        ("/mnt" ∷ [])
      ≡ (reply tt, []))
    ↔ ((◌≢◌ {A = String} "pvc-1" "")
        × (◌≢◌ {A = String} "/mnt" "")
        × (mounter.unmount "/mnt" ("/mnt" ∷ []) ≡ (none, [])))
node_unpublish_volume_iff_example =
    node_unpublish_volume_iff mounter (record { volume_id = "pvc-1"; target_path = "/mnt" })
      ("/mnt" ∷ []) []

-- A volume with encryption in its parameters, created in the sanity mode and then published.
abbrev encrypted_pvc : CreateVolumeRequest
encrypted_pvc = record pvc { parameters = some (("panfs.csi.vdura.com/encryption", "on") ∷ []) }

abbrev made : CsiVolume
made = record {
  capacity_bytes = pos 2147483648;
  volume_id = "pvc-1";
  volume_context = ("panfs.csi.vdura.com/encryption", "on") ∷ [];
}

abbrev made_fake : Fake
made_fake = (create_volume sanity show encrypted_pvc empty_fake).1

made_pvc : create_volume sanity show encrypted_pvc empty_fake ≡ (reply made, made_fake)
unfolding create_volume panfs_container_storage.Driver.Validators.validate_create_volume_request
    panfs_container_storage.Base.GoMap.find panfs_container_storage.Utils.Context.get_sc_key
    panfs_container_storage.Driver.Validators.validate_req_secrets
    panfs_container_storage.Pancli.Fake.create_volume
    panfs_container_storage.Utils.Parser.get_soft_quota_bytes
    panfs_container_storage.Utils.Parser.volume_context
    panfs_container_storage.Utils.Convert.gb_to_bytes
    panfs_container_storage.Utils.Convert.bytes_string_to_gb
    panfs_container_storage.Base.Decimal.parse_int panfs_container_storage.Base.Decimal.format_int
made_pvc = refl

created-published_example :
    (vol : Volume) × Provides sanity encrypted_pvc empty_fake vol made_fake
    × (c : VolumeCapability) × IsPublishable publication c
    × (((¬ IsEncrypted vol)
          × (events
              ≡ mounted (source_of publication) "/mnt/pvc-1" (mount_options publication c) none
                ∷ []))
        ⊎ (IsEncrypted vol
            × IsEncryptedMount mounter os publication
                (mount_options publication c)
                events
                []
                ("/mnt/pvc-1" ∷ [])))
created-published_example =
    created-published sanity show encrypted_pvc empty_fake made_fake made made_pvc mounter os
      publication [] ("/mnt/pvc-1" ∷ []) events refl published
