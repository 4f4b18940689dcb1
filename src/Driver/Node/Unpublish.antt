-- ===== src/Driver/Node/Unpublish.antt =====
-- NodeUnpublishVolume of pkg/driver/node.go: its replies.
use panfs_container_storage.Base.{◌≡◌, ◌≢◌, ◌↔◌, inl, inr, none, arith, Option-cases}
use panfs_container_storage.Base.Texts.{str_eq-cases}
use panfs_container_storage.Driver.Csi.{reply, NodeUnpublishVolumeRequest}
use panfs_container_storage.Driver.Mounter.{PanMounter}
use panfs_container_storage.Driver.Node.{node_unpublish_volume}

module _ (M : PanMounter) (req : NodeUnpublishVolumeRequest) where
  -- NodeUnpublishVolume succeeds exactly if the request names a volume and a target and the mounter
  -- has unmounted the target.
  pub node_unpublish_volume_iff :
      (s s' : M.State)
      → (node_unpublish_volume M req s ≡ (reply tt, s')) ↔ (
          (req.volume_id ≢ "")
          × (req.target_path ≢ "")
          × (M.unmount req.target_path s ≡ (none, s')))
  unfolding node_unpublish_volume
  node_unpublish_volume_iff s s' = elim (str_eq-cases req.volume_id "") [
    | inl (t, same) ↦ (λ h. absurd (ground arith), λ (named, _, _). absurd (named same))
    | inr (f, named) ↦ elim (str_eq-cases req.target_path "") [
      | inl (t, same) ↦ (λ h. absurd (ground arith), λ (_, targeted, _). absurd (targeted same))
      | inr (g, targeted) ↦ elim (Option-cases (M.unmount req.target_path s).0) [
        | inl e ↦ (λ h. (named, targeted, ground arith), λ (_, _, h). ground arith)
        | inr (m, e) ↦ (λ h. absurd (ground arith), λ (_, _, h). absurd (ground arith))
      ]
    ]
  ]
