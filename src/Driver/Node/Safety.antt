-- ===== src/Driver/Node/Safety.antt =====
-- The handlers of the node service do not panic, over any mounter.
use panfs_container_storage.Base.{Option, some, ◌≢◌, inl, inr, none}
use panfs_container_storage.Driver.Csi.{
  Reply, panicked, NodePublishVolumeRequest, NodeUnpublishVolumeRequest,
}
use panfs_container_storage.Driver.Mounter.{PanMounter}
use panfs_container_storage.Driver.Node.{Os, node_publish_volume, node_unpublish_volume}
use panfs_container_storage.Driver.Node.Mounts.{
  Reports, node_publish_volume-MountsOnce, node_unpublish_volume-UnmountsOnce,
}
use panfs_container_storage.Base.Results.{Error}

Reports-ne-panicked :
    (answer : Reply (Unit {0})) (e : Option Error) → Reports answer e → answer ≢ panicked
Reports-ne-panicked answer none r h = cc
Reports-ne-panicked answer (some e) (code, m, r) h = cc

pub node_publish_volume-ne-panicked :
    (M : PanMounter) (os : Os) (req : NodePublishVolumeRequest) (s : M.State)
    → (node_publish_volume M os req s).0 ≢ panicked
node_publish_volume-ne-panicked M os req s h = elim (node_publish_volume-MountsOnce M os req s) [
  | inl ((code, m, refused), _) ↦ cc
  | inr (c, _, inl ((code, m, refused), _)) ↦ cc
  | inr (c, _, inr (options, reports, _)) ↦ Reports-ne-panicked _ _ reports h
]

pub node_unpublish_volume-ne-panicked :
    (M : PanMounter) (req : NodeUnpublishVolumeRequest) (s : M.State)
    → (node_unpublish_volume M req s).0 ≢ panicked
node_unpublish_volume-ne-panicked M req s h = elim (node_unpublish_volume-UnmountsOnce M req s) [
  | inl ((code, m, refused), _) ↦ cc
  | inr (_, _, reports, _) ↦ Reports-ne-panicked _ _ reports h
]
