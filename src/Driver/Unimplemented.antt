-- ===== src/Driver/Unimplemented.antt =====
-- The handlers of pkg/driver/controller.go and pkg/driver/node.go that answer codes.Unimplemented
-- with an empty message, and read nothing but what they log.
use panfs_container_storage.Base.{[]}
use panfs_container_storage.Driver.Csi.{Code, Reply, status}

-- status.Error(codes.Unimplemented, "")
abbrev unimplemented {ℓ} : {A : Type ℓ} → Reply A
unimplemented = status Code.unimplemented []

abbrev pub controller_publish_volume : Reply (Unit {0})
controller_publish_volume = unimplemented

abbrev pub controller_unpublish_volume : Reply (Unit {0})
controller_unpublish_volume = unimplemented

abbrev pub list_volumes : Reply (Unit {0})
list_volumes = unimplemented

abbrev pub controller_get_volume : Reply (Unit {0})
controller_get_volume = unimplemented

abbrev pub get_capacity : Reply (Unit {0})
get_capacity = unimplemented

abbrev pub create_snapshot : Reply (Unit {0})
create_snapshot = unimplemented

abbrev pub delete_snapshot : Reply (Unit {0})
delete_snapshot = unimplemented

abbrev pub list_snapshots : Reply (Unit {0})
list_snapshots = unimplemented

abbrev pub node_stage_volume : Reply (Unit {0})
node_stage_volume = unimplemented

abbrev pub node_unstage_volume : Reply (Unit {0})
node_unstage_volume = unimplemented

abbrev pub node_expand_volume : Reply (Unit {0})
node_expand_volume = unimplemented

abbrev pub node_get_volume_stats : Reply (Unit {0})
node_get_volume_stats = unimplemented
