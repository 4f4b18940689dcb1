-- ===== src/Driver/Identity.antt =====
-- pkg/driver/identity.go, and the capabilities that the three services list.
use panfs_container_storage.Base.{String, List, [], ◌∷◌, str_eq, if◌then◌else◌}
use panfs_container_storage.Base.Texts.{codes}
use panfs_container_storage.Driver.Csi.{Code, Reply, reply, status}

-- PluginCapability: of a service, and of volume expansion.
pub data PluginCapability : Type 0 where
  controller_service : PluginCapability
  online_expansion : PluginCapability

pub record PluginInfo : Type 0 where
  pub name : String
  pub vendor_version : String

pub data ControllerCapability : Type 0 where
  create_delete_volume expand_volume single_node_multi_writer : ControllerCapability

pub data NodeCapability : Type 0 where
  single_node_multi_writer stage_unstage_volume expand_volume get_volume_stats : NodeCapability

unfoldable pub get_plugin_info : String → String → Reply PluginInfo
get_plugin_info name version =
    if str_eq name ""
    then status Code.unavailable (codes "Driver name not configured")
    else reply (record { name = name; vendor_version = version })

unfoldable pub get_plugin_capabilities : Reply (List PluginCapability)
get_plugin_capabilities = reply (controller_service ∷ online_expansion ∷ [])

unfoldable pub probe : Reply (Unit {0})
probe = reply tt

pub controller_capabilities : List ControllerCapability
controller_capabilities =
    ControllerCapability.create_delete_volume ∷ ControllerCapability.expand_volume
    ∷ ControllerCapability.single_node_multi_writer ∷ []

unfoldable pub controller_get_capabilities : Reply (List ControllerCapability)
unfolding controller_capabilities
controller_get_capabilities = reply controller_capabilities

unfoldable pub node_get_capabilities : Reply (List NodeCapability)
node_get_capabilities = reply (NodeCapability.single_node_multi_writer ∷ [])
