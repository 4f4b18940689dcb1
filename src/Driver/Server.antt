-- ===== src/Driver/Server.antt =====
-- The server that Run of pkg/driver/driver.go registers: the identity, controller and node services
-- of one Driver. Its state is the provider's, the mounter's and the node label's; a call carries,
-- beside its request, what the operating system and the Kubernetes API answer during it.
pub mod Frames
pub mod Safety
pub mod Volumes
pub mod Overlap
use panfs_container_storage.Base.{String, Bool, Option, List, [], ◌∷◌}
use panfs_container_storage.Base.Texts.{Text}
use panfs_container_storage.Driver.Csi.{
  Reply, reply, VolumeCapability, CreateVolumeRequest, CsiVolume, DeleteVolumeRequest,
  ValidateVolumeCapabilitiesRequest, ControllerExpandVolumeRequest, ControllerExpandVolumeResponse,
  NodePublishVolumeRequest, NodeUnpublishVolumeRequest,
}
use panfs_container_storage.Driver.Controller
use panfs_container_storage.Driver.Identity
use panfs_container_storage.Driver.Identity.{
  PluginCapability, PluginInfo, ControllerCapability, NodeCapability,
}
use panfs_container_storage.Driver.Mounter.{PanMounter}
use panfs_container_storage.Driver.Node as NodeService
use panfs_container_storage.Driver.Node.{Os}
use panfs_container_storage.Driver.NodeLabel
use panfs_container_storage.Driver.NodeLabel.{Node, NodeInfo}
use panfs_container_storage.Driver.Provider.{StorageProvider}
use panfs_container_storage.Driver.Unimplemented

-- Driver: what the handlers read of it. `has_client`: kubeClient is not nil.
pub record Driver : Type 1 where
  pub name : String
  pub version : String
  pub host : String
  pub endpoint : String
  pub panfs : StorageProvider
  pub mounter : PanMounter
  pub has_client : Bool

pub record State (d : Driver) : Type 0 where
  pub panfs : d.panfs.State
  pub mounter : d.mounter.State
  pub node : Node

-- A call of the identity service, or of one that only lists capabilities.
pub data Query : Type 0 where
  get_plugin_info get_plugin_capabilities probe : Query
  controller_get_capabilities node_get_capabilities : Query

-- A call that is not implemented.
pub data Refusal : Type 0 where
  controller_publish_volume controller_unpublish_volume list_volumes : Refusal
  controller_get_volume get_capacity : Refusal
  create_snapshot delete_snapshot list_snapshots : Refusal
  node_stage_volume node_unstage_volume node_expand_volume node_get_volume_stats : Refusal

-- A call that reads or changes volumes.
pub data VolumeCall : Type 0 where
  create_volume : CreateVolumeRequest → VolumeCall
  delete_volume : DeleteVolumeRequest → VolumeCall
  validate_volume_capabilities : ValidateVolumeCapabilitiesRequest → VolumeCall
  controller_expand_volume : ControllerExpandVolumeRequest → VolumeCall

-- A call that changes the node.
pub data NodeCall : Type 0 where
  node_publish_volume : Os → NodePublishVolumeRequest → NodeCall
  node_unpublish_volume : NodeUnpublishVolumeRequest → NodeCall
  node_get_info : Option Text → NodeCall

pub data Call : Type 0 where
  query : Query → Call
  refusal : Refusal → Call
  volume_call : VolumeCall → Call
  node_call : NodeCall → Call

pub data Answer : Type 0 where
  empty : Reply (Unit {0}) → Answer
  plugin_info : Reply PluginInfo → Answer
  plugin_capabilities : Reply (List PluginCapability) → Answer
  controller_capabilities : Reply (List ControllerCapability) → Answer
  node_capabilities : Reply (List NodeCapability) → Answer
  volume : Reply CsiVolume → Answer
  confirmed : Reply (List VolumeCapability) → Answer
  expanded : Reply ControllerExpandVolumeResponse → Answer
  node_info : Reply NodeInfo → Answer

abbrev pub refuse : Refusal → Reply (Unit {0})
refuse controller_publish_volume = Unimplemented.controller_publish_volume
refuse controller_unpublish_volume = Unimplemented.controller_unpublish_volume
refuse list_volumes = Unimplemented.list_volumes
refuse controller_get_volume = Unimplemented.controller_get_volume
refuse get_capacity = Unimplemented.get_capacity
refuse create_snapshot = Unimplemented.create_snapshot
refuse delete_snapshot = Unimplemented.delete_snapshot
refuse list_snapshots = Unimplemented.list_snapshots
refuse node_stage_volume = Unimplemented.node_stage_volume
refuse node_unstage_volume = Unimplemented.node_unstage_volume
refuse node_expand_volume = Unimplemented.node_expand_volume
refuse node_get_volume_stats = Unimplemented.node_get_volume_stats

module _ (show : VolumeCapability → Text) (d : Driver) where
  abbrev pub answer_query : Query → Answer
  answer_query get_plugin_info = plugin_info (Identity.get_plugin_info d.name d.version)
  answer_query get_plugin_capabilities = plugin_capabilities Identity.get_plugin_capabilities
  answer_query probe = empty Identity.probe
  answer_query controller_get_capabilities =
      controller_capabilities Identity.controller_get_capabilities
  answer_query node_get_capabilities = node_capabilities Identity.node_get_capabilities

  unfoldable pub serve_volume : VolumeCall → d.panfs.State → Answer × d.panfs.State
  serve_volume (create_volume req) s =
      let done = Controller.create_volume d.panfs show req s in (volume done.0, done.1)
  serve_volume (delete_volume req) s =
      let done = Controller.delete_volume d.panfs req s in (empty done.0, done.1)
  serve_volume (validate_volume_capabilities req) s =
      let done = Controller.validate_capabilities d.panfs show req s in (confirmed done.0, done.1)
  serve_volume (controller_expand_volume req) s =
      let done = Controller.controller_expand_volume d.panfs req s in (expanded done.0, done.1)

  -- What a node call answers, and the states of the mounter and of the label.
  unfoldable pub serve_node : NodeCall → d.mounter.State → Node → Answer × d.mounter.State × Node
  serve_node (node_publish_volume os req) m n =
      let done = NodeService.node_publish_volume d.mounter os req m in (empty done.0, done.2, n)
  serve_node (node_unpublish_volume req) m n =
      let done = NodeService.node_unpublish_volume d.mounter req m in (empty done.0, done.1, n)
  serve_node (node_get_info answer) m n =
      let done = NodeLabel.node_get_info d.has_client answer d.host n in
      (node_info (reply done.0), m, done.1)

  unfoldable pub serve : Call → State d → Answer × State d
  unfolding serve_volume serve_node
  serve (query q) s = (answer_query q, s)
  serve (refusal r) s = (empty (refuse r), s)
  serve (volume_call c) s =
      let done = serve_volume c s.panfs in (done.0, record s { panfs = done.1 })
  serve (node_call c) s =
      let done = serve_node c s.mounter s.node in
      (done.0, record s { mounter = done.1; node = done.2 })

  -- The calls one after another, with their answers.
  unfoldable pub serve_all : List Call → State d → List Answer × State d
  unfolding serve
  serve_all [] s = ([], s)
  serve_all (c ∷ calls) s =
      let done = serve c s in let rest = serve_all calls done.1 in (done.0 ∷ rest.0, rest.1)
