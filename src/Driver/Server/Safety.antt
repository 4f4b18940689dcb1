-- ===== src/Driver/Server/Safety.antt =====
-- The server over a safe provider: no call ends the process.
use panfs_container_storage.Base.{
  ◌≡◌, ◌≢◌, refl, inl, inr, suc, ap, List, [], ◌∷◌, arith, str_eq, length, All, Bool-cases,
}
use panfs_container_storage.Base.Texts.{Text}
use panfs_container_storage.Driver.Csi.{panicked, VolumeCapability}
use panfs_container_storage.Driver.Provider.Safety.{IsSafe}
use panfs_container_storage.Driver.Controller.Safety.{
  create_volume-ne-panicked, delete_volume-ne-panicked, validate_capabilities-ne-panicked,
  controller_expand_volume-ne-panicked,
}
use panfs_container_storage.Driver.Identity
use panfs_container_storage.Driver.Node.Safety.{
  node_publish_volume-ne-panicked, node_unpublish_volume-ne-panicked,
}
use panfs_container_storage.Driver.NodeLabel.{Node}
use panfs_container_storage.Driver.Server.{
  Driver, State, Query, query, Refusal, refusal, VolumeCall, create_volume,
  validate_volume_capabilities, volume_call, NodeCall, node_get_info, node_call, Call, Answer,
  empty, plugin_info, plugin_capabilities, controller_capabilities, node_capabilities, volume,
  confirmed, expanded, node_info, refuse, answer_query, serve_volume, serve_node, serve, serve_all,
}

-- A response or a status: not a panic.
abbrev pub IsAnswered : Answer → Type 0
IsAnswered (empty r) = r ≢ panicked
IsAnswered (plugin_info r) = r ≢ panicked
IsAnswered (plugin_capabilities r) = r ≢ panicked
IsAnswered (controller_capabilities r) = r ≢ panicked
IsAnswered (node_capabilities r) = r ≢ panicked
IsAnswered (volume r) = r ≢ panicked
IsAnswered (confirmed r) = r ≢ panicked
IsAnswered (expanded r) = r ≢ panicked
IsAnswered (node_info r) = r ≢ panicked

refuse-ne-panicked : (r : Refusal) → refuse r ≢ panicked
refuse-ne-panicked Refusal.controller_publish_volume h = cc
refuse-ne-panicked Refusal.controller_unpublish_volume h = cc
refuse-ne-panicked Refusal.list_volumes h = cc
refuse-ne-panicked Refusal.controller_get_volume h = cc
refuse-ne-panicked Refusal.get_capacity h = cc
refuse-ne-panicked Refusal.create_snapshot h = cc
refuse-ne-panicked Refusal.delete_snapshot h = cc
refuse-ne-panicked Refusal.list_snapshots h = cc
refuse-ne-panicked Refusal.node_stage_volume h = cc
refuse-ne-panicked Refusal.node_unstage_volume h = cc
refuse-ne-panicked Refusal.node_expand_volume h = cc
refuse-ne-panicked Refusal.node_get_volume_stats h = cc

module _ (show : VolumeCapability → Text) (d : Driver) (safe : IsSafe d.panfs) where
  answer_query-IsAnswered : (q : Query) → IsAnswered (answer_query show d q)
  unfolding Identity.get_plugin_info Identity.get_plugin_capabilities Identity.probe
      Identity.controller_get_capabilities Identity.node_get_capabilities
  answer_query-IsAnswered Query.get_plugin_info = λ h. elim (Bool-cases (str_eq d.name "")) [
    | inl y ↦ absurd (ground arith)
    | inr n ↦ absurd (ground arith)
  ]
  answer_query-IsAnswered Query.get_plugin_capabilities = λ h. cc
  answer_query-IsAnswered Query.probe = λ h. cc
  answer_query-IsAnswered Query.controller_get_capabilities = λ h. cc
  answer_query-IsAnswered Query.node_get_capabilities = λ h. cc

  serve_volume-IsAnswered :
      (c : VolumeCall) (s : d.panfs.State) → IsAnswered (serve_volume show d c s).0
  unfolding serve_volume
  serve_volume-IsAnswered (create_volume req) s = create_volume-ne-panicked d.panfs safe show req s
  serve_volume-IsAnswered (VolumeCall.delete_volume req) s =
      delete_volume-ne-panicked d.panfs safe req s
  serve_volume-IsAnswered (validate_volume_capabilities req) s =
      validate_capabilities-ne-panicked d.panfs safe show req s
  serve_volume-IsAnswered (VolumeCall.controller_expand_volume req) s =
      controller_expand_volume-ne-panicked d.panfs safe req s

  serve_node-IsAnswered :
      (c : NodeCall) (m : d.mounter.State) (n : Node) → IsAnswered (serve_node show d c m n).0
  unfolding serve_node
  serve_node-IsAnswered (NodeCall.node_publish_volume os req) m n =
      node_publish_volume-ne-panicked d.mounter os req m
  serve_node-IsAnswered (NodeCall.node_unpublish_volume req) m n =
      node_unpublish_volume-ne-panicked d.mounter req m
  serve_node-IsAnswered (node_get_info answer) m n = λ h. cc

  serve-IsAnswered : (c : Call) (s : State d) → IsAnswered (serve show d c s).0
  unfolding serve
  serve-IsAnswered (query q) s = answer_query-IsAnswered q
  serve-IsAnswered (refusal r) s = refuse-ne-panicked r
  serve-IsAnswered (volume_call c) s = serve_volume-IsAnswered c s.panfs
  serve-IsAnswered (node_call c) s = serve_node-IsAnswered c s.mounter s.node

  -- Over a provider that does not panic, the driver answers every call of a sequence, one answer
  -- for each, with a response or a status: no call ends the process.
  pub serve_all-IsAnswered :
      (calls : List Call) (s : State d)
      → (length (serve_all show d calls s).0 ≡ length calls)
        × All IsAnswered (serve_all show d calls s).0
  unfolding serve_all
  serve_all-IsAnswered [] s = (refl, tt)
  serve_all-IsAnswered (c ∷ calls) s =
      let done = serve show d c s in
      let (same, rest) = serve_all-IsAnswered calls done.1 in
      (ap suc same, (serve-IsAnswered c s, rest))
