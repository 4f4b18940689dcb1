-- ===== src/Driver/NodeLabel.antt =====
-- updateNodeLabel of pkg/driver/driver.go with NodeGetInfo of pkg/driver/node.go, and the label's
-- removal when Run shuts the server down. The Kubernetes API is a parameter: the node's labels, and
-- whether a patch is accepted.
pub mod Laws
use panfs_container_storage.Base.{
  String, Bool, true, false, not, ◌&&◌, Option, none, some, List, [], ◌∷◌, str_eq, if◌then◌else◌,
}
use panfs_container_storage.Base.Texts.{Text}
use panfs_container_storage.Base.GoMap.{Entries}

abbrev pub node_label_key : String
node_label_key = "node.kubernetes.io/csi-driver.panfs.ready"

-- A merge patch of one label: its new value, or `none` for null.
pub record LabelPatch : Type 0 where
  pub key : String
  pub value : Option String

-- The global IsNodeLabelSet, and the patches that the API server accepted, the last one first.
pub record Node : Type 0 where
  pub is_node_label_set : Bool
  pub accepted : List LabelPatch

pub record NodeInfo : Type 0 where
  pub node_id : String
  pub segments : Entries

abbrev pub patch_of : String → String → LabelPatch
patch_of key value = record { key = key; value = if str_eq value "" then none else some value }

-- `has_client`: kubeClient is not nil. `answer` is the API's answer to the patch.
unfoldable pub update_node_label : Bool → Option Text → String → String → Node → Option Text × Node
update_node_label has_client answer key value n =
    if not has_client
    then (none, n)
    else if not n.is_node_label_set && str_eq value ""
    then (none, n)
    else elim answer [
      | some e ↦ (some e, n)
      | none ↦ (
        none,
        record {
          is_node_label_set = if str_eq value "" then n.is_node_label_set else true;
          accepted = patch_of key value ∷ n.accepted;
        },
      )
    ]

unfoldable pub node_get_info : Bool → Option Text → String → Node → NodeInfo × Node
unfolding update_node_label
node_get_info has_client answer host n =
    let done = update_node_label has_client answer node_label_key "true" n in
    (
      elim done.0 [
        | some e ↦ record { node_id = host; segments = [] }
        | none ↦ record { node_id = host; segments = (node_label_key, "true") ∷ [] }
      ],
      done.1,
    )

-- What the signal handler of Run does with the label.
unfoldable pub shut_down : Bool → Option Text → Node → Node
unfolding update_node_label
shut_down has_client answer n = (update_node_label has_client answer node_label_key "" n).1
