-- ===== src/Driver/NodeLabel/Laws.antt =====
-- The label of the node over a run of the driver: NodeGetInfo, and the end of Run.
use panfs_container_storage.Base.{
  String, ◌≡◌, refl, ◌⊎◌, inl, inr, Bool, true, false, Option, none, some, List, [], ◌∷◌, arith,
  str_eq, if◌then◌else◌, Bool-cases,
}
use panfs_container_storage.Base.Texts.{Text}
use panfs_container_storage.Driver.NodeLabel.{
  node_label_key, LabelPatch, Node, update_node_label, node_get_info, shut_down,
}

-- The label's value on the API server, which the last accepted patch of it decides.
unfoldable pub label_of : String → List LabelPatch → Option String
label_of key [] = none
label_of key (p ∷ patches) = if str_eq p.key key then p.value else label_of key patches

-- The process as it starts, on a node without the label.
abbrev pub started : Node
started = record { is_node_label_set = false; accepted = [] }

-- The states that calls of NodeGetInfo and the end of Run lead to, with any answers of the API.
pub data Runs : Node → Type 0 where
  start : Runs started
  asked :
      (has_client : Bool) (answer : Option Text) (host : String) {n : Node}
      → Runs n
      → Runs (node_get_info has_client answer host n).1
  stopped :
      (has_client : Bool) (answer : Option Text) {n : Node}
      → Runs n
      → Runs (shut_down has_client answer n)

-- The global is set whenever the server has the label.
IsTracked : Node → Type 0
IsTracked n = n.is_node_label_set ≡ false → label_of node_label_key n.accepted ≡ none

Runs-IsTracked : (n : Node) → Runs n → IsTracked n
unfolding IsTracked node_get_info shut_down update_node_label label_of
Runs-IsTracked _ start = λ _. refl
Runs-IsTracked _ (asked true (some e) host {n} r) =
    let before = Runs-IsTracked n r in
    λ h. elim (Bool-cases n.is_node_label_set) [
      | inl t ↦ ground (arith, before)
      | inr f ↦ ground (arith, before)
    ]
Runs-IsTracked _ (asked true none host {n} r) =
    let before = Runs-IsTracked n r in
    λ h. elim (Bool-cases n.is_node_label_set) [
      | inl t ↦ ground (arith, before)
      | inr f ↦ ground (arith, before)
    ]
Runs-IsTracked _ (asked false a host {n} r) = Runs-IsTracked n r
Runs-IsTracked _ (stopped true (some e) {n} r) =
    let before = Runs-IsTracked n r in
    λ h. elim (Bool-cases n.is_node_label_set) [
      | inl t ↦ ground (arith, before)
      | inr f ↦ ground (arith, before)
    ]
Runs-IsTracked _ (stopped true none {n} r) =
    let before = Runs-IsTracked n r in
    λ h. elim (Bool-cases n.is_node_label_set) [
      | inl t ↦ ground (arith, before)
      | inr f ↦ ground (arith, before)
    ]
Runs-IsTracked _ (stopped false a {n} r) = Runs-IsTracked n r

-- With a client of the Kubernetes API, NodeGetInfo reports the label among the node's segments only
-- when the server has just accepted it, and otherwise changes nothing; it always answers with the
-- node's name.
pub node_get_info-label :
    (answer : Option Text) (host : String) (n : Node)
    → ((node_get_info true answer host n).0.node_id ≡ host)
      × ((((node_get_info true answer host n).0.segments ≡ [])
            × ((node_get_info true answer host n).1 ≡ n))
          ⊎ (((node_get_info true answer host n).0.segments ≡ (node_label_key, "true") ∷ [])
              × (label_of node_label_key (node_get_info true answer host n).1.accepted
                  ≡ some "true")
              × ((node_get_info true answer host n).1.is_node_label_set ≡ true)))
unfolding node_get_info update_node_label label_of
node_get_info-label none host n = elim (Bool-cases n.is_node_label_set) [
  | inl t ↦ rw t (refl, inr (refl, refl, refl))
  | inr f ↦ rw f (refl, inr (refl, refl, refl))
]
node_get_info-label (some e) host n = elim (Bool-cases n.is_node_label_set) [
  | inl t ↦ rw t (refl, inl (refl, refl))
  | inr f ↦ rw f (refl, inl (refl, refl))
]

-- When Run shuts down and the API accepts its patch, the node is left without the label, after any
-- run of the driver.
pub shut_down-label :
    (n : Node) → Runs n → label_of node_label_key (shut_down true none n).accepted ≡ none
unfolding shut_down update_node_label label_of IsTracked
shut_down-label n r = elim (Bool-cases n.is_node_label_set) [
  | inl t ↦ rw t refl
  | inr f ↦ rw f (Runs-IsTracked n r f)
]
