-- ===== src/Driver/Serving/Label.antt =====
-- The node's label when Run shuts down: the handler removes it before it stops the server.
use panfs_container_storage.Base.{
  String, ◌≡◌, ◌≢◌, refl, ap, ◌∙◌, inl, inr, ℕ, Bool-cases, arith, true, false, Option, none, some,
}
use panfs_container_storage.Driver.NodeLabel.{
  Node, node_label_key, update_node_label, node_get_info, shut_down,
}
use panfs_container_storage.Driver.NodeLabel.Laws.{
  label_of, Runs, shut_down-label, node_get_info-label,
}
use panfs_container_storage.Driver.NodeLabel.Laws as Labels
use panfs_container_storage.Driver.Server.{Driver}
use panfs_container_storage.Driver.Serving.Consistent.{Reach-IsConsistent}
use panfs_container_storage.Driver.Serving.{
  Grpc, IsDocumented, serving, Handler, waiting, signalled, unlabelled, System, Move, serve,
  come_back, receive, signal, unlabel, stop, drain, end_call, Step, moved, asked, asked_before,
  accepted, Reach, start, later, Moves, stay, go,
}

-- The label of the node on the API server.
abbrev pub label : Node → Option String
label n = label_of node_label_key n.accepted

node_get_info-label_of :
    (host : String) (n : Node) → label (node_get_info true none host n).1 ≡ some "true"
unfolding node_get_info update_node_label label_of
node_get_info-label_of host n = elim (Bool-cases n.is_node_label_set) [
  | inl t ↦ rw t refl
  | inr f ↦ rw f refl
]

module _ (G : Grpc) (d : Driver) where
  Reach-Runs : (s : System G) → Reach G d s → Runs s.node
  Reach-Runs _ start = Labels.start
  Reach-Runs _ (later r (asked answer m k)) =
      Labels.asked d.has_client answer d.host (Reach-Runs _ r)
  Reach-Runs _ (later r (asked_before answer k)) =
      Labels.asked d.has_client answer d.host (Reach-Runs _ r)
  Reach-Runs _ (later r (accepted m k)) = Reach-Runs _ r
  Reach-Runs _ (later r (moved (serve m))) = Reach-Runs _ r
  Reach-Runs _ (later r (moved (drain h k))) = Reach-Runs _ r
  Reach-Runs _ (later r (moved (end_call k))) = Reach-Runs _ r
  Reach-Runs _ (later r (moved (come_back a m k))) = Reach-Runs _ r
  Reach-Runs _ (later r (moved (receive m k))) = Reach-Runs _ r
  Reach-Runs _ (later r (moved (signal w))) = Reach-Runs _ r
  Reach-Runs _ (later r (moved (unlabel answer w))) =
      Labels.stopped d.has_client answer (Reach-Runs _ r)
  Reach-Runs _ (later r (moved (stop w))) = Reach-Runs _ r

  -- The handler has asked for the label's removal.
  abbrev IsPast : Handler → Type 0
  IsPast h = (h ≢ waiting) × (h ≢ signalled)

  Moves-node : {n : ℕ} {s t : System G} → IsPast s.handler → Moves G d n s t → t.node ≡ s.node
  Moves-node p stay = refl
  Moves-node p (go (serve m) rest) = Moves-node p rest
  Moves-node p (go (come_back r m k) rest) = Moves-node p rest
  Moves-node p (go (receive m k) rest) = Moves-node (λ h. cc, λ h. cc) rest
  Moves-node (w, _) (go (signal h) rest) = absurd (w h)
  Moves-node (_, g) (go (unlabel answer h) rest) = absurd (g h)
  Moves-node p (go (drain h k) rest) = Moves-node (λ e. cc, λ e. cc) rest
  Moves-node p (go (end_call k) rest) = Moves-node p rest
  Moves-node p (go (stop h) rest) = Moves-node (λ h. cc, λ h. cc) rest

  -- On a node that was without the label when the process started, with a client of the Kubernetes
  -- API, and with a signal for the handler: its next step can be the call of updateNodeLabel that the
  -- API accepts. If NodeGetInfo is not served after it, the node is without the label in every state
  -- that Run goes on to, to its end.
  pub label-removed :
      (s : System G)
      → Reach G d s
      → d.has_client ≡ true
      → s.handler ≡ signalled
      → (u : System G) × Move G d s u
        × (u.handler ≡ unlabelled)
        × ((n : ℕ) (t : System G) → Moves G d n u t → label t.node ≡ none)
  label-removed s r client h = (
    record s { handler = unlabelled; node = shut_down d.has_client none s.node },
    unlabel none h,
    refl,
    λ n t moves.
        ap label (Moves-node (λ e. cc, λ e. cc) moves)
        ∙ rw client (shut_down-label s.node (Reach-Runs s r)),
  )

  unlabelled-running :
      (doc : IsDocumented G) (s : System G)
      → Reach G d s
      → s.handler ≡ unlabelled
      → G.is_stopped s.server ≡ false
  unlabelled-running doc s r h = elim (Bool-cases (G.is_stopped s.server)) [
    | inr f ↦ f
    | inl t ↦ let stopped = (Reach-IsConsistent G doc d s r).running t in ground arith
  ]

  -- Between the label's removal and the stop of the server, a call of NodeGetInfo is still served.
  -- When the API accepts its patch, the label is back in every state that Run goes on to, to its
  -- end: the driver is gone and the node is labelled as ready.
  pub label-back :
      (doc : IsDocumented G) (s : System G)
      → Reach G d s
      → d.has_client ≡ true
      → s.main ≡ serving
      → s.handler ≡ unlabelled
      → (n : ℕ) (u : System G)
      → Moves G d n (record s { node = (node_get_info d.has_client none d.host s.node).1 }) u
      → Step G d s (record s { node = (node_get_info d.has_client none d.host s.node).1 })
        × (label u.node ≡ some "true")
  label-back doc s r client m h n u moves = (
    asked none m (unlabelled-running doc s r h),
    ap label (Moves-node (λ e. cc, λ e. cc) moves)
        ∙ rw client (node_get_info-label_of d.host s.node),
  )
