-- ===== src/Driver/Serving/Shutdown.antt =====
-- Run returns nil only behind the handler's calls.
use panfs_container_storage.Base.{◌≡◌, ◌≢◌, refl, inl, inr, true, Option, none}
use panfs_container_storage.Base.Texts.{Text}
use panfs_container_storage.Driver.NodeLabel.{shut_down}
use panfs_container_storage.Driver.Server.{Driver}
use panfs_container_storage.Driver.Serving.{
  Grpc, IsDocumented, returned, Handler, waiting, signalled, unlabelled, System, serve, come_back,
  receive, signal, unlabel, stop, drain, end_call, Step, moved, asked, asked_before, accepted,
  Reach, start, later, Onward, here, next,
}
use panfs_container_storage.Driver.Serving.Consistent.{HasStopped, Reach-IsConsistent}

module _ (G : Grpc) (doc : IsDocumented G) (d : Driver) where
  -- updateNodeLabel has been called for the label's removal, in the step that the handler took from
  -- a state behind the signal.
  abbrev pub HasUnlabelled : System G → Type 0
  HasUnlabelled s =
      (before : System G) × (answer : Option Text) × Reach G d before
      × (before.handler ≡ signalled)
      × Onward G d
          (record before { handler = unlabelled; node = shut_down d.has_client answer before.node })
          s

  abbrev IsPast : Handler → Type 0
  IsPast h = (h ≢ waiting) × (h ≢ signalled)

  goes_on : {s t : System G} → HasUnlabelled s → Step G d s t → HasUnlabelled t
  goes_on (before, answer, r, h, way) st = (before, answer, r, h, next way st)

  Reach-HasUnlabelled : (s : System G) → Reach G d s → IsPast s.handler → HasUnlabelled s
  Reach-HasUnlabelled _ start (w, _) = absurd (w refl)
  Reach-HasUnlabelled _ (later r (asked a m k)) p =
      goes_on (Reach-HasUnlabelled _ r p) (asked a m k)
  Reach-HasUnlabelled _ (later r (asked_before a k)) p =
      goes_on (Reach-HasUnlabelled _ r p) (asked_before a k)
  Reach-HasUnlabelled _ (later r (accepted m k)) p =
      goes_on (Reach-HasUnlabelled _ r p) (accepted m k)
  Reach-HasUnlabelled _ (later r (moved (serve m))) p =
      goes_on (Reach-HasUnlabelled _ r p) (moved (serve m))
  Reach-HasUnlabelled _ (later r (moved (come_back a m k))) p =
      goes_on (Reach-HasUnlabelled _ r p) (moved (come_back a m k))
  Reach-HasUnlabelled _ (later r (moved (receive m k))) p =
      goes_on (Reach-HasUnlabelled _ r (λ e. cc, λ e. cc)) (moved (receive m k))
  Reach-HasUnlabelled _ (later r (moved (signal h))) (_, g) = absurd (g refl)
  Reach-HasUnlabelled _ (later {s} r (moved (unlabel answer h))) p = (s, answer, r, h, here)
  Reach-HasUnlabelled _ (later r (moved (stop h))) p =
      goes_on (Reach-HasUnlabelled _ r (λ e. cc, λ e. cc)) (moved (stop h))
  Reach-HasUnlabelled _ (later r (moved (drain h k))) p =
      goes_on (Reach-HasUnlabelled _ r (λ e. cc, λ e. cc)) (moved (drain h k))
  Reach-HasUnlabelled _ (later r (moved (end_call k))) p =
      goes_on (Reach-HasUnlabelled _ r p) (moved (end_call k))

  past : (h : Handler) → HasStopped h → IsPast h
  past h (inl e) = (λ w. cc, λ w. cc)
  past h (inr (inl e)) = (λ w. cc, λ w. cc)
  past h (inr (inr e)) = (λ w. cc, λ w. cc)

  -- Run returns nil only when the server has been stopped, and, before that and after a signal,
  -- updateNodeLabel has been called for the label's removal: the steps to the return go on from the
  -- step of the handler that called it.
  pub returned-stops :
      (s : System G)
      → Reach G d s
      → s.main ≡ returned none
      → HasStopped s.handler × (G.is_stopped s.server ≡ true) × HasUnlabelled s
  returned-stops s r h =
      let c = Reach-IsConsistent G doc d s r in
      (c.ended h, c.stopped (c.ended h), Reach-HasUnlabelled s r (past s.handler (c.ended h)))
