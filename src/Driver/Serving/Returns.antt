-- ===== src/Driver/Serving/Returns.antt =====
-- Run returns after a signal, whatever the order of the steps.
use panfs_container_storage.Base.{
  ◌≡◌, ◌≢◌, refl, ◌⊎◌, inl, inr, ℕ, ◌+◌, ◌≤◌, ◌<◌, ◌==◌, ==_iff, true, none, arith, Bool-cases,
}
use panfs_container_storage.Driver.Server.{Driver}
use panfs_container_storage.Driver.Serving.{
  graceful, server_stopped, failed, Grpc, IsDocumented, Main, starting, serving, awaiting, returned,
  Handler, waiting, signalled, unlabelled, stopping, sending, finished, after_serve, System, Move,
  serve, come_back, receive, signal, unlabel, stop, drain, end_call, moved, Reach, later, Moves,
  stay, go,
}
use panfs_container_storage.Driver.Serving.Consistent.{IsReturned, IsConsistent, Reach-IsConsistent}

module _ (G : Grpc) (doc : IsDocumented G) (d : Driver) where
  -- How many steps are left at most.
  unfoldable main_left : Main → ℕ
  main_left starting = 3
  main_left serving = 2
  main_left awaiting = 1
  main_left (returned result) = 0

  unfoldable handler_left : Handler → ℕ
  handler_left waiting = 4
  handler_left signalled = 3
  handler_left unlabelled = 2
  handler_left stopping = 1
  handler_left sending = 0
  handler_left finished = 0

  abbrev steps_left : System G → ℕ
  steps_left s = main_left s.main + handler_left s.handler + G.pending s.server

  Move-lt : {s t : System G} → Move G d s t → steps_left t < steps_left s
  unfolding after_serve main_left handler_left
  Move-lt (serve m) = ground arith
  Move-lt (come_back graceful m k) = ground arith
  Move-lt (come_back server_stopped m k) = ground arith
  Move-lt (come_back (failed e) m k) = ground arith
  Move-lt (receive m k) = ground arith
  Move-lt (signal w) = ground arith
  Move-lt (unlabel answer w) = ground arith
  Move-lt {s} (stop w) = ground (arith, doc.stops_none s.server)
  Move-lt (drain w k) = ground arith
  Move-lt {s} (end_call k) = omega (arith, doc.finishes s.server, k)

  Moves-le : {n : ℕ} {s t : System G} → Moves G d n s t → n + steps_left t ≤ steps_left s
  Moves-le stay = omega arith
  Moves-le (go m rest) = omega (arith, Move-lt m, Moves-le rest)

  Moves-Reach : {n : ℕ} {s t : System G} → Reach G d s → Moves G d n s t → Reach G d t
  Moves-Reach r stay = r
  Moves-Reach r (go m rest) = Moves-Reach (later r (moved m)) rest

  -- A signal has come.
  abbrev pub IsSignalled : Handler → Type 0
  IsSignalled h = h ≢ waiting

  Move-IsSignalled : {s t : System G} → IsSignalled s.handler → Move G d s t → IsSignalled t.handler
  Move-IsSignalled i (serve m) = i
  Move-IsSignalled i (come_back r m k) = i
  Move-IsSignalled i (receive m k) = λ h. cc
  Move-IsSignalled i (signal w) = λ h. cc
  Move-IsSignalled i (unlabel answer w) = λ h. cc
  Move-IsSignalled i (stop w) = λ h. cc
  Move-IsSignalled i (drain w k) = λ h. cc
  Move-IsSignalled i (end_call k) = i

  Moves-IsSignalled :
      {n : ℕ} {s t : System G} → IsSignalled s.handler → Moves G d n s t → IsSignalled t.handler
  Moves-IsSignalled i stay = i
  Moves-IsSignalled i (go m rest) = Moves-IsSignalled (Move-IsSignalled i m) rest

  -- GracefulStop ends when no RPC is pending, and till then one that is pending can end.
  draining : (s : System G) → s.handler ≡ stopping → (t : System G) × Move G d s t
  draining s h = elim (Bool-cases (G.pending s.server == 0)) [
    | inl t ↦ (_, drain h ((==_iff (G.pending s.server) 0).0 t))
    | inr f ↦ (_, end_call (λ e. cc ((==_iff (G.pending s.server) 0).1 e)))
  ]

  coming_back :
      (s : System G)
      → s.main ≡ serving
      → G.is_stopped s.server ≡ true
      → (t : System G) × Move G d s t
  coming_back s m stopped = elim (Bool-cases (G.pending s.server == 0)) [
    | inl t ↦
        let (r, k) = doc.comes_back s.server stopped ((==_iff (G.pending s.server) 0).0 t) in
        (_, come_back r m k)
    | inr f ↦ (_, end_call (λ e. cc ((==_iff (G.pending s.server) 0).1 e)))
  ]

  progress :
      (s : System G) (m : Main) (h : Handler)
      → IsConsistent G doc d s
      → IsSignalled s.handler
      → s.main ≡ m
      → s.handler ≡ h
      → IsReturned s.main ⊎ ((t : System G) × Move G d s t)
  progress s (returned result) h c i a b = inl (result, a)
  progress s starting h c i a b = inr (_, serve a)
  progress s awaiting h c i a b = elim (c.awaited a) [
    | inl e ↦ inr (draining s e)
    | inr e ↦ inr (_, receive a e)
  ]
  progress s serving waiting c i a b = absurd (i b)
  progress s serving signalled c i a b = inr (_, unlabel none b)
  progress s serving unlabelled c i a b = inr (_, stop b)
  progress s serving stopping c i a b = inr (draining s b)
  progress s serving sending c i a b = inr (coming_back s a (c.stopped (inr (inl b))))
  progress s serving finished c i a b = inl (c.received b)

  main_left-le : (m : Main) → main_left m ≤ 3
  unfolding main_left
  main_left-le starting = omega arith
  main_left-le serving = omega arith
  main_left-le awaiting = omega arith
  main_left-le (returned result) = omega arith

  handler_left-le : (h : Handler) → IsSignalled h → handler_left h ≤ 3
  unfolding handler_left
  handler_left-le waiting i = absurd (i refl)
  handler_left-le signalled i = omega arith
  handler_left-le unlabelled i = omega arith
  handler_left-le stopping i = omega arith
  handler_left-le sending i = omega arith
  handler_left-le finished i = omega arith

  -- From any state that a run can reach, once a signal has come: however Run, its handler and the
  -- pending RPCs go on, they take at most six more steps and one for each RPC that is pending then,
  -- if the server accepts no other, and until Run has returned there is a step to take. So Run
  -- returns, if the Kubernetes API answers the label's patch and the pending RPCs come to an end;
  -- for these it waits without a limit.
  pub signalled-returns :
      (s : System G)
      → Reach G d s
      → IsSignalled s.handler
      → (n : ℕ) (t : System G) → Moves G d n s t
      → (n ≤ 6 + G.pending s.server) × (IsReturned t.main ⊎ ((u : System G) × Move G d t u))
  signalled-returns s r i n t moves =
      let spent = Moves-le moves in
      (
        omega (arith, main_left-le s.main, handler_left-le s.handler i, spent),
        progress t t.main t.handler (Reach-IsConsistent G doc d t (Moves-Reach r moves))
            (Moves-IsSignalled i moves) refl refl,
      )
