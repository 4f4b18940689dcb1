-- ===== src/Driver/Serving.antt =====
-- Run of pkg/driver/driver.go behind net.Listen: the goroutine of Run, which serves, and the one
-- that handles the signal, as steps that interleave in any order. gRPC's server is a parameter.
pub mod Consistent
pub mod Shutdown
pub mod Returns
pub mod Label
use panfs_container_storage.Base.{
  ◌≡◌, ◌≢◌, ℕ, zero, suc, ◌-◌, Bool, true, false, Option, none, some,
}
use panfs_container_storage.Base.Texts.{Text}
use panfs_container_storage.Driver.NodeLabel.{Node, node_get_info, shut_down}
use panfs_container_storage.Driver.NodeLabel.Laws.{started}
use panfs_container_storage.Driver.Server.{Driver}

-- What grpcServer.Serve returns: nil, grpc.ErrServerStopped, or any other error.
pub data ServeResult : Type 0 where
  graceful server_stopped : ServeResult
  failed : Text → ServeResult

-- grpc.Server: whether it has been told to stop, how many RPCs are pending, and with what a call of
-- Serve may come back.
pub record Grpc : Type 1 where
  pub State : Type 0
  pub new_server : State
  pub is_stopped : State → Bool
  pub pending : State → ℕ
  pub accept : State → State
  pub finish : State → State
  pub graceful_stop : State → State
  pub returns : ServeResult → State → Type 0

-- What its documentation promises: GracefulStop stops the server from accepting RPCs, and leaves
-- those that are pending; Serve returns a non-nil error unless GracefulStop is called, and
-- ErrServerStopped only on a stopped server; it returns once the server is stopped and no RPC is
-- pending.
pub record IsDocumented (G : Grpc) : Type 0 where
  pub new : G.is_stopped G.new_server ≡ false
  pub accepts : (s : G.State) → G.pending (G.accept s) ≡ suc (G.pending s)
  pub accepts_on : (s : G.State) → G.is_stopped (G.accept s) ≡ G.is_stopped s
  pub finishes : (s : G.State) → G.pending (G.finish s) ≡ G.pending s - 1
  pub finishes_on : (s : G.State) → G.is_stopped (G.finish s) ≡ G.is_stopped s
  pub stops : (s : G.State) → G.is_stopped (G.graceful_stop s) ≡ true
  pub stops_none : (s : G.State) → G.pending (G.graceful_stop s) ≡ G.pending s
  pub graceful_stopped : (s : G.State) → G.returns graceful s → G.is_stopped s ≡ true
  pub server_stopped_stopped : (s : G.State) → G.returns server_stopped s → G.is_stopped s ≡ true
  pub comes_back :
      (s : G.State) → G.is_stopped s ≡ true → G.pending s ≡ 0 → (r : ServeResult) × G.returns r s

-- Where Run stands: before Serve, in it, at the receive from shutdownError, or returned.
pub data Main : Type 0 where
  starting serving awaiting : Main
  returned : Option Text → Main

-- Where the handler stands: at the receive from quit, in updateNodeLabel, before GracefulStop, in it,
-- at the send to shutdownError, or at its end.
pub data Handler : Type 0 where
  waiting signalled unlabelled stopping sending finished : Handler

-- `if !errors.Is(err, grpc.ErrServerStopped) { return err }`
unfoldable pub after_serve : ServeResult → Main
after_serve graceful = returned none
after_serve (failed e) = returned (some e)
after_serve server_stopped = awaiting

module _ (G : Grpc) where
  pub record System : Type 0 where
    pub main : Main
    pub handler : Handler
    pub server : G.State
    pub node : Node

  -- Run has called net.Listen, and has started the handler, on a node without the label.
  abbrev pub listening : System
  listening = record { main = starting; handler = waiting; server = G.new_server; node = started }

  module _ (d : Driver) where
    -- A step of Run, of its handler, or of a pending RPC, which ends. updateNodeLabel returns with the
    -- Kubernetes API's answer to the label's patch, for which it waits without a limit, and
    -- GracefulStop returns when no RPC is pending. The channel shutdownError has no buffer, so the send and the receive are one step; what is
    -- sent is nil.
    pub data Move (s : System) : System → Type 0 where
      serve : s.main ≡ starting → Move s (record s { main = serving })
      come_back :
          (r : ServeResult)
          → s.main ≡ serving
          → G.returns r s.server
          → Move s (record s { main = after_serve r })
      receive :
          s.main ≡ awaiting
          → s.handler ≡ sending
          → Move s (record s { main = returned none; handler = finished })
      signal : s.handler ≡ waiting → Move s (record s { handler = signalled })
      unlabel :
          (answer : Option Text)
          → s.handler ≡ signalled
          → Move s (record s { handler = unlabelled; node = shut_down d.has_client answer s.node })
      stop :
          s.handler ≡ unlabelled
          → Move s (record s { handler = stopping; server = G.graceful_stop s.server })
      drain :
          s.handler ≡ stopping → G.pending s.server ≡ 0 → Move s (record s { handler = sending })
      end_call : G.pending s.server ≢ 0 → Move s (record s { server = G.finish s.server })

    -- Moves, the RPCs that the server accepts until it is stopped, and the calls of NodeGetInfo: one
    -- that is served at once, and one that is pending.
    pub data Step (s : System) : System → Type 0 where
      moved : {t : System} → Move s t → Step s t
      asked :
          (answer : Option Text)
          → s.main ≡ serving
          → G.is_stopped s.server ≡ false
          → Step s (record s { node = (node_get_info d.has_client answer d.host s.node).1 })
      asked_before :
          (answer : Option Text)
          → G.pending s.server ≢ 0
          → Step s (record s { node = (node_get_info d.has_client answer d.host s.node).1 })
      accepted :
          s.main ≡ serving
          → G.is_stopped s.server ≡ false
          → Step s (record s { server = G.accept s.server })

    pub data Reach : System → Type 0 where
      start : Reach listening
      later : {s t : System} → Reach s → Step s t → Reach t

    -- Steps one after another.
    pub data Onward (s : System) : System → Type 0 where
      here : Onward s s
      next : {t u : System} → Onward s t → Step t u → Onward s u

    -- `n` moves one after another.
    pub data Moves : ℕ → System → System → Type 0 where
      stay : {s : System} → Moves zero s s
      go : {n : ℕ} {s t u : System} → Move s t → Moves n t u → Moves (suc n) s u
