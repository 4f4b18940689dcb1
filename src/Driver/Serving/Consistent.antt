-- ===== src/Driver/Serving/Consistent.antt =====
-- What holds between Run and its handler in every state that they reach.
use panfs_container_storage.Base.{◌≡◌, refl, sym, ◌∙◌, ◌⊎◌, inl, inr, true, Option, none, arith}
use panfs_container_storage.Base.Texts.{Text}
use panfs_container_storage.Driver.NodeLabel.{Node, node_get_info}
use panfs_container_storage.Driver.Server.{Driver}
use panfs_container_storage.Driver.Serving.{
  graceful, server_stopped, failed, Grpc, IsDocumented, Main, awaiting, returned, Handler, stopping,
  sending, finished, after_serve, System, Move, serve, come_back, receive, signal, unlabel, stop,
  drain, end_call, moved, asked, asked_before, accepted, Reach, start, later,
}

-- The handler has stopped the server.
abbrev pub HasStopped : Handler → Type 0
HasStopped h = (h ≡ stopping) ⊎ (h ≡ sending) ⊎ (h ≡ finished)

abbrev pub IsReturned : Main → Type 0
IsReturned m = (result : Option Text) × (m ≡ returned result)

module _ (G : Grpc) (doc : IsDocumented G) (d : Driver) where
  -- What holds between the two goroutines.
  pub record IsConsistent (s : System G) : Type 0 where
    pub stopped : HasStopped s.handler → G.is_stopped s.server ≡ true
    pub running : G.is_stopped s.server ≡ true → HasStopped s.handler
    pub awaited : s.main ≡ awaiting → (s.handler ≡ stopping) ⊎ (s.handler ≡ sending)
    pub ended : s.main ≡ returned none → HasStopped s.handler
    pub received : s.handler ≡ finished → IsReturned s.main

  Move-IsConsistent : {s t : System G} → IsConsistent s → Move G d s t → IsConsistent t
  unfolding after_serve
  Move-IsConsistent {s} c (serve m) = record {
    stopped = λ h. ground arith;
    running = λ h. ground arith;
    awaited = λ h. ground arith;
    ended = λ h. ground arith;
    received = λ h. ground arith;
  }
  Move-IsConsistent {s} c (come_back graceful m k) = record {
    stopped = λ h. ground (arith, doc.graceful_stopped s.server k);
    running = λ h. ground (arith, doc.graceful_stopped s.server k);
    awaited = λ h. ground (arith, doc.graceful_stopped s.server k);
    ended = λ h. ground (arith, doc.graceful_stopped s.server k);
    received = λ h. ground (arith, doc.graceful_stopped s.server k);
  }
  Move-IsConsistent {s} c (come_back server_stopped m k) = record {
    stopped = λ h. ground (arith, doc.server_stopped_stopped s.server k);
    running = λ h. ground (arith, doc.server_stopped_stopped s.server k);
    awaited = λ h. ground (arith, doc.server_stopped_stopped s.server k);
    ended = λ h. ground (arith, doc.server_stopped_stopped s.server k);
    received = λ h. ground (arith, doc.server_stopped_stopped s.server k);
  }
  Move-IsConsistent {s} c (come_back (failed e) m k) = record {
    stopped = λ h. ground arith;
    running = λ h. ground arith;
    awaited = λ h. ground arith;
    ended = λ h. ground arith;
    received = λ h. ground arith;
  }
  Move-IsConsistent {s} c (receive m k) = record {
    stopped = λ h. ground arith;
    running = λ h. ground arith;
    awaited = λ h. ground arith;
    ended = λ h. ground arith;
    received = λ h. ground arith;
  }
  Move-IsConsistent {s} c (signal w) = record {
    stopped = λ h. ground arith;
    running = λ h. ground arith;
    awaited = λ h. ground arith;
    ended = λ h. ground arith;
    received = λ h. ground arith;
  }
  Move-IsConsistent {s} c (unlabel answer w) = record {
    stopped = λ h. ground arith;
    running = λ h. ground arith;
    awaited = λ h. ground arith;
    ended = λ h. ground arith;
    received = λ h. ground arith;
  }
  Move-IsConsistent {s} c (stop w) = record {
    stopped = λ h. ground (arith, doc.stops s.server);
    running = λ h. ground (arith, doc.stops s.server);
    awaited = λ h. ground (arith, doc.stops s.server);
    ended = λ h. ground (arith, doc.stops s.server);
    received = λ h. ground (arith, doc.stops s.server);
  }
  Move-IsConsistent {s} c (drain h k) = record {
    stopped = λ e. c.stopped (inl h);
    running = λ e. inr (inl refl);
    awaited = λ e. inr refl;
    ended = λ e. inr (inl refl);
    received = λ e. cc;
  }
  Move-IsConsistent {s} c (end_call k) = record {
    stopped = λ h. doc.finishes_on s.server ∙ c.stopped h;
    running = λ h. c.running (sym (doc.finishes_on s.server) ∙ h);
    awaited = c.awaited;
    ended = c.ended;
    received = c.received;
  }

  same_node : {s : System G} → IsConsistent s → (n : Node) → IsConsistent (record s { node = n })
  same_node c n = record {
    stopped = c.stopped;
    running = c.running;
    awaited = c.awaited;
    ended = c.ended;
    received = c.received;
  }

  pub Reach-IsConsistent : (s : System G) → Reach G d s → IsConsistent s
  Reach-IsConsistent _ start = record {
    stopped = λ h. ground arith;
    running = λ h. ground (arith, doc.new);
    awaited = λ h. cc;
    ended = λ h. cc;
    received = λ h. cc;
  }
  Reach-IsConsistent _ (later r (moved m)) = Move-IsConsistent (Reach-IsConsistent _ r) m
  Reach-IsConsistent _ (later r (asked answer m k)) =
      same_node (Reach-IsConsistent _ r) (node_get_info d.has_client answer d.host _).1
  Reach-IsConsistent _ (later r (asked_before answer k)) =
      same_node (Reach-IsConsistent _ r) (node_get_info d.has_client answer d.host _).1
  Reach-IsConsistent _ (later {s} r (accepted m k)) =
      let c = Reach-IsConsistent _ r in
      record {
        stopped = λ h. doc.accepts_on s.server ∙ c.stopped h;
        running = λ h. c.running (sym (doc.accepts_on s.server) ∙ h);
        awaited = c.awaited;
        ended = c.ended;
        received = c.received;
      }
