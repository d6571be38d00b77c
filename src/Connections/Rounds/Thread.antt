-- ===== src/Connections/Rounds/Thread.antt =====
-- h3_event_thread of mod_http3/src/h3_threads.c from its start to its end, as a sequence of rounds. Its
-- waiting is left out: how long a round takes, and what wakes it, is the time at which it meets its events.
pub mod Ends
use mod_http3_stage.Prelude.{
  ℕ, Bool, true, false, ◌||◌, Option, none, some, List, [], ◌∷◌, length, ltb, zero,
}
use mod_http3_stage.Connections.{Io}
use mod_http3_stage.Connections.Rounds.{Events, event_round, drop_pending}

-- `io->thread_running` at the test of the outer loop and at the accepting, between which
-- h3_io_listen_stop may clear it, and what the round between them meets.
pub record Turn : Type 0 where
  pub running_at_test : Bool
  pub running : Bool
  pub events : Events

-- `none` while the thread has not come to its end.
pub event_thread : ℕ → ℕ → List Turn → Io → Option Io
event_thread max_connections timeout [] io = none
event_thread max_connections timeout (t ∷ ts) io =
    elim (t.running_at_test || ltb 0 (length io.active_sessions)) [
      | true ↦
          event_thread max_connections timeout ts
            (event_round max_connections timeout t.running t.events io).0
      | false ↦ some (drop_pending (length io.pending_handshakes) io)
    ]
