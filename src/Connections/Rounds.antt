-- ===== src/Connections/Rounds.antt =====
-- The loop of h3_event_thread over the sessions, mod_http3/src/h3_threads.c, and what it does when the
-- listener stops. A session is named by the address of its connection; what service_session_pass leaves
-- of it, in `Streams.Pass`, and what h3q_conn_shutdown answers come as functions of that address.
pub mod Conserve
pub mod Counted
pub mod Settle
pub mod Thread
pub mod Within
use mod_http3_stage.Prelude.{
  ℕ, zero, suc, ◌+◌, ◌-◌, ◌%◌, ◌^◌, Bool, true, false, not, ◌&&◌, ◌||◌, Option, none, some, List,
  [], ◌∷◌, ◌==◌, if◌then◌else◌, length, get_elem?,
}
use mod_http3_stage.Connections.{
  Io, Pending, Answers, conn_free, remove_at, remove_pending_handshake, accept_all,
  progress_pending_handshakes,
}

-- What a session is like after its pass.
pub record Passed : Type 0 where
  pub data_read : ℕ → Bool
  pub aborted : ℕ → Bool
  pub shutdown_done : ℕ → Bool
  pub active_tasks : ℕ → ℕ

-- The loop's state: `serviced` are the sessions that had their pass, the latest first.
pub record Round : Type 0 where
  pub io : Io
  pub serviced : List ℕ
  pub work_pending : Bool

-- `session->aborted`, and then `shutdown_done` and no worker
unfoldable pub leaves : Passed → ℕ → Bool
leaves a conn = a.aborted conn && a.shutdown_done conn && a.active_tasks conn == 0

-- h3_session_destroy, the swap with the last session, and the two counts
pub end_session : ℕ → ℕ → Io → Io
end_session i conn io = record (conn_free conn io) {
  active_sessions = remove_at i io.active_sessions;
  active_session_count = (io.active_session_count + 2 ^ 32 - 1) % 2 ^ 32;
}

-- service_session_pass for one session
pub service : Passed → ℕ → Round → Round
service a conn r = record r {
  serviced = conn ∷ r.serviced;
  work_pending = a.data_read conn || r.work_pending;
}

-- The loop from index `i` on; its fuel is the number of sessions from `i` on, since each round removes
-- one of them or passes it.
pub sessions_loop : ℕ → Passed → ℕ → Round → Round
unfolding leaves end_session service
sessions_loop zero a i r = r
sessions_loop (suc fuel) a i r = elim (get_elem? r.io.active_sessions i) [
  | none ↦ r
  | some conn ↦ elim (leaves a conn) [
    | true ↦ sessions_loop fuel a i (record (service a conn r) { io = end_session i conn r.io })
    | false ↦ sessions_loop fuel a (i + 1) (service a conn r)
  ]
]

pub service_sessions : Passed → Round → Round
unfolding sessions_loop
service_sessions a r = sessions_loop (length r.io.active_sessions) a 0 r

-- The last loop of h3_event_thread: the pending handshakes are dropped, always the first. Its fuel is
-- their number.
pub drop_pending : ℕ → Io → Io
drop_pending zero io = io
drop_pending (suc fuel) io = elim io.pending_handshakes [
  | [] ↦ io
  | p ∷ ps ↦ drop_pending fuel (remove_pending_handshake 0 true io)
]

-- What one round of `while (io->thread_running || io->active_sessions->nelts > 0)` meets: the
-- connections that are ready to be accepted, the answers for the pending ones, the time in units of
-- `timeout`, and the sessions after their passes. `pumped` is what h3q_engine_pump returns, `none` for
-- a failure.
pub record Events : Type 0 where
  pub pumped : Option Bool
  pub accepted : List ℕ
  pub answers : Answers
  pub now : ℕ
  pub passed : Passed

pub event_round : ℕ → ℕ → Bool → Events → Io → Io × Bool
unfolding service_sessions
event_round max_connections timeout thread_running e io =
    let io' : Io =
      if thread_running
      then progress_pending_handshakes e.answers e.now timeout
          (accept_all max_connections e.answers e.now e.accepted io)
      else io in
    let pumped : Bool = elim e.pumped [ none ↦ false | some work ↦ work ] in
    let r = service_sessions e.passed (record { io = io'; serviced = []; work_pending = pumped }) in
    (r.io, r.work_pending)
