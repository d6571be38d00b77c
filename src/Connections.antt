-- ===== src/Connections.antt =====
-- The connections of a child process on their way from accepted to served: h3_io_at_connection_limit,
-- remove_pending_handshake, spawn_serviced_session, progress_pending_handshakes and
-- prepare_accepted_connection of mod_http3/src/h3_io.c, with the accept loop of
-- mod_http3/src/h3_threads.c. A connection is named by its address; what the QUIC engine, APR and
-- nghttp3 answer for it comes as functions of that address.
pub mod Handshakes
pub mod Limit
pub mod Remove
pub mod Rounds
use mod_http3_stage.Prelude.{
  ℕ, zero, suc, ◌+◌, ◌-◌, ◌%◌, ◌^◌, Bool, true, false, not, ◌&&◌, ◌||◌, Option, none, some, List,
  [], ◌∷◌, ◌++◌, ltb, leb, if◌then◌else◌, length, get_elem?, set, take,
}

-- h3_pending_handshake
pub record Pending : Type 0 where
  pub conn : ℕ
  pub accepted_at : ℕ

-- The part of h3_io_t that holds connections, and the connections freed, the latest first.
pub record Io : Type 0 where
  pub active_sessions : List ℕ
  pub active_session_count : ℕ
  pub total_connections : ℕ
  pub pending_handshakes : List Pending
  pub freed : List ℕ

-- h3_io_at_connection_limit; the sum is an `apr_uint32_t`
pub at_connection_limit : ℕ → Io → Bool
at_connection_limit max_connections io =
    leb max_connections ((length io.active_sessions + length io.pending_handshakes) % 2 ^ 32)

-- `pending[index] = pending[nelts - 1]` for an index below the last, and `nelts--`
pub remove_at : {A : Type 0} → ℕ → List A → List A
remove_at index pending = elim (get_elem? pending (length pending - 1)) [
  | none ↦ pending
  | some last ↦ take (length pending - 1) (set pending index last)
]

-- h3q_conn_free
abbrev pub conn_free : ℕ → Io → Io
conn_free conn io = record io { freed = conn ∷ io.freed }

-- remove_pending_handshake. An index out of range is not passed.
unfoldable pub remove_pending_handshake : ℕ → Bool → Io → Io
unfolding remove_at
remove_pending_handshake index free_conn io = elim (get_elem? io.pending_handshakes index) [
  | none ↦ io
  | some p ↦
      let io' = if free_conn then conn_free p.conn io else io in
      record io' { pending_handshakes = remove_at index io.pending_handshakes }
]

-- What the calls answer for a connection.
pub record Answers : Type 0 where
  pub closed : ℕ → Bool
  pub handshake_done : ℕ → Bool
  pub pool_created : ℕ → Bool
  pub session_created : ℕ → Bool
  pub control_streams_created : ℕ → Bool
  pub closed_by_now : ℕ → Bool
  pub conn_synthesized : ℕ → Bool
  pub prepared : ℕ → Bool

-- The five steps of spawn_serviced_session. Each failure frees the connection once, by itself or in
-- h3_session_destroy.
pub spawn_succeeds : Answers → ℕ → Bool
spawn_succeeds a conn =
    a.pool_created conn
    && a.session_created conn
    && a.control_streams_created conn
    && not (a.closed_by_now conn)
    && a.conn_synthesized conn

pub spawn_serviced_session : Answers → ℕ → Io → Io
spawn_serviced_session a conn io =
    if spawn_succeeds a conn
    then record io {
      active_sessions = io.active_sessions ++ conn ∷ [];
      active_session_count = (io.active_session_count + 1) % 2 ^ 32;
    }
    else conn_free conn io

-- What becomes of a pending connection: `now - accepted_at >= timeout`, closed, finished, or neither.
pub data Fate : Type 0 where
  timed_out peer_closed finished waits : Fate

pub fate : Answers → ℕ → ℕ → Pending → Fate
fate a now timeout p =
    if leb (timeout + p.accepted_at) now
    then timed_out
    else if a.closed p.conn
    then peer_closed
    else if a.handshake_done p.conn
    then finished
    else waits

-- One round of the loop of progress_pending_handshakes, and whether `i` moves on.
pub progress_one : Answers → ℕ → Fate → Pending → Io → Io × Bool
progress_one a i timed_out p io = (remove_pending_handshake i true io, false)
progress_one a i peer_closed p io = (remove_pending_handshake i true io, false)
progress_one a i finished p io =
    (remove_pending_handshake i false (spawn_serviced_session a p.conn io), false)
progress_one a i waits p io = (io, true)

-- The loop from index `i` on. Each round removes an entry or moves on, so that the fuel, the number
-- of entries from `i` on, is enough: the loop is over when it is used up.
pub progress_loop : ℕ → Answers → ℕ → ℕ → ℕ → Io → Io
progress_loop zero a now timeout i io = io
progress_loop (suc fuel) a now timeout i io = elim (get_elem? io.pending_handshakes i) [
  | none ↦ io
  | some p ↦
      let (io', moves_on) = progress_one a i (fate a now timeout p) p io in
      progress_loop fuel a now timeout (if moves_on then i + 1 else i) io'
]

-- progress_pending_handshakes, its `now` and `timeout` in one unit
pub progress_pending_handshakes : Answers → ℕ → ℕ → Io → Io
progress_pending_handshakes a now timeout io =
    progress_loop (length io.pending_handshakes) a now timeout 0 io

-- prepare_accepted_connection
pub prepare_accepted_connection : Answers → ℕ → ℕ → Io → Io × Bool
prepare_accepted_connection a now conn io =
    if a.prepared conn
    then (
      record io {
        pending_handshakes =
            io.pending_handshakes ++ record { conn = conn; accepted_at = now } ∷ [];
        total_connections = (io.total_connections + 1) % 2 ^ 32;
      },
      true,
    )
    else (io, false)

-- One accepted connection in the loop of h3_event_thread.
pub accept_one : ℕ → Answers → ℕ → ℕ → Io → Io
accept_one max_connections a now conn io =
    if at_connection_limit max_connections io
    then conn_free conn io
    else let (io', kept) = prepare_accepted_connection a now conn io in
      if kept then io' else conn_free conn io'

-- `for (;;)` over the connections that h3q_engine_accept_conn gives
pub accept_all : ℕ → Answers → ℕ → List ℕ → Io → Io
accept_all max_connections a now [] io = io
accept_all max_connections a now (conn ∷ conns) io =
    accept_all max_connections a now conns (accept_one max_connections a now conn io)
