-- ===== src/Connections/Rounds/Counted.antt =====
-- `active_session_count` of the listener and the array of its sessions.
use mod_http3_stage.Prelude.{
  ℕ, zero, suc, ◌+◌, ◌%◌, ◌^◌, ◌≡◌, Bool, true, false, some, List, [], ◌∷◌, arith, length,
  length-append, get_elem?, Bool-cases, Option-cases, inl, inr,
}
use mod_http3_stage.Connections.{
  Io, Pending, Answers, Fate, timed_out, peer_closed, finished, waits, fate, at_connection_limit,
  prepare_accepted_connection, remove_pending_handshake, spawn_succeeds, spawn_serviced_session,
  progress_one, progress_loop, progress_pending_handshakes, accept_one, accept_all,
}
use mod_http3_stage.Connections.Remove.{remove_at-Removal}
use mod_http3_stage.Connections.Rounds.{
  Passed, Round, Events, leaves, service, end_session, sessions_loop, service_sessions, event_round,
}

-- The counter is an `apr_uint32_t`.
abbrev pub IsCounted : Io → Type 0
IsCounted io = io.active_session_count ≡ length io.active_sessions % 2 ^ 32

accept_one-IsCounted :
    (max now conn : ℕ) (a : Answers) (io : Io)
    → IsCounted io
    → IsCounted (accept_one max a now conn io)
unfolding accept_one prepare_accepted_connection
accept_one-IsCounted max now conn a io c = elim (Bool-cases (at_connection_limit max io)) [
  | inl e ↦ rw (e, accept_one) c
  | inr e ↦
      rw (e, accept_one) (elim (Bool-cases (a.prepared conn)) [ inl p ↦ rw p c | inr p ↦ rw p c ])
]

accept_all-IsCounted :
    (max now : ℕ) (a : Answers) (conns : List ℕ) (io : Io)
    → IsCounted io
    → IsCounted (accept_all max a now conns io)
unfolding accept_all
accept_all-IsCounted max now a [] io c = c
accept_all-IsCounted max now a (conn ∷ conns) io c =
    accept_all-IsCounted max now a conns (accept_one max a now conn io)
      (accept_one-IsCounted max now conn a io c)

remove-IsCounted :
    (i : ℕ) (frees : Bool) (io : Io)
    → IsCounted io
    → IsCounted (remove_pending_handshake i frees io)
unfolding remove_pending_handshake
remove-IsCounted i frees io c = elim (Option-cases (get_elem? io.pending_handshakes i)) [
  | inl e ↦ rw (e, remove_pending_handshake) c
  | inr (p, e) ↦
      rw (e, remove_pending_handshake) (elim (Bool-cases frees) [ inl f ↦ rw f c | inr f ↦ rw f c ])
]

spawn-IsCounted :
    (a : Answers) (conn : ℕ) (io : Io) → IsCounted io → IsCounted (spawn_serviced_session a conn io)
unfolding spawn_serviced_session
spawn-IsCounted a conn io c = elim (Bool-cases (spawn_succeeds a conn)) [
  | inl e ↦
      let n = length-append io.active_sessions (conn ∷ []) in
      rw (e, spawn_serviced_session) (omega arith)
  | inr e ↦ rw (e, spawn_serviced_session) c
]

progress_one-IsCounted :
    (a : Answers) (i : ℕ) (f : Fate) (p : Pending) (io : Io)
    → IsCounted io
    → IsCounted (progress_one a i f p io).0
unfolding progress_one
progress_one-IsCounted a i timed_out p io c = remove-IsCounted i true io c
progress_one-IsCounted a i peer_closed p io c = remove-IsCounted i true io c
progress_one-IsCounted a i finished p io c =
    remove-IsCounted i false (spawn_serviced_session a p.conn io) (spawn-IsCounted a p.conn io c)
progress_one-IsCounted a i waits p io c = c

progress_loop-IsCounted :
    (fuel : ℕ) (a : Answers) (now timeout i : ℕ) (io : Io)
    → IsCounted io
    → IsCounted (progress_loop fuel a now timeout i io)
unfolding progress_loop
progress_loop-IsCounted zero a now timeout i io c = c
progress_loop-IsCounted (suc fuel) a now timeout i io c =
    elim (Option-cases (get_elem? io.pending_handshakes i)) [
      | inl e ↦ rw (e, progress_loop) c
      | inr (p, e) ↦
          rw (e, progress_loop)
            (progress_loop-IsCounted fuel a now timeout _ _
              (progress_one-IsCounted a i (fate a now timeout p) p io c))
    ]

end_session-IsCounted :
    (i conn : ℕ) (io : Io)
    → get_elem? io.active_sessions i ≡ some conn
    → IsCounted io
    → IsCounted (end_session i conn io)
unfolding end_session
end_session-IsCounted i conn io e c =
    let s = (remove_at-Removal i conn io.active_sessions e).shorter in omega arith

sessions_loop-IsCounted :
    (fuel i : ℕ) (a : Passed) (r : Round) → IsCounted r.io → IsCounted (sessions_loop fuel a i r).io
unfolding sessions_loop service
sessions_loop-IsCounted zero i a r c = c
sessions_loop-IsCounted (suc fuel) i a r c =
    elim (Option-cases (get_elem? r.io.active_sessions i)) [
      | inl e ↦ rw (e, sessions_loop) c
      | inr (conn, e) ↦ elim (Bool-cases (leaves a conn)) [
        | inl l ↦
            let t =
              sessions_loop-IsCounted fuel i a
                (record (service a conn r) { io = end_session i conn r.io })
                (end_session-IsCounted i conn r.io e c) in
            rw (e, sessions_loop) (rw l t)
        | inr l ↦
            let t = sessions_loop-IsCounted fuel (i + 1) a (service a conn r) c in
            rw (e, sessions_loop) (rw l t)
      ]
    ]

-- A round of the event thread keeps `active_session_count` the length of the array of sessions.
pub event_round-IsCounted :
    (max_connections timeout : ℕ) (thread_running : Bool) (e : Events) (io : Io)
    → IsCounted io
    → IsCounted (event_round max_connections timeout thread_running e io).0
unfolding event_round service_sessions progress_pending_handshakes
event_round-IsCounted max timeout true e io c = sessions_loop-IsCounted _ 0 e.passed _ (
    progress_loop-IsCounted _ e.answers e.now timeout 0 _
      (accept_all-IsCounted max e.now e.answers e.accepted io c))
event_round-IsCounted max timeout false e io c = sessions_loop-IsCounted _ 0 e.passed _ c
