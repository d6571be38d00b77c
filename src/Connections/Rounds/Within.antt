-- ===== src/Connections/Rounds/Within.antt =====
-- The connection limit over the rounds of the event thread.
use mod_http3_stage.Prelude.{
  ℕ, zero, suc, ◌+◌, ◌^◌, ◌≤◌, ◌<◌, ◌≡◌, refl, Bool, true, false, none, some, [], ◌∷◌, arith,
  length, length-append, get_elem?, if◌then◌else◌, Bool-cases, Option-cases, inl, inr,
}
use mod_http3_stage.Connections.{
  Io, Pending, Answers, Fate, timed_out, peer_closed, finished, waits, fate,
  remove_pending_handshake, spawn_succeeds, spawn_serviced_session, progress_one, progress_loop,
  progress_pending_handshakes, accept_all,
}
use mod_http3_stage.Connections.Limit.{held, accept_all_within}
use mod_http3_stage.Connections.Remove.{remove_at-Removal}
use mod_http3_stage.Connections.Rounds.{
  Passed, Round, Events, leaves, service, end_session, sessions_loop, service_sessions, event_round,
}

remove_held :
    (i : ℕ) (frees : Bool) (p : Pending) (io : Io)
    → get_elem? io.pending_handshakes i ≡ some p
    → held (remove_pending_handshake i frees io) + 1 ≡ held io
unfolding remove_pending_handshake
remove_held i frees p io e =
    let s = (remove_at-Removal i p io.pending_handshakes e).shorter in
    rw (e, remove_pending_handshake)
      (elim (Bool-cases frees) [ inl f ↦ rw f (omega arith) | inr f ↦ rw f (omega arith) ])

spawn_held :
    (a : Answers) (conn : ℕ) (io : Io)
    → (held (spawn_serviced_session a conn io) ≤ held io + 1)
      × ((spawn_serviced_session a conn io).pending_handshakes ≡ io.pending_handshakes)
unfolding spawn_serviced_session
spawn_held a conn io = elim (Bool-cases (spawn_succeeds a conn)) [
  | inl e ↦
      let n = length-append io.active_sessions (conn ∷ []) in
      rw (e, spawn_serviced_session) ((omega arith), refl)
  | inr e ↦ rw (e, spawn_serviced_session) ((omega arith), refl)
]

progress_one_held :
    (a : Answers) (i : ℕ) (f : Fate) (p : Pending) (io : Io)
    → get_elem? io.pending_handshakes i ≡ some p
    → held (progress_one a i f p io).0 ≤ held io
unfolding progress_one
progress_one_held a i timed_out p io e = let r = remove_held i true p io e in omega arith
progress_one_held a i peer_closed p io e = let r = remove_held i true p io e in omega arith
progress_one_held a i finished p io e =
    let (h, same) = spawn_held a p.conn io in
    let r = remove_held i false p (spawn_serviced_session a p.conn io) (rw same e) in omega arith
progress_one_held a i waits p io e = omega arith

progress_loop_held :
    (fuel : ℕ) (a : Answers) (now timeout i : ℕ) (io : Io)
    → held (progress_loop fuel a now timeout i io) ≤ held io
unfolding progress_loop
progress_loop_held zero a now timeout i io = omega arith
progress_loop_held (suc fuel) a now timeout i io =
    elim (Option-cases (get_elem? io.pending_handshakes i)) [
      | inl e ↦ rw (e, progress_loop) (omega arith)
      | inr (p, e) ↦
          let (io', moves_on) = progress_one a i (fate a now timeout p) p io in
          let h = progress_one_held a i (fate a now timeout p) p io e in
          let t = progress_loop_held fuel a now timeout (if moves_on then i + 1 else i) io' in
          rw (e, progress_loop) (omega arith)
    ]

sessions_loop_held :
    (fuel i : ℕ) (a : Passed) (r : Round) → held (sessions_loop fuel a i r).io ≤ held r.io
unfolding sessions_loop service end_session
sessions_loop_held zero i a r = omega arith
sessions_loop_held (suc fuel) i a r = elim (Option-cases (get_elem? r.io.active_sessions i)) [
  | inl e ↦ rw (e, sessions_loop) (omega arith)
  | inr (conn, e) ↦ elim (Bool-cases (leaves a conn)) [
    | inl l ↦
        let s = (remove_at-Removal i conn r.io.active_sessions e).shorter in
        let t =
          sessions_loop_held fuel i a
            (record (service a conn r) { io = end_session i conn r.io }) in
        rw (e, sessions_loop) (rw l (omega arith))
    | inr l ↦
        let t = sessions_loop_held fuel (i + 1) a (service a conn r) in
        rw (e, sessions_loop) (rw l (omega arith))
  ]
]

-- A child process that holds at most H3MaxConnections connections, active and pending ones together,
-- does so after each round of the event thread, whatever the round meets; the limit is below 2^32.
pub event_round_within :
    (max_connections timeout : ℕ) (thread_running : Bool) (e : Events) (io : Io)
    → max_connections < 2 ^ 32
    → held io ≤ max_connections
    → held (event_round max_connections timeout thread_running e io).0 ≤ max_connections
unfolding event_round service_sessions progress_pending_handshakes
event_round_within max timeout true e io small h =
    let accepted = accept_all max e.answers e.now e.accepted io in
    let a = (accept_all_within max e.now e.answers e.accepted io small h).0 in
    let p =
      progress_loop_held (length accepted.pending_handshakes) e.answers e.now timeout 0 accepted in
    let io' = progress_pending_handshakes e.answers e.now timeout accepted in
    let s = sessions_loop_held (length io'.active_sessions) 0 e.passed (record {
      io = io';
      serviced = [];
      work_pending = elim e.pumped [ none ↦ false | some work ↦ work ];
    }) in
    omega arith
event_round_within max timeout false e io small h =
    let s = sessions_loop_held (length io.active_sessions) 0 e.passed (record {
      io = io;
      serviced = [];
      work_pending = elim e.pumped [ none ↦ false | some work ↦ work ];
    }) in
    omega arith
