-- ===== src/Connections/Rounds/Conserve.antt =====
-- Where the connections of a child process are, before and after a round of the event thread.
use mod_http3_stage.Prelude.{
  ℕ, zero, suc, ◌+◌, ◌≤◌, ◌≡◌, refl, ap, Bool, true, false, not, ◌&&◌, none, some, List, [], ◌∷◌,
  ◌++◌, arith, ◌==◌, if◌then◌else◌, length, one_if, count, Bool-cases, Option-cases, get_elem?, inl,
  inr,
}
use mod_http3_stage.Connections.{
  Io, Pending, Answers, prepare_accepted_connection, at_connection_limit, accept_one, accept_all,
  progress_pending_handshakes,
}
use mod_http3_stage.Connections.Remove.{tally}
use mod_http3_stage.Connections.Handshakes.{stays_put, goes, progress_settles}
use mod_http3_stage.Connections.Handshakes.One.{
  stays, is_served, is_freed, Place, place_of, has_place,
}
use mod_http3_stage.Connections.Rounds.{
  Passed, Round, Events, leaves, service, end_session, sessions_loop, service_sessions, event_round,
}
use mod_http3_stage.Connections.Rounds.Settle.{sessions_settle}

-- How often a connection is active, pending or freed.
abbrev pub home : ℕ → Io → ℕ
home c io =
    count c io.active_sessions + tally (λ p. c == p.conn) io.pending_handshakes + count c io.freed

tally-append :
    {A : Type 0} (q : A → Bool) (xs ys : List A) → tally q (xs ++ ys) ≡ tally q xs + tally q ys
tally-append q [] ys = omega arith
tally-append q (x ∷ xs) ys = omega (arith, tally-append q xs ys)

tally-count : (c : ℕ) (ds : List ℕ) → tally (λ d. c == d) ds ≡ count c ds
tally-count c [] = refl
tally-count c (d ∷ ds) = omega (arith, tally-count c ds)

and_split : (b l : Bool) → one_if b ≡ one_if (b && l) + one_if (b && not l)
and_split true true = refl
and_split true false = refl
and_split false l = refl

tally_split :
    {A : Type 0} (q l : A → Bool) (xs : List A)
    → tally q xs ≡ tally (λ x. q x && l x) xs + tally (λ x. q x && not (l x)) xs
tally_split q l [] = refl
tally_split q l (x ∷ xs) =
    let t = tally_split q l xs in let s = and_split (q x) (l x) in omega arith

and_le : (b l : Bool) → one_if (b && l) ≤ one_if l
and_le true l = omega arith
and_le false l = omega arith

tally_le : {A : Type 0} (q l : A → Bool) (xs : List A) → tally (λ x. q x && l x) xs ≤ tally l xs
tally_le q l [] = omega arith
tally_le q l (x ∷ xs) = let t = tally_le q l xs in let s = and_le (q x) (l x) in omega arith

place_split :
    (b : Bool) (w : Place)
    → one_if b
      ≡ one_if (b && has_place stays w)
        + one_if (b && has_place is_served w)
        + one_if (b && has_place is_freed w)
place_split true stays = refl
place_split true is_served = refl
place_split true is_freed = refl
place_split false stays = refl
place_split false is_served = refl
place_split false is_freed = refl

module _ (max timeout now : ℕ) (a : Answers) where
  accept_one-home :
      (c conn : ℕ) (io : Io)
      → home c (accept_one max a now conn io) ≡ home c io + one_if (c == conn)
  unfolding accept_one prepare_accepted_connection
  accept_one-home c conn io = elim (Bool-cases (at_connection_limit max io)) [
    | inl e ↦ rw (e, accept_one) (omega arith)
    | inr e ↦
        rw (e, accept_one)
          (elim (Bool-cases (a.prepared conn)) [
            | inl p ↦
                let t =
                  tally-append (λ x. c == x.conn) io.pending_handshakes
                    (record { conn = conn; accepted_at = now } ∷ []) in
                rw p (omega arith)
            | inr p ↦ rw p (omega arith)
          ])
  ]

  accept_all-home :
      (c : ℕ) (conns : List ℕ) (io : Io)
      → home c (accept_all max a now conns io) ≡ home c io + count c conns
  unfolding accept_all
  accept_all-home c [] io = omega arith
  accept_all-home c (conn ∷ conns) io =
      let t = accept_all-home c conns (accept_one max a now conn io) in
      let u = accept_one-home c conn io in omega arith

  placed :
      (c : ℕ) (ps : List Pending)
      → tally (λ p. c == p.conn) ps
        ≡ tally (λ p. c == p.conn && stays_put a now timeout p) ps
          + tally (goes a now timeout is_served c) ps
          + tally (goes a now timeout is_freed c) ps
  placed c [] = refl
  placed c (p ∷ ps) =
      let t = placed c ps in
      let s = place_split (c == p.conn) (place_of a now timeout p) in omega arith

  progress-home :
      (c : ℕ) (io : Io) → home c (progress_pending_handshakes a now timeout io) ≡ home c io
  progress-home c io =
      let io' = progress_pending_handshakes a now timeout io in
      let s = progress_settles a now timeout io in
      let d = s.decided in
      let k = s.kept (λ p. c == p.conn) in
      let v = s.serves c in
      let f = s.frees c in
      let before = placed c io.pending_handshakes in
      let after = tally_split (λ p. c == p.conn) (stays_put a now timeout) io'.pending_handshakes in
      let none_left =
        tally_le (λ p. c == p.conn) (λ p. not (stays_put a now timeout p)) io'.pending_handshakes in
      omega arith

sessions_loop_pending :
    (fuel i : ℕ) (a : Passed) (r : Round)
    → (sessions_loop fuel a i r).io.pending_handshakes ≡ r.io.pending_handshakes
unfolding sessions_loop service end_session
sessions_loop_pending zero i a r = refl
sessions_loop_pending (suc fuel) i a r = elim (Option-cases (get_elem? r.io.active_sessions i)) [
  | inl e ↦ rw (e, sessions_loop) refl
  | inr (conn, e) ↦ elim (Bool-cases (leaves a conn)) [
    | inl l ↦
        let t =
          sessions_loop_pending fuel i a
            (record (service a conn r) { io = end_session i conn r.io }) in
        rw (e, sessions_loop) (rw l t)
    | inr l ↦
        let t = sessions_loop_pending fuel (i + 1) a (service a conn r) in
        rw (e, sessions_loop) (rw l t)
  ]
]

service_sessions-home :
    (c : ℕ) (a : Passed) (r : Round) → home c (service_sessions a r).io ≡ home c r.io
unfolding service_sessions
service_sessions-home c a r =
    let before = r.io.active_sessions in
    let after = (service_sessions a r).io.active_sessions in
    let pending = sessions_loop_pending (length before) 0 a r in
    let same = ap (tally (λ p. c == p.conn)) pending in
    let (once, gone, kept, frees) = sessions_settle a r in
    let k = kept (λ d. c == d) in
    let f = frees c in
    let s = tally_split (λ d. c == d) (leaves a) before in
    let t = tally_split (λ d. c == d) (leaves a) after in
    let n = tally_le (λ d. c == d) (leaves a) after in
    let x = tally-count c before in let y = tally-count c after in omega arith

-- A round of the event thread loses no connection and invents none: each one is afterwards as often an
-- active session, a pending handshake or freed, taken together, as it was before, and once more for
-- each time it was accepted in this round.
pub event_round_conserves :
    (max_connections timeout : ℕ) (thread_running : Bool) (e : Events) (io : Io) (c : ℕ)
    → home c (event_round max_connections timeout thread_running e io).0
      ≡ home c io + (if thread_running then count c e.accepted else 0)
unfolding event_round
event_round_conserves max timeout true e io c =
    let accepted = accept_all max e.answers e.now e.accepted io in
    let a = accept_all-home max timeout e.now e.answers c e.accepted io in
    let p = progress-home max timeout e.now e.answers c accepted in
    let s = service_sessions-home c e.passed (record {
      io = progress_pending_handshakes e.answers e.now timeout accepted;
      serviced = [];
      work_pending = elim e.pumped [ none ↦ false | some work ↦ work ];
    }) in
    omega arith
event_round_conserves max timeout false e io c =
    let s = service_sessions-home c e.passed (record {
      io = io;
      serviced = [];
      work_pending = elim e.pumped [ none ↦ false | some work ↦ work ];
    }) in
    omega arith
