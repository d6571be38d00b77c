-- ===== src/Connections/Rounds/Thread/Ends.antt =====
-- How h3_event_thread ends.
use mod_http3_stage.Prelude.{
  ℕ, zero, suc, ◌+◌, ◌%◌, ◌^◌, ◌≡◌, ◌∙◌, refl, sym, ap, Bool, true, false, ◌||◌, Option, none, some,
  List, [], ◌∷◌, ◌++◌, arith, ltb, ◌==◌, if◌then◌else◌, length, take, count, Bool-cases, inl, inr,
}
use mod_http3_stage.Connections.{Io, Pending, remove_pending_handshake}
use mod_http3_stage.Connections.Remove.{tally, remove_at-Removal}
use mod_http3_stage.Connections.Rounds.{
  Round, leaves, service_sessions, Events, event_round, drop_pending,
}
use mod_http3_stage.Connections.Rounds.Conserve.{home, event_round_conserves}
use mod_http3_stage.Connections.Rounds.Counted.{IsCounted, event_round-IsCounted}
use mod_http3_stage.Connections.Rounds.Settle.{sessions_settle}
use mod_http3_stage.Connections.Rounds.Thread.{Turn, event_thread}

length-zero : {A : Type 0} (xs : List A) → length xs ≡ 0 → xs ≡ []
length-zero [] h = refl
length-zero (x ∷ xs) h = absurd (omega arith)

-- What dropping the pending handshakes leaves.
record Dropped (io io' : Io) : Type 0 where
  empty : io'.pending_handshakes ≡ []
  same : io'.active_sessions ≡ io.active_sessions
  same_count : io'.active_session_count ≡ io.active_session_count
  frees : (c : ℕ) → home c io' ≡ home c io

abbrev holding : List Pending → Io → Io
holding ps io = record io { pending_handshakes = ps }

drop_first :
    (p : Pending) (ps : List Pending) (io : Io)
    → (length (remove_pending_handshake 0 true (holding (p ∷ ps) io)).pending_handshakes
        ≡ length ps)
      × ((c : ℕ)
          → home c (remove_pending_handshake 0 true (holding (p ∷ ps) io))
            ≡ home c (holding (p ∷ ps) io))
unfolding remove_pending_handshake
drop_first p ps io =
    let r = remove_at-Removal 0 p (p ∷ ps) refl in
    let n = r.shorter in ((omega arith), λ c. let t = r.counts (λ x. c == x.conn) in omega arith)

drop_list :
    (fuel : ℕ) (ps : List Pending) (io : Io)
    → length ps ≡ fuel
    → Dropped (holding ps io) (drop_pending fuel (holding ps io))
unfolding drop_pending remove_pending_handshake
drop_list zero ps io h = record {
  empty = length-zero ps h;
  same = refl;
  same_count = refl;
  frees = λ c. refl;
}
drop_list (suc fuel) [] io h = absurd (omega arith)
drop_list (suc fuel) (p ∷ ps) io h =
    let (n, f) = drop_first p ps io in
    let next = remove_pending_handshake 0 true (holding (p ∷ ps) io) in
    let d = drop_list fuel next.pending_handshakes next (omega arith) in
    record {
      empty = d.empty;
      same = d.same;
      same_count = d.same_count;
      frees = λ c. d.frees c ∙ f c;
    }

-- How often a connection is accepted in the rounds.
abbrev pub accepted : ℕ → List Turn → ℕ
accepted c [] = 0
accepted c (t ∷ ts) = (if t.running then count c t.events.accepted else 0) + accepted c ts

-- The end of the thread, after some of the rounds.
pub record Ended (ts : List Turn) (io : Io) (out : Option Io) : Type 0 where
  pub final : Io
  pub returned : out ≡ some final
  pub rounds : ℕ
  pub no_session : final.active_sessions ≡ []
  pub no_pending : final.pending_handshakes ≡ []
  pub no_count : final.active_session_count ≡ 0
  pub all_freed : (c : ℕ) → count c final.freed ≡ home c io + accepted c (take rounds ts)

-- The test of the loop fails.
stops :
    (max timeout : ℕ) (t : Turn) (ts : List Turn) (io : Io)
    → IsCounted io
    → (t.running_at_test || ltb 0 (length io.active_sessions)) ≡ false
    → Ended (t ∷ ts) io (event_thread max timeout (t ∷ ts) io)
unfolding event_thread
stops max timeout t ts io c e =
    let d = drop_list (length io.pending_handshakes) io.pending_handshakes io refl in
    let z : io.active_sessions ≡ [] = length-zero io.active_sessions (ground arith) in
    rw (e, event_thread)
      (record {
        final = drop_pending (length io.pending_handshakes) io;
        returned = refl;
        rounds = 0;
        no_session = d.same ∙ z;
        no_pending = d.empty;
        no_count = d.same_count ∙ c ∙ ap (λ xs. length xs % 2 ^ 32) z;
        all_freed = λ x.
            let f = d.frees x in
            let e = ap (count x) (d.same ∙ z) in
            let g = ap (tally (λ p. x == p.conn)) d.empty in omega arith;
      })

-- One round more in front.
goes_on :
    (max timeout : ℕ) (t : Turn) (ts : List Turn) (io : Io)
    → (t.running_at_test || ltb 0 (length io.active_sessions)) ≡ true
    → Ended ts
        (event_round max timeout t.running t.events io).0
        (event_thread max timeout ts (event_round max timeout t.running t.events io).0)
    → Ended (t ∷ ts) io (event_thread max timeout (t ∷ ts) io)
unfolding event_thread
goes_on max timeout t ts io e d =
    rw (e, event_thread)
      (record {
        final = d.final;
        returned = d.returned;
        rounds = suc d.rounds;
        no_session = d.no_session;
        no_pending = d.no_pending;
        no_count = d.no_count;
        all_freed = λ x.
            let a = d.all_freed x in
            let b = event_round_conserves max timeout t.running t.events io x in omega arith;
      })

tally-all : (q : ℕ → Bool) → ((x : ℕ) → q x ≡ true) → (xs : List ℕ) → tally q xs ≡ length xs
tally-all q h [] = refl
tally-all q h (x ∷ xs) = rw (h x) (omega (arith, tally-all q h xs))

none_left :
    (max timeout : ℕ) (e : Events) (io : Io)
    → ((conn : ℕ) → leaves e.passed conn ≡ true)
    → length (event_round max timeout false e io).0.active_sessions ≡ 0
unfolding event_round
none_left max timeout e io h =
    let r : Round = record {
      io = io;
      serviced = [];
      work_pending = elim e.pumped [ none ↦ false | some work ↦ work ];
    } in
    let after = (service_sessions e.passed r).io.active_sessions in
    sym (tally-all (leaves e.passed) h after) ∙ (sessions_settle e.passed r).1

-- The rounds in which every session leaves, and the end behind it.
last_rounds :
    (max timeout : ℕ) (last next : Turn) (io : Io)
    → IsCounted io
    → last.running ≡ false
    → ((conn : ℕ) → leaves last.events.passed conn ≡ true)
    → next.running_at_test ≡ false
    → Ended (last ∷ next ∷ []) io (event_thread max timeout (last ∷ next ∷ []) io)
last_rounds max timeout last next io c s l n =
    elim (Bool-cases (last.running_at_test || ltb 0 (length io.active_sessions))) [
      | inl e ↦
          let io' = (event_round max timeout last.running last.events io).0 in
          let z : length io'.active_sessions ≡ 0 = rw s (none_left max timeout last.events io l) in
          goes_on max timeout last (next ∷ []) io e (
            stops max timeout next [] io'
              (event_round-IsCounted max timeout last.running last.events io c) (ground arith))
      | inr e ↦ stops max timeout last (next ∷ []) io c e
    ]

-- If h3_io_listen_stop has cleared `thread_running` before the accepting of some round, in which every
-- session turns out to be aborted, shut down and without an active task, and `thread_running` is
-- cleared at the test of the loop that follows, then h3_event_thread ends there or before, whatever
-- happened in the rounds before. Let `active_session_count` be the number of sessions at the start.
-- Then at the end no session and no pending handshake is left, `active_session_count` is 0, and each
-- connection has been freed as often as it was an active session, pending or freed at the start, taken
-- together, and once more for each time it was accepted in the rounds that were done.
pub event_thread_ends :
    (max_connections timeout : ℕ) (ts : List Turn) (last next : Turn) (io : Io)
    → IsCounted io
    → last.running ≡ false
    → ((conn : ℕ) → leaves last.events.passed conn ≡ true)
    → next.running_at_test ≡ false
    → Ended
        (ts ++ last ∷ next ∷ [])
        io
        (event_thread max_connections timeout (ts ++ last ∷ next ∷ []) io)
event_thread_ends max timeout [] last next io c s l n = last_rounds max timeout last next io c s l n
event_thread_ends max timeout (t ∷ ts) last next io c s l n =
    elim (Bool-cases (t.running_at_test || ltb 0 (length io.active_sessions))) [
      | inl e ↦ goes_on max timeout t (ts ++ last ∷ next ∷ []) io e (
          event_thread_ends max timeout ts last next
            (event_round max timeout t.running t.events io).0
            (event_round-IsCounted max timeout t.running t.events io c) s l n)
      | inr e ↦ stops max timeout t (ts ++ last ∷ next ∷ []) io c e
    ]
