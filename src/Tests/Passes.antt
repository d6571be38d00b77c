-- ===== src/Tests/Passes.antt =====
-- The theorems on a pass over a session, with an nghttp3 that has one thing to send.
use mod_http3_stage.Prelude.{
  ℕ, ◌+◌, ◌*◌, ◌≤◌, ◌⊎◌, ◌≡◌, ◌<◌, refl, Bool, true, false, not, ◌&&◌, Option, none, some, List, [],
  ◌∷◌, arith, ◌==◌, if◌then◌else◌, ltb, one_if, one_if_le, count, Bool-cases, inl, inr,
}
use mod_http3_stage.Streams.{Session, find}
use mod_http3_stage.Streams.Dispatch.{Reaches, stays, steps, answers, returns, worker_returns}
use mod_http3_stage.Streams.Dispatch.Flags.{blocked_at, Quieter}
use mod_http3_stage.Streams.Dispatch.Steps.{IsServed}
use mod_http3_stage.Streams.Outside.{Live, Offer, nothing, offers, Outside}
use mod_http3_stage.Streams.Outside.Promises.{Promises, after_write}
use mod_http3_stage.Streams.Drain.{Draining}
use mod_http3_stage.Streams.Ready.{drain_loop, drain_ready_streams}
use mod_http3_stage.Streams.Ready.Budget.{drain_ready_within}
use mod_http3_stage.Streams.Ready.Turns.{drain_in_turn, drain_loop_turns}
use mod_http3_stage.Streams.Pass.{Served}
use mod_http3_stage.Quic.Write.{wrote, StreamState, got}
use mod_http3_stage.Tests.Sessions.{session}
use mod_http3_stage.Tests.Bodies.{stream, body-IsBody}
use mod_http3_stage.Requests.{Attempt}
use mod_http3_stage.ResponseQueue.Append.{Wait}
use mod_http3_stage.Streams.Answers.{submits, appends, completes, answer, worker_answers}
use mod_http3_stage.Streams.Dispatch.Answering.{respond-Quieter, worker_returns-Quieter, still_runs}

-- A session whose stream 4 has a worker.
abbrev busy : Session
busy = record session { streams = record stream { dispatched = true } ∷ []; running = 4 ∷ [] }

busy-IsServed : IsServed 10 busy
unfolding find
busy-IsServed = record {
  unique = λ sid. let l = one_if_le (sid == 4) in omega arith;
  workers = λ sid. elim (Bool-cases (4 == sid)) [
    | inl e ↦ let e' : (sid == 4) ≡ true = ground arith in rw e (rw e' (refl, refl))
    | inr e ↦ let e' : (sid == 4) ≡ false = ground arith in rw e (rw e' refl)
  ];
  bodies = (body-IsBody, tt);
}

abbrev usable : Attempt
usable = record { aborted = false; ngh3_dead = false; ngh3 = true; accepts = true }

-- The worker submits the head, queues two bytes, and completes the response.
answered : Session → Session
answered s = worker_answers usable completes 4 (
    worker_answers usable (appends Wait.signalled (some 90) (1 ∷ 2 ∷ [])) 4
      (worker_answers usable submits 4 s))

-- The worker of stream 4, if there is one, answers and returns.
serve : Session → Session
unfolding answered
serve s = if ltb 0 (count 4 s.running) then worker_returns 4 (answered s) else s

answered_reaches :
    (s : Session) → 0 < count 4 s.running → Reaches 10 s (worker_returns 4 (answered s))
unfolding answered
answered_reaches s h =
    let a = worker_answers usable submits 4 s in
    let b = worker_answers usable (appends Wait.signalled (some 90) (1 ∷ 2 ∷ [])) 4 a in
    let h' = still_runs usable submits 4 s h in
    let h'' = still_runs usable (appends Wait.signalled (some 90) (1 ∷ 2 ∷ [])) 4 a h' in
    let h''' = still_runs usable completes 4 b h'' in
    steps (answers usable submits 4 h) (
      steps (answers usable (appends Wait.signalled (some 90) (1 ∷ 2 ∷ [])) 4 h')
        (steps (answers usable completes 4 h'') (steps (returns 4 h''') stays)))

answered-Quieter : (s : Session) → Quieter s (worker_returns 4 (answered s))
unfolding answered worker_answers
answered-Quieter s x h =
    let a = worker_answers usable submits 4 s in
    let b = worker_answers usable (appends Wait.signalled (some 90) (1 ∷ 2 ∷ [])) 4 a in
    respond-Quieter 4 (answer usable submits) s x (
      respond-Quieter 4 (answer usable (appends Wait.signalled (some 90) (1 ∷ 2 ∷ []))) a x (
        respond-Quieter 4 (answer usable completes) b x
          (worker_returns-Quieter 4 (answered s) x h)))

serve_reaches : (s : Session) → Reaches 10 s (serve s)
unfolding serve
serve_reaches s = elim (Bool-cases (ltb 0 (count 4 s.running))) [
  | inl e ↦ rw e (answered_reaches s (ground arith))
  | inr e ↦ rw e stays
]

serve-Quieter : (s : Session) → Quieter s (serve s)
unfolding serve
serve-Quieter s = elim (Bool-cases (ltb 0 (count 4 s.running))) [
  | inl e ↦ rw e (answered-Quieter s)
  | inr e ↦ rw e (λ x h. h)
]

-- whether there is something to send, and whether it is held back
record Peer : Type 0 where
  queued : Bool
  held : Bool

abbrev offer_of : Bool → Bool → Offer
offer_of true false = offers 4 false (3 ∷ [])
offer_of _ _ = nothing

abbrev outside : Outside Peer
outside = record {
  writev_stream = λ w. (w, offer_of w.queued w.held);
  add_write_offset = λ sid n w. w;
  add_ack_offset = λ sid n w. (record w { queued = false }, []);
  block_stream = λ sid w. record w { held = true };
  unblock_stream = λ sid w. w;
  read_stream = λ sid n fin w. (record w { queued = true }, [], none);
  close_stream = λ sid w. (w, []);
  submit_shutdown_notice = λ w. w;
  shutdown = λ w. w;
  is_drained = λ w. true;
  ssl_write = λ st w. (w, λ n len. wrote len);
  ssl_read = λ st size w. (w, got (if ltb size 2 then size else 2));
  stream_states = λ st w. (StreamState.ok, StreamState.ok);
  buffer_is_full = λ st w. false;
  accept_streams = λ w. (w, (some 8, 70) ∷ (none, 71) ∷ []);
  conn_is_closed = λ w. false;
  now = λ w. 0;
  scratch_created = λ w. true;
  stream_created = λ sid w. true;
  task_pool_created = λ sid w. true;
  task_pushed = λ sid w. true;
  workers_run = λ w session. (record w { queued = true }, serve session);
}

less_than_two : (b c : Bool) → one_if (b && not c) < 2
less_than_two true true = omega arith
less_than_two true false = omega arith
less_than_two false c = omega arith

not_held :
    (q h : Bool) (sid : ℕ) (fin : Bool) (lens : List ℕ)
    → offer_of q h ≡ offers sid fin lens
    → h ≡ false
not_held true true sid fin lens e = cc
not_held true false sid fin lens e = refl
not_held false true sid fin lens e = cc
not_held false false sid fin lens e = refl

sent_less :
    (q h : Bool) (sid : ℕ) (fin : Bool) (lens : List ℕ)
    → offer_of q h ≡ offers sid fin lens
    → one_if (false && not h) < one_if (q && not h)
sent_less true true sid fin lens e = cc
sent_less true false sid fin lens e = omega arith
sent_less false true sid fin lens e = cc
sent_less false false sid fin lens e = cc

sent_via :
    (w : Peer) (sid : ℕ) (fin : Bool) (lens : List ℕ) (via : Option ℕ)
    → offer_of w.queued w.held ≡ offers sid fin lens
    → one_if (false && not (after_write outside via w).held) < one_if (w.queued && not w.held)
sent_via w sid fin lens none e = sent_less w.queued w.held sid fin lens e
sent_via w sid fin lens (some st) e = sent_less w.queued w.held sid fin lens e

promises : Promises outside 10 2
promises = record {
  is_blocked = λ sid w. w.held;
  backlog = λ w. one_if (w.queued && not w.held);
  bounded = λ w. less_than_two w.queued w.held;
  ack_calls = λ sid n w. tt;
  read_calls = λ sid n fin w. tt;
  close_calls = λ sid w. tt;
  accepts = λ st w n len a e. ground arith;
  reads = λ st size n w e. ground arith;
  workers = λ w s. serve_reaches s;
  workers_quiet = λ w s. serve-Quieter s;
  keep_workers = λ x w s h. h;
  offered = λ w sid fin lens e. not_held w.queued w.held sid fin lens e;
  sent = λ w sid fin lens via e. sent_via w sid fin lens via e;
  held_back = λ w sid fin lens st n e k. sent_less w.queued w.held sid fin lens e;
  blocks_it = λ sid w. refl;
  keep_block = λ sid x w h. refl;
  keep_unblock = λ sid x w n h. h;
  keep_writev = λ x w h. h;
  keep_tell = λ sid n x w h. h;
  keep_write = λ st x w h. h;
  keep_read = λ st size x w h. h;
  keep_take = λ sid n x fin w h. h;
  keep_close = λ sid x w h. h;
  keep_notice = λ x w h. h;
  keep_shutdown = λ x w h. h;
  keep_accept = λ x w h. h;
}

abbrev served : Served Peer
served = record {
  live = record {
    session = busy;
    outside = record { queued = true; held = false };
    ngh3_dead = false;
    abort_quic_error_code = 0;
    stream_drain_cursor = 3;
    total_bytes_read = 0;
    total_bytes_written = 0;
  };
  aborted = false;
  goaway_deadline = 0;
  total_streams = 0;
}

unflagged : (x : ℕ) → blocked_at x busy ≡ true → false ≡ true
unfolding find
unflagged x h = elim (Bool-cases (4 == x)) [ inl e ↦ rw e at h | inr e ↦ rw e at h ]

drain_ready_within_example :
    (l' : Live Peer) × (data_read : Bool) × (completed : List ℕ) × (drain_ready_streams outside 10
        4096 served.live
      ≡ some (l', data_read, completed))
    × (l'.total_bytes_read ≤ 0 + 1024 * 1024)
    × ((data_read ≡ true) ⊎ (l'.total_bytes_read ≡ 0))
unfolding promises
drain_ready_within_example =
    drain_ready_within outside 10 2 4096 promises (omega arith) served.live busy-IsServed unflagged
      (omega arith)

abbrev draining : Draining Peer
draining = record {
  live = served.live;
  reads_remaining = 256;
  bytes_remaining = 1024;
  data_read = false;
}

drain_loop_turns_example :
    drain_loop outside 10 4096 (0 ∷ 4 ∷ 8 ∷ []) 1 0 3 draining []
    ≡ drain_in_turn outside 10 4096 (4 ∷ 8 ∷ 0 ∷ []) 1 3 draining []
drain_loop_turns_example =
    drain_loop_turns outside 10 4096 (0 ∷ 4 ∷ 8 ∷ []) 1 (omega arith) draining []
