-- ===== src/Streams/Dispatch/Counted.antt =====
-- The count of the write-blocked streams, `session->blocked_streams`, under the steps of the threads.
use mod_http3_stage.Prelude.{
  ℕ, some_inj, ◌+◌, ◌-◌, ◌^◌, ◌≤◌, ◌≡◌, refl, sym, ap, ◌∙◌, Bool, true, false, ◌&&◌, some, arith,
  if◌then◌else◌, one_if, Option-cases, inl, inr,
}
use mathlib.Core.Path.{subst}
use mod_http3_stage.State.{Stream}
use mod_http3_stage.Streams.{Session, find, put, remove, Event, run_callback, free_pending}
use mod_http3_stage.Streams.Callbacks.{IsObject}
use mod_http3_stage.Streams.Callbacks.Called.{callback-Called}
use mod_http3_stage.Streams.Handles.{find-IsBody}
use mod_http3_stage.State.{Response}
use mod_http3_stage.Streams.Answers.{answer, worker_answers, respond, read_response-respond}
use mod_http3_stage.Streams.Marks.{Mark, blocks, unblocks, body_ends, ends, set_mark, mark}
use mod_http3_stage.Streams.Dispatch.{
  new_stream, track_stream, process_request, worker_gives_up, worker_returns, free_stream,
  reclaimable, reclaim, Step, calls_back, flushes, tracks, dispatches, gives_up, returns, answers,
  reads, reclaims, marks, frees, Reaches, stays, steps,
}
use mod_http3_stage.Streams.Dispatch.Steps.{IsServed}
use mod_http3_stage.Streams.Dispatch.Workers.{Step-IsServed}
use mod_http3_stage.Streams.Dispatch.Blocked.{blocked, blocked-put, blocked-remove, blocked-append}

-- `blocked_streams` is the number of the streams that are write-blocked.
abbrev pub IsCounted : Session → Type 0
IsCounted session = session.blocked_streams ≡ blocked session.streams

pick :
    (b : Bool) (x y : Session)
    → (b ≡ true → IsCounted x)
    → (b ≡ false → IsCounted y)
    → IsCounted (if b then x else y)
pick true x y f g = f refl
pick false x y f g = g refl

-- A stream that is changed in place and keeps its flag.
put-IsCounted :
    (sid : ℕ) (s s' : Stream) (session : Session)
    → IsCounted session
    → find sid session.streams ≡ some s
    → s'.write_blocked ≡ s.write_blocked
    → session.blocked_streams ≡ blocked (put sid s' session.streams)
put-IsCounted sid s s' session c e k =
    let p = blocked-put sid s s' session.streams e in
    let f : one_if s'.write_blocked ≡ one_if s.write_blocked = ap one_if k in omega arith

module _ (limit : ℕ) (small : limit ≤ 2 ^ 30) where
  calls_back-IsCounted :
      (sid : ℕ) (event : Event) (session session' : Session)
      → IsServed limit session
      → IsCounted session
      → IsObject limit event
      → run_callback limit sid event session ≡ some session'
      → IsCounted session'
  unfolding run_callback
  calls_back-IsCounted sid event session session' v n o r =
      elim (Option-cases (find sid session.streams)) [
        | inl e ↦
            let same : run_callback limit sid event session ≡ some session =
              rw (e, run_callback) refl in
            subst IsCounted (some_inj session session' (sym same ∙ r)) n
        | inr (s, e) ↦
            let b = find-IsBody limit sid s session.streams v.bodies e in
            let c = callback-Called limit event s session.pending_free small o b in
            let next : Session = record session {
              streams = put sid c.stream session.streams;
              pending_free = c.pending;
            } in
            let same : run_callback limit sid event session ≡ some next =
              rw (e, run_callback) (rw c.returned refl) in
            subst IsCounted (some_inj next session' (sym same ∙ r))
              (put-IsCounted sid s c.stream session n e c.passes.same_blocked)
      ]

track_stream-IsCounted :
    (created : Bool) (size sid st : ℕ) (session : Session)
    → IsCounted session
    → IsCounted (track_stream created size sid st session)
unfolding track_stream new_stream
track_stream-IsCounted created size sid st session n =
    elim (Option-cases (find sid session.streams)) [
      | inl e ↦
          let a = blocked-append session.streams (new_stream size sid st) in
          rw (e, track_stream) (pick created _ _ (λ c. omega (arith, a, n)) (λ c. n))
      | inr (s, e) ↦
          rw (e, track_stream)
            (put-IsCounted sid s (record s { qstream = some st }) session n e refl)
    ]

process_request-IsCounted :
    (pool_created pushed : Bool) (sid : ℕ) (session : Session)
    → IsCounted session
    → IsCounted (process_request pool_created pushed sid session)
unfolding process_request
process_request-IsCounted pool_created pushed sid session n =
    elim (Option-cases (find sid session.streams)) [
      | inl e ↦ rw (e, process_request) n
      | inr (s, e) ↦
          rw (e, process_request)
            (pick s.dispatched session _ (λ d. n)
              (λ d.
                pick (pool_created && pushed) _ _
                  (λ k. put-IsCounted sid s (record s { dispatched = true }) session n e refl)
                  (λ k. put-IsCounted sid s (record s { dispatched = false }) session n e refl)))
    ]

worker_gives_up-IsCounted :
    (sid : ℕ) (session : Session) → IsCounted session → IsCounted (worker_gives_up sid session)
unfolding worker_gives_up
worker_gives_up-IsCounted sid session n = elim (Option-cases (find sid session.streams)) [
  | inl e ↦ rw (e, worker_gives_up) n
  | inr (s, e) ↦
      rw (e, worker_gives_up)
        (put-IsCounted sid s (record s { dispatched = false }) session n e refl)
]

worker_returns-IsCounted :
    (sid : ℕ) (session : Session) → IsCounted session → IsCounted (worker_returns sid session)
unfolding worker_returns
worker_returns-IsCounted sid session n = elim (Option-cases (find sid session.streams)) [
  | inl e ↦ rw (e, worker_returns) n
  | inr (s, e) ↦
      rw (e, worker_returns)
        (put-IsCounted sid s (record s { worker_done = true }) session n e refl)
]

less_one : (b : Bool) (n m : ℕ) → n ≡ m + one_if b → (if b then n - 1 else n) ≡ m
less_one true n m e = omega arith
less_one false n m e = omega arith

reclaim-IsCounted :
    (sid : ℕ) (session : Session) → IsCounted session → IsCounted (reclaim sid session)
unfolding reclaim
reclaim-IsCounted sid session n = elim (Option-cases (find sid session.streams)) [
  | inl e ↦ rw (e, reclaim) n
  | inr (s, e) ↦
      let m = blocked-remove sid s session.streams e in
      rw (e, reclaim)
        (pick (reclaimable s) _ session
          (λ c.
            less_one s.write_blocked session.blocked_streams (blocked (remove sid session.streams))
              (n ∙ sym m))
          (λ c. n))
]

respond-IsCounted :
    (sid : ℕ) (f : Response → Response) (session : Session)
    → IsCounted session
    → IsCounted (respond sid f session)
unfolding respond
respond-IsCounted sid f session n = elim (Option-cases (find sid session.streams)) [
  | inl e ↦ rw (e, respond) n
  | inr (s, e) ↦
      rw (e, respond) (put-IsCounted sid s (record s { response = f s.response }) session n e refl)
]

set_mark_counts :
    (m : Mark) (s : Stream) (n before after : ℕ)
    → n ≡ before
    → after + one_if s.write_blocked ≡ before + one_if (set_mark m s n).0.write_blocked
    → (set_mark m s n).1 ≡ after
unfolding set_mark
set_mark_counts blocks s n before after e p = go s.write_blocked p
  where
    go : (b : Bool) → after + one_if b ≡ before + 1 → (if b then n else n + 1) ≡ after
    go true q = omega arith
    go false q = omega arith
set_mark_counts unblocks s n before after e p = go s.write_blocked p
  where
    go : (b : Bool) → after + one_if b ≡ before + 0 → (if b then n - 1 else n) ≡ after
    go true q = omega arith
    go false q = omega arith
set_mark_counts body_ends s n before after e p = omega arith
set_mark_counts ends s n before after e p = omega arith

mark-IsCounted :
    (m : Mark) (sid : ℕ) (session : Session) → IsCounted session → IsCounted (mark m sid session)
unfolding mark
mark-IsCounted m sid session n = elim (Option-cases (find sid session.streams)) [
  | inl e ↦ rw (e, mark) n
  | inr (s, e) ↦
      let k = session.blocked_streams in
      let p = blocked-put sid s (set_mark m s k).0 session.streams e in
      rw (e, mark) (set_mark_counts m s k (blocked session.streams) _ n p)
]

module _ (limit : ℕ) (small : limit ≤ 2 ^ 30) where
  Step-IsCounted :
      (session session' : Session)
      → Step limit session session'
      → IsServed limit session
      → IsCounted session
      → IsCounted session'
  unfolding free_pending free_stream worker_answers
  Step-IsCounted session session' (calls_back sid event o r) v n =
      calls_back-IsCounted limit small sid event session session' v n o r
  Step-IsCounted session session' flushes v n = n
  Step-IsCounted session session' (tracks created size sid st) v n =
      track_stream-IsCounted created size sid st session n
  Step-IsCounted session session' (dispatches pool_created pushed sid) v n =
      process_request-IsCounted pool_created pushed sid session n
  Step-IsCounted session session' (gives_up sid h) v n = worker_gives_up-IsCounted sid session n
  Step-IsCounted session session' (returns sid h) v n = worker_returns-IsCounted sid session n
  Step-IsCounted session session' (answers a w sid h) v n =
      respond-IsCounted sid (answer a w) session n
  Step-IsCounted session session' (reads veccnt sid e) v n =
      let (f, q) = read_response-respond veccnt sid session session' e in
      subst IsCounted (sym q) (respond-IsCounted sid f session n)
  Step-IsCounted session session' (reclaims sid) v n = reclaim-IsCounted sid session n
  Step-IsCounted session session' (marks m sid) v n = mark-IsCounted m sid session n
  Step-IsCounted session session' (frees st) v n = n

  -- From a session in which no stream is tracked twice, the body buffers are valid, and each stream has
  -- exactly one worker while it is dispatched and its worker has not returned, and in which
  -- `blocked_streams` is the number of the write-blocked streams, any number of steps of the threads,
  -- in any order, leads to a session in which it is that number again; H3MaxRequestBodySize is at most
  -- 2^30.
  pub Reaches-IsCounted :
      (session session' : Session)
      → Reaches limit session session'
      → IsServed limit session
      → IsCounted session
      → IsCounted session'
  Reaches-IsCounted session session' stays v n = n
  Reaches-IsCounted session session' (steps s r) v n =
      Reaches-IsCounted _ session' r (Step-IsServed limit small session _ s v)
        (Step-IsCounted session _ s v n)
