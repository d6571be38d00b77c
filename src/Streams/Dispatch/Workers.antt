-- ===== src/Streams/Dispatch/Workers.antt =====
-- The workers of the streams under any sequence of steps of the threads.
use mod_http3_stage.Prelude.{ℕ, ◌^◌, ◌≤◌, refl, sym, Option-cases, inl, inr, arith}
use mathlib.Core.Path.{subst}
use mod_http3_stage.Body.Receive.Laws.{IsBody}
use mod_http3_stage.Streams.Answers.{answer, worker_answers, read_response-respond}
use mod_http3_stage.Streams.Marks.{Mark, set_mark, mark}
use mod_http3_stage.Streams.Marks.Laws.{set_mark_keeps}
use mod_http3_stage.Streams.Handles.{find-IsBody}
use mod_http3_stage.Streams.{Session, find, free_pending}
use mod_http3_stage.Streams.Dispatch.{
  free_stream, Step, calls_back, flushes, tracks, dispatches, gives_up, returns, answers, reads,
  reclaims, marks, frees, Reaches, stays, steps,
}
use mod_http3_stage.Streams.Dispatch.Objects.{
  respond-IsServed, track_stream-IsServed, reclaim-IsServed,
}
use mod_http3_stage.Streams.Dispatch.Steps.{
  IsServed, changed, workers_at, calls_back-IsServed, process_request-IsServed,
  worker_gives_up-IsServed, worker_returns-IsServed,
}

mark-IsServed :
    (limit : ℕ) (small : limit ≤ 2 ^ 30) (m : Mark) (sid : ℕ) (session : Session)
    → IsServed limit session
    → IsServed limit (mark m sid session)
unfolding mark
mark-IsServed limit small m sid session v = elim (Option-cases (find sid session.streams)) [
  | inl e ↦ rw (e, mark) v
  | inr (s, e) ↦
      let b = find-IsBody limit sid s session.streams v.bodies e in
      let w = workers_at limit small sid s session v e in
      let n = session.blocked_streams in
      let (i, d, k, y) = set_mark_keeps m s n in
      rw (e, mark)
        (changed limit small sid s (set_mark m s n).0 session _ v e i
          (subst (IsBody limit) (sym y) b) (ground (arith, w.0, d, k), ground (arith, w.1, d, k))
          (λ x n. refl) refl)
]

module _ (limit : ℕ) (small : limit ≤ 2 ^ 30) where
  pub Step-IsServed :
      (session session' : Session)
      → Step limit session session'
      → IsServed limit session
      → IsServed limit session'
  unfolding free_pending free_stream worker_answers
  Step-IsServed session session' (calls_back sid event o r) v =
      calls_back-IsServed limit small sid event session session' v o r
  Step-IsServed session session' flushes v = record {
    unique = v.unique;
    workers = v.workers;
    bodies = v.bodies;
  }
  Step-IsServed session session' (tracks created buffer_size sid st) v =
      track_stream-IsServed limit small created buffer_size sid st session v
  Step-IsServed session session' (dispatches pool_created pushed sid) v =
      process_request-IsServed limit small pool_created pushed sid session v
  Step-IsServed session session' (gives_up sid h) v =
      worker_gives_up-IsServed limit small sid session h v
  Step-IsServed session session' (returns sid h) v =
      worker_returns-IsServed limit small sid session h v
  Step-IsServed session session' (answers a w sid h) v =
      respond-IsServed limit small sid (answer a w) session v
  Step-IsServed session session' (reads veccnt sid e) v =
      let (f, q) = read_response-respond veccnt sid session session' e in
      subst (IsServed limit) (sym q) (respond-IsServed limit small sid f session v)
  Step-IsServed session session' (reclaims sid) v = reclaim-IsServed limit small sid session v
  Step-IsServed session session' (marks m sid) v = mark-IsServed limit small m sid session v
  Step-IsServed session session' (frees st) v = record {
    unique = v.unique;
    workers = v.workers;
    bodies = v.bodies;
  }

  -- From a session in which no stream is tracked twice, the body buffers are valid, and each stream has
  -- exactly one worker while it is dispatched and its worker has not returned, any number of steps of
  -- the threads, in any order, leads to such a session again; H3MaxRequestBodySize is at most 2^30. So
  -- no two workers ever serve one stream, and a stream that a worker serves is not reclaimed.
  pub Reaches-IsServed :
      (session session' : Session)
      → Reaches limit session session'
      → IsServed limit session
      → IsServed limit session'
  Reaches-IsServed session session' stays v = v
  Reaches-IsServed session session' (steps s r) v =
      Reaches-IsServed _ session' r (Step-IsServed session _ s v)
