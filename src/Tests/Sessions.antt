-- ===== src/Tests/Sessions.antt =====
-- The theorems on the streams of a session, on a session with one request stream.
use mod_http3_stage.Prelude.{
  ℕ, ◌≡◌, refl, true, false, some, List, [], ◌∷◌, arith, ◌==◌, one_if_le, count, ◌+◌, some_inj,
  Bool-cases, inl, inr,
}
use mod_http3_stage.Streams.{
  Session, find, Event, Turn, calls_back, flushes, run_turns, free_pending,
}
use mod_http3_stage.Streams.Handles.{places, AllBodies, run_turns_conserves}
use mod_http3_stage.Streams.Dispatch.{
  process_request, reclaim, stays, steps, dispatches, reclaims, marks, Step,
}
use mod_http3_stage.Streams.Dispatch.Steps.{IsServed}
use mod_http3_stage.Streams.Dispatch.Workers.{Reaches-IsServed}
use mathlib.Core.Path.{subst}
use mod_http3_stage.Streams.Marks.{Mark, mark}
use mod_http3_stage.Streams.Dispatch.Counted.{IsCounted, Reaches-IsCounted}
use mod_http3_stage.Streams.Lifetime.{
  Started, Opening, all_opened, create_control_streams, session_destroy,
}
use mod_http3_stage.Streams.Lifetime.Objects.{
  AreFresh, AllDiscarded, create_control_streams_conserves, session_destroy_lem,
}
use mod_http3_stage.Tests.Bodies.{stream, body-IsBody}

abbrev pub session : Session
session = record {
  streams = stream ∷ [];
  pending_free = [];
  freed = [];
  running = [];
  blocked_streams = 0;
}

abbrev turns : List Turn
turns =
    calls_back 4 (Event.body_data (9 ∷ []))
    ∷ calls_back 4 Event.peer_stops
    ∷ flushes
    ∷ calls_back 4 Event.closes
    ∷ []

pub session-IsServed : IsServed 10 session
unfolding find
session-IsServed = record {
  unique = λ sid. let l = one_if_le (sid == 4) in omega arith;
  workers = λ sid. elim (Bool-cases (4 == sid)) [ inl e ↦ rw e (refl, refl) | inr e ↦ rw e refl ];
  bodies = (body-IsBody, tt);
}

run_turns_conserves_example :
    (session' : Session) × (run_turns 10 turns session ≡ some session')
    × ((st : ℕ) → places st session' ≡ places st session)
    × AllBodies 10 session'.streams
run_turns_conserves_example =
    run_turns_conserves 10 turns session (omega arith) (omega arith, (tt, (tt, tt)))
      (body-IsBody, tt)

Reaches-IsServed_example :
    IsServed 10 (reclaim 4 (free_pending (process_request true true 4 session)))
Reaches-IsServed_example =
    Reaches-IsServed 10 (omega arith) session
      (reclaim 4 (free_pending (process_request true true 4 session)))
      (steps (dispatches true true 4) (steps Step.flushes (steps (reclaims 4) stays)))
      session-IsServed

Reaches-IsCounted_example : IsCounted (mark Mark.unblocks 4 (mark Mark.blocks 4 session))
Reaches-IsCounted_example =
    Reaches-IsCounted 10 (omega arith) session (mark Mark.unblocks 4 (mark Mark.blocks 4 session))
      (steps (marks Mark.blocks 4) (steps (marks Mark.unblocks 4) stays)) session-IsServed refl

-- A session that starts.
abbrev started : Started
started = record { session = session; has_ngh3 = true; control_streams_created = false }

abbrev opening : Opening
opening = record {
  control = some (3, 91);
  qpack_enc = some (7, 92);
  qpack_dec = some (11, 93);
  control_bound = true;
  qpack_bound = true;
  created = λ id. true;
}

opened_fresh :
    (cs : List (ℕ × ℕ))
    → all_opened (some (3, 91)) (some (7, 92)) (some (11, 93)) ≡ some cs
    → AreFresh cs session
unfolding all_opened
opened_fresh cs e =
    let all : List (ℕ × ℕ) = (3, 91) ∷ (7, 92) ∷ (11, 93) ∷ [] in
    subst (λ ds. AreFresh ds session) (some_inj all cs e) (λ x. ground arith)

create_control_streams_conserves_example :
    places 92 (create_control_streams 16 opening started).0.session
    ≡ places 92 session + count 92 (93 ∷ 92 ∷ 91 ∷ [])
create_control_streams_conserves_example =
    create_control_streams_conserves 16 opening started 92 refl (λ id. refl) opened_fresh

session_destroy_lem_example :
    AllDiscarded (session_destroy (some 5) (started, [])).0.session.streams
session_destroy_lem_example = (session_destroy_lem 5 started []).0
