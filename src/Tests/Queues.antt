-- ===== src/Tests/Queues.antt =====
-- The theorems on the response queue, on a queue of two chunks.
use mod_http3_stage.Prelude.{
  ℕ, suc, ◌+◌, ◌<◌, ◌≡◌, refl, true, false, none, some, List, [], ◌∷◌, ◌++◌, arith, flatten,
}
use mod_http3_stage.State.{Chunk, Response}
use mod_http3_stage.ResponseQueue.{session_read_data, response_ack}
use mod_http3_stage.ResponseQueue.Inv.{IsQueue, IsFresh}
use mod_http3_stage.ResponseQueue.Read.{HandsOut, read_in_order}
use mod_http3_stage.ResponseQueue.Ack.{Acknowledged, ack_releases}
use mod_http3_stage.ResponseQueue.Append.{
  Shared, Turn, signalled, timed_out, success, must_wait, gone, enqueue, pass, returned,
  append_loop, produce, chunk_length, allocate, after,
}
use mod_http3_stage.ResponseQueue.Append.Produce.{IsValid, IsFair}
use mod_http3_stage.ResponseQueue.Append.Loop.{
  AllSmall, pieces, final, append_prefix, append_success,
}
use mod_http3_stage.ResponseQueue.Append.Served.{Serves, append_completes}

abbrev first : Chunk
first = record { addr = 1; len = 3; acked = 1; bytes = 10 ∷ 11 ∷ 12 ∷ [] }

abbrev second : Chunk
second = record { addr = 2; len = 2; acked = 0; bytes = 13 ∷ 14 ∷ [] }

abbrev queue : Response
queue = record {
  chunks = first ∷ second ∷ [];
  tail = some 2;
  submit_chunk = some 2;
  submit_offset = 0;
  buffered = 4;
  len = 5;
  buffer_limit = 16;
  submitted = true;
  complete = false;
  cancelled = false;
}

queue-IsQueue : IsQueue (first ∷ []) (second ∷ []) queue
queue-IsQueue = record {
  split = refl;
  chunks = (
    record { count = refl; alive = omega arith; small = omega arith },
    (record { count = refl; alive = omega arith; small = omega arith }, tt),
  );
  distinct = (((λ e. omega arith), tt), (tt, tt));
  whole = (refl, tt);
  submit = refl;
  offset = refl;
  tail = refl;
  buffered = refl;
  bounded = omega arith;
  small = omega arith;
}

abbrev shared : Shared
shared = record { response = queue; aborted = false; ngh3_dead = false; ngh3 = true }

shared-IsValid : IsValid shared
shared-IsValid = record { handed = first ∷ []; pending = second ∷ []; queue = queue-IsQueue }

-- A malloc that answers an address above those of all chunks.
abbrev total : List Chunk → ℕ
total [] = 0
total (c ∷ cs) = c.addr + total cs

above : (a : ℕ) (cs : List Chunk) → total cs < a → IsFresh a cs
above a [] h = tt
above a (c ∷ cs) h = ((λ e. omega arith), above a cs (omega arith))

-- The event loop hands everything out and all of it is acknowledged.
abbrev drained : Response → Response
drained r = record r {
  chunks = [];
  tail = none;
  submit_chunk = none;
  submit_offset = 0;
  buffered = 0;
}

abbrev draining : Turn
draining = record {
  others = λ s. record s { response = drained s.response };
  wait = signalled;
  malloc = λ s. some (suc (total s.response.chunks));
}

draining-IsFair : IsFair draining
draining-IsFair = record {
  keeps = λ s v. record {
    handed = [];
    pending = [];
    queue = record {
      split = refl;
      chunks = tt;
      distinct = tt;
      whole = tt;
      submit = refl;
      offset = refl;
      tail = refl;
      buffered = refl;
      bounded = omega arith;
      small = v.queue.small;
    };
  };
  fresh = λ s addr e. tt;
}

-- Nobody else acts.
abbrev quiet : Turn
quiet = record {
  others = λ s. s;
  wait = timed_out;
  malloc = λ s. some (suc (total s.response.chunks));
}

quiet-IsFair : IsFair quiet
quiet-IsFair = record {
  keeps = λ s v. v;
  fresh = λ s addr e. above addr s.response.chunks (ground arith);
}

draining-Serves : Serves draining
draining-Serves = record {
  room = λ s v g l. unfold must_wait in ground arith;
  usable = λ s g. unfold gone in g;
  same_len = λ s. refl;
  same_limit = λ s. refl;
  memory = λ s. (_, refl);
}

read_in_order_example :
    HandsOut 4 (first ∷ []) (second ∷ []) queue (session_read_data 4 (some queue))
read_in_order_example = read_in_order 3 (first ∷ []) (second ∷ []) queue queue-IsQueue refl

ack_releases_example : Acknowledged 2 (first ∷ []) (second ∷ []) queue (response_ack 2 queue)
ack_releases_example = ack_releases 2 (first ∷ []) (second ∷ []) queue queue-IsQueue (omega arith)

append_prefix_example :
    ((rest : List ℕ) × (flatten (pieces (append_loop (quiet ∷ []) (15 ∷ 16 ∷ []) shared)) ++ rest
        ≡ 15 ∷ 16 ∷ []))
    × AllSmall (pieces (append_loop (quiet ∷ []) (15 ∷ 16 ∷ []) shared))
    × IsValid (final (append_loop (quiet ∷ []) (15 ∷ 16 ∷ []) shared))
append_prefix_example =
    append_prefix (quiet ∷ []) (15 ∷ 16 ∷ []) shared (quiet-IsFair, tt) shared-IsValid

append_completes_example :
    (ps : List (List ℕ)) × (s' : Shared) × (append_loop
        (draining ∷ draining ∷ [])
        (15 ∷ 16 ∷ [])
        shared
      ≡ returned success ps s')
append_completes_example =
    append_completes (draining ∷ draining ∷ []) (15 ∷ 16 ∷ []) shared
      (draining-IsFair, (draining-IsFair, tt)) (draining-Serves, (draining-Serves, tt))
      shared-IsValid (unfold gone in refl) (omega arith) (omega arith) (omega arith)

-- the call that the quiet turn lets through
abbrev ended : Shared
ended = final (append_loop (quiet ∷ []) (15 ∷ 16 ∷ []) shared)

ended_lem :
    append_loop (quiet ∷ []) (15 ∷ 16 ∷ []) shared ≡ returned success ((15 ∷ 16 ∷ []) ∷ []) ended
unfolding append_loop pass must_wait produce gone chunk_length allocate enqueue after
ended_lem = refl

append_success_example : flatten (let ps : List (List ℕ) = (15 ∷ 16 ∷ []) ∷ [] in ps) ≡ 15 ∷ 16 ∷ []
append_success_example =
    append_success (quiet ∷ []) (15 ∷ 16 ∷ []) shared ended ((15 ∷ 16 ∷ []) ∷ []) (quiet-IsFair, tt)
      shared-IsValid ended_lem
