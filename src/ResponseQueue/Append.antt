-- ===== src/ResponseQueue/Append.antt =====
-- h3_stream_response_append of mod_http3/src/h3_session.c: a request worker copies response bytes into
-- the queue and waits for room. Other threads act whenever the mutex is free: a `Turn` is one time
-- that the worker holds it, with what they did before.
pub mod Enqueue
pub mod Produce
pub mod Loop
pub mod Served
use mod_http3_stage.Prelude.{
  ℕ, zero, suc, ◌-◌, ◌^◌, Bool, true, false, not, ◌&&◌, ◌||◌, Option, none, some, List, [], ◌∷◌,
  ◌++◌, ltb, leb, ◌==◌, if◌then◌else◌, is_some, length, take, drop,
}
use mod_http3_stage.Config.Defs.{stream_chunk_bytes}
use mod_http3_stage.State.{Chunk, Response}
use mod_http3_stage.ResponseQueue.{add_size, sub_size, response_cancel}

-- What the mutex protects, of the stream and of its session.
pub record Shared : Type 0 where
  pub response : Response
  pub aborted : Bool
  pub ngh3_dead : Bool
  pub ngh3 : Bool

-- apr_status_t, for the values that the function returns
pub data Status : Type 0 where
  success einval econnaborted egeneral enomem : Status
  other : ℕ → Status

pub data Wait : Type 0 where
  signalled timed_out : Wait
  wait_failed : ℕ → Wait

-- `others` is what happened while the mutex was free, `wait` the answer of apr_thread_cond_timedwait
-- and `malloc` that of malloc, where the turn comes to them. malloc knows what is allocated.
pub record Turn : Type 0 where
  pub others : Shared → Shared
  pub wait : Wait
  pub malloc : Shared → Option ℕ

unfoldable pub must_wait : Shared → Bool
must_wait s =
    leb s.response.buffer_limit s.response.buffered
    && not s.response.cancelled
    && not s.aborted
    && not s.ngh3_dead

unfoldable pub gone : Shared → Bool
gone s = s.response.cancelled || s.aborted || s.ngh3_dead || not s.ngh3

-- the two limits on a chunk: the room in the queue and STREAM_CHUNK_BYTES
unfoldable pub chunk_length : ℕ → ℕ → ℕ
chunk_length room left =
    let n = if ltb room left then room else left in
    if ltb stream_chunk_bytes n then stream_chunk_bytes else n

-- the chunk linked in at the tail, and the counters
unfoldable pub enqueue : ℕ → List ℕ → Response → Response
enqueue addr bytes r =
    let chunk : Chunk = record { addr = addr; len = length bytes; acked = 0; bytes = bytes } in
    record r {
      chunks = if is_some r.tail then r.chunks ++ chunk ∷ [] else chunk ∷ [];
      tail = some addr;
      submit_chunk = if is_some r.submit_chunk then r.submit_chunk else some addr;
      submit_offset = if is_some r.submit_chunk then r.submit_offset else 0;
      buffered = add_size r.buffered (length bytes);
      len = add_size r.len (length bytes);
    }

-- What one pass under the mutex comes to, with the state that it leaves: `chunk_len` bytes queued (and
-- whether nghttp3_conn_resume_stream was called), one more wait, or the end of the call.
pub data Pass : Type 0 where
  queued : ℕ → Bool → Shared → Pass
  waits : Shared → Pass
  fails : Status → Shared → Pass

pub cancel : Shared → Shared
unfolding response_cancel
cancel s = record s { response = response_cancel s.response }

unfoldable pub allocate : Option ℕ → List ℕ → Shared → Pass
allocate none bytes s = fails enomem (cancel s)
allocate (some addr) bytes s =
    queued (length bytes) s.response.submitted
      (record s { response = enqueue addr bytes s.response })

-- behind the wait, with `left` the bytes from `offset` on
unfoldable pub produce : Option ℕ → List ℕ → Shared → Pass
produce malloc left s =
    let room = sub_size s.response.buffer_limit s.response.buffered in
    let n = chunk_length room (length left) in
    if gone s
    then fails econnaborted s
    else if n == 0 || ltb (2 ^ 64 - 1 - n) s.response.len
    then fails egeneral (cancel s)
    else allocate malloc (take n left) s

unfoldable pub waiting : Wait → Shared → Pass
waiting signalled s = waits s
waiting timed_out s = waits s
waiting (wait_failed rv) s = fails (other rv) s

unfoldable pub pass : Turn → List ℕ → Shared → Pass
pass t left s =
    let now = t.others s in
    if must_wait now then waiting t.wait now else produce (t.malloc now) left now

-- The bytes that the last chunk of a list holds.
abbrev pub last_bytes : List Chunk → List ℕ
last_bytes [] = []
last_bytes (c ∷ []) = c.bytes
last_bytes (c ∷ d ∷ cs) = last_bytes (d ∷ cs)

-- How a call stands after some turns: returned or still running, with what the queue was found to hold
-- in its last chunk whenever the call had queued something, when it let go of the mutex.
pub data Call : Type 0 where
  returned : Status → List (List ℕ) → Shared → Call
  running : List (List ℕ) → Shared → Call

unfoldable pub after : List ℕ → Call → Call
after piece (returned status pieces s) = returned status (piece ∷ pieces) s
after piece (running pieces s) = running (piece ∷ pieces) s

-- `while (offset < len)`, over the bytes from `offset` on
unfoldable pub append_loop : List Turn → List ℕ → Shared → Call
append_loop ts [] s = returned success [] s
append_loop [] (b ∷ bs) s = running [] s
append_loop (t ∷ ts) (b ∷ bs) s = elim (pass t (b ∷ bs) s) [
  | queued chunk_len resumed s' ↦
      after (last_bytes s'.response.chunks) (append_loop ts (drop chunk_len (b ∷ bs)) s')
  | waits s' ↦ append_loop ts (b ∷ bs) s'
  | fails status s' ↦ returned status [] s'
]

-- The call: a NULL stream, or NULL data with a length, is APR_EINVAL.
pub data Answer : Type 0 where
  invalid : Answer
  ran : Call → Answer

pub response_append : List Turn → Option (List ℕ) → ℕ → Option Shared → Answer
response_append ts bytes len none = invalid
response_append ts none zero (some s) = ran (append_loop ts [] s)
response_append ts none (suc len) (some s) = invalid
response_append ts (some bytes) len (some s) = ran (append_loop ts bytes s)
