-- ===== src/ResponseQueue.antt =====
-- The bounded response queue of a stream: the h3_stream_response_* functions and h3_session_read_data
-- of mod_http3/src/h3_session.c. The functions of this file run with the session mutex held;
-- `ResponseQueue.Append` has the blocking producer.
pub mod Append
pub mod Inv
pub mod Read
pub mod Ack
pub mod Release
use mod_http3_stage.Prelude.{
  ℕ, zero, suc, ◌+◌, ◌-◌, ◌%◌, ◌^◌, Bool, true, false, ◌&&◌, Option, none, some, List, [], ◌∷◌,
  ◌++◌, ltb, ◌==◌, if◌then◌else◌, is_some, drop,
}
use mod_http3_stage.State.{Chunk, Response}

-- `size_t` subtraction
abbrev pub sub_size : ℕ → ℕ → ℕ
sub_size a b = (2 ^ 64 + a - b) % 2 ^ 64

abbrev pub add_size : ℕ → ℕ → ℕ
add_size a b = (a + b) % 2 ^ 64

-- h3_stream_response_cancel_locked, but for the broadcast
unfoldable pub response_cancel : Response → Response
response_cancel r = record r { cancelled = true; complete = true }

-- h3_stream_response_cleanup_locked: every chunk is freed
unfoldable pub response_cleanup : Response → Response
response_cleanup r = record r {
  chunks = [];
  tail = none;
  submit_chunk = none;
  submit_offset = 0;
  buffered = 0;
}

-- The loop of h3_stream_response_ack_locked over `response_head`: the chunks and the count that are
-- left, and `released`. A chunk that is not used up has consumed all of `datalen`, which ends the
-- loop.
pub ack_loop : ℕ → List Chunk → ℕ → List Chunk × ℕ × Bool
ack_loop datalen [] buffered = ([], buffered, false)
ack_loop datalen (chunk ∷ next) buffered =
    let available = sub_size chunk.len chunk.acked in
    let consumed = if ltb datalen available then datalen else available in
    let acked = add_size chunk.acked consumed in
    let buffered' = sub_size buffered consumed in
    let (head, left, _) = ack_loop (datalen - consumed) next buffered' in
    if datalen == 0
    then (chunk ∷ next, buffered, false)
    else if acked == chunk.len
    then (head, left, true)
    else (record chunk { acked = acked } ∷ next, buffered', true)

-- `response_tail` once the loop has popped: NULL when the last chunk went
abbrev pub tail_after : List Chunk → Option ℕ → Option ℕ
tail_after [] tail = none
tail_after (c ∷ cs) tail = tail

-- h3_stream_response_ack_locked; the Boolean is the broadcast that wakes the producer
pub response_ack : ℕ → Response → Response × Bool
unfolding ack_loop
response_ack datalen r =
    let (head, left, released) = ack_loop datalen r.chunks r.buffered in
    (
      record r {
        chunks = head;
        tail = if released then tail_after head r.tail else r.tail;
        buffered = left;
      },
      released,
    )

-- h3_stream_response_complete; the Boolean is the call of nghttp3_conn_resume_stream. `usable` says
-- that `session->ngh3` is there and not dead.
pub response_complete : Bool → Response → Response × Bool
response_complete usable r = (record r { complete = true }, r.submitted && usable)

-- The chunks from the address on, as its `next` pointers lead; `none` is a pointer to freed memory.
pub chunks_from : ℕ → List Chunk → Option (List Chunk)
chunks_from addr [] = none
chunks_from addr (c ∷ cs) = if c.addr == addr then some (c ∷ cs) else chunks_from addr cs

abbrev pub head_addr : List Chunk → Option ℕ
head_addr [] = none
head_addr (c ∷ cs) = some c.addr

abbrev pub cons_vec :
    List ℕ → Option (List (List ℕ) × Option ℕ × ℕ) → Option (List (List ℕ) × Option ℕ × ℕ)
cons_vec bs none = none
cons_vec bs (some (vec, submit, offset)) = some (bs ∷ vec, submit, offset)

-- `while (response_submit_chunk && count < veccnt)`: the vectors filled in the `room` slots that are
-- left, and the two submit fields afterwards; `none` is a read through a dangling pointer.
pub fill_vec : ℕ → List Chunk → Option ℕ → ℕ → Option (List (List ℕ) × Option ℕ × ℕ)
fill_vec zero chunks submit offset = some ([], submit, offset)
fill_vec (suc room) chunks none offset = some ([], none, offset)
fill_vec (suc room) chunks (some addr) offset = elim (chunks_from addr chunks) [
  | none ↦ none
  | some [] ↦ none
  | some (chunk ∷ next) ↦
      cons_vec (drop offset chunk.bytes) (fill_vec room chunks (head_addr next) 0)
]

-- What h3_session_read_data answers: the vectors with NGHTTP3_DATA_FLAG_EOF or without (no vector is
-- the answer 0), NGHTTP3_ERR_WOULDBLOCK, or NGHTTP3_ERR_CALLBACK_FAILURE.
pub data ReadData : Type 0 where
  vectors : List (List ℕ) → Bool → ReadData
  would_block callback_failure : ReadData

pub answer : List (List ℕ) → Option ℕ → Bool → ReadData
answer [] submit complete = if complete then vectors [] true else would_block
answer (v ∷ vs) none complete = vectors (v ∷ vs) complete
answer (v ∷ vs) (some addr) complete = vectors (v ∷ vs) false

-- from the test of `response_cancelled` on
pub read_queue : ℕ → Response → Option (ReadData × Response)
read_queue veccnt r =
    if r.cancelled
    then some (vectors [] true, r)
    else elim (fill_vec veccnt r.chunks r.submit_chunk r.submit_offset) [
      | none ↦ none
      | some (vec, submit, offset) ↦
          some (
            answer vec submit r.complete,
            record r { submit_chunk = submit; submit_offset = offset },
          )
    ]

-- h3_session_read_data, whose `stream_user_data` may be NULL. `vec` and `pflags` are what nghttp3
-- passes, and never NULL.
pub session_read_data : ℕ → Option Response → Option (ReadData × Option Response)
session_read_data veccnt none = some (callback_failure, none)
session_read_data zero (some r) = some (callback_failure, some r)
session_read_data (suc n) (some r) = elim (read_queue (suc n) r) [
  | none ↦ none
  | some (got, r') ↦ some (got, some r')
]
