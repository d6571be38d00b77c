-- ===== src/ResponseQueue/Append/Produce.antt =====
-- One pass of h3_stream_response_append under the mutex.
use mod_http3_stage.Prelude.{
  ℕ, ◌+◌, ◌-◌, ◌≤◌, ◌<◌, ◌≡◌, ◌≢◌, ◌^◌, ◌∙◌, refl, sym, ap, true, false, ◌||◌, Option, none, some,
  List, ◌++◌, arith, ltb, ◌==◌, length, take, drop, take-append-drop, length-take, Bool-cases, inl,
  inr,
}
use mathlib.Core.Path.{subst}
use mod_http3_stage.Config.Defs.{stream_chunk_bytes}
use mod_http3_stage.State.{Chunk}
use mod_http3_stage.ResponseQueue.{sub_size, response_cancel}
use mod_http3_stage.ResponseQueue.Append.{
  Shared, success, econnaborted, egeneral, Wait, signalled, timed_out, wait_failed, Turn, must_wait,
  gone, chunk_length, enqueue, Pass, queued, last_bytes, waits, fails, cancel, allocate, produce,
  waiting, pass,
}
use mod_http3_stage.ResponseQueue.Append.Enqueue.{Enqueued, enqueue_lem}
use mod_http3_stage.ResponseQueue.Inv.{IsFresh, IsQueue}

-- The queue of the stream satisfies its invariant.
pub record IsValid (s : Shared) : Type 0 where
  pub handed : List Chunk
  pub pending : List Chunk
  pub queue : IsQueue handed pending s.response

-- What is assumed of the other threads and of malloc: they keep the queue valid, and an address that
-- malloc returns is that of no chunk in the queue.
pub record IsFair (t : Turn) : Type 0 where
  pub keeps : (s : Shared) → IsValid s → IsValid (t.others s)
  pub fresh :
      (s : Shared) (addr : ℕ)
      → t.malloc (t.others s) ≡ some addr
      → IsFresh addr (t.others s).response.chunks

-- A pass queues a non-empty beginning of what is left, of at most STREAM_CHUNK_BYTES, or it waits, or
-- it ends the call with an error; the queue stays valid.
abbrev pub PassOk : List ℕ → Pass → Type 0
PassOk left (queued n resumed s) =
    (last_bytes s.response.chunks ++ drop n left ≡ left)
    × (0 < length (last_bytes s.response.chunks))
    × (length (last_bytes s.response.chunks) ≤ stream_chunk_bytes)
    × IsValid s
PassOk left (waits s) = IsValid s
PassOk left (fails status s) = (status ≢ success) × IsValid s

pub chunk_length_bounds :
    (room left : ℕ)
    → (chunk_length room left ≤ room)
      × (chunk_length room left ≤ left)
      × (chunk_length room left ≤ stream_chunk_bytes)
unfolding chunk_length
chunk_length_bounds room left = ground arith

pub chunk_length_pos : (room left : ℕ) → 0 < room → 0 < left → 0 < chunk_length room left
unfolding chunk_length
chunk_length_pos room left p q = ground arith

pub length-piece : (n : ℕ) (left : List ℕ) → n ≤ length left → length (take n left) ≡ n
length-piece n left h = omega (arith, length-take n left)

pub piece_split :
    (n : ℕ) (left : List ℕ)
    → n ≤ length left
    → take n left ++ drop (length (take n left)) left ≡ left
piece_split n left h =
    ap (λ k. take n left ++ drop k left) (length-piece n left h) ∙ take-append-drop n left

cancel-IsValid : (s : Shared) → IsValid s → IsValid (cancel s)
unfolding cancel response_cancel
cancel-IsValid s v = record {
  handed = v.handed;
  pending = v.pending;
  queue = record {
    split = v.queue.split;
    chunks = v.queue.chunks;
    distinct = v.queue.distinct;
    whole = v.queue.whole;
    submit = v.queue.submit;
    offset = v.queue.offset;
    tail = v.queue.tail;
    buffered = v.queue.buffered;
    bounded = v.queue.bounded;
    small = v.queue.small;
  };
}

allocate-PassOk :
    (malloc : Option ℕ) (n : ℕ) (left : List ℕ) (s : Shared)
    → IsValid s
    → ((addr : ℕ) → malloc ≡ some addr → IsFresh addr s.response.chunks)
    → 0 < n
    → n ≤ length left
    → n ≤ stream_chunk_bytes
    → s.response.buffered + n ≤ s.response.buffer_limit
    → PassOk left (allocate malloc (take n left) s)
unfolding allocate
allocate-PassOk none n left s v f p q r room = ((λ e. cc), cancel-IsValid s v)
allocate-PassOk (some addr) n left s v f p q r room =
    let e : length (take n left) ≡ n = length-piece n left q in
    let new : Enqueued (take n left) v.handed v.pending s.response
        (enqueue addr (take n left) s.response) =
      enqueue_lem addr (take n left) v.handed v.pending s.response v.queue
        (subst (IsFresh addr) v.queue.split (f addr refl)) (omega arith) (omega arith) in
    rw new.last (
      piece_split n left q,
      omega arith,
      omega arith,
      record { handed = v.handed; pending = new.pending'; queue = new.valid },
    )

-- the amount that `produce` takes
abbrev pub amount : List ℕ → Shared → ℕ
amount left s = chunk_length (sub_size s.response.buffer_limit s.response.buffered) (length left)

produce-gone :
    (malloc : Option ℕ) (left : List ℕ) (s : Shared)
    → gone s ≡ true
    → produce malloc left s ≡ fails econnaborted s
unfolding produce
produce-gone malloc left s g = rw g

produce_stuck :
    (malloc : Option ℕ) (left : List ℕ) (s : Shared)
    → gone s ≡ false
    → (amount left s == 0 || ltb (2 ^ 64 - 1 - amount left s) s.response.len) ≡ true
    → produce malloc left s ≡ fails egeneral (cancel s)
unfolding produce
produce_stuck malloc left s g e = rw (g, e)

pub produce_some :
    (malloc : Option ℕ) (left : List ℕ) (s : Shared)
    → gone s ≡ false
    → (amount left s == 0 || ltb (2 ^ 64 - 1 - amount left s) s.response.len) ≡ false
    → produce malloc left s ≡ allocate malloc (take (amount left s) left) s
unfolding produce
produce_some malloc left s g e = rw (g, e)

amount_room :
    (left : List ℕ) (s : Shared)
    → IsValid s
    → s.response.buffered + amount left s ≤ s.response.buffer_limit
amount_room left s v =
    let b =
      chunk_length_bounds (sub_size s.response.buffer_limit s.response.buffered) (length left) in
    omega (arith, b.0, v.queue.bounded, v.queue.small)

produce-PassOk :
    (malloc : Option ℕ) (left : List ℕ) (s : Shared)
    → IsValid s
    → ((addr : ℕ) → malloc ≡ some addr → IsFresh addr s.response.chunks)
    → PassOk left (produce malloc left s)
produce-PassOk malloc left s v f = elim (Bool-cases (gone s)) [
  | inl g ↦ subst (PassOk left) (sym (produce-gone malloc left s g)) ((λ e. cc), v)
  | inr g ↦
      elim (Bool-cases (amount left s == 0 || ltb (2 ^ 64 - 1 - amount left s) s.response.len)) [
        | inl stuck ↦
            subst (PassOk left) (sym (produce_stuck malloc left s g stuck))
              ((λ e. cc), cancel-IsValid s v)
        | inr fine ↦
            let b =
              chunk_length_bounds (sub_size s.response.buffer_limit s.response.buffered)
                (length left) in
            subst (PassOk left) (sym (produce_some malloc left s g fine)) (
              allocate-PassOk malloc (amount left s) left s v f (ground (arith, fine)) b.1 b.2
                (amount_room left s v))
      ]
]

waiting-PassOk : (w : Wait) (left : List ℕ) (s : Shared) → IsValid s → PassOk left (waiting w s)
unfolding waiting
waiting-PassOk signalled left s v = v
waiting-PassOk timed_out left s v = v
waiting-PassOk (wait_failed rv) left s v = ((λ e. cc), v)

-- With fair other threads and a valid queue, a pass queues a non-empty beginning of what is left, of at
-- most STREAM_CHUNK_BYTES, or waits, or ends the call with an error status; on every branch the queue
-- stays valid.
pub pass-PassOk :
    (t : Turn) (left : List ℕ) (s : Shared) → IsFair t → IsValid s → PassOk left (pass t left s)
unfolding pass
pass-PassOk t left s f v = elim (Bool-cases (must_wait (t.others s))) [
  | inl w ↦ rw w (waiting-PassOk t.wait left (t.others s) (f.keeps s v))
  | inr go ↦
      rw go (produce-PassOk (t.malloc (t.others s)) left (t.others s) (f.keeps s v) (f.fresh s))
]
