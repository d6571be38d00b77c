-- ===== src/ResponseQueue/Append/Served.antt =====
-- The end of a call of h3_stream_response_append (mod_http3/src/h3_session.c) whose queue is drained.
use mod_http3_stage.Prelude.{
  ℕ, ◌+◌, ◌-◌, ◌≤◌, ◌<◌, ◌≡◌, ◌^◌, ◌∙◌, refl, sym, ap, Bool, false, ◌||◌, some, List, [], ◌∷◌,
  arith, ltb, ◌==◌, length, take, drop, length-take, length-append, length-drop, min,
}
use mathlib.Core.Path.{subst}
use mod_http3_stage.ResponseQueue.{sub_size}
use mod_http3_stage.ResponseQueue.Append.{
  Shared, success, Turn, must_wait, gone, enqueue, queued, last_bytes, allocate, produce, pass,
  Call, returned, after, append_loop,
}
use mod_http3_stage.ResponseQueue.Append.Produce.{
  IsValid, IsFair, PassOk, pass-PassOk, amount, produce_some, chunk_length_pos, chunk_length_bounds,
}
use mod_http3_stage.ResponseQueue.Append.Loop.{AllFair, step, append_loop-step}

-- Other threads that drain the queue of a usable stream and leave its length, its limit and its use
-- alone, and a malloc with memory.
pub record Serves (t : Turn) : Type 0 where
  pub room :
      (s : Shared)
      → IsValid s
      → gone s ≡ false
      → 0 < s.response.buffer_limit
      → must_wait (t.others s) ≡ false
  pub usable : (s : Shared) → gone s ≡ false → gone (t.others s) ≡ false
  pub same_len : (s : Shared) → (t.others s).response.len ≡ s.response.len
  pub same_limit : (s : Shared) → (t.others s).response.buffer_limit ≡ s.response.buffer_limit
  pub memory : (s : Shared) → (addr : ℕ) × (t.malloc s ≡ some addr)

abbrev pub AllServe : List Turn → Type 0
AllServe [] = Unit
AllServe (t ∷ ts) = Serves t × AllServe ts

has_room :
    (s : Shared)
    → must_wait s ≡ false
    → gone s ≡ false
    → s.response.buffered < s.response.buffer_limit
unfolding must_wait gone
has_room s m g = ground arith

amount_pos :
    (b : ℕ) (bs : List ℕ) (s : Shared)
    → IsValid s
    → s.response.buffered < s.response.buffer_limit
    → 0 < amount (b ∷ bs) s
amount_pos b bs s v h =
    chunk_length_pos (sub_size s.response.buffer_limit s.response.buffered) (length (b ∷ bs))
      (omega (arith, v.queue.small)) (omega arith)

not_stuck :
    (n len : ℕ) → 0 < n → n ≤ 4096 → len < 2 ^ 63 → (n == 0 || ltb (2 ^ 64 - 1 - n) len) ≡ false
not_stuck n len p q r = ground arith

produce_queues :
    (addr : ℕ) (b : ℕ) (bs : List ℕ) (s : Shared)
    → IsValid s
    → must_wait s ≡ false
    → gone s ≡ false
    → s.response.len < 2 ^ 63
    → produce (some addr) (b ∷ bs) s
      ≡ queued
          (length (take (amount (b ∷ bs) s) (b ∷ bs)))
          s.response.submitted
          (record s { response = enqueue addr (take (amount (b ∷ bs) s) (b ∷ bs)) s.response })
unfolding allocate
produce_queues addr b bs s v m g l = produce_some (some addr) (b ∷ bs) s g (
    not_stuck (amount (b ∷ bs) s) s.response.len (amount_pos b bs s v (has_room s m g))
      ((chunk_length_bounds (sub_size s.response.buffer_limit s.response.buffered)
        (length (b ∷ bs))).2)
      l)

pass_produces :
    (t : Turn) (left : List ℕ) (s : Shared) (addr : ℕ)
    → must_wait (t.others s) ≡ false
    → t.malloc (t.others s) ≡ some addr
    → pass t left s ≡ produce (some addr) left (t.others s)
unfolding pass
pass_produces t left s addr m e = rw m (ap (λ a. produce a left (t.others s)) e)

-- A serving turn queues a piece, and leaves a stream that can be served on.
record Queues (t : Turn) (left : List ℕ) (s : Shared) : Type 0 where
  chunk_len : ℕ
  resumed : Bool
  next : Shared
  made : pass t left s ≡ queued chunk_len resumed next
  usable : gone next ≡ false
  len : next.response.len ≡ s.response.len + chunk_len
  limit : next.response.buffer_limit ≡ s.response.buffer_limit
  fits : chunk_len ≤ length left

Serves-Queues :
    (t : Turn) (b : ℕ) (bs : List ℕ) (s : Shared)
    → Serves t
    → IsFair t
    → IsValid s
    → gone s ≡ false
    → 0 < s.response.buffer_limit
    → s.response.len + length (b ∷ bs) < 2 ^ 63
    → Queues t (b ∷ bs) s
unfolding gone enqueue
Serves-Queues t b bs s k f v g l n =
    let now = t.others s in
    let (addr, memory) = k.memory (t.others s) in
    let piece = take (amount (b ∷ bs) (t.others s)) (b ∷ bs) in
    let size : length piece ≡ min (amount (b ∷ bs) (t.others s)) (length (b ∷ bs)) =
      length-take (amount (b ∷ bs) (t.others s)) (b ∷ bs) in
    let len = k.same_len s in
    record {
      chunk_len = length piece;
      resumed = (t.others s).response.submitted;
      next = record (t.others s) { response = enqueue addr piece (t.others s).response };
      made =
          pass_produces t (b ∷ bs) s addr (k.room s v g l) memory
          ∙ produce_queues addr b bs (t.others s) (f.keeps s v) (k.room s v g l) (k.usable s g)
              (omega arith);
      usable = k.usable s g;
      len = omega arith;
      limit = k.same_limit s;
      fits = omega arith;
    }

after_success :
    (piece : List ℕ) (c : Call)
    → (ps : List (List ℕ)) × (s : Shared) × (c ≡ returned success ps s)
    → (ps : List (List ℕ)) × (s : Shared) × (after piece c ≡ returned success ps s)
unfolding after
after_success piece c (ps, s, e) = (piece ∷ ps, s, ap (after piece) e)

-- On a usable stream with a valid queue and a positive limit, whose response stays below 2^63 bytes,
-- at least as many fair and serving turns as there are bytes make the call return APR_SUCCESS.
pub append_completes :
    (ts : List Turn) (left : List ℕ) (s : Shared)
    → AllFair ts
    → AllServe ts
    → IsValid s
    → gone s ≡ false
    → 0 < s.response.buffer_limit
    → s.response.len + length left < 2 ^ 63
    → length left ≤ length ts
    → (ps : List (List ℕ)) × (s' : Shared) × (append_loop ts left s ≡ returned success ps s')
append_completes [] [] s f k v g l n h = ([], s, unfold append_loop in refl)
append_completes [] (b ∷ bs) s f k v g l n h = absurd (omega arith)
append_completes (t ∷ ts) [] s f k v g l n h = ([], s, unfold append_loop in refl)
append_completes (t ∷ ts) (b ∷ bs) s f k v g l n h =
    let q : Queues t (b ∷ bs) s = Serves-Queues t b bs s k.0 f.0 v g l n in
    let p : PassOk (b ∷ bs) (queued q.chunk_len q.resumed q.next) =
      subst (PassOk (b ∷ bs)) q.made (pass-PassOk t (b ∷ bs) s f.0 v) in
    let left = drop q.chunk_len (b ∷ bs) in
    let size : length (last_bytes q.next.response.chunks) + length left ≡ length (b ∷ bs) =
      sym (length-append (last_bytes q.next.response.chunks) left) ∙ ap length p.0 in
    let dropped = length-drop q.chunk_len (b ∷ bs) in
    let fits = q.fits in
    let len = q.len in
    let limit = q.limit in
    let (ps, s'', r) =
      after_success (last_bytes q.next.response.chunks) (append_loop ts left q.next) (
        append_completes ts left q.next f.1 k.1 p.3 q.usable (omega arith) (omega arith)
          (omega (arith, p.1))) in
    (ps, s'', append_loop-step t ts b bs s ∙ ap (step ts (b ∷ bs)) q.made ∙ r)
