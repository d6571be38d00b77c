-- ===== src/ResponseQueue/Append/Enqueue.antt =====
-- The chunk that h3_stream_response_append links in.
use mod_http3_stage.Prelude.{
  ℕ, ◌+◌, ◌≤◌, ◌<◌, ◌≡◌, ◌∙◌, refl, sym, ap, true, Option, none, some, List, [], ◌∷◌, ◌++◌, arith,
  if◌then◌else◌, is_some, length, append_assoc, append-nil,
}
use mathlib.Core.Path.{subst}
use mod_http3_stage.State.{Chunk, Response}
use mod_http3_stage.ResponseQueue.{head_addr, add_size}
use mod_http3_stage.ResponseQueue.Append.{enqueue, last_bytes}
use mod_http3_stage.ResponseQueue.Inv.{
  AllChunks, AreDistinct, IsFresh, AllWhole, outstanding, bytes_of, last_addr, IsQueue,
  outstanding-append, AllChunks-append, AreDistinct-snoc, last_addr-snoc, bytes_of-append,
}

abbrev pub new_chunk : ℕ → List ℕ → Chunk
new_chunk addr bytes = record { addr = addr; len = length bytes; acked = 0; bytes = bytes }

linked :
    (cs : List Chunk) (c : Chunk)
    → (if is_some (last_addr cs) then cs ++ c ∷ [] else c ∷ []) ≡ cs ++ c ∷ []
linked [] c = refl
linked (x ∷ []) c = refl
linked (x ∷ y ∷ cs) c = linked_tail y cs
  where
    some_last : (y : Chunk) (cs : List Chunk) → is_some (last_addr (y ∷ cs)) ≡ true
    some_last y [] = refl
    some_last y (z ∷ cs) = some_last z cs

    linked_tail :
        (y : Chunk) (zs : List Chunk)
        → (if is_some (last_addr (y ∷ zs)) then x ∷ y ∷ cs ++ c ∷ [] else c ∷ [])
          ≡ x ∷ y ∷ cs ++ c ∷ []
    linked_tail y zs = rw (some_last y zs)

submit_after :
    (pending : List Chunk) (c : Chunk)
    → (if is_some (head_addr pending) then head_addr pending else some c.addr)
      ≡ head_addr (pending ++ c ∷ [])
submit_after [] c = refl
submit_after (x ∷ xs) c = refl

offset_after : (o : Option ℕ) (n : ℕ) → n ≡ 0 → (if is_some o then n else 0) ≡ 0
offset_after none n e = refl
offset_after (some a) n e = e

last_bytes-snoc : (cs : List Chunk) (c : Chunk) → last_bytes (cs ++ c ∷ []) ≡ c.bytes
last_bytes-snoc [] c = refl
last_bytes-snoc (x ∷ []) c = refl
last_bytes-snoc (x ∷ y ∷ cs) c = last_bytes-snoc (y ∷ cs) c

AllWhole-snoc : (cs : List Chunk) (c : Chunk) → AllWhole cs → c.acked ≡ 0 → AllWhole (cs ++ c ∷ [])
AllWhole-snoc [] c w e = (e, tt)
AllWhole-snoc (x ∷ xs) c w e = (w.0, AllWhole-snoc xs c w.1 e)

-- What a new chunk does to the queue: its bytes come behind those that are pending, and count towards
-- the budget, and it is the last chunk.
pub record Enqueued (bytes : List ℕ) (handed pending : List Chunk) (r r' : Response) : Type 0 where
  pub pending' : List Chunk
  pub valid : IsQueue handed pending' r'
  pub order : bytes_of pending' ≡ bytes_of pending ++ bytes
  pub grown : r'.buffered ≡ r.buffered + length bytes
  pub last : last_bytes r'.chunks ≡ bytes

-- A chunk with a fresh address and at least one byte, for which there is room, keeps the queue valid:
-- its bytes come behind those that are pending, and count towards the budget without wrapping.
pub enqueue_lem :
    (addr : ℕ) (bytes : List ℕ) (handed pending : List Chunk) (r : Response)
    → IsQueue handed pending r
    → IsFresh addr (handed ++ pending)
    → 0 < length bytes
    → r.buffered + length bytes ≤ r.buffer_limit
    → Enqueued bytes handed pending r (enqueue addr bytes r)
unfolding enqueue
enqueue_lem addr bytes handed pending r v f pos room =
    let c : Chunk = new_chunk addr bytes in
    let e : (handed ++ pending) ++ c ∷ [] ≡ handed ++ (pending ++ c ∷ []) =
      append_assoc handed pending (c ∷ []) in
    let exact : add_size r.buffered (length bytes) ≡ r.buffered + length bytes =
      omega (arith, v.small) in
    let snoc : outstanding ((handed ++ pending) ++ c ∷ [])
        ≡ outstanding (handed ++ pending) + outstanding (c ∷ []) =
      outstanding-append (handed ++ pending) (c ∷ []) in
    let split : (if is_some r.tail then r.chunks ++ c ∷ [] else c ∷ [])
        ≡ handed ++ (pending ++ c ∷ []) =
      ap (λ t. if is_some t then r.chunks ++ c ∷ [] else c ∷ []) v.tail
      ∙ ap (λ cs. if is_some (last_addr (handed ++ pending)) then cs ++ c ∷ [] else c ∷ []) v.split
      ∙ linked (handed ++ pending) c
      ∙ e in
    record {
      pending' = pending ++ c ∷ [];
      valid = record {
        split = split;
        chunks = subst AllChunks e (
            AllChunks-append (handed ++ pending) (c ∷ []) v.chunks
              (record { count = refl; alive = pos; small = omega (arith, v.small) }, tt));
        distinct = subst AreDistinct e (AreDistinct-snoc (handed ++ pending) c v.distinct f);
        whole = AllWhole-snoc pending c v.whole refl;
        submit = ap (λ a. if is_some a then a else some addr) v.submit ∙ submit_after pending c;
        offset = offset_after r.submit_chunk r.submit_offset v.offset;
        tail = sym (ap last_addr (sym e) ∙ last_addr-snoc (handed ++ pending) c);
        buffered = exact ∙ omega (arith, v.buffered, snoc) ∙ ap outstanding e;
        bounded = omega arith;
        small = v.small;
      };
      order =
          bytes_of-append pending (c ∷ []) ∙ ap (λ bs. bytes_of pending ++ bs) (append-nil bytes);
      grown = exact;
      last = ap last_bytes (split ∙ sym e) ∙ last_bytes-snoc (handed ++ pending) c;
    }
