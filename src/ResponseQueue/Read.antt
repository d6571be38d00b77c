-- ===== src/ResponseQueue/Read.antt =====
-- Reading from the response queue: h3_session_read_data of mod_http3/src/h3_session.c.
use mod_http3_stage.Prelude.{
  ℕ, zero, suc, ◌≡◌, ◌∙◌, refl, sym, ap, Bool, true, false, ◌&&◌, Option, some, List, [], ◌∷◌, ◌++◌,
  arith, take, drop, flatten, append_assoc, take-append-drop,
}
use mathlib.Core.Path.{subst}
use mod_http3_stage.State.{Chunk, Response}
use mod_http3_stage.ResponseQueue.{
  head_addr, chunks_from, cons_vec, fill_vec, ReadData, vectors, would_block, callback_failure,
  answer, read_queue, session_read_data,
}
use mod_http3_stage.ResponseQueue.Inv.{
  AllChunks, AreDistinct, AllWhole, bytes_of, outstanding, last_addr, IsQueue, chunks_from-append,
}

abbrev pub vec_of : List Chunk → List (List ℕ)
vec_of [] = []
vec_of (c ∷ cs) = c.bytes ∷ vec_of cs

fill_vec_step :
    (room addr offset : ℕ) (chunks : List Chunk) (c : Chunk) (next : List Chunk)
    → chunks_from addr chunks ≡ some (c ∷ next)
    → fill_vec (suc room) chunks (some addr) offset
      ≡ cons_vec (drop offset c.bytes) (fill_vec room chunks (head_addr next) 0)
unfolding fill_vec
fill_vec_step room addr offset chunks c next e = rw (e, fill_vec)

-- The slots are filled with the chunks behind the handed ones, as many as there are slots.
fill_vec_lem :
    (room : ℕ) (handed pending : List Chunk) (chunks : List Chunk)
    → chunks ≡ handed ++ pending
    → AreDistinct (handed ++ pending)
    → fill_vec room chunks (head_addr pending) 0
      ≡ some (vec_of (take room pending), head_addr (drop room pending), 0)
fill_vec_lem zero handed pending chunks e d = unfold fill_vec in refl
fill_vec_lem (suc room) handed [] chunks e d = unfold fill_vec in refl
fill_vec_lem (suc room) handed (c ∷ next) chunks e d =
    fill_vec_step room c.addr 0 chunks c next
      (ap (chunks_from c.addr) e ∙ chunks_from-append handed c next d)
    ∙ ap (cons_vec c.bytes)
        (fill_vec_lem room (handed ++ c ∷ []) next chunks (e ∙ shift) (subst AreDistinct shift d))
  where
    shift : handed ++ c ∷ next ≡ (handed ++ c ∷ []) ++ next
    shift = sym (append_assoc handed (c ∷ []) next)

flatten-vec_of : (cs : List Chunk) → flatten (vec_of cs) ≡ bytes_of cs
flatten-vec_of [] = refl
flatten-vec_of (c ∷ cs) = ap (λ bs. c.bytes ++ bs) (flatten-vec_of cs)

bytes_split : (n : ℕ) (cs : List Chunk) → bytes_of (take n cs) ++ bytes_of (drop n cs) ≡ bytes_of cs
bytes_split zero cs = refl
bytes_split (suc n) [] = refl
bytes_split (suc n) (c ∷ cs) =
    append_assoc c.bytes (bytes_of (take n cs)) (bytes_of (drop n cs))
    ∙ ap (λ bs. c.bytes ++ bs) (bytes_split n cs)

AllWhole-drop : (n : ℕ) (cs : List Chunk) → AllWhole cs → AllWhole (drop n cs)
AllWhole-drop zero cs w = w
AllWhole-drop (suc n) [] w = tt
AllWhole-drop (suc n) (c ∷ cs) w = AllWhole-drop n cs w.1

-- the bytes in an answer, and its end-of-response flag
abbrev pub delivered : ReadData → List ℕ
delivered (vectors vs eof) = flatten vs
delivered would_block = []
delivered callback_failure = []

abbrev pub at_end : ReadData → Bool
at_end (vectors vs eof) = eof
at_end would_block = false
at_end callback_failure = false

abbrev pub is_nil {ℓ} : {A : Type ℓ} → List A → Bool
is_nil [] = true
is_nil (x ∷ xs) = false

answer_some :
    (v : List ℕ) (vs : List (List ℕ)) (rest : List Chunk) (complete : Bool)
    → answer (v ∷ vs) (head_addr rest) complete ≡ vectors (v ∷ vs) (complete && is_nil rest)
unfolding answer
answer_some v vs [] true = refl
answer_some v vs [] false = refl
answer_some v vs (c ∷ cs) true = refl
answer_some v vs (c ∷ cs) false = refl

answer_lem :
    (n : ℕ) (pending : List Chunk) (complete : Bool)
    → let got =
        answer (vec_of (take (suc n) pending)) (head_addr (drop (suc n) pending)) complete in
      (delivered got ≡ bytes_of (take (suc n) pending))
      × (at_end got ≡ (complete && is_nil (drop (suc n) pending)))
unfolding answer
answer_lem n [] true = (refl, refl)
answer_lem n [] false = (refl, refl)
answer_lem n (c ∷ cs) complete =
    let e = answer_some c.bytes (vec_of (take n cs)) (drop n cs) complete in
    (ap delivered e ∙ ap (λ bs. c.bytes ++ bs) (flatten-vec_of (take n cs)), ap at_end e)

-- What a read does to a queue of which `handed` and `pending` are the two parts: the answer holds the
-- first bytes that were pending, and marks the end exactly when the producer is complete and nothing
-- is pending any more; the chunks stay queued until they are acknowledged.
pub record HandsOut (n : ℕ) (handed pending : List Chunk) (r : Response)
    (o : Option (ReadData × Option Response)) : Type 0 where
  pub got : ReadData
  pub next : Response
  pub returned : o ≡ some (got, some next)
  pub valid : IsQueue (handed ++ take n pending) (drop n pending) next
  pub order : delivered got ++ bytes_of (drop n pending) ≡ bytes_of pending
  pub ended : at_end got ≡ (r.complete && is_nil (drop n pending))
  pub kept : next.chunks ≡ r.chunks

read_queue_of :
    (n : ℕ) (r : Response) {vec : List (List ℕ)} {submit : Option ℕ} {offset : ℕ}
    → r.cancelled ≡ false
    → fill_vec n r.chunks r.submit_chunk r.submit_offset ≡ some (vec, submit, offset)
    → read_queue n r
      ≡ some
          (answer vec submit r.complete, record r { submit_chunk = submit; submit_offset = offset })
unfolding read_queue
read_queue_of n r c e = ground arith

session_read_data_of :
    (n : ℕ) (r : Response) {got : ReadData} {next : Response}
    → read_queue (suc n) r ≡ some (got, next)
    → session_read_data (suc n) (some r) ≡ some (got, some next)
unfolding session_read_data
session_read_data_of n r e = rw (e, session_read_data)

read_queue_lem :
    (n : ℕ) (handed pending : List Chunk) (r : Response)
    → IsQueue handed pending r
    → r.cancelled ≡ false
    → session_read_data (suc n) (some r)
      ≡ some (
        answer (vec_of (take (suc n) pending)) (head_addr (drop (suc n) pending)) r.complete,
        some (record r { submit_chunk = head_addr (drop (suc n) pending); submit_offset = 0 }),
      )
read_queue_lem n handed pending r v c = session_read_data_of n r (
    read_queue_of (suc n) r c (
      ap (λ a. fill_vec (suc n) r.chunks a r.submit_offset) v.submit
      ∙ ap (λ k. fill_vec (suc n) r.chunks (head_addr pending) k) v.offset
      ∙ fill_vec_lem (suc n) handed pending r.chunks v.split v.distinct))

-- A read of a valid queue that is not cancelled, with room for any positive number of vectors, never
-- follows a dangling pointer. It hands out that many of the pending chunks, or all of them, in order, and
-- they count as handed out from then on; it tells the end exactly when the response is complete and
-- nothing is pending any more; no chunk is lost, and the queue stays valid.
pub read_in_order :
    (n : ℕ) (handed pending : List Chunk) (r : Response)
    → IsQueue handed pending r
    → r.cancelled ≡ false
    → HandsOut (suc n) handed pending r (session_read_data (suc n) (some r))
read_in_order n handed pending r v c =
    let a = answer_lem n pending r.complete in
    let e : (handed ++ take (suc n) pending) ++ drop (suc n) pending ≡ handed ++ pending =
      append_assoc handed (take (suc n) pending) (drop (suc n) pending)
      ∙ ap (λ cs. handed ++ cs) (take-append-drop (suc n) pending) in
    record {
      got = answer (vec_of (take (suc n) pending)) (head_addr (drop (suc n) pending)) r.complete;
      next = record r { submit_chunk = head_addr (drop (suc n) pending); submit_offset = 0 };
      returned = read_queue_lem n handed pending r v c;
      valid = record {
        split = v.split ∙ sym e;
        chunks = subst AllChunks (sym e) v.chunks;
        distinct = subst AreDistinct (sym e) v.distinct;
        whole = AllWhole-drop (suc n) pending v.whole;
        submit = refl;
        offset = refl;
        tail = v.tail ∙ ap last_addr (sym e);
        buffered = v.buffered ∙ ap outstanding (sym e);
        bounded = v.bounded;
        small = v.small;
      };
      order = ap (λ bs. bs ++ bytes_of (drop (suc n) pending)) a.0 ∙ bytes_split (suc n) pending;
      ended = a.1;
      kept = refl;
    }
