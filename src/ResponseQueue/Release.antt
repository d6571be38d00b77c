-- ===== src/ResponseQueue/Release.antt =====
-- The loop of h3_stream_response_ack_locked (mod_http3/src/h3_session.c) over the chunks.
use mod_http3_stage.Prelude.{
  ℕ, ◌+◌, ◌-◌, ◌≤◌, ◌<◌, ◌≡◌, ◌≢◌, ◌^◌, ◌∙◌, refl, sym, ap, Bool, true, false, Option, none, List,
  [], ◌∷◌, ◌++◌, arith, ltb, ◌==◌, if◌then◌else◌, Bool-cases, inl, inr, ◌⊎◌,
}
use mathlib.Core.Path.{subst}
use mod_http3_stage.State.{Chunk}
use mod_http3_stage.ResponseQueue.{sub_size, add_size, ack_loop, tail_after}
use mod_http3_stage.ResponseQueue.Inv.{IsChunk, AllChunks, AreDistinct, outstanding, last_addr}

pub ack_loop_none : (cs : List Chunk) (b : ℕ) → ack_loop 0 cs b ≡ (cs, b, false)
unfolding ack_loop
ack_loop_none [] b = refl
ack_loop_none (c ∷ cs) b = refl

-- A chunk that the count uses up is popped, and the loop goes on with what is left of the count.
ack_loop_pop :
    (d b : ℕ) (c : Chunk) (cs : List Chunk)
    → IsChunk c
    → c.len - c.acked ≤ d
    → c.len - c.acked ≤ b
    → b < 2 ^ 62
    → ack_loop d (c ∷ cs) b ≡ (
      (ack_loop (d - (c.len - c.acked)) cs (b - (c.len - c.acked))).0,
      (ack_loop (d - (c.len - c.acked)) cs (b - (c.len - c.acked))).1,
      true,
    )
unfolding ack_loop
ack_loop_pop d b c cs v p q small =
    let avail : sub_size c.len c.acked ≡ c.len - c.acked = omega (arith, v.alive, v.small) in
    let full : add_size c.acked (c.len - c.acked) ≡ c.len = omega (arith, v.alive, v.small) in
    let left : sub_size b (c.len - c.acked) ≡ b - (c.len - c.acked) = omega arith in
    let used : (if ltb d (c.len - c.acked) then d else c.len - c.acked) ≡ c.len - c.acked =
      ground arith in
    ground arith

-- A chunk that the count does not use up ends the loop.
ack_loop_part :
    (d b : ℕ) (c : Chunk) (cs : List Chunk)
    → IsChunk c
    → 0 < d
    → d < c.len - c.acked
    → d ≤ b
    → b < 2 ^ 62
    → ack_loop d (c ∷ cs) b ≡ (record c { acked = c.acked + d } ∷ cs, b - d, true)
unfolding ack_loop
ack_loop_part d b c cs v p q s small =
    let avail : sub_size c.len c.acked ≡ c.len - c.acked = omega (arith, v.alive, v.small) in
    let part : add_size c.acked d ≡ c.acked + d = omega (arith, v.alive, v.small) in
    let left : sub_size b d ≡ b - d = omega arith in ground arith

last_addr-ne-none : (y : Chunk) (ys : List Chunk) → last_addr (y ∷ ys) ≢ none
last_addr-ne-none y [] = λ e. cc
last_addr-ne-none y (z ∷ ys) = last_addr-ne-none z ys

last_addr-cons :
    (c : Chunk) (xs ys : List Chunk)
    → last_addr ys ≡ last_addr xs
    → (ys ≡ []) ⊎ (last_addr ys ≡ last_addr (c ∷ xs))
last_addr-cons c [] [] e = inl refl
last_addr-cons c [] (y ∷ ys) e = absurd (last_addr-ne-none y ys e)
last_addr-cons c (x ∷ xs) ys e = inr e

last_addr-acked :
    (c : Chunk) (n : ℕ) (xs : List Chunk)
    → last_addr (record c { acked = n } ∷ xs) ≡ last_addr (c ∷ xs)
last_addr-acked c n [] = refl
last_addr-acked c n (x ∷ xs) = refl

-- What the loop leaves of the chunks that were handed out; those behind them stay as they are.
pub record Released (d b : ℕ) (handed pending : List Chunk) (r : List Chunk × ℕ × Bool)
    : Type 0 where
  pub rest : List Chunk
  pub shape : r.0 ≡ rest ++ pending
  pub left : r.1 ≡ b - d
  pub out : outstanding rest + d ≡ outstanding handed
  pub chunks : AllChunks (rest ++ pending)
  pub distinct : AreDistinct (rest ++ pending)
  pub last : (rest ++ pending ≡ []) ⊎ (last_addr (rest ++ pending) ≡ last_addr (handed ++ pending))

same-Released :
    (d b : ℕ) (handed pending : List Chunk)
    → d ≡ 0
    → AllChunks (handed ++ pending)
    → AreDistinct (handed ++ pending)
    → Released d b handed pending (ack_loop d (handed ++ pending) b)
same-Released d b handed pending z a n =
    subst (λ k. Released k b handed pending (ack_loop k (handed ++ pending) b)) (sym z)
      (record {
        rest = handed;
        shape = ap (λ r. r.0) (ack_loop_none (handed ++ pending) b);
        left = ap (λ r. r.1) (ack_loop_none (handed ++ pending) b) ∙ omega arith;
        out = omega arith;
        chunks = a;
        distinct = n;
        last = inr refl;
      })

pub ack_loop-Released :
    (d b : ℕ) (handed pending : List Chunk)
    → d ≤ outstanding handed
    → outstanding handed ≤ b
    → b < 2 ^ 62
    → AllChunks (handed ++ pending)
    → AreDistinct (handed ++ pending)
    → Released d b handed pending (ack_loop d (handed ++ pending) b)
ack_loop-Released d b [] pending h k small a n = same-Released d b [] pending (omega arith) a n
ack_loop-Released d b (c ∷ hs) pending h k small a n = elim (Bool-cases (ltb d (c.len - c.acked))) [
  | inl within ↦ elim (Bool-cases (d == 0)) [
    | inl zero_left ↦ same-Released d b (c ∷ hs) pending (ground arith) a n
    | inr some_left ↦
        subst (Released d b (c ∷ hs) pending)
          (sym (
            ack_loop_part d b c (hs ++ pending) a.0 (ground arith) (ground arith) (ground arith)
              small))
          (record {
            rest = record c { acked = c.acked + d } ∷ hs;
            shape = refl;
            left = refl;
            out = ground arith;
            chunks = (record { count = a.0.count; alive = ground arith; small = a.0.small }, a.1);
            distinct = n;
            last = inr (last_addr-acked c (c.acked + d) (hs ++ pending));
          })
  ]
  | inr whole_chunk ↦
      let le : c.len - c.acked ≤ d = ground arith in
      let rec : Released (d - (c.len - c.acked)) (b - (c.len - c.acked)) hs pending
          (ack_loop (d - (c.len - c.acked)) (hs ++ pending) (b - (c.len - c.acked))) =
        ack_loop-Released (d - (c.len - c.acked)) (b - (c.len - c.acked)) hs pending (omega arith)
          (ground arith) (omega arith) a.1 n.1 in
      subst (Released d b (c ∷ hs) pending)
        (sym (ack_loop_pop d b c (hs ++ pending) a.0 (ground arith) (ground arith) small))
        (record {
          rest = rec.rest;
          shape = rec.shape;
          left = rec.left ∙ omega arith;
          out = omega (arith, rec.out);
          chunks = rec.chunks;
          distinct = rec.distinct;
          last = elim rec.last [
            | inl gone ↦ inl gone
            | inr e ↦ last_addr-cons c (hs ++ pending) (rec.rest ++ pending) e
          ];
        })
]

ack_loop_flag :
    (d b : ℕ) (c : Chunk) (cs : List Chunk) → IsChunk c → (ack_loop d (c ∷ cs) b).2 ≡ ltb 0 d
unfolding ack_loop
ack_loop_flag d b c cs v = ground arith

pub ack_loop_flag_append :
    (d b : ℕ) (handed pending : List Chunk)
    → d ≤ outstanding handed
    → AllChunks (handed ++ pending)
    → (ack_loop d (handed ++ pending) b).2 ≡ ltb 0 d
ack_loop_flag_append d b [] [] h a = unfold ack_loop in ground arith
ack_loop_flag_append d b [] (c ∷ cs) h a = ack_loop_flag d b c cs a.0
ack_loop_flag_append d b (c ∷ hs) pending h a = ack_loop_flag d b c (hs ++ pending) a.0

-- The tail pointer, whether or not the loop popped the last chunk.
pub tail_lem :
    (cs head : List Chunk) (released : Bool) (tail : Option ℕ)
    → tail ≡ last_addr cs
    → (head ≡ []) ⊎ (last_addr head ≡ last_addr cs)
    → (released ≡ false → head ≡ cs)
    → (if released then tail_after head tail else tail) ≡ last_addr head
tail_lem cs head false tail e l idle = e ∙ ap last_addr (sym (idle refl))
tail_lem cs [] true tail e l idle = refl
tail_lem cs (c ∷ head) true tail e (inl gone) idle = cc
tail_lem cs (c ∷ head) true tail e (inr same) idle = e ∙ sym same
