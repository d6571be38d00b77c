-- ===== src/ResponseQueue/Ack.antt =====
-- Acknowledged response bytes: h3_stream_response_ack_locked of mod_http3/src/h3_session.c.
use mod_http3_stage.Prelude.{
  ℕ, ◌+◌, ◌≤◌, ◌≡◌, ◌∙◌, refl, sym, ap, Bool, false, List, [], ◌++◌, arith, ltb, ◌⊎◌,
}
use mathlib.Core.Path.{subst}
use mod_http3_stage.State.{Chunk, Response}
use mod_http3_stage.ResponseQueue.{ack_loop, response_ack}
use mod_http3_stage.ResponseQueue.Inv.{outstanding, last_addr, IsQueue, outstanding-append}
use mod_http3_stage.ResponseQueue.Release.{
  ack_loop_none, Released, ack_loop-Released, ack_loop_flag_append, tail_lem,
}

-- What an acknowledgement of `d` bytes does to a queue.
pub record Acknowledged (d : ℕ) (handed pending : List Chunk) (r : Response) (o : Response × Bool)
    : Type 0 where
  pub rest : List Chunk
  pub valid : IsQueue rest pending o.0
  pub out : outstanding rest + d ≡ outstanding handed
  pub freed : o.0.buffered + d ≡ r.buffered
  pub wakes : o.1 ≡ ltb 0 d
  pub submit : o.0.submit_chunk ≡ r.submit_chunk

-- As long as no more is acknowledged than was handed out, the queue stays valid: what is pending is
-- untouched, so `response_submit_chunk` never points to a freed chunk; exactly `d` bytes leave the
-- budget, without wrapping; and the producer is woken exactly when something was released.
pub ack_releases :
    (d : ℕ) (handed pending : List Chunk) (r : Response)
    → IsQueue handed pending r
    → d ≤ outstanding handed
    → Acknowledged d handed pending r (response_ack d r)
unfolding response_ack
ack_releases d handed pending r v h =
    let total : r.buffered ≡ outstanding handed + outstanding pending =
      v.buffered ∙ outstanding-append handed pending in
    let same : ack_loop d r.chunks r.buffered ≡ ack_loop d (handed ++ pending) r.buffered =
      ap (λ cs. ack_loop d cs r.buffered) v.split in
    let rel : Released d r.buffered handed pending (ack_loop d r.chunks r.buffered) =
      subst (Released d r.buffered handed pending) (sym same) (
        ack_loop-Released d r.buffered handed pending h (omega arith)
          (omega (arith, v.bounded, v.small)) v.chunks v.distinct) in
    let flag : (ack_loop d r.chunks r.buffered).2 ≡ ltb 0 d =
      ap (λ o. o.2) same ∙ ack_loop_flag_append d r.buffered handed pending h v.chunks in
    let buffered : (ack_loop d r.chunks r.buffered).1 + d ≡ r.buffered = omega (arith, rel.left) in
    let sum : outstanding (rel.rest ++ pending) ≡ outstanding rel.rest + outstanding pending =
      outstanding-append rel.rest pending in
    record {
      rest = rel.rest;
      valid = record {
        split = rel.shape;
        chunks = rel.chunks;
        distinct = rel.distinct;
        whole = v.whole;
        submit = v.submit;
        offset = v.offset;
        tail =
            tail_lem (handed ++ pending) _ _ r.tail v.tail
              (subst (λ cs. (cs ≡ []) ⊎ (last_addr cs ≡ last_addr (handed ++ pending)))
                (sym rel.shape) rel.last)
              (idle same flag)
            ∙ ap last_addr rel.shape;
        buffered = omega (arith, rel.out);
        bounded = omega (arith, v.bounded);
        small = v.small;
      };
      out = rel.out;
      freed = buffered;
      wakes = flag;
      submit = refl;
    }
  where
    idle :
        ack_loop d r.chunks r.buffered ≡ ack_loop d (handed ++ pending) r.buffered
        → (ack_loop d r.chunks r.buffered).2 ≡ ltb 0 d
        → (ack_loop d r.chunks r.buffered).2 ≡ false
        → (ack_loop d r.chunks r.buffered).0 ≡ handed ++ pending
    idle same flag e =
        let zero_bytes : d ≡ 0 = ground (arith, flag, e) in
        ap (λ o. o.0) same
        ∙ ap (λ k. (ack_loop k (handed ++ pending) r.buffered).0) zero_bytes
        ∙ ap (λ o. o.0) (ack_loop_none (handed ++ pending) r.buffered)
