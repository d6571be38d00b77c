-- ===== src/Streams/Flush/Runs.antt =====
-- flush_nghttp3 as steps of the threads.
use mod_http3_stage.Prelude.{
  ℕ, zero, suc, ◌≤◌, ◌<◌, ◌^◌, ◌≡◌, ◌⊎◌, refl, Bool, List, arith, inl, inr,
}
use mod_http3_stage.Streams.{free_pending}
use mod_http3_stage.Streams.Dispatch.{stays, flushes}
use mod_http3_stage.Streams.Dispatch.Steps.{IsServed}
use mod_http3_stage.Streams.Dispatch.Workers.{Reaches-IsServed}
use mod_http3_stage.Streams.Outside.{Offer, nothing, refuses, offers, Outside, Live, mark_ngh3_dead}
use mod_http3_stage.Streams.Outside.Promises.{Promises, Synced}
use mod_http3_stage.Streams.Outside.Runs.{
  one_step, Reaches_trans, Runs, stays_Runs, step_Runs, if_Runs,
}
use mod_http3_stage.Streams.Flush.{unblock_writable_streams, flush_loop, flush_nghttp3}
use mod_http3_stage.Streams.Flush.Unblock.{unblock_writable-Goes}
use mod_http3_stage.Streams.Flush.Round.{write_offered-Round}

Offer-cases :
    (f : Offer)
    → (f ≡ nothing)
      ⊎ ((code : ℕ) × (f ≡ refuses code))
      ⊎ ((sid : ℕ) × (fin : Bool) × (lens : List ℕ) × (f ≡ offers sid fin lens))
Offer-cases nothing = inl refl
Offer-cases (refuses code) = inr (inl (code, refl))
Offer-cases (offers sid fin lens) = inr (inr (sid, fin, lens, refl))

module _ {W : Type 0} (o : Outside W) (limit bound : ℕ) (p : Promises o limit bound)
    (small : limit ≤ 2 ^ 30) where
  flush_loop-Runs :
      (fuel : ℕ) (l : Live W)
      → p.backlog l.outside < fuel
      → IsServed limit l.session
      → Synced o p l
      → Runs o limit bound p l.session (flush_loop o fuel limit l)
  unfolding flush_loop mark_ngh3_dead
  flush_loop-Runs zero l f v y = absurd (omega arith)
  flush_loop-Runs (suc fuel) l f v y =
      let l' : Live W = record l { outside = (o.writev_stream l.outside).0 } in
      let y' : Synced o p l' = λ x h. p.keep_writev x l.outside (y x h) in
      elim (Offer-cases (o.writev_stream l.outside).1) [
        | inl e ↦ rw (e, flush_loop) (step_Runs o limit bound p l.session l' stays y')
        | inr (inl (code, e)) ↦
            rw (e, flush_loop)
              (step_Runs o limit bound p l.session (mark_ngh3_dead code l') stays y')
        | inr (inr (sid, fin, lens, e)) ↦
            let r =
              write_offered-Round o limit bound p small l.outside sid fin lens e l' refl v y' in
            let v' = Reaches-IsServed limit small l.session r.next.session r.reaches v in
            let k = r.less in
            let q = flush_loop-Runs fuel r.next (omega arith) v' r.synced in
            rw (e, flush_loop)
              (rw r.returned (record {
                next = q.next;
                returned = q.returned;
                reaches = Reaches_trans r.reaches q.reaches;
                synced = q.synced;
              }))
      ]

  pub flush-Runs :
      (fuel : ℕ) (l : Live W)
      → bound ≤ fuel
      → IsServed limit l.session
      → Synced o p l
      → Runs o limit bound p l.session (flush_nghttp3 o fuel limit l)
  unfolding flush_nghttp3 free_pending
  flush-Runs fuel l f v y =
      if_Runs o limit bound p (λ x. x) l.ngh3_dead l.session _ _
        (λ d. stays_Runs o limit bound p l y)
        λ d.
          let g = unblock_writable-Goes o limit bound p small l y in
          let u = unblock_writable_streams o l in
          let v' = Reaches-IsServed limit small l.session u.session g.reaches v in
          let enough = p.bounded u.outside in
          let q = flush_loop-Runs fuel u (omega arith) v' g.synced in
          rw q.returned (record {
            next = record q.next { session = free_pending q.next.session };
            returned = refl;
            reaches = Reaches_trans g.reaches (Reaches_trans q.reaches (one_step flushes));
            synced = q.synced;
          })
