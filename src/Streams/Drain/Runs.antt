-- ===== src/Streams/Drain/Runs.antt =====
-- drain_one_stream as steps of the threads.
use mod_http3_stage.Prelude.{
  ℕ, zero, suc, ◌-◌, ◌≤◌, ◌^◌, refl, Bool, true, false, not, Option, none, some, if◌then◌else◌, ltb,
  ◌==◌, Bool-cases, Option-cases, inl, inr,
}
use mod_http3_stage.Quic.Write.{stream_read}
use mod_http3_stage.Streams.{Session}
use mod_http3_stage.Streams.Marks.{body_ends, ends, mark, set_mark}
use mod_http3_stage.Streams.Dispatch.{Reaches, stays, marks}
use mod_http3_stage.Streams.Dispatch.Flags.{mark-Quieter}
use mod_http3_stage.Streams.Dispatch.Steps.{IsServed}
use mod_http3_stage.Streams.Dispatch.Workers.{Reaches-IsServed}
use mod_http3_stage.Streams.Outside.{Outside, Live, add64, mark_ngh3_dead}
use mod_http3_stage.Streams.Outside.Promises.{Promises, Synced}
use mod_http3_stage.Streams.Outside.Runs.{
  one_step, Reaches_trans, RunsTo, Runs, stays_Runs, step_Runs, then_Runs, if_Runs,
  called_back-Runs,
}
use mod_http3_stage.Streams.Drain.{
  flag_of, qstream_of, Draining, if_failed, feed_stream_fin, close_stream, finish_read, hand_over,
  read_loop, finished_of, drain_one_stream,
}

module _ {W : Type 0} (o : Outside W) (limit bound : ℕ) (p : Promises o limit bound)
    (small : limit ≤ 2 ^ 30) (size : ℕ) where
  body_ends-Synced :
      (sid : ℕ) (l : Live W)
      → Synced o p l
      → Synced o p (record l { session = mark body_ends sid l.session })
  unfolding set_mark
  body_ends-Synced sid l y x h = y x (mark-Quieter body_ends sid l.session (λ s n. refl) x h)

  ends-Synced :
      (sid : ℕ) (l : Live W)
      → Synced o p l
      → Synced o p (record l { session = mark ends sid l.session })
  unfolding set_mark
  ends-Synced sid l y x h = y x (mark-Quieter ends sid l.session (λ s n. refl) x h)

  failed-Runs :
      (f : Option ℕ) (sid : ℕ) (session : Session) (l : Live W)
      → Reaches limit session l.session
      → Synced o p l
      → Runs o limit bound p session
          (some (record (if_failed o limit size f l) { session = mark body_ends sid l.session }))
  unfolding mark_ngh3_dead
  failed-Runs none sid session l r y =
      step_Runs o limit bound p session _ (Reaches_trans r (one_step (marks body_ends sid)))
        (body_ends-Synced sid l y)
  failed-Runs (some code) sid session l r y =
      step_Runs o limit bound p session _ (Reaches_trans r (one_step (marks body_ends sid)))
        (body_ends-Synced sid l y)

  feed_stream_fin-Runs :
      (sid : ℕ) (l : Live W)
      → IsServed limit l.session
      → Synced o p l
      → Runs o limit bound p l.session (feed_stream_fin o limit size sid l)
  unfolding feed_stream_fin
  feed_stream_fin-Runs sid l v y =
      let c =
        called_back-Runs o limit bound p (o.read_stream sid 0 true l.outside).1
          (o.read_stream sid 0 true l.outside).0 l small (p.read_calls sid 0 true l.outside) v
          (λ x h. p.keep_take sid 0 x true l.outside (y x h)) in
      rw (c.returned, feed_stream_fin)
        (failed-Runs (o.read_stream sid 0 true l.outside).2 sid l.session c.next c.reaches c.synced)

  close_stream-Runs :
      (sid : ℕ) (l : Live W)
      → IsServed limit l.session
      → Synced o p l
      → Runs o limit bound p l.session (close_stream o limit size sid l)
  unfolding close_stream
  close_stream-Runs sid l v y =
      called_back-Runs o limit bound p _ _ l small (p.close_calls sid l.outside) v
        (λ x h. p.keep_close sid x l.outside (y x h))

  served : (s : Session) (t : Session) → Reaches limit s t → IsServed limit s → IsServed limit t
  served s t r v = Reaches-IsServed limit small s t r v

  finish_read-Runs :
      (sid : ℕ) (write_finished : Bool) (l : Live W)
      → IsServed limit l.session
      → Synced o p l
      → Runs o limit bound p l.session (finish_read o limit size sid write_finished l)
  unfolding finish_read
  finish_read-Runs sid write_finished l v y =
      let first =
        if_Runs o limit bound p (λ (x : Live W). x) (flag_of (λ s. s.body_complete) sid l.session)
          l.session (some l) (feed_stream_fin o limit size sid l)
          (λ _. stays_Runs o limit bound p l y) (λ _. feed_stream_fin-Runs sid l v y) in
      then_Runs o limit bound p (λ (x : Live W). x) (λ (x : Live W). x) l.session _ _ first
        (if_Runs o limit bound p (λ (x : Live W). x) _ first.next.session _ _
          (λ _.
            close_stream-Runs sid first.next (served l.session first.next.session first.reaches v)
              first.synced)
          (λ _. stays_Runs o limit bound p first.next first.synced))

  hand_over-Runs :
      (sid nread : ℕ) (l : Live W)
      → IsServed limit l.session
      → Synced o p l
      → RunsTo o limit bound p
          (λ (x : Live W × Bool). x.0)
          l.session
          (hand_over o limit size sid nread l)
  unfolding hand_over mark_ngh3_dead
  hand_over-Runs sid nread l v y =
      let l' : Live W = record l { total_bytes_read = add64 l.total_bytes_read nread } in
      let answer = o.read_stream sid nread false l.outside in
      let c =
        called_back-Runs o limit bound p answer.1 answer.0 l' small
          (p.read_calls sid nread false l.outside) v
          (λ x h. p.keep_take sid nread x false l.outside (y x h)) in
      rw (c.returned, hand_over)
        (elim (Option-cases answer.2) [
          | inl e ↦ rw e (record {
            next = (c.next, not (flag_of (λ s. s.done) sid c.next.session));
            returned = refl;
            reaches = c.reaches;
            synced = c.synced;
          })
          | inr (code, e) ↦ rw e (record {
            next = (
              record (mark_ngh3_dead code c.next) { session = mark ends sid c.next.session },
              false,
            );
            returned = refl;
            reaches = Reaches_trans c.reaches (one_step (marks ends sid));
            synced = ends-Synced sid c.next c.synced;
          })
        ])

  abbrev live_of : Draining W → Live W
  live_of d = d.live

  drained_Runs :
      (session : Session) (d : Draining W)
      → Reaches limit session d.live.session
      → Synced o p d.live
      → RunsTo o limit bound p live_of session (some d)
  drained_Runs session d r y = record { next = d; returned = refl; reaches = r; synced = y }

  read_loop-Runs :
      (sid reads bytes : ℕ) (data_read : Bool) (l : Live W)
      → IsServed limit l.session
      → Synced o p l
      → RunsTo o limit bound p live_of l.session
          (read_loop o limit size sid reads bytes data_read l)
  unfolding read_loop
  read_loop-Runs sid zero bytes data_read l v y = drained_Runs l.session _ stays y
  read_loop-Runs sid (suc reads) bytes data_read l v y =
      if_Runs o limit bound p live_of (bytes == 0) l.session _ _
        (λ _. drained_Runs l.session _ stays y)
        (λ _. elim (Option-cases (qstream_of sid l.session)) [
          | inl e ↦
              rw e (drained_Runs l.session _ (one_step (marks ends sid)) (ends-Synced sid l y))
          | inr (st, e) ↦
              let n = if ltb size bytes then size else bytes in
              let answer = (o.ssl_read st n l.outside).1 in
              let l' : Live W = record l { outside = (o.ssl_read st n l.outside).0 } in
              let y' : Synced o p l' = λ x h. p.keep_read st n x l.outside (y x h) in
              rw e (elim (Option-cases (stream_read answer).0) [
                | inl g ↦ rw g (elim (Bool-cases (stream_read answer).1) [
                  | inl f ↦
                      let c = feed_stream_fin-Runs sid l' v y' in
                      rw f (rw c.returned (drained_Runs l.session _ c.reaches c.synced))
                  | inr f ↦ rw f (drained_Runs l.session _ stays y')
                ])
                | inr (nread, g) ↦
                    let c = hand_over-Runs sid nread l' v y' in
                    rw g (
                      rw c.returned (elim (Bool-cases c.next.1) [
                        | inl on ↦
                            let q =
                              read_loop-Runs sid reads (bytes - nread) true c.next.0
                                (served l.session c.next.0.session c.reaches v) c.synced in
                            rw on (record {
                              next = q.next;
                              returned = q.returned;
                              reaches = Reaches_trans c.reaches q.reaches;
                              synced = q.synced;
                            })
                        | inr off ↦ rw off (drained_Runs l.session _ c.reaches c.synced)
                      ]))
              ])
        ])

  pub drain_one-Runs :
      (sid : ℕ) (d : Draining W)
      → IsServed limit d.live.session
      → Synced o p d.live
      → RunsTo o limit bound p
          (λ (x : Draining W). x.live)
          d.live.session
          (drain_one_stream o limit size sid d)
  unfolding drain_one_stream
  drain_one-Runs sid d v y =
      let f = finished_of o limit size (qstream_of sid d.live.session) d.live.outside in
      elim (Bool-cases f.0) [
        | inl e ↦
            let c = finish_read-Runs sid f.1 d.live v y in
            rw (e, drain_one_stream)
              (rw c.returned (drained_Runs d.live.session _ c.reaches c.synced))
        | inr e ↦
            rw (e, drain_one_stream)
              (read_loop-Runs sid d.reads_remaining d.bytes_remaining d.data_read d.live v y)
      ]
