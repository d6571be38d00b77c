-- ===== src/Streams/Ready/Runs.antt =====
-- drain_ready_streams as steps of the threads.
use mod_http3_stage.Prelude.{
  ℕ, zero, suc, ◌+◌, ◌%◌, ◌≤◌, ◌<◌, ◌^◌, ◌≡◌, refl, Bool, true, false, not, ◌&&◌, Option, List, [],
  ◌∷◌, arith, Bool-cases, inl, inr, length, get_elem?-some,
}
use mod_http3_stage.Streams.{Session}
use mod_http3_stage.Streams.Dispatch.{Reaches, stays, reclaim, reclaims}
use mod_http3_stage.Streams.Dispatch.Table.{ids}
use mod_http3_stage.Streams.Dispatch.Flags.{blocked_at, reclaim-Quieter}
use mod_http3_stage.Streams.Dispatch.Objects.{reclaim-IsServed}
use mod_http3_stage.Streams.Dispatch.Steps.{IsServed}
use mod_http3_stage.Streams.Dispatch.Workers.{Reaches-IsServed}
use mod_http3_stage.Streams.Outside.{Outside, Live}
use mod_http3_stage.Streams.Outside.Promises.{Promises, Synced}
use mod_http3_stage.Streams.Outside.Runs.{one_step, Reaches_trans, RunsTo}
use mod_http3_stage.Streams.Drain.{Draining, read_budget, byte_budget}
use mod_http3_stage.Streams.Drain.Runs.{drain_one-Runs}
use mod_http3_stage.Streams.Ready.{
  skipped, drain_at, spent, drain_loop, reclaim_each, start_at, drain_ready_streams,
}

module _ {W : Type 0} (o : Outside W) (limit bound : ℕ) (p : Promises o limit bound)
    (small : limit ≤ 2 ^ 30) (size : ℕ) where
  abbrev drained : Draining W × List ℕ → Live W
  drained r = r.0.live

  abbrev LoopRuns : Session → Option (Draining W × List ℕ) → Type 0
  LoopRuns session out = RunsTo o limit bound p drained session out

  drain_at-Runs :
      (sid : ℕ) (d : Draining W) (completed : List ℕ)
      → IsServed limit d.live.session
      → Synced o p d.live
      → LoopRuns d.live.session (drain_at o limit size sid d completed)
  unfolding drain_at
  drain_at-Runs sid d completed v y = elim (Bool-cases (skipped sid d.live.session)) [
    | inl e ↦
        rw (e, drain_at)
          (record { next = (d, completed); returned = refl; reaches = stays; synced = y })
    | inr e ↦
        let c = drain_one-Runs o limit bound p small size sid d v y in
        rw (e, drain_at)
          (rw c.returned
            (record { next = _; returned = refl; reaches = c.reaches; synced = c.synced }))
  ]

  index_in : (i : ℕ) (xs : List ℕ) → 0 < length xs → i % length xs < length xs
  index_in i xs h = omega arith

  drain_loop-Runs :
      (snapshot : List ℕ) (start offset left : ℕ) (d : Draining W) (completed : List ℕ)
      → left ≤ length snapshot
      → IsServed limit d.live.session
      → Synced o p d.live
      → LoopRuns d.live.session (drain_loop o limit size snapshot start offset left d completed)
  unfolding drain_loop
  drain_loop-Runs snapshot start offset zero d completed k v y = record {
    next = (d, completed);
    returned = refl;
    reaches = stays;
    synced = y;
  }
  drain_loop-Runs snapshot start offset (suc left) d completed k v y =
      elim (Bool-cases d.live.ngh3_dead) [
        | inl dead ↦
            rw (dead, drain_loop)
              (record { next = (d, completed); returned = refl; reaches = stays; synced = y })
        | inr alive ↦
            let (sid, e) =
              get_elem?-some snapshot ((start + offset) % length snapshot)
                (index_in (start + offset) snapshot (omega arith)) in
            let c = drain_at-Runs sid d completed v y in
            rw (alive, drain_loop)
              (rw e (
                rw c.returned
                  (elim (Bool-cases
                    (not (skipped sid d.live.session) && spent o limit size c.next.0)) [
                      | inl over ↦ rw over (record {
                        next = _;
                        returned = refl;
                        reaches = c.reaches;
                        synced = c.synced;
                      })
                      | inr more ↦
                          let v' = Reaches-IsServed limit small _ _ c.reaches v in
                          let q =
                            drain_loop-Runs snapshot start (offset + 1) left c.next.0 c.next.1
                              (omega arith) v' c.synced in
                          rw more (record {
                            next = q.next;
                            returned = q.returned;
                            reaches = Reaches_trans c.reaches q.reaches;
                            synced = q.synced;
                          })
                    ])))
      ]

  record Cleared (w : W) (session session' : Session) : Type 0 where
    reaches : Reaches limit session session'
    synced : (x : ℕ) → blocked_at x session' ≡ true → p.is_blocked x w ≡ true

  reclaim_each-Cleared :
      (sids : List ℕ) (w : W) (session : Session)
      → IsServed limit session
      → ((x : ℕ) → blocked_at x session ≡ true → p.is_blocked x w ≡ true)
      → Cleared w session (reclaim_each o limit size sids session)
  unfolding reclaim_each
  reclaim_each-Cleared [] w session v y = record { reaches = stays; synced = y }
  reclaim_each-Cleared (sid ∷ sids) w session v y =
      let q =
        reclaim_each-Cleared sids w (reclaim sid session)
          (reclaim-IsServed limit small sid session v)
          (λ x h. y x (reclaim-Quieter limit sid session v x h)) in
      record { reaches = Reaches_trans (one_step (reclaims sid)) q.reaches; synced = q.synced }

  pub drain_ready-Runs :
      (l : Live W)
      → IsServed limit l.session
      → Synced o p l
      → RunsTo o limit bound p
          (λ (r : Live W × Bool × List ℕ). r.0)
          l.session
          (drain_ready_streams o limit size l)
  unfolding drain_ready_streams
  drain_ready-Runs l v y =
      let snapshot = ids l.session.streams in
      let d : Draining W = record {
        live = l;
        reads_remaining = read_budget;
        bytes_remaining = byte_budget;
        data_read = false;
      } in
      let c =
        drain_loop-Runs snapshot (start_at o limit size l) 0 (length snapshot) d [] (omega arith) v
          y in
      let v' = Reaches-IsServed limit small l.session c.next.0.live.session c.reaches v in
      let q =
        reclaim_each-Cleared snapshot c.next.0.live.outside c.next.0.live.session v' c.synced in
      rw (c.returned, drain_ready_streams)
        (record {
          next = _;
          returned = refl;
          reaches = Reaches_trans c.reaches q.reaches;
          synced = q.synced;
        })
