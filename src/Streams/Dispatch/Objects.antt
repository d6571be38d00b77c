-- ===== src/Streams/Dispatch/Objects.antt =====
-- The workers of the streams when one is tracked or reclaimed.
use mod_http3_stage.State.{Response}
use mod_http3_stage.Streams.Answers.{respond}
use mod_http3_stage.Prelude.{
  ℕ, ◌^◌, ◌≤◌, ◌≡◌, ◌∙◌, refl, sym, ap, Bool, some, [], ◌∷◌, arith, ◌==◌, ==→eq, count,
  count-append, Bool-cases, Option-cases, inl, inr,
}
use mathlib.Core.Path.{subst}
use mod_http3_stage.Streams.{Session, find, remove}
use mod_http3_stage.Streams.Handles.{find-IsBody, remove-AllBodies, append-AllBodies}
use mod_http3_stage.Streams.Dispatch.{new_stream, track_stream, reclaimable, reclaim}
use mod_http3_stage.Streams.Dispatch.Table.{
  ids, ids-append, find-append, find-none, none-find, count-remove, find-remove,
}
use mod_http3_stage.Streams.Dispatch.Steps.{
  HasWorkers, IsServed, changed, workers_at, pick, process_none,
}

module _ (limit : ℕ) (small : limit ≤ 2 ^ 30) where
  pub respond-IsServed :
      (sid : ℕ) (f : Response → Response) (session : Session)
      → IsServed limit session
      → IsServed limit (respond sid f session)
  unfolding respond
  respond-IsServed sid f session v = elim (Option-cases (find sid session.streams)) [
    | inl e ↦ rw (e, respond) v
    | inr (s, e) ↦
        let b = find-IsBody limit sid s session.streams v.bodies e in
        let w = workers_at limit small sid s session v e in
        rw (e, respond)
          (changed limit small sid s (record s { response = f s.response }) session _ v e refl b w
            (λ x n. refl) refl)
  ]

  pub track_stream-IsServed :
      (created : Bool) (buffer_size sid st : ℕ) (session : Session)
      → IsServed limit session
      → IsServed limit (track_stream created buffer_size sid st session)
  unfolding track_stream new_stream
  track_stream-IsServed created buffer_size sid st session v =
      elim (Option-cases (find sid session.streams)) [
        | inl e ↦
            let n = new_stream buffer_size sid st in
            let z = find-none sid session.streams e in
            rw (e, track_stream)
              (pick limit small created _ _
                (λ c. record {
                  unique = λ x.
                      let a =
                        ap (count x) (ids-append session.streams n)
                        ∙ count-append x (ids session.streams) (sid ∷ []) in
                      let u = v.unique x in
                      elim (Bool-cases (x == sid)) [
                        | inl y ↦
                            let q : count x (ids session.streams) ≡ 0 = rw (==→eq x sid y) z in
                            ground arith
                        | inr m ↦ ground arith
                      ];
                  workers = λ x.
                      subst (λ t. HasWorkers t (count x session.running))
                        (sym (find-append x n session.streams e))
                        (elim (Bool-cases (x == sid)) [
                          | inl y ↦
                              rw y (
                                rw (==→eq x sid y) (process_none limit small sid session v e, refl))
                          | inr m ↦ rw m (v.workers x)
                        ]);
                  bodies = append-AllBodies limit session.streams n v.bodies (record {
                    count = refl;
                    fits = omega arith;
                    bounded = omega arith;
                    read = omega arith;
                  });
                })
                (λ c. record { unique = v.unique; workers = v.workers; bodies = v.bodies }))
        | inr (s, e) ↦
            let b = find-IsBody limit sid s session.streams v.bodies e in
            let w = workers_at limit small sid s session v e in
            rw (e, track_stream)
              (changed limit small sid s (record s { qstream = some st }) session _ v e refl b w
                (λ x n. refl) refl)
      ]

  pub reclaim-IsServed :
      (sid : ℕ) (session : Session) → IsServed limit session → IsServed limit (reclaim sid session)
  unfolding reclaim reclaimable
  reclaim-IsServed sid session v = elim (Option-cases (find sid session.streams)) [
    | inl e ↦ rw (e, reclaim) v
    | inr (s, e) ↦
        let w = workers_at limit small sid s session v e in
        let u = v.unique sid in
        let m = count-remove sid sid s session.streams e in
        rw (e, reclaim)
          (pick limit small (reclaimable s) _ session
            (λ c. record {
              unique = λ x.
                  let t = count-remove sid x s session.streams e in
                  let y = v.unique x in omega arith;
              workers = λ x. elim (Bool-cases (x == sid)) [
                | inl y ↦ rw (==→eq x sid y) (
                    subst (λ t. HasWorkers t (count sid session.running))
                      (sym (none-find sid (remove sid session.streams) (ground arith)))
                      (ground (arith, w.0, c)))
                | inr n ↦ rw (find-remove sid x session.streams n) (v.workers x)
              ];
              bodies = remove-AllBodies limit sid session.streams v.bodies;
            })
            (λ c. v))
  ]
