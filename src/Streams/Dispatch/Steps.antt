-- ===== src/Streams/Dispatch/Steps.antt =====
-- What each step of the threads does to the workers of the streams.
use mod_http3_stage.Prelude.{
  ℕ, some_inj, ◌+◌, ◌^◌, ◌≤◌, ◌<◌, ◌≡◌, ◌∙◌, refl, sym, ap, Bool, true, false, not, ◌&&◌, ◌||◌,
  Option, none, some, List, [], ◌∷◌, arith, ◌==◌, ==→eq, if◌then◌else◌, one_if, count, Bool-cases,
  Option-cases, inl, inr,
}
use mathlib.Core.Path.{subst}
use mod_http3_stage.State.{Stream}
use mod_http3_stage.Streams.{Session, find, put, Event, run_callback}
use mod_http3_stage.Streams.Callbacks.{IsObject}
use mod_http3_stage.Streams.Callbacks.Called.{callback-Called}
use mod_http3_stage.Streams.Handles.{AllBodies, find-IsBody, put-AllBodies}
use mod_http3_stage.Body.Receive.Laws.{IsBody}
use mod_http3_stage.Streams.Dispatch.{process_request, leave, worker_gives_up, worker_returns}
use mod_http3_stage.Streams.Dispatch.Table.{ids, find_id, find-put, ids-put}

-- The workers of a stream: one exactly while it is dispatched and its worker has not returned, and none
-- when there is no such stream.
abbrev pub HasWorkers : Option Stream → ℕ → Type 0
HasWorkers none n = n ≡ 0
HasWorkers (some s) n =
    (n ≡ one_if (s.dispatched && not s.worker_done)) × (not s.worker_done || s.dispatched ≡ true)

pub record IsServed (limit : ℕ) (session : Session) : Type 0 where
  pub unique : (sid : ℕ) → count sid (ids session.streams) ≤ 1
  pub workers : (sid : ℕ) → HasWorkers (find sid session.streams) (count sid session.running)
  pub bodies : AllBodies limit session.streams

leave_lem : (sid : ℕ) (rs : List ℕ) → 0 < count sid rs → count sid (leave sid rs) + 1 ≡ count sid rs
unfolding leave
leave_lem sid [] h = omega arith
leave_lem sid (r ∷ rs) h = elim (Bool-cases (sid == r)) [
  | inl is ↦ rw is (omega arith)
  | inr other ↦
      let p : 0 < count sid rs = ground arith in
      let t = leave_lem sid rs p in rw other (rw other (omega arith))
]

leave_other : (sid x : ℕ) (rs : List ℕ) → (x == sid) ≡ false → count x (leave sid rs) ≡ count x rs
unfolding leave
leave_other sid x [] n = refl
leave_other sid x (r ∷ rs) n = elim (Bool-cases (sid == r)) [
  | inl is ↦ let z : (x == r) ≡ false = ground arith in rw is (rw z (omega arith))
  | inr other ↦ let t = leave_other sid x rs n in rw other (omega arith)
]

module _ (limit : ℕ) (small : limit ≤ 2 ^ 30) where
  -- A stream changed in place, and the workers of that stream alone.
  pub changed :
      (sid : ℕ) (s s' : Stream) (session session' : Session)
      → IsServed limit session
      → find sid session.streams ≡ some s
      → s'.stream_id ≡ s.stream_id
      → IsBody limit s'.body
      → HasWorkers (some s') (count sid session'.running)
      → ((x : ℕ) → (x == sid) ≡ false → count x session'.running ≡ count x session.running)
      → session'.streams ≡ put sid s' session.streams
      → IsServed limit session'
  changed sid s s' session session' v e i b w o p =
      let id = i ∙ find_id sid s session.streams e in
      record {
        unique = λ x.
            subst (λ ts. count x ts ≤ 1) (sym (ap ids p ∙ ids-put sid s s' session.streams e id))
              (v.unique x);
        workers = λ x.
            let f = ap (find x) p ∙ find-put sid x s s' session.streams e id in
            subst (λ t. HasWorkers t (count x session'.running)) (sym f)
              (elim (Bool-cases (x == sid)) [
                | inl y ↦ rw y (rw (==→eq x sid y) w)
                | inr n ↦ rw n (rw (o x n) (v.workers x))
              ]);
        bodies =
            subst (AllBodies limit) (sym p) (put-AllBodies limit sid s' session.streams v.bodies b);
      }

  pub workers_at :
      (sid : ℕ) (s : Stream) (session : Session)
      → IsServed limit session
      → find sid session.streams ≡ some s
      → HasWorkers (some s) (count sid session.running)
  workers_at sid s session v e =
      subst (λ t. HasWorkers t (count sid session.running)) e (v.workers sid)

  pub calls_back-IsServed :
      (sid : ℕ) (event : Event) (session session' : Session)
      → IsServed limit session
      → IsObject limit event
      → run_callback limit sid event session ≡ some session'
      → IsServed limit session'
  unfolding run_callback
  calls_back-IsServed sid event session session' v o r =
      elim (Option-cases (find sid session.streams)) [
        | inl e ↦
            let same : run_callback limit sid event session ≡ some session =
              rw (e, run_callback) refl in
            subst (IsServed limit) (some_inj session session' (sym same ∙ r)) v
        | inr (s, e) ↦
            let b = find-IsBody limit sid s session.streams v.bodies e in
            let c = callback-Called limit event s session.pending_free small o b in
            let next : Session = record session {
              streams = put sid c.stream session.streams;
              pending_free = c.pending;
            } in
            let same : run_callback limit sid event session ≡ some next =
              rw (e, run_callback) (rw c.returned refl) in
            let w = workers_at sid s session v e in
            let d = c.passes.same_dispatched in
            let f = c.passes.same_done in
            subst (IsServed limit) (some_inj next session' (sym same ∙ r)) (
              changed sid s c.stream session next v e c.passes.same_id (c.passes.valid b)
                (ground (arith, w.0), ground (arith, w.1)) (λ x n. refl) refl)
      ]

  pub pick :
      (b : Bool) (x y : Session)
      → (b ≡ true → IsServed limit x)
      → (b ≡ false → IsServed limit y)
      → IsServed limit (if b then x else y)
  pick true x y f g = f refl
  pick false x y f g = g refl

  pub process_request-IsServed :
      (pool_created pushed : Bool) (sid : ℕ) (session : Session)
      → IsServed limit session
      → IsServed limit (process_request pool_created pushed sid session)
  unfolding process_request
  process_request-IsServed pool_created pushed sid session v =
      elim (Option-cases (find sid session.streams)) [
        | inl e ↦ rw (e, process_request) v
        | inr (s, e) ↦
            let b = find-IsBody limit sid s session.streams v.bodies e in
            let w = workers_at sid s session v e in
            rw (e, process_request)
              (pick s.dispatched session _ (λ d. v)
                (λ d.
                  pick (pool_created && pushed) _ _
                    (λ k.
                      changed sid s (record s { dispatched = true }) session _ v e refl b
                        (ground (arith, w.0, w.1, d), ground arith) (λ x n. ground arith) refl)
                    (λ k.
                      changed sid s (record s { dispatched = false }) session _ v e refl b
                        (ground (arith, w.0, d), ground (arith, w.1, d)) (λ x n. refl) refl)))
      ]

  pub process_none :
      (sid : ℕ) (session : Session)
      → IsServed limit session
      → find sid session.streams ≡ none
      → count sid session.running ≡ 0
  process_none sid session v e =
      subst (λ t. HasWorkers t (count sid session.running)) e (v.workers sid)

  pub worker_gives_up-IsServed :
      (sid : ℕ) (session : Session)
      → 0 < count sid session.running
      → IsServed limit session
      → IsServed limit (worker_gives_up sid session)
  unfolding worker_gives_up
  worker_gives_up-IsServed sid session h v = elim (Option-cases (find sid session.streams)) [
    | inl e ↦ absurd (omega (arith, process_none sid session v e))
    | inr (s, e) ↦
        let b = find-IsBody limit sid s session.streams v.bodies e in
        let w = workers_at sid s session v e in
        let l = leave_lem sid session.running h in
        rw (e, worker_gives_up)
          (changed sid s (record s { dispatched = false }) session _ v e refl b
            (ground (arith, w.0, w.1, l), ground (arith, w.0, w.1))
            (λ x n. leave_other sid x session.running n) refl)
  ]

  pub worker_returns-IsServed :
      (sid : ℕ) (session : Session)
      → 0 < count sid session.running
      → IsServed limit session
      → IsServed limit (worker_returns sid session)
  unfolding worker_returns
  worker_returns-IsServed sid session h v = elim (Option-cases (find sid session.streams)) [
    | inl e ↦ absurd (omega (arith, process_none sid session v e))
    | inr (s, e) ↦
        let b = find-IsBody limit sid s session.streams v.bodies e in
        let w = workers_at sid s session v e in
        let l = leave_lem sid session.running h in
        rw (e, worker_returns)
          (changed sid s (record s { worker_done = true }) session _ v e refl b
            (ground (arith, w.0, w.1, l), ground (arith, w.0, w.1))
            (λ x n. leave_other sid x session.running n) refl)
  ]
