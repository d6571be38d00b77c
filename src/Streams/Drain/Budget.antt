-- ===== src/Streams/Drain/Budget.antt =====
-- The budgets of drain_one_stream.
use mod_http3_stage.Prelude.{
  ℕ, zero, suc, ◌+◌, ◌-◌, ◌≤◌, ◌<◌, ◌^◌, ◌≡◌, ◌∙◌, ◌⊎◌, refl, Bool, true, false, Option, none, some,
  arith, if◌then◌else◌, ltb, ◌==◌, Bool-cases, Option-cases, inl, inr,
}
use mathlib.Core.Path.{subst}
use mod_http3_stage.Quic.Write.{got, stream_read}
use mod_http3_stage.Quic.Write.Laws.{stream_read-got}
use mod_http3_stage.Streams.Outside.{Outside, Live, add64, called_back, mark_ngh3_dead}
use mod_http3_stage.Streams.Outside.Totals.{HasRead, called_back-HasRead}
use mod_http3_stage.Streams.Drain.{
  flag_of, qstream_of, Draining, if_failed, feed_stream_fin, close_stream, finish_read, hand_over,
  read_loop, finished_of, drain_one_stream,
}

-- The bytes read and those that may still be read, and that something was read if the counter moved.
pub record IsSpent {W : Type 0} (start total : ℕ) (d : Draining W) : Type 0 where
  pub adds_up : d.live.total_bytes_read + d.bytes_remaining ≡ total
  pub noted : (d.data_read ≡ true) ⊎ (d.live.total_bytes_read ≡ start)

abbrev pub Spends : {W : Type 0} → ℕ → ℕ → Option (Draining W) → Type 0
Spends start total none = Unit
Spends start total (some d) = IsSpent start total d

-- OpenSSL reads at most what it is asked to.
abbrev pub ReadsAtMost : {W : Type 0} → Outside W → Type 0
ReadsAtMost {W} o = (st size n : ℕ) (w : W) → (o.ssl_read st size w).1 ≡ got n → n ≤ size

module _ {W : Type 0} (o : Outside W) (limit size : ℕ) where
  if_failed-HasRead :
      (f : Option ℕ) (l : Live W)
      → (if_failed o limit size f l).total_bytes_read ≡ l.total_bytes_read
  unfolding mark_ngh3_dead
  if_failed-HasRead none l = refl
  if_failed-HasRead (some code) l = refl

  feed_stream_fin-HasRead :
      (sid : ℕ) (l : Live W) → HasRead l.total_bytes_read (feed_stream_fin o limit size sid l)
  unfolding feed_stream_fin
  feed_stream_fin-HasRead sid l =
      let r = o.read_stream sid 0 true l.outside in
      let h = called_back-HasRead limit r.1 r.0 l in
      elim (Option-cases (called_back limit r.1 r.0 l)) [
        | inl e ↦ rw (e, feed_stream_fin) tt
        | inr (l', e) ↦ rw (e, feed_stream_fin) (if_failed-HasRead r.2 l' ∙ rw e at h)
      ]

  close_stream-HasRead :
      (sid : ℕ) (l : Live W) → HasRead l.total_bytes_read (close_stream o limit size sid l)
  unfolding close_stream
  close_stream-HasRead sid l = called_back-HasRead limit _ _ l

  pick :
      (n : ℕ) (b : Bool) (x y : Option (Live W))
      → HasRead n x
      → HasRead n y
      → HasRead n (if b then x else y)
  pick n true x y h k = h
  pick n false x y h k = k

  then_HasRead :
      (n : ℕ) (out : Option (Live W)) (f : Live W → Option (Live W))
      → HasRead n out
      → ((l : Live W) → HasRead l.total_bytes_read (f l))
      → HasRead n (elim out [ none ↦ none | some l ↦ f l ])
  then_HasRead n none f h k = tt
  then_HasRead n (some l) f h k = subst (λ m. HasRead m (f l)) h (k l)

  finish_read-HasRead :
      (sid : ℕ) (w : Bool) (l : Live W)
      → HasRead l.total_bytes_read (finish_read o limit size sid w l)
  unfolding finish_read
  finish_read-HasRead sid w l =
      then_HasRead l.total_bytes_read _ _
        (pick l.total_bytes_read (flag_of (λ s. s.body_complete) sid l.session) (some l) _ refl
          (feed_stream_fin-HasRead sid l))
        (λ l'. pick l'.total_bytes_read _ _ (some l') (close_stream-HasRead sid l') refl)

  abbrev Carried : ℕ → Option (Live W × Bool) → Type 0
  Carried n none = Unit
  Carried n (some a) = a.0.total_bytes_read ≡ n

  hand_over-Carried :
      (sid nread : ℕ) (l : Live W)
      → Carried (add64 l.total_bytes_read nread) (hand_over o limit size sid nread l)
  unfolding hand_over mark_ngh3_dead
  hand_over-Carried sid nread l =
      let l' : Live W = record l { total_bytes_read = add64 l.total_bytes_read nread } in
      let r = o.read_stream sid nread false l.outside in
      let h = called_back-HasRead limit r.1 r.0 l' in
      elim (Option-cases (called_back limit r.1 r.0 l')) [
        | inl e ↦ rw (e, hand_over) tt
        | inr (l'', e) ↦
            rw (e, hand_over)
              (elim (Option-cases r.2) [
                | inl f ↦ rw f (rw e at h)
                | inr (code, f) ↦ rw f (rw e at h)
              ])
      ]

  module _ (start total : ℕ) (fits : total < 2 ^ 64) (at_most : ReadsAtMost o) where
    either :
        (b : Bool) (x y : Option (Draining W))
        → Spends start total x
        → Spends start total y
        → Spends start total (if b then x else y)
    either true x y h k = h
    either false x y h k = k

    read_loop-Spends :
        (sid reads bytes : ℕ) (data_read : Bool) (l : Live W)
        → l.total_bytes_read + bytes ≡ total
        → (data_read ≡ true) ⊎ (l.total_bytes_read ≡ start)
        → Spends start total (read_loop o limit size sid reads bytes data_read l)
    unfolding read_loop
    read_loop-Spends sid zero bytes data_read l a n = record { adds_up = a; noted = n }
    read_loop-Spends sid (suc reads) bytes data_read l a n =
        either (bytes == 0) _ _ (record { adds_up = a; noted = n })
          (elim (Option-cases (qstream_of sid l.session)) [
            | inl e ↦ rw e (record { adds_up = a; noted = n })
            | inr (st, e) ↦
                let m = if ltb size bytes then size else bytes in
                let answer = (o.ssl_read st m l.outside).1 in
                let l' : Live W = record l { outside = (o.ssl_read st m l.outside).0 } in
                rw e (elim (Option-cases (stream_read answer).0) [
                  | inl g ↦ rw g (elim (Bool-cases (stream_read answer).1) [
                    | inl f ↦
                        let h = feed_stream_fin-HasRead sid l' in
                        rw f (elim (Option-cases (feed_stream_fin o limit size sid l')) [
                          | inl c ↦ rw c tt
                          | inr (l'', c) ↦
                              let k : l''.total_bytes_read ≡ l.total_bytes_read = rw c at h in
                              rw c (record { adds_up = omega arith; noted = rw k n })
                        ])
                    | inr f ↦ rw f (record { adds_up = a; noted = n })
                  ])
                  | inr (nread, g) ↦
                      let h = hand_over-Carried sid nread l' in
                      let few : nread ≤ m =
                        at_most st m nread l.outside (stream_read-got answer nread g) in
                      let less : m ≤ bytes = ground arith in
                      rw g (elim (Option-cases (hand_over o limit size sid nread l')) [
                        | inl c ↦ rw c tt
                        | inr (next, c) ↦
                            let k : next.0.total_bytes_read ≡ add64 l.total_bytes_read nread =
                              rw c at h in
                            let sum : next.0.total_bytes_read + (bytes - nread) ≡ total =
                              omega arith in
                            rw c (elim (Bool-cases next.1) [
                              | inl on ↦ rw on (
                                  read_loop-Spends sid reads (bytes - nread) true next.0 sum
                                    (inl refl))
                              | inr off ↦ rw off (record { adds_up = sum; noted = inl refl })
                            ])
                      ])
                ])
          ])

    pub drain_one-Spends :
        (sid : ℕ) (d : Draining W)
        → IsSpent start total d
        → Spends start total (drain_one_stream o limit size sid d)
    unfolding drain_one_stream
    drain_one-Spends sid d s =
        let f = finished_of o limit size (qstream_of sid d.live.session) d.live.outside in
        elim (Bool-cases f.0) [
          | inl e ↦
              let h = finish_read-HasRead sid f.1 d.live in
              rw (e, drain_one_stream)
                (elim (Option-cases (finish_read o limit size sid f.1 d.live)) [
                  | inl c ↦ rw c tt
                  | inr (l, c) ↦
                      let k : l.total_bytes_read ≡ d.live.total_bytes_read = rw c at h in
                      let a = s.adds_up in
                      rw c (record { adds_up = omega arith; noted = rw k s.noted })
                ])
          | inr e ↦
              rw (e, drain_one_stream)
                (read_loop-Spends sid d.reads_remaining d.bytes_remaining d.data_read d.live
                  s.adds_up s.noted)
        ]
