-- ===== src/Quic/Write/Laws.antt =====
-- What a write accepts, when it concludes its stream, and how long the event loop may wait.
use mod_http3_stage.Prelude.{
  ℕ, min, ◌-◌, ◌+◌, ◌*◌, ◌/◌, ◌≤◌, ◌≡◌, ◌⊎◌, refl, ap, some_inj, Bool, true, false, not, ◌&&◌, none,
  some, List, [], ◌∷◌, arith, ltb, ◌==◌, Bool-cases, inl, inr,
}
use mod_http3_stage.Quic.Write.{
  Written, wrote, want_write, failed, WriteResult, expected, write_loop, stream_write, want_timeout,
  ReadAnswer, got, zero_return, read_error, stream_read,
}

-- A write is never said to have accepted more than it was given.
abbrev pub AcceptsAtMost : (ℕ → ℕ → Written) → Type 0
AcceptsAtMost ssl = (n len w : ℕ) → ssl n len ≡ wrote w → w ≤ len

record Looped (base total : ℕ) (res : WriteResult) : Type 0 where
  most : res.accepted ≤ base + total
  one : res.blocked && res.broken ≡ false
  all : res.blocked ≡ false → res.broken ≡ false → res.accepted ≡ base + total

Written-cases : (a : Written) → (a ≡ want_write) ⊎ (a ≡ failed) ⊎ ((w : ℕ) × (a ≡ wrote w))
Written-cases want_write = inl refl
Written-cases failed = inr (inl refl)
Written-cases (wrote w) = inr (inr (w, refl))

write_loop-Looped :
    (ssl : ℕ → ℕ → Written) (lens : List ℕ) (res : WriteResult)
    → AcceptsAtMost ssl
    → res.blocked ≡ false
    → res.broken ≡ false
    → Looped res.accepted (expected lens) (write_loop ssl lens res)
unfolding write_loop expected
write_loop-Looped ssl [] res h b k = record {
  most = omega arith;
  one = rw b refl;
  all = λ _ _. omega arith;
}
write_loop-Looped ssl (len ∷ lens) res h b k = elim (Written-cases (ssl res.accepted len)) [
  | inl e ↦
      rw (e, write_loop) (record { most = omega arith; one = rw k refl; all = λ x y. ground arith })
  | inr (inl e) ↦
      rw (e, write_loop) (record { most = omega arith; one = rw b refl; all = λ x y. ground arith })
  | inr (inr (w, e)) ↦
      let few = h res.accepted len w e in
      let l = write_loop-Looped ssl lens (record res { accepted = res.accepted + w }) h b k in
      let m = l.most in
      rw (e, write_loop)
        (elim (Bool-cases (ltb w len)) [
          | inl p ↦ rw p (record { most = omega arith; one = rw k refl; all = λ x y. ground arith })
          | inr p ↦ rw p (record {
            most = omega arith;
            one = l.one;
            all = λ x y. let t = l.all x y in let full : len ≤ w = ground arith in omega arith;
          })
        ])
]

conclude_lem :
    (fin blocked broken : Bool) (accepted total : ℕ)
    → (blocked ≡ false → broken ≡ false → accepted ≡ 0 + total)
    → fin && not blocked && not broken && accepted == total ≡ fin && not blocked && not broken
conclude_lem false blocked broken accepted total h = refl
conclude_lem true true broken accepted total h = refl
conclude_lem true false true accepted total h = refl
conclude_lem true false false accepted total h = let e = h refl refl in ground arith

abbrev start : WriteResult
start = record { accepted = 0; blocked = false; broken = false; concluded = false }

-- When OpenSSL accepts at most what it is given, a write accepts at most the bytes of its vectors, is
-- not both blocked and broken, and concludes the stream exactly if it was the last one and neither.
pub stream_write_bounds :
    (ssl : ℕ → ℕ → Written) (lens : List ℕ) (fin : Bool)
    → AcceptsAtMost ssl
    → ((stream_write ssl lens fin).accepted ≤ expected lens)
      × ((stream_write ssl lens fin).blocked && (stream_write ssl lens fin).broken ≡ false)
      × ((stream_write ssl lens fin).concluded
          ≡ fin
            && not (stream_write ssl lens fin).blocked
            && not (stream_write ssl lens fin).broken)
unfolding stream_write
stream_write_bounds ssl lens fin h =
    let l = write_loop-Looped ssl lens start h refl refl in
    let m = l.most in
    let a = l.all in
    (
      omega arith,
      l.one,
      conclude_lem fin (write_loop ssl lens start).blocked (write_loop ssl lens start).broken
          (write_loop ssl lens start).accepted (expected lens) a,
    )

-- When OpenSSL accepts at most what it is given, a write that is neither blocked nor broken has
-- accepted all the bytes of its vectors.
pub stream_write_whole :
    (ssl : ℕ → ℕ → Written) (lens : List ℕ) (fin : Bool)
    → AcceptsAtMost ssl
    → (stream_write ssl lens fin).blocked ≡ false
    → (stream_write ssl lens fin).broken ≡ false
    → (stream_write ssl lens fin).accepted ≡ expected lens
unfolding stream_write
stream_write_whole ssl lens fin h b k =
    let l = write_loop-Looped ssl lens start h refl refl in omega (arith, l.all b k)

-- Asked to wait for a millisecond or more, the event loop waits for the shorter of that and the time to
-- the next timer of OpenSSL, both rounded up to a millisecond, and without a timer just as long as
-- asked.
pub want_timeout_lem :
    (sec usec timeout_ms : ℕ)
    → 1 ≤ timeout_ms
    → (want_timeout true (some (sec, usec)) timeout_ms
        ≡ 1 + min (timeout_ms - 1) (sec * 1000 + usec / 1000 - 1))
      × (want_timeout true none timeout_ms ≡ timeout_ms)
unfolding want_timeout
want_timeout_lem sec usec timeout_ms h = (ground arith, ground arith)

-- A read that gives bytes is one that OpenSSL gave.
pub stream_read-got : (a : ReadAnswer) (n : ℕ) → (stream_read a).0 ≡ some n → a ≡ got n
unfolding stream_read
stream_read-got (got m) n e = elim (Bool-cases (ltb 0 m)) [
  | inl p ↦ ap got (some_inj m n (rw p at e))
  | inr p ↦ let no = rw p at e in cc
]
stream_read-got zero_return n e = cc
stream_read-got read_error n e = cc
