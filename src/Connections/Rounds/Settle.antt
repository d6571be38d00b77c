-- ===== src/Connections/Rounds/Settle.antt =====
-- What a round over the sessions makes of them.
use mod_http3_stage.Prelude.{
  ℕ, zero, suc, ◌+◌, ◌≤◌, ◌≡◌, refl, Bool, true, false, not, ◌&&◌, some, List, [], ◌∷◌, arith, ◌==◌,
  length, get_elem?, take, take_all, one_if, count, Bool-cases, Option-cases, inl, inr,
}
use mathlib.Core.Path.{subst}
use mod_http3_stage.Connections.{remove_at}
use mod_http3_stage.Connections.Remove.{tally, remove_at-Removal, tally-take, get_elem?-none}
use mod_http3_stage.Connections.Rounds.{
  Passed, Round, leaves, end_session, service, sessions_loop, service_sessions,
}

and_not : (b l : Bool) → l ≡ true → one_if (b && not l) ≡ 0
and_not true l e = rw e refl
and_not false l e = refl

and_yes : (b l : Bool) → l ≡ true → one_if (b && l) ≡ one_if b
and_yes true l e = rw e refl
and_yes false l e = refl

and_le : (b l : Bool) → one_if (b && l) ≤ one_if l
and_le true l = omega arith
and_le false l = omega arith

module _ (a : Passed) where
  -- What the loop from an index on leaves, when none of the sessions before it leaves.
  record Settled (i : ℕ) (r r' : Round) : Type 0 where
    once :
        (c : ℕ)
        → count c r'.serviced + tally (λ d. c == d) (take i r.io.active_sessions)
          ≡ count c r.serviced + tally (λ d. c == d) r.io.active_sessions
    gone : tally (leaves a) r'.io.active_sessions ≡ 0
    kept :
        (q : ℕ → Bool)
        → tally (λ d. q d && not (leaves a d)) r'.io.active_sessions
          ≡ tally (λ d. q d && not (leaves a d)) r.io.active_sessions
    frees :
        (c : ℕ)
        → count c r'.io.freed
          ≡ count c r.io.freed + tally (λ d. c == d && leaves a d) r.io.active_sessions

  few : (c : ℕ) (ds : List ℕ) → tally (λ d. c == d && leaves a d) ds ≤ tally (leaves a) ds
  few c [] = omega arith
  few c (d ∷ ds) = let t = few c ds in let b = and_le (c == d) (leaves a d) in omega arith

  over :
      (i : ℕ) (r : Round)
      → length r.io.active_sessions ≤ i
      → tally (leaves a) (take i r.io.active_sessions) ≡ 0
      → Settled i r r
  over i r l z =
      let all = take_all i r.io.active_sessions l in
      let g : tally (leaves a) r.io.active_sessions ≡ 0 =
        subst (λ ds. tally (leaves a) ds ≡ 0) all z in
      record {
        once = λ c. rw all refl;
        gone = g;
        kept = λ q. refl;
        frees = λ c. let f = few c r.io.active_sessions in omega arith;
      }

  -- A session that ends, before the rest of the round.
  ends :
      (i conn : ℕ) (r r' : Round)
      → get_elem? r.io.active_sessions i ≡ some conn
      → leaves a conn ≡ true
      → Settled i (record (service a conn r) { io = end_session i conn r.io }) r'
      → Settled i r r'
  unfolding service end_session
  ends i conn r r' e l s =
      let m = remove_at-Removal i conn r.io.active_sessions e in
      record {
        once = λ c.
            let o = s.once c in
            let t = m.counts (λ d. c == d) in
            let b : tally (λ d. c == d) (take i (remove_at i r.io.active_sessions))
                ≡ tally (λ d. c == d) (take i r.io.active_sessions) =
              rw m.before refl in
            omega arith;
        gone = s.gone;
        kept = λ q.
            let k = s.kept q in
            let t = m.counts (λ d. q d && not (leaves a d)) in
            let n = and_not (q conn) (leaves a conn) l in omega arith;
        frees = λ c.
            let f = s.frees c in
            let t = m.counts (λ d. c == d && leaves a d) in
            let n = and_yes (c == conn) (leaves a conn) l in omega arith;
      }

  -- A session that stays, before the rest of the round.
  stays :
      (i conn : ℕ) (r r' : Round)
      → get_elem? r.io.active_sessions i ≡ some conn
      → Settled (i + 1) (service a conn r) r'
      → Settled i r r'
  unfolding service
  stays i conn r r' e s = record {
    once = λ c.
        let o = s.once c in
        let t = tally-take (λ d. c == d) i conn r.io.active_sessions e in omega arith;
    gone = s.gone;
    kept = s.kept;
    frees = s.frees;
  }

  sessions_loop-Settled :
      (fuel i : ℕ) (r : Round)
      → length r.io.active_sessions ≤ fuel + i
      → tally (leaves a) (take i r.io.active_sessions) ≡ 0
      → Settled i r (sessions_loop fuel a i r)
  unfolding sessions_loop service end_session
  sessions_loop-Settled zero i r k z = over i r (omega arith) z
  sessions_loop-Settled (suc fuel) i r k z =
      elim (Option-cases (get_elem? r.io.active_sessions i)) [
        | inl e ↦ rw (e, sessions_loop) (over i r (get_elem?-none i r.io.active_sessions e) z)
        | inr (conn, e) ↦ elim (Bool-cases (leaves a conn)) [
          | inl l ↦
              let m = remove_at-Removal i conn r.io.active_sessions e in
              let h = m.shorter in
              let z' : tally (leaves a) (take i (remove_at i r.io.active_sessions)) ≡ 0 =
                rw m.before z in
              rw (e, sessions_loop)
                (rw l (
                  ends i conn r _ e l (
                    sessions_loop-Settled fuel i
                      (record (service a conn r) { io = end_session i conn r.io }) (omega arith)
                      z')))
          | inr l ↦
              let t = tally-take (leaves a) i conn r.io.active_sessions e in
              let n : one_if (leaves a conn) ≡ 0 = rw l refl in
              rw (e, sessions_loop)
                (rw l (
                  stays i conn r _ e (
                    sessions_loop-Settled fuel (i + 1) (service a conn r) (omega arith)
                      (omega arith))))
        ]
      ]

-- In one round of the event thread every session has service_session_pass called for it exactly once
-- more, although the loop swaps the last session into a place that becomes free. The sessions that are
-- aborted, whose QUIC shutdown is done and which have no active task are destroyed once each and are
-- gone; no other session is destroyed, and all others are still there.
pub sessions_settle :
    (a : Passed) (r : Round)
    → ((c : ℕ)
        → count c (service_sessions a r).serviced
          ≡ count c r.serviced + tally (λ d. c == d) r.io.active_sessions)
      × (tally (leaves a) (service_sessions a r).io.active_sessions ≡ 0)
      × ((q : ℕ → Bool)
          → tally (λ d. q d && not (leaves a d)) (service_sessions a r).io.active_sessions
            ≡ tally (λ d. q d && not (leaves a d)) r.io.active_sessions)
      × ((c : ℕ)
          → count c (service_sessions a r).io.freed
            ≡ count c r.io.freed + tally (λ d. c == d && leaves a d) r.io.active_sessions)
unfolding service_sessions
sessions_settle a r =
    let s = sessions_loop-Settled a (length r.io.active_sessions) 0 r (omega arith) refl in
    ((λ c. let o = s.once c in omega arith), s.gone, s.kept, s.frees)
