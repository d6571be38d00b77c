-- ===== src/Connections/Handshakes.antt =====
-- What progress_pending_handshakes of mod_http3/src/h3_io.c makes of the pending connections.
pub mod One
use mod_http3_stage.Prelude.{
  ℕ, zero, suc, ◌+◌, ◌-◌, ◌%◌, ◌^◌, ◌≤◌, ◌<◌, ◌≡◌, ◌≢◌, ◌⊎◌, refl, sym, ap, ◌∙◌, Bool, true, false,
  not, ◌&&◌, ◌||◌, Option, none, some, List, [], ◌∷◌, ◌++◌, arith, ◌==◌, if◌then◌else◌, length,
  get_elem?, take, take_all, one_if, one_if_le, count, count-append, Bool-cases, Option-cases, inl,
  inr,
}
use mathlib.Core.Path.{subst}
use mod_http3_stage.Connections.{
  Io, Pending, Answers, conn_free, remove_at, remove_pending_handshake, spawn_succeeds,
  spawn_serviced_session, Fate, timed_out, peer_closed, finished, waits, fate, progress_one,
  progress_loop, progress_pending_handshakes,
}
use mod_http3_stage.Connections.Remove.{
  tally, Removal, remove_at-Removal, tally-take, get_elem?-none, get_elem?-some,
}
use mod_http3_stage.Connections.Handshakes.One.{
  stays, is_served, is_freed, Place, place_at, place_of, has_place, Moves, moves_lem,
}

bound_one :
    (w k : Place) (b : Bool)
    → has_place w stays ≡ false
    → one_if (b && has_place w k) ≤ one_if (not (has_place stays k))
bound_one stays k b n = ground arith
bound_one is_served stays true n = omega arith
bound_one is_served stays false n = omega arith
bound_one is_freed stays true n = omega arith
bound_one is_freed stays false n = omega arith
bound_one w is_served b n = one_if_le (b && has_place w is_served)
bound_one w is_freed b n = one_if_le (b && has_place w is_freed)

and_false : (b : Bool) → one_if (b && false) ≡ 0
and_false true = refl
and_false false = refl

place_at_leaves :
    (a : Answers) (p : Pending) (f : Fate) → f ≢ waits → has_place stays (place_at a p f) ≡ false
unfolding place_at
place_at_leaves a p timed_out n = refl
place_at_leaves a p peer_closed n = refl
place_at_leaves a p finished n = elim (Bool-cases (spawn_succeeds a p.conn)) [
  | inl s ↦ rw s refl
  | inr s ↦ rw s refl
]
place_at_leaves a p waits n = absurd (n refl)

Fate-cases : (f : Fate) → (f ≡ waits) ⊎ (f ≢ waits)
Fate-cases timed_out = inr (λ e. ground arith)
Fate-cases peer_closed = inr (λ e. ground arith)
Fate-cases finished = inr (λ e. ground arith)
Fate-cases waits = inl refl

module _ (a : Answers) (now timeout : ℕ) where
  abbrev pub stays_put : Pending → Bool
  stays_put p = has_place stays (place_of a now timeout p)

  abbrev pub goes : Place → ℕ → Pending → Bool
  goes w c p = c == p.conn && has_place w (place_of a now timeout p)

  -- What a pass leaves of the connections.
  pub record Settled (io io' : Io) : Type 0 where
    pub decided : tally (λ p. not (stays_put p)) io'.pending_handshakes ≡ 0
    pub kept :
        (q : Pending → Bool)
        → tally (λ p. q p && stays_put p) io'.pending_handshakes
          ≡ tally (λ p. q p && stays_put p) io.pending_handshakes
    pub serves :
        (c : ℕ)
        → count c io'.active_sessions
          ≡ count c io.active_sessions + tally (goes is_served c) io.pending_handshakes
    pub frees :
        (c : ℕ)
        → count c io'.freed ≡ count c io.freed + tally (goes is_freed c) io.pending_handshakes

  bound :
      (w : Place) (c : ℕ) (ps : List Pending)
      → has_place w stays ≡ false
      → tally (goes w c) ps ≤ tally (λ p. not (stays_put p)) ps
  bound w c [] n = omega arith
  bound w c (p ∷ ps) n =
      let t = bound w c ps n in
      let o = bound_one w (place_of a now timeout p) (c == p.conn) n in omega arith

  over :
      (i : ℕ) (io : Io)
      → length io.pending_handshakes ≤ i
      → tally (λ p. not (stays_put p)) (take i io.pending_handshakes) ≡ 0
      → Settled io io
  over i io l z =
      let d : tally (λ p. not (stays_put p)) io.pending_handshakes ≡ 0 =
        subst (λ ps. tally (λ p. not (stays_put p)) ps ≡ 0) (take_all i io.pending_handshakes l)
          z in
      record {
        decided = d;
        kept = λ q. refl;
        serves = λ c. let b = bound is_served c io.pending_handshakes refl in omega (arith, d);
        frees = λ c. let b = bound is_freed c io.pending_handshakes refl in omega (arith, d);
      }

  -- A connection that goes away, before the rest of the pass.
  before_rest :
      (i : ℕ) (p : Pending) (io io1 io' : Io)
      → ((c : ℕ) → Moves c i p (place_of a now timeout p) io io1)
      → stays_put p ≡ false
      → Settled io1 io'
      → Settled io io'
  before_rest i p io io1 io' m n s = record {
    decided = s.decided;
    kept = λ q.
        let k = s.kept q in
        let r = (m 0).removal.counts (λ x. q x && stays_put x) in
        let z : one_if (q p && stays_put p) ≡ 0 = rw n (and_false (q p)) in omega arith;
    serves = λ c.
        let k = s.serves c in
        let r = (m c).removal.counts (goes is_served c) in let v = (m c).serves in omega arith;
    frees = λ c.
        let k = s.frees c in
        let r = (m c).removal.counts (goes is_freed c) in let v = (m c).frees in omega arith;
  }

  waits_put : (p : Pending) → fate a now timeout p ≡ waits → one_if (not (stays_put p)) ≡ 0
  unfolding place_of place_at
  waits_put p w = rw (w, place_at) refl

  leaves_put : (p : Pending) → fate a now timeout p ≢ waits → stays_put p ≡ false
  unfolding place_of
  leaves_put p n = place_at_leaves a p (fate a now timeout p) n

  moved_on :
      (fuel i : ℕ) (p : Pending) (io : Io)
      → get_elem? io.pending_handshakes i ≡ some p
      → fate a now timeout p ≡ waits
      → progress_loop (suc fuel) a now timeout i io ≡ progress_loop fuel a now timeout (i + 1) io
  unfolding progress_loop progress_one
  moved_on fuel i p io e w = rw (e, progress_loop) (rw (w, progress_one) refl)

  removed_one :
      (fuel i : ℕ) (p : Pending) (io : Io)
      → get_elem? io.pending_handshakes i ≡ some p
      → (progress_one a i (fate a now timeout p) p io).1 ≡ false
      → progress_loop (suc fuel) a now timeout i io
        ≡ progress_loop fuel a now timeout i (progress_one a i (fate a now timeout p) p io).0
  unfolding progress_loop
  removed_one fuel i p io e w = rw (e, progress_loop) (rw w refl)

  progress_loop-Settled :
      (fuel i : ℕ) (io : Io)
      → length io.pending_handshakes ≤ fuel + i
      → tally (λ p. not (stays_put p)) (take i io.pending_handshakes) ≡ 0
      → Settled io (progress_loop fuel a now timeout i io)
  unfolding progress_loop place_of place_at
  progress_loop-Settled zero i io l z = over i io (omega arith) z
  progress_loop-Settled (suc fuel) i io l z =
      elim (Option-cases (get_elem? io.pending_handshakes i)) [
        | inl e ↦ rw (e, progress_loop) (over i io (get_elem?-none i io.pending_handshakes e) z)
        | inr (p, e) ↦ elim (Fate-cases (fate a now timeout p)) [
          | inl w ↦
              let t = tally-take (λ x. not (stays_put x)) i p io.pending_handshakes e in
              let s : one_if (not (stays_put p)) ≡ 0 = waits_put p w in
              subst (Settled io) (sym (moved_on fuel i p io e w))
                (progress_loop-Settled fuel (i + 1) io (omega arith) (omega arith))
          | inr n ↦
              let m = λ (c : ℕ). moves_lem c i a p io (fate a now timeout p) e n in
              let r = (m 0).0.removal in
              subst (Settled io) (sym (removed_one fuel i p io e (m 0).1)) (
                before_rest i p io (progress_one a i (fate a now timeout p) p io).0 _ (λ c. (m c).0)
                  (leaves_put p n)
                  (progress_loop-Settled fuel i (progress_one a i (fate a now timeout p) p io).0
                    (let h = r.shorter in omega arith)
                    (subst (λ ps. tally (λ x. not (stays_put x)) ps ≡ 0) (sym r.before) z)))
        ]
      ]

  -- A pass over the pending handshakes leaves only such as are neither timed out nor closed nor done,
  -- and all of these, whatever else is asked of them. Each other one is counted once more among the
  -- active sessions if its handshake is done and its session could be built, and else once more among
  -- the freed connections; nothing else is added to either.
  pub progress_settles : (io : Io) → Settled io (progress_pending_handshakes a now timeout io)
  unfolding progress_pending_handshakes
  progress_settles io = progress_loop-Settled (length io.pending_handshakes) 0 io (omega arith) refl
