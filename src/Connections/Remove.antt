-- ===== src/Connections/Remove.antt =====
-- Counting the entries of an array, and what removing one does to a count.
use mod_http3_stage.Prelude.{
  ℕ, zero, suc, ◌+◌, ◌-◌, ◌≤◌, ◌<◌, ◌≡◌, refl, ap, Bool, none, some, List, [], ◌∷◌, arith, length,
  get_elem?, set, take, one_if,
}
use mod_http3_stage.Connections.{remove_at}

module _ {A : Type 0} where
  -- the entries with a property
  abbrev pub tally : (A → Bool) → List A → ℕ
  tally q [] = 0
  tally q (p ∷ ps) = one_if (q p) + tally q ps

  butlast : A → List A → List A
  butlast p [] = []
  butlast p (r ∷ rs) = p ∷ butlast r rs

  final : A → List A → A
  final p [] = p
  final p (r ∷ rs) = final r rs

  take-butlast : (p : A) (ps : List A) → take (length ps) (p ∷ ps) ≡ butlast p ps
  unfolding butlast
  take-butlast p [] = refl
  take-butlast p (r ∷ rs) = ap (λ ys. p ∷ ys) (take-butlast r rs)

  get_elem?-final : (p : A) (ps : List A) → get_elem? (p ∷ ps) (length ps) ≡ some (final p ps)
  unfolding final
  get_elem?-final p [] = refl
  get_elem?-final p (r ∷ rs) = get_elem?-final r rs

  -- The removal by recursion on the list.
  removed : ℕ → A → List A → List A
  unfolding final butlast
  removed zero p [] = []
  removed zero p (r ∷ rs) = final r rs ∷ butlast r rs
  removed (suc i) p [] = []
  removed (suc i) p (r ∷ rs) = p ∷ removed i r rs

  cut :
      (i : ℕ) (p : A) (ps : List A)
      → take (length ps) (set (p ∷ ps) i (final p ps)) ≡ removed i p ps
  unfolding removed final
  cut zero p [] = refl
  cut zero p (r ∷ rs) = ap (λ ys. final r rs ∷ ys) (take-butlast r rs)
  cut (suc i) p [] = refl
  cut (suc i) p (r ∷ rs) = ap (λ ys. p ∷ ys) (cut i r rs)

  at_last :
      (n i : ℕ) (p : A) (ps : List A)
      → n ≡ length ps
      → elim (get_elem? (p ∷ ps) n) [ none ↦ p ∷ ps | some last ↦ take n (set (p ∷ ps) i last) ]
        ≡ removed i p ps
  at_last n i p ps h =
      let g : get_elem? (p ∷ ps) n ≡ some (final p ps) = rw h (get_elem?-final p ps) in
      rw g (rw h (cut i p ps))

  remove_at-removed : (i : ℕ) (p : A) (ps : List A) → remove_at i (p ∷ ps) ≡ removed i p ps
  unfolding remove_at
  remove_at-removed i p ps = at_last (length (p ∷ ps) - 1) i p ps (omega arith)

  tally-butlast :
      (q : A → Bool) (p : A) (ps : List A)
      → one_if (q (final p ps)) + tally q (butlast p ps) ≡ tally q (p ∷ ps)
  unfolding butlast final
  tally-butlast q p [] = refl
  tally-butlast q p (r ∷ rs) = omega (arith, tally-butlast q r rs)

  tally-removed :
      (q : A → Bool) (i : ℕ) (x p : A) (ps : List A)
      → get_elem? (p ∷ ps) i ≡ some x
      → tally q (removed i p ps) + one_if (q x) ≡ tally q (p ∷ ps)
  unfolding removed
  tally-removed q zero x p [] h = ground arith
  tally-removed q zero x p (r ∷ rs) h =
      let t = tally-butlast q r rs in
      let e : one_if (q p) ≡ one_if (q x) = ground arith in omega arith
  tally-removed q (suc i) x p [] h = ground arith
  tally-removed q (suc i) x p (r ∷ rs) h = omega (arith, tally-removed q i x r rs h)

  take-removed :
      (i : ℕ) (x p : A) (ps : List A)
      → get_elem? (p ∷ ps) i ≡ some x
      → take i (removed i p ps) ≡ take i (p ∷ ps)
  unfolding removed
  take-removed zero x p ps h = refl
  take-removed (suc i) x p [] h = ground arith
  take-removed (suc i) x p (r ∷ rs) h = ap (λ ys. p ∷ ys) (take-removed i x r rs h)

  length-removed :
      (i : ℕ) (x p : A) (ps : List A)
      → get_elem? (p ∷ ps) i ≡ some x
      → length (removed i p ps) ≡ length ps
  unfolding removed butlast
  length-removed zero x p [] h = refl
  length-removed zero x p (r ∷ []) h = refl
  length-removed zero x p (r ∷ s ∷ rs) h = ap suc (length-removed zero r r (s ∷ rs) refl)
  length-removed (suc i) x p [] h = ground arith
  length-removed (suc i) x p (r ∷ rs) h = ap suc (length-removed i x r rs h)

  -- What is left when the entry at an index in range is removed: one of it less, and the entries before it.
  pub record Removal (i : ℕ) (x : A) (ps qs : List A) : Type 0 where
    pub counts : (q : A → Bool) → tally q qs + one_if (q x) ≡ tally q ps
    pub before : take i qs ≡ take i ps
    pub shorter : suc (length qs) ≡ length ps

  pub remove_at-Removal :
      (i : ℕ) (x : A) (ps : List A) → get_elem? ps i ≡ some x → Removal i x ps (remove_at i ps)
  remove_at-Removal i x [] h = ground arith
  remove_at-Removal i x (p ∷ ps) h = rw (remove_at-removed i p ps) (record {
    counts = λ q. tally-removed q i x p ps h;
    before = take-removed i x p ps h;
    shorter = ap suc (length-removed i x p ps h);
  })

  pub tally-take :
      (q : A → Bool) (i : ℕ) (x : A) (ps : List A)
      → get_elem? ps i ≡ some x
      → tally q (take (i + 1) ps) ≡ tally q (take i ps) + one_if (q x)
  tally-take q i x [] h = ground arith
  tally-take q zero x (p ∷ ps) h = ground arith
  tally-take q (suc i) x (p ∷ ps) h =
      let index : suc i + 1 ≡ suc (i + 1) = omega arith in
      rw index (omega (arith, tally-take q i x ps h))

  pub get_elem?-none : (i : ℕ) (ps : List A) → get_elem? ps i ≡ none → length ps ≤ i
  get_elem?-none i [] h = omega arith
  get_elem?-none zero (p ∷ ps) h = ground arith
  get_elem?-none (suc i) (p ∷ ps) h = omega (arith, get_elem?-none i ps h)

  pub get_elem?-some : (i : ℕ) (x : A) (ps : List A) → get_elem? ps i ≡ some x → i < length ps
  get_elem?-some i x [] h = ground arith
  get_elem?-some zero x (p ∷ ps) h = omega arith
  get_elem?-some (suc i) x (p ∷ ps) h = omega (arith, get_elem?-some i x ps h)
