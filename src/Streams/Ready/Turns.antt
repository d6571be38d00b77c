-- ===== src/Streams/Ready/Turns.antt =====
-- The order in which a pass goes over the streams.
use mod_http3_stage.Prelude.{
  ℕ, zero, suc, ◌+◌, ◌-◌, ◌%◌, ◌≤◌, ◌<◌, ◌≡◌, ◌∙◌, refl, sym, ap, true, false, not, ◌&&◌, Option,
  none, some, List, [], ◌∷◌, ◌++◌, arith, Bool-cases, Option-cases, inl, inr, length, get_elem?,
  take, drop, ltb, length-drop, length-append, length-take, drop-drop,
}
use native.Mathlib.Nat.{mod-eq_of_lt, mod-eq-sub-mod}
use mod_http3_stage.Streams.Outside.{Outside}
use mod_http3_stage.Streams.Drain.{Draining}
use mod_http3_stage.Streams.Ready.{skipped, drain_at, spent, drain_loop}

get_elem?-append_left :
    (xs ys : List ℕ) (i : ℕ) → i < length xs → get_elem? (xs ++ ys) i ≡ get_elem? xs i
get_elem?-append_left [] ys i h = absurd (omega arith)
get_elem?-append_left (x ∷ xs) ys zero h = refl
get_elem?-append_left (x ∷ xs) ys (suc i) h = get_elem?-append_left xs ys i (omega arith)

get_elem?-append_right :
    (xs ys : List ℕ) (i : ℕ) → get_elem? (xs ++ ys) (length xs + i) ≡ get_elem? ys i
get_elem?-append_right [] ys i = ap (get_elem? ys) (omega arith)
get_elem?-append_right (x ∷ xs) ys i =
    ap (get_elem? (x ∷ (xs ++ ys)))
      (let e : suc (length xs) + i ≡ suc (length xs + i) = omega arith in e)
    ∙ get_elem?-append_right xs ys i

get_elem?-drop : (n i : ℕ) (xs : List ℕ) → get_elem? (drop n xs) i ≡ get_elem? xs (n + i)
get_elem?-drop zero i xs = ap (get_elem? xs) (omega arith)
get_elem?-drop (suc n) i [] = refl
get_elem?-drop (suc n) i (x ∷ xs) =
    get_elem?-drop n i xs
    ∙ ap (get_elem? (x ∷ xs)) (let e : suc (n + i) ≡ suc n + i = omega arith in e)

get_elem?-take : (n i : ℕ) (xs : List ℕ) → i < n → get_elem? (take n xs) i ≡ get_elem? xs i
get_elem?-take zero i xs h = absurd (omega arith)
get_elem?-take (suc n) i [] h = refl
get_elem?-take (suc n) zero (x ∷ xs) h = refl
get_elem?-take (suc n) (suc i) (x ∷ xs) h = get_elem?-take n i xs (omega arith)

-- The list from an index on, and then what comes before it.
abbrev pub rotate : ℕ → List ℕ → List ℕ
rotate start xs = drop start xs ++ take start xs

get_elem?-rotate :
    (start i : ℕ) (xs : List ℕ)
    → start < length xs
    → i < length xs
    → get_elem? (rotate start xs) i ≡ get_elem? xs ((start + i) % length xs)
get_elem?-rotate start i xs h k =
    let n = length xs in
    let d = length-drop start xs in
    elim (Bool-cases (ltb i (n - start))) [
      | inl e ↦
          let small : start + i < n = ground arith in
          get_elem?-append_left (drop start xs) (take start xs) i (ground arith)
          ∙ get_elem?-drop start i xs
          ∙ ap (get_elem? xs) (sym (mod-eq_of_lt small))
      | inr e ↦
          let big : n ≤ start + i = ground arith in
          let j = start + i - n in
          let low : j < n = omega arith in
          let at : i ≡ length (drop start xs) + j = omega arith in
          ap (get_elem? (rotate start xs)) at
          ∙ get_elem?-append_right (drop start xs) (take start xs) j
          ∙ get_elem?-take start j xs (omega arith)
          ∙ ap (get_elem? xs) (sym (mod-eq-sub-mod big ∙ mod-eq_of_lt low))
    ]

cons_not_nil : (x : ℕ) (xs : List ℕ) → ¬ (x ∷ xs ≡ [])
cons_not_nil x xs e = cc

get_elem?-cons : (x : ℕ) (xs ys : List ℕ) (i : ℕ) → drop i ys ≡ x ∷ xs → get_elem? ys i ≡ some x
get_elem?-cons x xs [] zero e = absurd (cons_not_nil x xs (sym e))
get_elem?-cons x xs [] (suc i) e = absurd (cons_not_nil x xs (sym e))
get_elem?-cons x xs (y ∷ ys) zero e = ap (λ l. get_elem? l 0) e
get_elem?-cons x xs (y ∷ ys) (suc i) e = get_elem?-cons x xs ys i e

drop-suc : (x : ℕ) (xs ys : List ℕ) (i : ℕ) → drop i ys ≡ x ∷ xs → drop (i + 1) ys ≡ xs
drop-suc x xs ys i e = sym (drop-drop i 1 ys) ∙ ap (drop 1) e

module _ {W : Type 0} (o : Outside W) (limit size : ℕ) where
  -- The streams of a list, one after the other, until nghttp3 is dead or, behind one that was not
  -- skipped, the budgets are spent. `at` is the place of the first, of `n` places on a circle.
  pub drain_in_turn : List ℕ → ℕ → ℕ → Draining W → List ℕ → Option (Draining W × List ℕ)
  drain_in_turn [] at n d completed = some (d, completed)
  drain_in_turn (sid ∷ sids) at n d completed = elim d.live.ngh3_dead [
    | true ↦ some (d, completed)
    | false ↦ elim (drain_at o limit size sid d completed) [
      | none ↦ none
      | some (d', completed') ↦ elim (not (skipped sid d.live.session) && spent o limit size d') [
        | true ↦ some (
          record d' { live = record d'.live { stream_drain_cursor = (at % n + 1) % n } },
          completed',
        )
        | false ↦ drain_in_turn sids (at + 1) n d' completed'
      ]
    ]
  ]

  -- A list with the rest of the circle.
  loop_lem :
      (snapshot : List ℕ) (start : ℕ)
      → start < length snapshot
      → (offset : ℕ) (rest : List ℕ) (d : Draining W) (completed : List ℕ)
      → drop offset (rotate start snapshot) ≡ rest
      → offset + length rest ≡ length snapshot
      → drain_loop o limit size snapshot start offset (length rest) d completed
        ≡ drain_in_turn rest (start + offset) (length snapshot) d completed
  unfolding drain_loop drain_in_turn
  loop_lem snapshot start h offset [] d completed e k = refl
  loop_lem snapshot start h offset (sid ∷ sids) d completed e k =
      let at : get_elem? snapshot ((start + offset) % length snapshot) ≡ some sid =
        sym (get_elem?-rotate start offset snapshot h (omega arith))
        ∙ get_elem?-cons sid sids (rotate start snapshot) offset e in
      elim (Bool-cases d.live.ngh3_dead) [
        | inl dead ↦ rw (dead, drain_loop, drain_in_turn) refl
        | inr alive ↦
            rw (alive, drain_loop, drain_in_turn)
              (rw at (elim (Option-cases (drain_at o limit size sid d completed)) [
                | inl c ↦ rw c refl
                | inr (r, c) ↦
                    rw c
                      (elim (Bool-cases
                        (not (skipped sid d.live.session) && spent o limit size r.0)) [
                          | inl over ↦ rw over refl
                          | inr more ↦
                              let q =
                                loop_lem snapshot start h (offset + 1) sids r.0 r.1
                                  (drop-suc sid sids (rotate start snapshot) offset e)
                                  (omega arith) in
                              let s : start + (offset + 1) ≡ start + offset + 1 = omega arith in
                              rw more
                                (q ∙ ap (λ i. drain_in_turn sids i (length snapshot) r.0 r.1) s)
                        ])
              ]))
      ]

-- From a start inside of the snapshot, the loop of drain_ready_streams goes once round: it visits the
-- streams from the start to the end of the snapshot and then those before the start, in this order and
-- each once, until nghttp3 is dead or the budgets are spent, and then keeps the next place as the
-- cursor.
pub drain_loop_turns :
    {W : Type 0} (o : Outside W) (limit buf_size : ℕ) (snapshot : List ℕ) (start : ℕ)
    → start < length snapshot
    → (d : Draining W) (completed : List ℕ)
    → drain_loop o limit buf_size snapshot start 0 (length snapshot) d completed
      ≡ drain_in_turn o limit buf_size
          (drop start snapshot ++ take start snapshot)
          start
          (length snapshot)
          d
          completed
drain_loop_turns o limit size snapshot start h d completed =
    let all : length (rotate start snapshot) ≡ length snapshot = omega (
      arith,
      length-append (drop start snapshot) (take start snapshot),
      length-drop start snapshot,
      length-take start snapshot,
    ) in
    let z : start + 0 ≡ start = omega arith in
    sym (ap (λ n. drain_loop o limit size snapshot start 0 n d completed) all)
    ∙ loop_lem o limit size snapshot start h 0 (rotate start snapshot) d completed refl
        (omega arith)
    ∙ ap (λ i. drain_in_turn o limit size (rotate start snapshot) i (length snapshot) d completed) z
