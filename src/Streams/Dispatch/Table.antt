-- ===== src/Streams/Dispatch/Table.antt =====
-- Looking up a stream in the table after a change.
use mod_http3_stage.Prelude.{
  ℕ, some_inj, ◌+◌, ◌≡◌, ◌∙◌, refl, sym, ap, true, false, none, some, List, [], ◌∷◌, ◌++◌, arith,
  ◌==◌, ==→eq, if◌then◌else◌, one_if, count, Bool-cases, inl, inr,
}
use mod_http3_stage.State.{Stream}
use mod_http3_stage.Streams.{find, put, remove}

abbrev pub ids : List Stream → List ℕ
ids [] = []
ids (s ∷ ss) = s.stream_id ∷ ids ss

pub find_id : (sid : ℕ) (s : Stream) (ss : List Stream) → find sid ss ≡ some s → s.stream_id ≡ sid
unfolding find
find_id sid s [] e = ground arith
find_id sid s (r ∷ rs) e = elim (Bool-cases (r.stream_id == sid)) [
  | inl is ↦ sym (ap (λ x. x.stream_id) (some_inj r s (rw is at e))) ∙ ==→eq r.stream_id sid is
  | inr other ↦ find_id sid s rs (rw other at e)
]

-- The table after a change of one stream.
pub find-put :
    (sid x : ℕ) (s s' : Stream) (ss : List Stream)
    → find sid ss ≡ some s
    → s'.stream_id ≡ sid
    → find x (put sid s' ss) ≡ (if x == sid then some s' else find x ss)
unfolding find put
find-put sid x s s' [] e i = ground arith
find-put sid x s s' (r ∷ rs) e i = elim (Bool-cases (r.stream_id == sid)) [
  | inl is ↦ rw is (elim (Bool-cases (x == sid)) [
    | inl y ↦ let z : (s'.stream_id == x) ≡ true = ground arith in rw y (rw z refl)
    | inr n ↦
        let z : (s'.stream_id == x) ≡ false = ground arith in
        let w : (r.stream_id == x) ≡ false = ground arith in rw n (rw z (rw w refl))
  ])
  | inr other ↦
      let t = find-put sid x s s' rs (rw other at e) i in
      rw other (elim (Bool-cases (r.stream_id == x)) [
        | inl y ↦ let z : (x == sid) ≡ false = ground arith in rw y (rw z refl)
        | inr n ↦ rw n t
      ])
]

pub ids-put :
    (sid : ℕ) (s s' : Stream) (ss : List Stream)
    → find sid ss ≡ some s
    → s'.stream_id ≡ sid
    → ids (put sid s' ss) ≡ ids ss
unfolding find put
ids-put sid s s' [] e i = refl
ids-put sid s s' (r ∷ rs) e i = elim (Bool-cases (r.stream_id == sid)) [
  | inl is ↦ let same = i ∙ sym (==→eq r.stream_id sid is) in rw is (ap (λ t. t ∷ ids rs) same)
  | inr other ↦ rw other (ap (λ ts. r.stream_id ∷ ts) (ids-put sid s s' rs (rw other at e) i))
]

pub find-none : (sid : ℕ) (ss : List Stream) → find sid ss ≡ none → count sid (ids ss) ≡ 0
unfolding find
find-none sid [] e = refl
find-none sid (r ∷ rs) e = elim (Bool-cases (r.stream_id == sid)) [
  | inl is ↦ ground arith
  | inr other ↦ let t = find-none sid rs (rw other at e) in ground arith
]

pub none-find : (sid : ℕ) (ss : List Stream) → count sid (ids ss) ≡ 0 → find sid ss ≡ none
unfolding find
none-find sid [] e = refl
none-find sid (r ∷ rs) e = elim (Bool-cases (r.stream_id == sid)) [
  | inl is ↦ ground arith
  | inr other ↦ rw other (none-find sid rs (ground arith))
]

pub count-remove :
    (sid x : ℕ) (s : Stream) (ss : List Stream)
    → find sid ss ≡ some s
    → count x (ids (remove sid ss)) + one_if (x == sid) ≡ count x (ids ss)
unfolding find remove
count-remove sid x s [] e = ground arith
count-remove sid x s (r ∷ rs) e = elim (Bool-cases (r.stream_id == sid)) [
  | inl is ↦
      let same : one_if (x == sid) ≡ one_if (x == r.stream_id) =
        ap (λ i. one_if (x == i)) (sym (==→eq r.stream_id sid is)) in
      rw is (omega arith)
  | inr other ↦ let t = count-remove sid x s rs (rw other at e) in rw other (omega arith)
]

pub find-remove :
    (sid x : ℕ) (ss : List Stream) → (x == sid) ≡ false → find x (remove sid ss) ≡ find x ss
unfolding find remove
find-remove sid x [] e = refl
find-remove sid x (r ∷ rs) e = elim (Bool-cases (r.stream_id == sid)) [
  | inl is ↦ let n : (r.stream_id == x) ≡ false = ground arith in rw (is, n) refl
  | inr other ↦
      let t = find-remove sid x rs e in
      rw other (elim (Bool-cases (r.stream_id == x)) [ inl y ↦ rw y refl | inr n ↦ rw n t ])
]

-- A new stream behind the others.
pub find-append :
    (x : ℕ) (n : Stream) (ss : List Stream)
    → find n.stream_id ss ≡ none
    → find x (ss ++ n ∷ []) ≡ (if x == n.stream_id then some n else find x ss)
unfolding find
find-append x n [] e = elim (Bool-cases (x == n.stream_id)) [
  | inl y ↦ let z : (n.stream_id == x) ≡ true = ground arith in rw y (rw z refl)
  | inr w ↦ let z : (n.stream_id == x) ≡ false = ground arith in rw w (rw z refl)
]
find-append x n (r ∷ rs) e = elim (Bool-cases (r.stream_id == n.stream_id)) [
  | inl is ↦ ground arith
  | inr other ↦
      let t = find-append x n rs (rw other at e) in
      elim (Bool-cases (r.stream_id == x)) [
        | inl y ↦ let z : (x == n.stream_id) ≡ false = ground arith in rw y (rw z refl)
        | inr w ↦ rw w t
      ]
]

pub ids-append : (ss : List Stream) (n : Stream) → ids (ss ++ n ∷ []) ≡ ids ss ++ n.stream_id ∷ []
ids-append [] n = refl
ids-append (r ∷ rs) n = ap (λ ts. r.stream_id ∷ ts) (ids-append rs n)
