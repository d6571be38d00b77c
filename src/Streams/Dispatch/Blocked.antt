-- ===== src/Streams/Dispatch/Blocked.antt =====
-- The number of the write-blocked streams in a table.
use mod_http3_stage.Prelude.{
  ℕ, some_inj, ◌+◌, ◌≡◌, ap, some, List, [], ◌∷◌, ◌++◌, arith, ◌==◌, one_if, Bool-cases, inl, inr,
}
use mod_http3_stage.State.{Stream}
use mod_http3_stage.Streams.{find, put, remove}

abbrev pub blocked : List Stream → ℕ
blocked [] = 0
blocked (s ∷ ss) = one_if s.write_blocked + blocked ss

flag_same : (s r : Stream) → some r ≡ some s → one_if r.write_blocked ≡ one_if s.write_blocked
flag_same s r e = ap (λ x. one_if x.write_blocked) (some_inj r s e)

pub blocked-put :
    (sid : ℕ) (s s' : Stream) (ss : List Stream)
    → find sid ss ≡ some s
    → blocked (put sid s' ss) + one_if s.write_blocked ≡ blocked ss + one_if s'.write_blocked
unfolding find put
blocked-put sid s s' [] e = ground arith
blocked-put sid s s' (r ∷ rs) e = elim (Bool-cases (r.stream_id == sid)) [
  | inl is ↦ let same = flag_same s r (rw is at e) in rw is (omega arith)
  | inr other ↦ let t = blocked-put sid s s' rs (rw other at e) in rw other (omega arith)
]

pub blocked-remove :
    (sid : ℕ) (s : Stream) (ss : List Stream)
    → find sid ss ≡ some s
    → blocked (remove sid ss) + one_if s.write_blocked ≡ blocked ss
unfolding find remove
blocked-remove sid s [] e = ground arith
blocked-remove sid s (r ∷ rs) e = elim (Bool-cases (r.stream_id == sid)) [
  | inl is ↦ let same = flag_same s r (rw is at e) in rw is (omega arith)
  | inr other ↦ let t = blocked-remove sid s rs (rw other at e) in rw other (omega arith)
]

pub blocked-append :
    (ss : List Stream) (s : Stream) → blocked (ss ++ s ∷ []) ≡ blocked ss + one_if s.write_blocked
blocked-append [] s = omega arith
blocked-append (r ∷ rs) s = omega (arith, blocked-append rs s)
