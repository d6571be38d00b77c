-- ===== src/Body/Serve/Wanted.antt =====
-- How many bytes a call of serve_request_body (mod_http3/src/h3_filter.c) hands out.
use mod_http3_stage.Prelude.{
  ℕ, ◌≤◌, ◌<◌, ◌≡◌, refl, Bool, true, false, Option, none, some, List, [], ◌∷◌, arith, Option-cases,
  inl, inr, length,
}
use mod_http3_stage.Body.Serve.{
  InputMode, read_bytes, get_line, eat_crlf, speculative, exhaustive, init, find_newline,
  want_bytes, want_line, wanted,
}

find_newline-lt : (cs : List ℕ) (i : ℕ) → find_newline cs ≡ some i → i < length cs
unfolding find_newline
find_newline-lt [] i e = cc
find_newline-lt (c ∷ cs) i e = elim (Option-cases (find_newline cs)) [
  | inl n ↦ ground (arith, n)
  | inr (j, f) ↦ ground (arith, find_newline-lt cs j f)
]

want_bytes_bounds :
    (r : Option ℕ) (avail : ℕ) → 0 < avail → (0 < want_bytes r avail) × (want_bytes r avail ≤ avail)
unfolding want_bytes
want_bytes_bounds none avail h = ground arith
want_bytes_bounds (some r) avail h = ground arith

want_line_bounds :
    (unread : List ℕ) (avail : ℕ)
    → 0 < avail
    → length unread ≡ avail
    → (0 < want_line unread avail) × (want_line unread avail ≤ avail)
unfolding want_line
want_line_bounds unread avail h e = elim (Option-cases (find_newline unread)) [
  | inl n ↦ ground (arith, n)
  | inr (i, f) ↦ ground (arith, f, find_newline-lt unread i f)
]

-- The modes that ask for bytes.
abbrev pub asks : InputMode → Bool
asks eat_crlf = false
asks init = false
asks _ = true

-- The number that is asked for: at least one byte and no more than there are.
pub wanted_bounds :
    (mode : InputMode) (r : Option ℕ) (unread : List ℕ) (avail : ℕ)
    → asks mode ≡ true
    → 0 < avail
    → length unread ≡ avail
    → (want : ℕ) × (wanted mode r unread avail ≡ some want) × (0 < want) × (want ≤ avail)
unfolding wanted
wanted_bounds read_bytes r unread avail a h e =
    let b = want_bytes_bounds r avail h in (want_bytes r avail, refl, b.0, b.1)
wanted_bounds speculative r unread avail a h e =
    let b = want_bytes_bounds r avail h in (want_bytes r avail, refl, b.0, b.1)
wanted_bounds get_line r unread avail a h e =
    let b = want_line_bounds unread avail h e in (want_line unread avail, refl, b.0, b.1)
wanted_bounds exhaustive r unread avail a h e = (avail, refl, h, omega arith)
wanted_bounds eat_crlf r unread avail a h e = cc
wanted_bounds init r unread avail a h e = cc

-- The modes that move the offset.
