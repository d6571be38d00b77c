-- ===== src/Body/Serve/Moves.antt =====
-- One call of serve_request_body (mod_http3/src/h3_filter.c).
use mod_http3_stage.Prelude.{
  ℕ, ◌+◌, ◌-◌, ◌≤◌, ◌<◌, ◌≡◌, refl, sym, Bool, true, false, Option, some, List, [], ◌∷◌, ◌++◌,
  arith, leb, ◌==◌, if◌then◌else◌, Bool-cases, inl, inr, length, take, drop, drop-drop,
  take-append-drop, length-drop, append-nil,
}
use mod_http3_stage.State.{RequestBody}
use mod_http3_stage.Body.Receive.Laws.{IsBody}
use mod_http3_stage.Body.Serve.{
  InputMode, read_bytes, get_line, eat_crlf, speculative, exhaustive, init, Bucket, bytes, eos,
  want_bytes, want_line, wanted, advance, hand_out, serve_request_body, carried,
}
use mod_http3_stage.Body.Serve.Wanted.{asks, wanted_bounds}

abbrev pub moves : InputMode → Bool
moves speculative = false
moves eat_crlf = false
moves init = false
moves _ = true

abbrev pub unread : RequestBody → List ℕ
unread b = drop b.offset b.bytes

abbrev pub has_eos : List Bucket → Bool
has_eos [] = false
has_eos (bytes bs ∷ out) = has_eos out
has_eos (eos ∷ out) = true

-- What a call that moves the offset does.
pub record Served (limit : ℕ) (b : RequestBody) (r : List Bucket × RequestBody) : Type 0 where
  pub valid : IsBody limit r.1
  pub same : r.1.bytes ≡ b.bytes
  pub order : carried r.0 ++ unread r.1 ≡ unread b
  pub left : r.1.len - r.1.offset ≤ b.len - b.offset - 1
  pub ended : has_eos r.0 ≡ leb r.1.len r.1.offset

advance_order :
    (want : ℕ) (b : RequestBody)
    → (take want (unread b) ++ []) ++ drop (b.offset + want) b.bytes ≡ unread b
advance_order want b =
    rw (append-nil, ← drop-drop b.offset want b.bytes) (take-append-drop want (unread b))

advance-Served :
    (limit want : ℕ) (b : RequestBody)
    → IsBody limit b
    → 0 < want
    → want ≤ b.len - b.offset
    → Served limit b (advance want (bytes (take want (unread b)) ∷ []) b)
unfolding advance carried
advance-Served limit want b v p q = elim (Bool-cases (leb b.len (b.offset + want))) [
  | inl last ↦ rw last (record {
    valid = record { count = v.count; fits = v.fits; bounded = v.bounded; read = omega arith };
    same = refl;
    order = advance_order want b;
    left = omega arith;
    ended = sym last;
  })
  | inr more ↦ rw more (record {
    valid = record { count = v.count; fits = v.fits; bounded = v.bounded; read = omega arith };
    same = refl;
    order = advance_order want b;
    left = omega arith;
    ended = sym more;
  })
]

asks_of_moves : (mode : InputMode) → moves mode ≡ true → asks mode ≡ true
asks_of_moves read_bytes h = refl
asks_of_moves get_line h = refl
asks_of_moves exhaustive h = refl
asks_of_moves speculative h = refl
asks_of_moves eat_crlf h = h
asks_of_moves init h = h

hand_out-moves :
    (mode : InputMode) (want : ℕ) (b : RequestBody)
    → moves mode ≡ true
    → hand_out mode want b ≡ advance want (bytes (take want (unread b)) ∷ []) b
unfolding hand_out
hand_out-moves read_bytes want b h = refl
hand_out-moves get_line want b h = refl
hand_out-moves exhaustive want b h = refl
hand_out-moves speculative want b h = cc
hand_out-moves eat_crlf want b h = cc
hand_out-moves init want b h = cc

serve_some :
    (mode : InputMode) (r : Option ℕ) (want : ℕ) (b : RequestBody)
    → wanted mode r (unread b) (b.len - b.offset) ≡ some want
    → serve_request_body mode r b
      ≡ (if b.len - b.offset == 0 then (eos ∷ [], b) else hand_out mode want b)
unfolding serve_request_body
serve_some mode r want b e = rw (e, serve_request_body)

wanted-some :
    (mode : InputMode) (r : Option ℕ) (unread : List ℕ) (avail : ℕ)
    → asks mode ≡ true
    → (want : ℕ) × (wanted mode r unread avail ≡ some want)
unfolding wanted
wanted-some read_bytes r unread avail a = (want_bytes r avail, refl)
wanted-some speculative r unread avail a = (want_bytes r avail, refl)
wanted-some get_line r unread avail a = (want_line unread avail, refl)
wanted-some exhaustive r unread avail a = (avail, refl)
wanted-some eat_crlf r unread avail a = cc
wanted-some init r unread avail a = cc

length-unread :
    (limit : ℕ) (b : RequestBody) → IsBody limit b → length (unread b) ≡ b.len - b.offset
length-unread limit b v = omega (arith, length-drop b.offset b.bytes, v.count)

-- Every reading call hands the next unread bytes out in order and moves past exactly those: at least
-- one byte if there is one, and an end of stream exactly when nothing is left.
pub serve_moves :
    (limit : ℕ) (mode : InputMode) (r : Option ℕ) (b : RequestBody)
    → IsBody limit b
    → moves mode ≡ true
    → Served limit b (serve_request_body mode r b)
serve_moves limit mode r b v m = elim (Bool-cases (b.len - b.offset == 0)) [
  | inl empty ↦
      let (want, e) = wanted-some mode r (unread b) (b.len - b.offset) (asks_of_moves mode m) in
      rw (serve_some mode r want b e, empty)
        (record {
          valid = v;
          same = refl;
          order = unfold carried in refl;
          left = ground arith;
          ended = ground arith;
        })
  | inr more ↦
      let (want, e, lo, hi) =
        wanted_bounds mode r (unread b) (b.len - b.offset) (asks_of_moves mode m) (ground arith)
          (length-unread limit b v) in
      rw (serve_some mode r want b e, more, hand_out-moves mode want b m)
        (advance-Served limit want b v lo hi)
]

peek_full :
    (r : Option ℕ) (b : RequestBody)
    → (b.len - b.offset == 0) ≡ false
    → serve_request_body speculative r b
      ≡ (bytes (take (want_bytes r (b.len - b.offset)) (unread b)) ∷ [], b)
unfolding serve_request_body wanted hand_out
peek_full r b e = rw e

read_full :
    (r : Option ℕ) (b : RequestBody)
    → (b.len - b.offset == 0) ≡ false
    → serve_request_body read_bytes r b
      ≡ advance
          (want_bytes r (b.len - b.offset))
          (bytes (take (want_bytes r (b.len - b.offset)) (unread b)) ∷ [])
          b
unfolding serve_request_body wanted hand_out
read_full r b e = rw e

carried-advance :
    (want : ℕ) (bs : List ℕ) (b : RequestBody) → carried (advance want (bytes bs ∷ []) b).0 ≡ bs
unfolding carried advance
carried-advance want bs b = elim (Bool-cases (leb b.len (b.offset + want))) [
  | inl last ↦ rw last (append-nil bs)
  | inr more ↦ rw more (append-nil bs)
]

serve_empty :
    (r : Option ℕ) (b : RequestBody)
    → (b.len - b.offset == 0) ≡ true
    → (serve_request_body speculative r b ≡ (eos ∷ [], b))
      × (serve_request_body read_bytes r b ≡ (eos ∷ [], b))
unfolding serve_request_body wanted
serve_empty r b e = (rw e, rw e)

-- A peek leaves the body as it is, and shows the bytes that the next read of as many hands out.
pub serve_speculative :
    (r : Option ℕ) (b : RequestBody)
    → ((serve_request_body speculative r b).1 ≡ b)
      × (carried (serve_request_body speculative r b).0
          ≡ carried (serve_request_body read_bytes r b).0)
serve_speculative r b = elim (Bool-cases (b.len - b.offset == 0)) [
  | inl empty ↦ let e = serve_empty r b empty in rw (e.0, e.1) (refl, refl)
  | inr full ↦
      rw (peek_full r b full, read_full r b full, carried-advance)
        (refl, unfold carried in append-nil _)
]
