-- ===== src/Body/Receive/Whole.antt =====
-- A request body that arrives in pieces: on_recv_data of mod_http3/src/h3_callbacks.c, called repeatedly.
use mod_http3_stage.Prelude.{
  ℕ, ◌+◌, ◌≤◌, ◌<◌, ◌^◌, ◌≡◌, ◌∙◌, refl, sym, ap, Bool, true, false, Option, some, List, [], ◌∷◌,
  ◌++◌, arith, ltb, ltb→lt, Bool-cases, inl, inr, length, length-append, flatten, append-nil,
  append_assoc, not, ◌||◌, ◌==◌,
}
use mathlib.Core.Path.{subst}
use mod_http3_stage.State.{RequestBody, Stream}
use mod_http3_stage.Body.Receive.{receive, receive_all, on_recv_data}
use mod_http3_stage.Body.Receive.Laws.{
  IsBody, Received, receive_within, receive_over, receive_marked, receive_total,
}

-- No piece is larger than an object can be (PTRDIFF_MAX bytes).
abbrev pub AreObjects : List (List ℕ) → Type 0
AreObjects [] = Unit
AreObjects (p ∷ ps) = (length p < 2 ^ 63) × AreObjects ps

receive_all_marked :
    (limit : ℕ) (ps : List (List ℕ)) (b : RequestBody)
    → b.overflow ≡ true
    → receive_all limit ps b ≡ some b
unfolding receive_all
receive_all_marked limit [] b o = refl
receive_all_marked limit (p ∷ ps) b o =
    rw (receive_marked limit p b o, receive_all) (receive_all_marked limit ps b o)

receive_all_step :
    (limit : ℕ) (p : List ℕ) (ps : List (List ℕ)) (b b' : RequestBody)
    → receive limit p b ≡ some b'
    → receive_all limit (p ∷ ps) b ≡ receive_all limit ps b'
unfolding receive_all
receive_all_step limit p ps b b' e = rw (e, receive_all)

-- What a stored piece adds to the length.
len-Received :
    (limit : ℕ) (p : List ℕ) (b : RequestBody) {o : Option RequestBody}
    → IsBody limit b
    → (r : Received limit o (b.bytes ++ p) false) → r.body.len ≡ b.len + length p
len-Received limit p b v r =
    omega (arith, r.valid.count, ap length r.content, length-append b.bytes p, v.count)

marked-Received :
    (limit : ℕ) (p : List ℕ) (ps : List (List ℕ)) (b : RequestBody) {kept : List ℕ}
    → Received limit (receive limit p b) kept true
    → Received limit (receive_all limit (p ∷ ps) b) kept true
marked-Received limit p ps b r = record {
  body = r.body;
  returned =
      receive_all_step limit p ps b r.body r.returned ∙ receive_all_marked limit ps r.body r.flag;
  valid = r.valid;
  content = r.content;
  flag = r.flag;
}

later-Received :
    (limit : ℕ) (p : List ℕ) (ps : List (List ℕ)) (b : RequestBody) {kept kept' : List ℕ}
    {over over' : Bool}
    → (first : Received limit (receive limit p b) kept over)
    → (rest : Received limit (receive_all limit ps first.body) kept' over')
    → Received limit (receive_all limit (p ∷ ps) b) kept' over'
later-Received limit p ps b first rest = record {
  body = rest.body;
  returned = receive_all_step limit p ps b first.body first.returned ∙ rest.returned;
  valid = rest.valid;
  content = rest.content;
  flag = rest.flag;
}

module _ (limit : ℕ) (small : limit ≤ 2 ^ 30) where
  -- While the pieces together stay within the limit, the body that is received is exactly the pieces
  -- in their order, it is not marked as too large, and the buffer stays valid.
  pub receive_all_whole :
      (ps : List (List ℕ)) (b : RequestBody)
      → IsBody limit b
      → b.overflow ≡ false
      → b.len + length (flatten ps) ≤ limit
      → Received limit (receive_all limit ps b) (b.bytes ++ flatten ps) false
  receive_all_whole [] b v o h = record {
    body = b;
    returned = unfold receive_all in refl;
    valid = v;
    content = sym (append-nil b.bytes);
    flag = o;
  }
  receive_all_whole (p ∷ ps) b v o h =
      let total : length (p ++ flatten ps) ≡ length p + length (flatten ps) =
        length-append p (flatten ps) in
      let first : Received limit (receive limit p b) (b.bytes ++ p) false =
        receive_within limit small p b v o (omega arith) in
      let rest : Received limit (receive_all limit ps first.body) (first.body.bytes ++ flatten ps)
          false =
        receive_all_whole ps first.body first.valid first.flag
          (omega (arith, len-Received limit p b v first)) in
      let order : first.body.bytes ++ flatten ps ≡ b.bytes ++ (p ++ flatten ps) =
        ap (λ bs. bs ++ flatten ps) first.content ∙ append_assoc b.bytes p (flatten ps) in
      subst (λ bs. Received limit (receive_all limit (p ∷ ps) b) bs false) order
        (later-Received limit p ps b first rest)

  -- When pieces of fewer than 2^63 bytes each together pass the limit, the body ends marked as too large,
  -- and the buffer stays valid: no fault, and what was kept is within the limit.
  pub receive_all_too_large :
      (ps : List (List ℕ)) (b : RequestBody)
      → AreObjects ps
      → IsBody limit b
      → b.overflow ≡ false
      → limit < b.len + length (flatten ps)
      → (kept : List ℕ) × Received limit (receive_all limit ps b) kept true
  receive_all_too_large [] b a v o h = absurd (omega (arith, v.fits, v.bounded))
  receive_all_too_large (p ∷ ps) b a v o h =
      let total : length (p ++ flatten ps) ≡ length p + length (flatten ps) =
        length-append p (flatten ps) in
      elim (Bool-cases (ltb limit (b.len + length p))) [
        | inl over ↦ (
          b.bytes,
          marked-Received limit p ps b (receive_over limit small p b v o a.0 (ltb→lt _ _ over)),
        )
        | inr within ↦
            let first : Received limit (receive limit p b) (b.bytes ++ p) false =
              receive_within limit small p b v o (ground arith) in
            let (kept, rest) =
              receive_all_too_large ps first.body a.1 first.valid first.flag
                (omega (arith, len-Received limit p b v first)) in
            (kept, later-Received limit p ps b first rest)
      ]

on_recv_data_skips :
    (limit : ℕ) (chunk : List ℕ) (s : Stream)
    → (not s.is_bidi || length chunk == 0) ≡ true
    → on_recv_data limit (some chunk) (some s) ≡ some (some s)
unfolding on_recv_data
on_recv_data_skips limit chunk s e = rw e

on_recv_data_takes :
    (limit : ℕ) (chunk : List ℕ) (s : Stream) (b : RequestBody)
    → (not s.is_bidi || length chunk == 0) ≡ false
    → receive limit chunk s.body ≡ some b
    → on_recv_data limit (some chunk) (some s) ≡ some (some (record s { body = b }))
unfolding on_recv_data
on_recv_data_takes limit chunk s b e r = rw e (rw r)

-- The callback on a stream whose body buffer is valid: no fault, whatever the data; only the body of
-- the stream changes, and its buffer stays valid.
pub on_recv_data_total :
    (limit : ℕ) (chunk : List ℕ) (s : Stream)
    → limit ≤ 2 ^ 30
    → length chunk < 2 ^ 63
    → IsBody limit s.body
    → (b : RequestBody) × (on_recv_data limit (some chunk) (some s)
        ≡ some (some (record s { body = b })))
      × IsBody limit b
on_recv_data_total limit chunk s small n v =
    elim (Bool-cases (not s.is_bidi || length chunk == 0)) [
      | inl skipped ↦ (s.body, on_recv_data_skips limit chunk s skipped, v)
      | inr taken ↦
          let (b, e, w) = receive_total limit chunk s.body small n v in
          (b, on_recv_data_takes limit chunk s b taken e, w)
    ]
