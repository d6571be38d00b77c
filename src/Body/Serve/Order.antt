-- ===== src/Body/Serve/Order.antt =====
-- The bytes that a handler gets by calls of serve_request_body (mod_http3/src/h3_filter.c).
use mod_http3_stage.Prelude.{
  ℕ, ◌-◌, ◌≤◌, ◌≡◌, ◌∙◌, refl, sym, ap, true, Option, List, [], ◌∷◌, ◌++◌, arith, length,
  append-nil, append_assoc, drop_all,
}
use mod_http3_stage.State.{RequestBody}
use mod_http3_stage.Body.Receive.Laws.{IsBody}
use mod_http3_stage.Body.Serve.{
  InputMode, Bucket, bytes, eos, serve_request_body, carried, serve_all,
}
use mod_http3_stage.Body.Serve.Moves.{moves, unread, Served, serve_moves}

-- Every call of the sequence moves the offset.
abbrev pub AllMove : List (InputMode × Option ℕ) → Type 0
AllMove [] = Unit
AllMove ((mode, r) ∷ calls) = (moves mode ≡ true) × AllMove calls

carried-append : (xs ys : List Bucket) → carried (xs ++ ys) ≡ carried xs ++ carried ys
unfolding carried
carried-append [] ys = refl
carried-append (bytes bs ∷ xs) ys = simp (carried-append xs ys, append_assoc)
carried-append (eos ∷ xs) ys = carried-append xs ys

record ServedAll (limit n : ℕ) (b : RequestBody) (r : List Bucket × RequestBody) : Type 0 where
  valid : IsBody limit r.1
  order : carried r.0 ++ unread r.1 ≡ unread b
  left : r.1.len - r.1.offset ≤ b.len - b.offset - n

serve_all-ServedAll :
    (limit : ℕ) (calls : List (InputMode × Option ℕ)) (b : RequestBody)
    → IsBody limit b
    → AllMove calls
    → ServedAll limit (length calls) b (serve_all calls b)
unfolding serve_all carried
serve_all-ServedAll limit [] b v m = record { valid = v; order = refl; left = omega arith }
serve_all-ServedAll limit ((mode, r) ∷ calls) b v m =
    let first : Served limit b (serve_request_body mode r b) = serve_moves limit mode r b v m.0 in
    let rest : ServedAll limit (length calls) (serve_request_body mode r b).1
        (serve_all calls (serve_request_body mode r b).1) =
      serve_all-ServedAll limit calls (serve_request_body mode r b).1 first.valid m.1 in
    record {
      valid = rest.valid;
      order = rw (carried-append, append_assoc, rest.order) first.order;
      left = omega (arith, first.left, rest.left);
    }

-- However a handler mixes its reading calls, what they hand out, followed by what is still unread, is
-- the unread body at the start: nothing is lost, repeated or reordered.
pub serve_all_in_order :
    (limit : ℕ) (calls : List (InputMode × Option ℕ)) (b : RequestBody)
    → IsBody limit b
    → AllMove calls
    → carried (serve_all calls b).0 ++ unread (serve_all calls b).1 ≡ unread b
serve_all_in_order limit calls b v m = (serve_all-ServedAll limit calls b v m).order

-- After at least as many reading calls as there were unread bytes, they have handed out all of them.
pub serve_all_complete :
    (limit : ℕ) (calls : List (InputMode × Option ℕ)) (b : RequestBody)
    → IsBody limit b
    → AllMove calls
    → b.len - b.offset ≤ length calls
    → carried (serve_all calls b).0 ≡ unread b
serve_all_complete limit calls b v m n =
    let s : ServedAll limit (length calls) b (serve_all calls b) =
      serve_all-ServedAll limit calls b v m in
    let none_left : unread (serve_all calls b).1 ≡ [] =
      drop_all (serve_all calls b).1.offset (serve_all calls b).1.bytes
        (omega (arith, s.left, s.valid.count)) in
    sym (append-nil _) ∙ ap (λ bs. carried (serve_all calls b).0 ++ bs) (sym none_left) ∙ s.order
