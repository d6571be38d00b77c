-- ===== src/ResponseQueue/Append/Loop.antt =====
-- The whole call of h3_stream_response_append, whatever the other threads do between its turns.
use mod_http3_stage.Prelude.{
  ℕ, ◌≤◌, ◌≡◌, ◌≢◌, ◌∙◌, refl, sym, ap, Bool, true, false, List, [], ◌∷◌, ◌++◌, length, drop,
  flatten, append_assoc, append-nil,
}
use mathlib.Core.Path.{subst}
use mod_http3_stage.Config.Defs.{stream_chunk_bytes}
use mod_http3_stage.ResponseQueue.Append.{
  Shared, Status, success, Turn, Pass, queued, last_bytes, waits, fails, pass, Call, returned,
  running, after, append_loop,
}
use mod_http3_stage.ResponseQueue.Append.Produce.{IsValid, IsFair, PassOk, pass-PassOk}

abbrev pub AllFair : List Turn → Type 0
AllFair [] = Unit
AllFair (t ∷ ts) = IsFair t × AllFair ts

-- The chunks' bytes that a call has queued so far, and the state.
abbrev pub pieces : Call → List (List ℕ)
pieces (returned status ps s) = ps
pieces (running ps s) = ps

abbrev pub final : Call → Shared
final (returned status ps s) = s
final (running ps s) = s

abbrev pub AllSmall : List (List ℕ) → Type 0
AllSmall [] = Unit
AllSmall (p ∷ ps) = (length p ≤ stream_chunk_bytes) × AllSmall ps

abbrev succeeded : Call → Bool
succeeded (returned Status.success ps s) = true
succeeded (returned Status.einval ps s) = false
succeeded (returned Status.econnaborted ps s) = false
succeeded (returned Status.egeneral ps s) = false
succeeded (returned Status.enomem ps s) = false
succeeded (returned (Status.other rv) ps s) = false
succeeded (running ps s) = false

-- What has been queued is a beginning of the bytes, all of them once the call has succeeded.
record Appends (left : List ℕ) (c : Call) : Type 0 where
  rest : List ℕ
  order : flatten (pieces c) ++ rest ≡ left
  whole : succeeded c ≡ true → rest ≡ []
  small : AllSmall (pieces c)
  valid : IsValid (final c)

pieces-after : (p : List ℕ) (c : Call) → pieces (after p c) ≡ p ∷ pieces c
unfolding after
pieces-after p (returned status ps s) = refl
pieces-after p (running ps s) = refl

final-after : (p : List ℕ) (c : Call) → final (after p c) ≡ final c
unfolding after
final-after p (returned status ps s) = refl
final-after p (running ps s) = refl

succeeded-after : (p : List ℕ) (c : Call) → succeeded (after p c) ≡ succeeded c
unfolding after
succeeded-after p (returned Status.success ps s) = refl
succeeded-after p (returned Status.einval ps s) = refl
succeeded-after p (returned Status.econnaborted ps s) = refl
succeeded-after p (returned Status.egeneral ps s) = refl
succeeded-after p (returned Status.enomem ps s) = refl
succeeded-after p (returned (Status.other rv) ps s) = refl
succeeded-after p (running ps s) = refl

after-Appends :
    (piece left : List ℕ) (n : ℕ) (c : Call)
    → piece ++ drop n left ≡ left
    → length piece ≤ stream_chunk_bytes
    → Appends (drop n left) c
    → Appends left (after piece c)
after-Appends piece left n c e small a = record {
  rest = a.rest;
  order =
      ap (λ ps. flatten ps ++ a.rest) (pieces-after piece c)
      ∙ append_assoc piece (flatten (pieces c)) a.rest
      ∙ ap (λ bs. piece ++ bs) a.order
      ∙ e;
  whole = λ h. a.whole (sym (succeeded-after piece c) ∙ h);
  small = subst AllSmall (sym (pieces-after piece c)) (small, a.small);
  valid = subst IsValid (sym (final-after piece c)) a.valid;
}

failed-succeeded :
    (status : Status) (ps : List (List ℕ)) (s : Shared)
    → status ≢ success
    → succeeded (returned status ps s) ≡ false
failed-succeeded Status.success ps s n = absurd (n refl)
failed-succeeded Status.einval ps s n = refl
failed-succeeded Status.econnaborted ps s n = refl
failed-succeeded Status.egeneral ps s n = refl
failed-succeeded Status.enomem ps s n = refl
failed-succeeded (Status.other rv) ps s n = refl

-- one turn of the loop, by what the pass comes to
abbrev pub step : List Turn → List ℕ → Pass → Call
step ts left (queued n resumed s) =
    after (last_bytes s.response.chunks) (append_loop ts (drop n left) s)
step ts left (waits s) = append_loop ts left s
step ts left (fails status s) = returned status [] s

pub append_loop-step :
    (t : Turn) (ts : List Turn) (b : ℕ) (bs : List ℕ) (s : Shared)
    → append_loop (t ∷ ts) (b ∷ bs) s ≡ step ts (b ∷ bs) (pass t (b ∷ bs) s)
unfolding append_loop
append_loop-step t ts b bs s = go (pass t (b ∷ bs) s) refl
  where
    go :
        (p : Pass)
        → pass t (b ∷ bs) s ≡ p
        → append_loop (t ∷ ts) (b ∷ bs) s ≡ step ts (b ∷ bs) (pass t (b ∷ bs) s)
    go (queued n resumed s') e = rw (e, append_loop)
    go (waits s') e = rw (e, append_loop)
    go (fails status s') e = rw (e, append_loop)

append_loop-Appends :
    (ts : List Turn) (left : List ℕ) (s : Shared)
    → AllFair ts
    → IsValid s
    → Appends left (append_loop ts left s)
append_loop-Appends [] [] s f v =
    unfold append_loop in
    record { rest = []; order = refl; whole = λ h. refl; small = tt; valid = v }
append_loop-Appends [] (b ∷ bs) s f v =
    unfold append_loop in
    record { rest = b ∷ bs; order = refl; whole = λ h. cc; small = tt; valid = v }
append_loop-Appends (t ∷ ts) [] s f v =
    unfold append_loop in
    record { rest = []; order = refl; whole = λ h. refl; small = tt; valid = v }
append_loop-Appends (t ∷ ts) (b ∷ bs) s f v =
    subst (Appends (b ∷ bs)) (sym (append_loop-step t ts b bs s)) (
      go (pass t (b ∷ bs) s) (pass-PassOk t (b ∷ bs) s f.0 v)
        (λ left s' v'. append_loop-Appends ts left s' f.1 v'))
  where
    go :
        (p : Pass)
        → PassOk (b ∷ bs) p
        → ((left : List ℕ) (s' : Shared) → IsValid s' → Appends left (append_loop ts left s'))
        → Appends (b ∷ bs) (step ts (b ∷ bs) p)
    go (queued n resumed s') k ih =
        after-Appends (last_bytes s'.response.chunks) (b ∷ bs) n _ k.0 k.2
          (ih (drop n (b ∷ bs)) s' k.3)
    go (waits s') k ih = ih (b ∷ bs) s' k
    go (fails status s') k ih = record {
      rest = b ∷ bs;
      order = refl;
      whole = λ h. cc (failed-succeeded status [] s' k.0);
      small = tt;
      valid = k.1;
    }

-- On a valid queue, whatever fair threads do between the turns, and however the call stands after them,
-- the bytes in the chunks that it has put at the end of the queue, each read as the turn left it, are in
-- order a beginning of its bytes, in pieces of at most STREAM_CHUNK_BYTES, and the queue is valid, so
-- never over its limit.
pub append_prefix :
    (ts : List Turn) (left : List ℕ) (s : Shared)
    → AllFair ts
    → IsValid s
    → ((rest : List ℕ) × (flatten (pieces (append_loop ts left s)) ++ rest ≡ left))
      × AllSmall (pieces (append_loop ts left s))
      × IsValid (final (append_loop ts left s))
append_prefix ts left s f v =
    let a : Appends left (append_loop ts left s) = append_loop-Appends ts left s f v in
    ((a.rest, a.order), a.small, a.valid)

-- When the other threads keep the queue valid and malloc gives addresses of no queued chunk, a call on
-- a valid queue that returns APR_SUCCESS has put exactly its bytes, in order, into the chunks that it
-- linked in at the end of the queue, each read as the turn left it.
pub append_success :
    (ts : List Turn) (left : List ℕ) (s s' : Shared) (ps : List (List ℕ))
    → AllFair ts
    → IsValid s
    → append_loop ts left s ≡ returned success ps s'
    → flatten ps ≡ left
append_success ts left s s' ps f v e =
    let a : Appends left (append_loop ts left s) = append_loop-Appends ts left s f v in
    sym (append-nil (flatten ps))
    ∙ ap (λ bs. flatten ps ++ bs) (sym (a.whole (ap succeeded e)))
    ∙ ap (λ c. flatten (pieces c) ++ a.rest) (sym e)
    ∙ a.order
