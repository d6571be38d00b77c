-- ===== src/Streams/Handles.antt =====
-- Where the QUIC stream objects of a session are: with a stream, in `pending_free`, or freed.
use mod_http3_stage.Prelude.{
  ℕ, some_inj, ◌+◌, ◌≤◌, ◌^◌, ◌≡◌, ◌∙◌, refl, ap, Option, some, List, [], ◌∷◌, ◌++◌, arith, ◌==◌,
  count, count_some, count-append, Bool-cases, Option-cases, inl, inr,
}
use mathlib.Core.Path.{subst}
use mod_http3_stage.State.{Stream}
use mod_http3_stage.Body.Receive.Laws.{IsBody}
use mod_http3_stage.Streams.{
  Session, find, put, remove, Event, run_callback, free_pending, Turn, calls_back, flushes,
  run_turns,
}
use mod_http3_stage.Streams.Callbacks.{IsObject}
use mod_http3_stage.Streams.Callbacks.Called.{callback-Called}

-- The QUIC stream objects that the streams hold.
abbrev pub held : ℕ → List Stream → ℕ
held st [] = 0
held st (s ∷ ss) = count_some st s.qstream + held st ss

-- where an object is: with a stream, in the list, or freed
abbrev pub places : ℕ → Session → ℕ
places st session = held st session.streams + count st session.pending_free + count st session.freed

put-held :
    (sid st : ℕ) (s s' : Stream) (ss : List Stream)
    → find sid ss ≡ some s
    → held st (put sid s' ss) + count_some st s.qstream ≡ held st ss + count_some st s'.qstream
unfolding find put
put-held sid st s s' [] e = ground arith
put-held sid st s s' (r ∷ rs) e = elim (Bool-cases (r.stream_id == sid)) [
  | inl is ↦
      let same : count_some st r.qstream ≡ count_some st s.qstream =
        ap (λ x. count_some st x.qstream) (some_inj r s (rw is at e)) in
      rw is (omega arith)
  | inr other_one ↦
      let t = put-held sid st s s' rs (rw other_one at e) in rw other_one (omega arith)
]

-- The body buffers of the streams are valid.
abbrev pub AllBodies : ℕ → List Stream → Type 0
AllBodies limit [] = Unit
AllBodies limit (s ∷ ss) = IsBody limit s.body × AllBodies limit ss

pub find-IsBody :
    (limit sid : ℕ) (s : Stream) (ss : List Stream)
    → AllBodies limit ss
    → find sid ss ≡ some s
    → IsBody limit s.body
unfolding find
find-IsBody limit sid s [] a e = ground arith
find-IsBody limit sid s (r ∷ rs) a e = elim (Bool-cases (r.stream_id == sid)) [
  | inl is ↦ subst (λ x. IsBody limit x.body) (some_inj r s (rw is at e)) a.0
  | inr other_one ↦ find-IsBody limit sid s rs a.1 (rw other_one at e)
]

pub put-AllBodies :
    (limit sid : ℕ) (s' : Stream) (ss : List Stream)
    → AllBodies limit ss
    → IsBody limit s'.body
    → AllBodies limit (put sid s' ss)
unfolding put
put-AllBodies limit sid s' [] a b = tt
put-AllBodies limit sid s' (r ∷ rs) a b = elim (Bool-cases (r.stream_id == sid)) [
  | inl is ↦ rw is (b, a.1)
  | inr other_one ↦ rw other_one (a.0, put-AllBodies limit sid s' rs a.1 b)
]

pub remove-AllBodies :
    (limit sid : ℕ) (ss : List Stream) → AllBodies limit ss → AllBodies limit (remove sid ss)
unfolding remove
remove-AllBodies limit sid [] a = tt
remove-AllBodies limit sid (r ∷ rs) a = elim (Bool-cases (r.stream_id == sid)) [
  | inl is ↦ rw is a.1
  | inr other_one ↦ rw other_one (a.0, remove-AllBodies limit sid rs a.1)
]

pub append-AllBodies :
    (limit : ℕ) (ss : List Stream) (s : Stream)
    → AllBodies limit ss
    → IsBody limit s.body
    → AllBodies limit (ss ++ s ∷ [])
append-AllBodies limit [] s a b = (b, tt)
append-AllBodies limit (r ∷ rs) s a b = (a.0, append-AllBodies limit rs s a.1 b)

-- A turn that leaves every object in one place.
pub record Conserves (limit : ℕ) (session : Session) (o : Option Session) : Type 0 where
  pub next : Session
  pub returned : o ≡ some next
  pub same : (st : ℕ) → places st next ≡ places st session
  pub bodies : AllBodies limit next.streams

pub run_callback-Conserves :
    (limit sid : ℕ) (event : Event) (session : Session)
    → limit ≤ 2 ^ 30
    → IsObject limit event
    → AllBodies limit session.streams
    → Conserves limit session (run_callback limit sid event session)
unfolding run_callback
run_callback-Conserves limit sid event session small o a =
    elim (Option-cases (find sid session.streams)) [
      | inl e ↦
          rw (e, run_callback)
            (record { next = session; returned = refl; same = λ st. refl; bodies = a })
      | inr (s, e) ↦
          let b = find-IsBody limit sid s session.streams a e in
          let c = callback-Called limit event s session.pending_free small o b in
          rw (e, run_callback)
            (rw c.returned (record {
              next = record session {
                streams = put sid c.stream session.streams;
                pending_free = c.pending;
              };
              returned = refl;
              same = λ st.
                  let h = put-held sid st s c.stream session.streams e in
                  let m = c.passes.moved st in omega arith;
              bodies = put-AllBodies limit sid c.stream session.streams a (c.passes.valid b);
            }))
    ]

abbrev pub AllObjects : ℕ → List Turn → Type 0
AllObjects limit [] = Unit
AllObjects limit (calls_back sid event ∷ ts) = IsObject limit event × AllObjects limit ts
AllObjects limit (flushes ∷ ts) = AllObjects limit ts

-- When the body buffers are valid, the limit is at most 2^30 and no piece of data has 2^63 bytes or
-- more, any sequence of callbacks and flushes returns, without a fault. Every QUIC stream object is
-- then as often with a stream, waiting to be freed, or freed, taken together, as it was before: none is
-- lost, and one that was there once is freed at most once and is not with a stream after that.
pub run_turns_conserves :
    (limit : ℕ) (ts : List Turn) (session : Session)
    → limit ≤ 2 ^ 30
    → AllObjects limit ts
    → AllBodies limit session.streams
    → (session' : Session) × (run_turns limit ts session ≡ some session')
      × ((st : ℕ) → places st session' ≡ places st session)
      × AllBodies limit session'.streams
unfolding run_turns free_pending
run_turns_conserves limit [] session small o a = (session, refl, (λ st. refl), a)
run_turns_conserves limit (calls_back sid event ∷ ts) session small o a =
    let c = run_callback-Conserves limit sid event session small o.0 a in
    let (last, e, same, b) = run_turns_conserves limit ts c.next small o.1 c.bodies in
    (last, rw (c.returned, run_turns) e, (λ st. same st ∙ c.same st), b)
run_turns_conserves limit (flushes ∷ ts) session small o a =
    let (last, e, same, b) = run_turns_conserves limit ts (free_pending session) small o a in
    (
      last,
      e,
      (λ st.
          let c = count-append st session.pending_free session.freed in
          let s = same st in omega arith),
      b,
    )
