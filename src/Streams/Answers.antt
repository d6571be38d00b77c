-- ===== src/Streams/Answers.antt =====
-- What changes the response of a stream under the session mutex: a worker that submits, appends to or
-- completes it, mod_http3/src/h3_request.c and h3_session.c, and nghttp3 that reads from its queue.
use mod_http3_stage.Prelude.{
  ℕ, ◌≡◌, ◌∙◌, refl, sym, not, ◌&&◌, Option, none, some, some_inj, List, Option-cases, inl, inr,
}
use mod_http3_stage.State.{Response}
use mod_http3_stage.ResponseQueue.{ReadData, response_complete, session_read_data}
use mod_http3_stage.ResponseQueue.Append.{Shared, Turn, Wait, Pass, queued, waits, fails, pass}
use mod_http3_stage.Requests.{Attempt, submit_response_nva}
use mod_http3_stage.Streams.{Session, find, put}

-- submit_response_nva; one turn of h3_stream_response_append, with what the wait and malloc answer, for
-- the bytes from `offset` on; h3_stream_response_complete.
pub data Answer : Type 0 where
  submits : Answer
  appends : Wait → Option ℕ → List ℕ → Answer
  completes : Answer

abbrev pub shared_after : Pass → Shared
shared_after (queued n resumed s) = s
shared_after (waits s) = s
shared_after (fails status s) = s

-- The response afterwards; `a` is the session as the worker finds it, and what nghttp3 answers.
pub answer : Attempt → Answer → Response → Response
answer a submits r = (submit_response_nva a r).2
answer a (appends wait malloc left) r =
    let s : Shared = record {
      response = r;
      aborted = a.aborted;
      ngh3_dead = a.ngh3_dead;
      ngh3 = a.ngh3;
    } in
    let turn : Turn = record { others = λ t. t; wait = wait; malloc = λ t. malloc } in
    let after = shared_after (pass turn left s) in after.response
answer a completes r = (response_complete (a.ngh3 && not a.ngh3_dead) r).0

-- The response of one stream is replaced.
unfoldable pub respond : ℕ → (Response → Response) → Session → Session
respond sid f session = elim (find sid session.streams) [
  | none ↦ session
  | some s ↦ record session {
    streams = put sid (record s { response = f s.response }) session.streams;
  }
]

unfoldable pub worker_answers : Attempt → Answer → ℕ → Session → Session
worker_answers a w sid session = respond sid (answer a w) session

abbrev pub or_kept : Option Response → Response → Response
or_kept none r = r
or_kept (some r') r = r'

-- what a read leaves, for a stream of the table; `none` is a fault
abbrev pub after_read : ℕ → Option (ReadData × Option Response) → Session → Option Session
after_read sid none session = none
after_read sid (some (got, r)) session = some (respond sid (or_kept r) session)

-- h3_session_read_data for a stream of the table.
pub read_response : ℕ → ℕ → Session → Option Session
read_response veccnt sid session = elim (find sid session.streams) [
  | none ↦ some session
  | some s ↦ after_read sid (session_read_data veccnt (some s.response)) session
]

after_read-respond :
    (sid : ℕ) (o : Option (ReadData × Option Response)) (session session' : Session)
    → after_read sid o session ≡ some session'
    → (f : Response → Response) × (session' ≡ respond sid f session)
after_read-respond sid none session session' e = cc
after_read-respond sid (some (got, r)) session session' e =
    (or_kept r, sym (some_inj (respond sid (or_kept r) session) session' e))

-- A read replaces the response of its stream alone.
pub read_response-respond :
    (veccnt sid : ℕ) (session session' : Session)
    → read_response veccnt sid session ≡ some session'
    → (f : Response → Response) × (session' ≡ respond sid f session)
unfolding read_response respond
read_response-respond veccnt sid session session' e =
    elim (Option-cases (find sid session.streams)) [
      | inl n ↦ (
        λ r. r,
        (let same : read_response veccnt sid session ≡ some session = rw (n, read_response) refl in
            rw (n, respond) (sym (some_inj session session' (sym same ∙ e)))),
      )
      | inr (s, n) ↦
          let same : read_response veccnt sid session
              ≡ after_read sid (session_read_data veccnt (some s.response)) session =
            rw (n, read_response) refl in
          after_read-respond sid (session_read_data veccnt (some s.response)) session session'
            (sym same ∙ e)
    ]
