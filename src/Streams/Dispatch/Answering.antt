-- ===== src/Streams/Dispatch/Answering.antt =====
-- What a worker does to the response of its stream, beside the response.
use mod_http3_stage.Prelude.{ℕ, ◌<◌, ◌≡◌, refl, sym, true, count, Option-cases, inl, inr}
use mathlib.Core.Path.{subst}
use mod_http3_stage.State.{Response}
use mod_http3_stage.Requests.{Attempt}
use mod_http3_stage.Streams.{Session, find}
use mod_http3_stage.Streams.Answers.{Answer, answer, respond, worker_answers}
use mod_http3_stage.Streams.Dispatch.{worker_returns}
use mod_http3_stage.Streams.Dispatch.Flags.{Quieter, put-Quieter}

pub respond-Quieter :
    (sid : ℕ) (f : Response → Response) (session : Session)
    → Quieter session (respond sid f session)
unfolding respond
respond-Quieter sid f session = elim (Option-cases (find sid session.streams)) [
  | inl e ↦ rw (e, respond) (λ x h. h)
  | inr (s, e) ↦
      rw (e, respond) (put-Quieter sid s (record s { response = f s.response }) session e refl refl)
]

pub worker_returns-Quieter :
    (sid : ℕ) (session : Session) → Quieter session (worker_returns sid session)
unfolding worker_returns
worker_returns-Quieter sid session = elim (Option-cases (find sid session.streams)) [
  | inl e ↦ rw (e, worker_returns) (λ x h. h)
  | inr (s, e) ↦
      rw (e, worker_returns)
        (put-Quieter sid s (record s { worker_done = true }) session e refl refl)
]

pub respond_running :
    (sid : ℕ) (f : Response → Response) (session : Session)
    → (respond sid f session).running ≡ session.running
unfolding respond
respond_running sid f session = elim (Option-cases (find sid session.streams)) [
  | inl e ↦ rw (e, respond) refl
  | inr (s, e) ↦ rw (e, respond) refl
]

-- The worker of a stream is still there behind an answer.
pub still_runs :
    (a : Attempt) (w : Answer) (sid : ℕ) (session : Session)
    → 0 < count sid session.running
    → 0 < count sid (worker_answers a w sid session).running
unfolding worker_answers
still_runs a w sid session h =
    subst (λ rs. 0 < count sid rs) (sym (respond_running sid (answer a w) session)) h
