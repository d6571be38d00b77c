-- ===== src/Streams/Outside/Runs.antt =====
-- Work on a session that returns, by steps of the threads, and leaves nghttp3 and the flags of the
-- streams in agreement.
use mod_http3_stage.Prelude.{
  ℕ, ◌≤◌, ◌^◌, ◌≡◌, refl, Bool, true, false, Option, none, some, [], ◌∷◌, if◌then◌else◌,
}
use mod_http3_stage.Streams.{Session}
use mod_http3_stage.Streams.Handles.{run_callback-Conserves}
use mod_http3_stage.Streams.Dispatch.{Step, Reaches, stays, steps, calls_back}
use mod_http3_stage.Streams.Dispatch.Flags.{blocked_at, Quieter, run_callback-Quieter}
use mod_http3_stage.Streams.Dispatch.Steps.{IsServed}
use mod_http3_stage.Streams.Dispatch.Workers.{Step-IsServed}
use mod_http3_stage.Streams.Outside.{Calls, Outside, Live, run_calls, called_back}
use mod_http3_stage.Streams.Outside.Promises.{AllCalls, Promises, Synced}

pub one_step : {limit : ℕ} {s t : Session} → Step limit s t → Reaches limit s t
one_step h = steps h stays

pub Reaches_trans :
    {limit : ℕ} {s t u : Session} → Reaches limit s t → Reaches limit t u → Reaches limit s u
Reaches_trans stays r = r
Reaches_trans (steps h q) r = steps h (Reaches_trans q r)

pub record Back (limit : ℕ) (session : Session) (out : Option Session) : Type 0 where
  pub after : Session
  pub returned : out ≡ some after
  pub reaches : Reaches limit session after
  pub quiet : Quieter session after

pub run_calls-Back :
    (limit : ℕ) (calls : Calls) (session : Session)
    → limit ≤ 2 ^ 30
    → AllCalls limit calls
    → IsServed limit session
    → Back limit session (run_calls limit calls session)
unfolding run_calls
run_calls-Back limit [] session small a v = record {
  after = session;
  returned = refl;
  reaches = stays;
  quiet = λ x h. h;
}
run_calls-Back limit ((sid, event) ∷ calls) session small a v =
    let c = run_callback-Conserves limit sid event session small a.0 v.bodies in
    let s = calls_back sid event a.0 c.returned in
    let q = run_callback-Quieter limit sid event session c.next small v.bodies a.0 c.returned in
    let b =
      run_calls-Back limit calls c.next small a.1 (Step-IsServed limit small session c.next s v) in
    record {
      after = b.after;
      returned = rw (c.returned, run_calls) b.returned;
      reaches = steps s b.reaches;
      quiet = λ x h. q x (b.quiet x h);
    }

module _ {W : Type 0} (o : Outside W) (limit bound : ℕ) (p : Promises o limit bound) where
  pub record RunsTo {A : Type 0} (get : A → Live W) (session : Session) (out : Option A)
      : Type 0 where
    pub next : A
    pub returned : out ≡ some next
    pub reaches : Reaches limit session (get next).session
    pub synced : Synced o p (get next)

  abbrev pub Runs : Session → Option (Live W) → Type 0
  Runs session out = RunsTo (λ l. l) session out

  pub stays_Runs : (l : Live W) → Synced o p l → Runs l.session (some l)
  stays_Runs l y = record { next = l; returned = refl; reaches = stays; synced = y }

  pub step_Runs :
      (session : Session) (l' : Live W)
      → Reaches limit session l'.session
      → Synced o p l'
      → Runs session (some l')
  step_Runs session l' r y = record { next = l'; returned = refl; reaches = r; synced = y }

  -- Work on what other work left.
  pub then_Runs :
      {A B : Type 0} (getA : A → Live W) (getB : B → Live W) (session : Session) (out : Option A)
      (f : A → Option B)
      → (r : RunsTo getA session out) → RunsTo getB (getA r.next).session (f r.next)
      → RunsTo getB session (elim out [ none ↦ none | some a ↦ f a ])
  then_Runs getA getB session out f r q = record {
    next = q.next;
    returned = rw r.returned q.returned;
    reaches = Reaches_trans r.reaches q.reaches;
    synced = q.synced;
  }

  pub if_Runs :
      {A : Type 0} (get : A → Live W) (b : Bool) (session : Session) (x y : Option A)
      → (b ≡ true → RunsTo get session x)
      → (b ≡ false → RunsTo get session y)
      → RunsTo get session (if b then x else y)
  if_Runs get true session x y f g = f refl
  if_Runs get false session x y f g = g refl

  -- nghttp3 calls back and leaves another state.
  pub called_back-Back :
      (calls : Calls) (w : W) (l : Live W)
      → limit ≤ 2 ^ 30
      → AllCalls limit calls
      → IsServed limit l.session
      → (b : Back limit l.session (run_calls limit calls l.session)) × (called_back limit calls w l
          ≡ some (record l { session = b.after; outside = w }))
  unfolding called_back
  called_back-Back calls w l small a v =
      let b = run_calls-Back limit calls l.session small a v in
      (b, rw (b.returned, called_back) refl)

  pub called_back-Runs :
      (calls : Calls) (w : W) (l : Live W)
      → limit ≤ 2 ^ 30
      → AllCalls limit calls
      → IsServed limit l.session
      → ((x : ℕ) → blocked_at x l.session ≡ true → p.is_blocked x w ≡ true)
      → Runs l.session (called_back limit calls w l)
  called_back-Runs calls w l small a v y =
      let (b, e) = called_back-Back calls w l small a v in
      record {
        next = record l { session = b.after; outside = w };
        returned = e;
        reaches = b.reaches;
        synced = λ x h. y x (b.quiet x h);
      }
