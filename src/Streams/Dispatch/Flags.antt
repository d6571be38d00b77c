-- ===== src/Streams/Dispatch/Flags.antt =====
-- Which streams are write-blocked, before and after each operation.
use mod_http3_stage.Prelude.{
  ℕ, ◌≡◌, ◌^◌, ◌≤◌, refl, sym, ap, ◌∙◌, Bool, true, false, ◌&&◌, Option, some, none, List, [], ◌∷◌,
  ◌++◌, arith, ◌==◌, if◌then◌else◌, Bool-cases, Option-cases, inl, inr, some_inj, ==→eq,
}
use mathlib.Core.Path.{subst}
use mod_http3_stage.State.{Stream}
use mod_http3_stage.Streams.{Session, find, put, remove, Event, run_callback}
use mod_http3_stage.Streams.Callbacks.{IsObject}
use mod_http3_stage.Streams.Callbacks.Called.{callback-Called}
use mod_http3_stage.Streams.Handles.{find-IsBody, AllBodies}
use mod_http3_stage.Streams.Marks.{Mark, set_mark, mark}
use mod_http3_stage.Streams.Marks.Laws.{set_mark_keeps}
use mod_http3_stage.Streams.Dispatch.{
  new_stream, track_stream, process_request, free_stream, reclaimable, reclaim,
}
use mod_http3_stage.Streams.Dispatch.Steps.{IsServed}
use mod_http3_stage.Streams.Dispatch.Table.{
  find_id, find-put, find-append, find-remove, count-remove, none-find,
}

abbrev pub flag : Option Stream → Bool
flag none = false
flag (some s) = s.write_blocked

-- the flag of the stream with an identifier
abbrev pub blocked_at : ℕ → Session → Bool
blocked_at x session = flag (find x session.streams)

-- No stream is write-blocked that was not before.
abbrev pub Quieter : Session → Session → Type 0
Quieter session session' = (x : ℕ) → blocked_at x session' ≡ true → blocked_at x session ≡ true

either :
    (b : Bool) (o p : Option Stream) → flag (if b then o else p) ≡ (if b then flag o else flag p)
either true o p = refl
either false o p = refl

pub blocked_at-put :
    (sid x : ℕ) (s s' : Stream) (ss : List Stream)
    → find sid ss ≡ some s
    → s'.stream_id ≡ s.stream_id
    → flag (find x (put sid s' ss)) ≡ (if x == sid then s'.write_blocked else flag (find x ss))
blocked_at-put sid x s s' ss e i =
    ap flag (find-put sid x s s' ss e (i ∙ find_id sid s ss e))
    ∙ either (x == sid) (some s') (find x ss)

same_flag :
    (sid x : ℕ) (s : Stream) (b : Bool) (ss : List Stream)
    → find sid ss ≡ some s
    → b ≡ s.write_blocked
    → (if x == sid then b else flag (find x ss)) ≡ flag (find x ss)
same_flag sid x s b ss e k = elim (Bool-cases (x == sid)) [
  | inl y ↦ rw y (k ∙ sym (ap flag (ap (λ z. find z ss) (==→eq x sid y) ∙ e)))
  | inr n ↦ rw n refl
]

-- A stream that is changed in place and keeps its flag.
pub put-Quieter :
    (sid : ℕ) (s s' : Stream) (session : Session)
    → find sid session.streams ≡ some s
    → s'.stream_id ≡ s.stream_id
    → s'.write_blocked ≡ s.write_blocked
    → Quieter session (record session { streams = put sid s' session.streams })
put-Quieter sid s s' session e i k x h =
    sym (
      blocked_at-put sid x s s' session.streams e i
      ∙ same_flag sid x s s'.write_blocked session.streams e k)
    ∙ h

pick :
    (b : Bool) (session x y : Session)
    → (b ≡ true → Quieter session x)
    → (b ≡ false → Quieter session y)
    → Quieter session (if b then x else y)
pick true session x y f g = f refl
pick false session x y f g = g refl

pub run_callback-Quieter :
    (limit sid : ℕ) (event : Event) (session session' : Session)
    → limit ≤ 2 ^ 30
    → AllBodies limit session.streams
    → IsObject limit event
    → run_callback limit sid event session ≡ some session'
    → Quieter session session'
unfolding run_callback
run_callback-Quieter limit sid event session session' small a o r =
    elim (Option-cases (find sid session.streams)) [
      | inl e ↦
          let same : run_callback limit sid event session ≡ some session =
            rw (e, run_callback) refl in
          subst (Quieter session) (some_inj session session' (sym same ∙ r)) (λ x h. h)
      | inr (s, e) ↦
          let b = find-IsBody limit sid s session.streams a e in
          let c = callback-Called limit event s session.pending_free small o b in
          let next : Session = record session {
            streams = put sid c.stream session.streams;
            pending_free = c.pending;
          } in
          let same : run_callback limit sid event session ≡ some next =
            rw (e, run_callback) (rw c.returned refl) in
          subst (Quieter session) (some_inj next session' (sym same ∙ r))
            (put-Quieter sid s c.stream session e c.passes.same_id c.passes.same_blocked)
    ]

pub track_stream-Quieter :
    (created : Bool) (size sid st : ℕ) (session : Session)
    → Quieter session (track_stream created size sid st session)
unfolding track_stream new_stream
track_stream-Quieter created size sid st session = elim (Option-cases (find sid session.streams)) [
  | inl e ↦
      let n = new_stream size sid st in
      rw (e, track_stream)
        (pick created session _ _
          (λ c x h. elim (Bool-cases (x == sid)) [
            | inl y ↦
                let z : flag (find x (session.streams ++ n ∷ [])) ≡ false =
                  ap flag (find-append x n session.streams e) ∙ rw y refl in
                ground arith
            | inr m ↦
                let z : flag (find x (session.streams ++ n ∷ [])) ≡ flag (find x session.streams) =
                  ap flag (find-append x n session.streams e) ∙ rw m refl in
                sym z ∙ h
          ])
          (λ c x h. h))
  | inr (s, e) ↦
      rw (e, track_stream) (put-Quieter sid s (record s { qstream = some st }) session e refl refl)
]

pub free_stream-Quieter : (st : ℕ) (session : Session) → Quieter session (free_stream st session)
unfolding free_stream
free_stream-Quieter st session x h = h

pub process_request-Quieter :
    (pool_created pushed : Bool) (sid : ℕ) (session : Session)
    → Quieter session (process_request pool_created pushed sid session)
unfolding process_request
process_request-Quieter pool_created pushed sid session =
    elim (Option-cases (find sid session.streams)) [
      | inl e ↦ rw (e, process_request) (λ x h. h)
      | inr (s, e) ↦
          rw (e, process_request)
            (pick s.dispatched session session _ (λ d x h. h)
              (λ d.
                pick (pool_created && pushed) session _ _
                  (λ k. put-Quieter sid s (record s { dispatched = true }) session e refl refl)
                  (λ k. put-Quieter sid s (record s { dispatched = false }) session e refl refl)))
    ]

pub reclaim-Quieter :
    (limit sid : ℕ) (session : Session)
    → IsServed limit session
    → Quieter session (reclaim sid session)
unfolding reclaim
reclaim-Quieter limit sid session v = elim (Option-cases (find sid session.streams)) [
  | inl e ↦ rw (e, reclaim) (λ x h. h)
  | inr (s, e) ↦
      rw (e, reclaim)
        (pick (reclaimable s) session _ session
          (λ c x h. elim (Bool-cases (x == sid)) [
            | inl y ↦
                let u = v.unique sid in
                let m = count-remove sid sid s session.streams e in
                let q : (sid == sid) ≡ true = ground arith in
                let g = none-find sid (remove sid session.streams) (ground arith) in
                let z : flag (find x (remove sid session.streams)) ≡ false =
                  ap flag (ap (λ t. find t (remove sid session.streams)) (==→eq x sid y) ∙ g) in
                ground arith
            | inr n ↦ sym (ap flag (find-remove sid x session.streams n)) ∙ h
          ])
          (λ c x h. h))
]

-- A mark on a stream that is not there changes nothing; else the flag is the mark's.
pub mark_flag :
    (m : Mark) (sid x : ℕ) (s : Stream) (session : Session)
    → find sid session.streams ≡ some s
    → blocked_at x (mark m sid session) ≡ (
        if x == sid
        then (set_mark m s session.blocked_streams).0.write_blocked
        else blocked_at x session)
unfolding mark
mark_flag m sid x s session e =
    let (i, d, w, b) = set_mark_keeps m s session.blocked_streams in
    rw (e, mark)
      (blocked_at-put sid x s (set_mark m s session.blocked_streams).0 session.streams e i)

pub mark-none :
    (m : Mark) (sid : ℕ) (session : Session)
    → find sid session.streams ≡ none
    → mark m sid session ≡ session
unfolding mark
mark-none m sid session e = rw (e, mark) refl

-- The marks that are not about writing.
pub mark-Quieter :
    (m : Mark) (sid : ℕ) (session : Session)
    → ((s : Stream) (n : ℕ) → (set_mark m s n).0.write_blocked ≡ s.write_blocked)
    → Quieter session (mark m sid session)
mark-Quieter m sid session k = elim (Option-cases (find sid session.streams)) [
  | inl e ↦ subst (Quieter session) (sym (mark-none m sid session e)) (λ x h. h)
  | inr (s, e) ↦ λ x h.
      sym (
        mark_flag m sid x s session e
        ∙ same_flag sid x s _ session.streams e (k s session.blocked_streams))
      ∙ h
]
