-- ===== src/Streams/Lifetime/Objects.antt =====
-- What becomes of the QUIC stream objects at the start and at the end of a session.
use mod_http3_stage.Prelude.{
  ℕ, ◌+◌, ◌≤◌, ◌≡◌, ◌∙◌, refl, sym, ap, Bool, true, false, not, ◌||◌, Option, none, some, List, [],
  ◌∷◌, ◌++◌, arith, ◌==◌, if◌then◌else◌, count, count-append, Option-cases, some_inj, inl, inr,
}
use mod_http3_stage.State.{Stream}
use mod_http3_stage.ResponseQueue.{response_cancel, response_cleanup}
use mod_http3_stage.Streams.{Session, free_pending}
use mod_http3_stage.Streams.Handles.{held, places}
use mod_http3_stage.Streams.Dispatch.{track_stream}
use mod_http3_stage.Streams.Dispatch.Table.{ids, none-find}
use mod_http3_stage.Streams.Dispatch.Places.{places-track_stream, ids-track_stream}
use mod_http3_stage.Streams.Lifetime.{
  Started, Opening, opened, free_opened, track_control, track_all, all_opened,
  create_control_streams, discard, session_destroy,
}

-- The identifiers and the objects of a list of streams.
abbrev pub idents : List (ℕ × ℕ) → List ℕ
idents [] = []
idents ((id, st) ∷ more) = id ∷ idents more

abbrev pub objects : List (ℕ × ℕ) → List ℕ
objects [] = []
objects ((id, st) ∷ more) = st ∷ objects more

-- No stream of the list is tracked, and none is in it twice.
abbrev pub AreFresh : List (ℕ × ℕ) → Session → Type 0
AreFresh cs session = (x : ℕ) → count x (ids session.streams) + count x (idents cs) ≤ 1

module _ (buffer_size : ℕ) (w : Opening) (created : (id : ℕ) → w.created id ≡ true) where
  track_all-places :
      (cs : List (ℕ × ℕ)) (session : Session) (x : ℕ)
      → AreFresh cs session
      → places x (track_all buffer_size w cs session) ≡ places x session + count x (objects cs)
  unfolding track_all track_control
  track_all-places [] session x f = omega arith
  track_all-places ((id, st) ∷ more) session x f =
      let u = f id in
      let self : (id == id) ≡ true = ground arith in
      let absent = none-find id session.streams (ground arith) in
      let p = places-track_stream buffer_size id st x session absent in
      let next = track_stream true buffer_size id st session in
      let q = track_all-places more next x (λ y.
        let i = ids-track_stream buffer_size id st y session absent in
        let v = f y in omega arith) in
      rw (created id, track_all, track_control) (omega arith)

count-objects :
    (x : ℕ) (control enc dec : Option (ℕ × ℕ)) (cs : List (ℕ × ℕ))
    → all_opened control enc dec ≡ some cs
    → count x (objects cs) ≡ count x (opened dec ++ opened enc ++ opened control)
unfolding all_opened
count-objects x (some a) (some b) (some c) cs e =
    ap (λ ds. count x (objects ds)) (sym (some_inj (a ∷ b ∷ c ∷ []) cs e)) ∙ omega arith
count-objects x none enc dec cs e = cc
count-objects x (some a) none dec cs e = cc
count-objects x (some a) (some b) none cs e = cc

count_before :
    (x : ℕ) (ds es cs fs : List ℕ)
    → count x (ds ++ es ++ cs ++ fs) ≡ count x fs + count x (ds ++ es ++ cs)
count_before x ds es cs fs = omega (arith, count-append x (ds ++ es ++ cs) fs)

count-free_opened :
    (x : ℕ) (w : Opening) (session : Session)
    → places x (free_opened w session)
      ≡ places x session + count x (opened w.qpack_dec ++ opened w.qpack_enc ++ opened w.control)
unfolding free_opened
count-free_opened x w session =
    let q : count x (free_opened w session).freed
        ≡ count x session.freed
          + count x (opened w.qpack_dec ++ opened w.qpack_enc ++ opened w.control) =
      count_before x (opened w.qpack_dec) (opened w.qpack_enc) (opened w.control) session.freed in
    omega arith

pick :
    (x n : ℕ) (b : Bool) (a c : Started × Bool)
    → places x a.0.session ≡ n
    → places x c.0.session ≡ n
    → places x (if b then a else c).0.session ≡ n
pick x n true a c h k = h
pick x n false a c h k = k

-- If the control streams were not created before, the streams that could be opened are not tracked yet
-- and have three identifiers, and each stream can be tracked, then after
-- h3_session_create_control_streams, whatever it answers, each QUIC stream object is as often with a
-- stream, waiting to be freed, or freed, taken together, as before, and once more for each time it was
-- opened here: when a stream cannot be opened or bound, the ones that were opened are freed, and once.
pub create_control_streams_conserves :
    (buffer_size : ℕ) (w : Opening) (s : Started) (x : ℕ)
    → s.control_streams_created ≡ false
    → ((id : ℕ) → w.created id ≡ true)
    → ((cs : List (ℕ × ℕ))
        → all_opened w.control w.qpack_enc w.qpack_dec ≡ some cs
        → AreFresh cs s.session)
    → places x (create_control_streams buffer_size w s).0.session
      ≡ places x s.session + count x (opened w.qpack_dec ++ opened w.qpack_enc ++ opened w.control)
unfolding create_control_streams
create_control_streams_conserves size w s x not_yet created fresh =
    let f = count-free_opened x w s.session in
    elim (Option-cases (all_opened w.control w.qpack_enc w.qpack_dec)) [
      | inl e ↦ rw (not_yet, create_control_streams) (rw e f)
      | inr (cs, e) ↦
          let t = track_all-places size w created cs s.session x (fresh cs e) in
          let c = count-objects x w.control w.qpack_enc w.qpack_dec cs e in
          rw (not_yet, create_control_streams)
            (rw e (pick x _ (not w.control_bound || not w.qpack_bound) _ _ f (omega arith)))
    ]

-- The response of each stream is cancelled, and holds no chunk.
abbrev pub AllDiscarded : List Stream → Type 0
AllDiscarded [] = Unit
AllDiscarded (s ∷ ss) =
    ((s.response.cancelled ≡ true) × (s.response.complete ≡ true) × (s.response.chunks ≡ []))
    × AllDiscarded ss

discard-AllDiscarded : (ss : List Stream) → AllDiscarded (discard ss)
unfolding discard response_cancel response_cleanup
discard-AllDiscarded [] = tt
discard-AllDiscarded (s ∷ ss) = ((refl, refl, refl), discard-AllDiscarded ss)

held-discard : (x : ℕ) (ss : List Stream) → held x (discard ss) ≡ held x ss
unfolding discard
held-discard x [] = refl
held-discard x (s ∷ ss) = omega (arith, held-discard x ss)

-- h3_session_destroy cancels the response of every stream, so that no producer waits for room any more,
-- releases its chunks, frees each QUIC stream object of `pending_free` once, and frees the connection.
-- It frees no object that a stream of the table still holds: each is afterwards held as often as
-- before, by a table that nothing walks again.
pub session_destroy_lem :
    (conn : ℕ) (s : Started) (conns : List ℕ)
    → let s' = (session_destroy (some conn) (s, conns)).0 in
      AllDiscarded s'.session.streams
      × ((x : ℕ)
          → count x s'.session.freed ≡ count x s.session.freed + count x s.session.pending_free)
      × ((x : ℕ) → held x s'.session.streams ≡ held x s.session.streams)
      × (s'.has_ngh3 ≡ false)
      × ((session_destroy (some conn) (s, conns)).1 ≡ conn ∷ conns)
unfolding session_destroy free_pending
session_destroy_lem conn s conns = (
  discard-AllDiscarded s.session.streams,
  (λ x. let a = count-append x s.session.pending_free s.session.freed in omega arith),
  (λ x. held-discard x s.session.streams),
  refl,
  refl,
)
