-- ===== src/Streams/Dispatch/Places.antt =====
-- The QUIC stream object of a stream that is tracked anew.
use mod_http3_stage.Prelude.{
  ℕ, ◌+◌, ◌≡◌, ◌∙◌, ap, true, none, List, [], ◌∷◌, ◌++◌, arith, ◌==◌, one_if, count, count_some,
  count-append,
}
use mod_http3_stage.State.{Stream}
use mod_http3_stage.Streams.{Session, find}
use mod_http3_stage.Streams.Handles.{held, places}
use mod_http3_stage.Streams.Dispatch.{new_stream, track_stream}
use mod_http3_stage.Streams.Dispatch.Table.{ids, ids-append}

held-append :
    (x : ℕ) (ss : List Stream) (s : Stream)
    → held x (ss ++ s ∷ []) ≡ held x ss + count_some x s.qstream
held-append x [] s = omega arith
held-append x (r ∷ rs) s = omega (arith, held-append x rs s)

pub places-track_stream :
    (buffer_size sid st x : ℕ) (session : Session)
    → find sid session.streams ≡ none
    → places x (track_stream true buffer_size sid st session) ≡ places x session + one_if (x == st)
unfolding track_stream new_stream
places-track_stream size sid st x session e =
    let h = held-append x session.streams (new_stream size sid st) in
    rw (e, track_stream) (omega arith)

pub ids-track_stream :
    (buffer_size sid st x : ℕ) (session : Session)
    → find sid session.streams ≡ none
    → count x (ids (track_stream true buffer_size sid st session).streams)
      ≡ count x (ids session.streams) + one_if (x == sid)
unfolding track_stream new_stream
ids-track_stream size sid st x session e =
    let n = new_stream size sid st in
    let a =
      ap (count x) (ids-append session.streams n)
      ∙ count-append x (ids session.streams) (sid ∷ []) in
    rw (e, track_stream) (omega arith)
