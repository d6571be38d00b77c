-- ===== src/Streams/Marks/Laws.antt =====
-- What a mark leaves as it is.
use mod_http3_stage.Prelude.{ℕ, ◌≡◌, refl}
use mod_http3_stage.State.{Stream}
use mod_http3_stage.Streams.Marks.{Mark, blocks, unblocks, body_ends, ends, set_mark}

pub set_mark_keeps :
    (m : Mark) (s : Stream) (n : ℕ)
    → let t = (set_mark m s n).0 in
      (t.stream_id ≡ s.stream_id)
      × (t.dispatched ≡ s.dispatched)
      × (t.worker_done ≡ s.worker_done)
      × (t.body ≡ s.body)
unfolding set_mark
set_mark_keeps blocks s n = (refl, refl, refl, refl)
set_mark_keeps unblocks s n = (refl, refl, refl, refl)
set_mark_keeps body_ends s n = (refl, refl, refl, refl)
set_mark_keeps ends s n = (refl, refl, refl, refl)
