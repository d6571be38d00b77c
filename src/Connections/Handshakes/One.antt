-- ===== src/Connections/Handshakes/One.antt =====
-- What one round of progress_pending_handshakes (mod_http3/src/h3_io.c) makes of its connection.
use mod_http3_stage.Prelude.{
  ℕ, ◌+◌, ◌%◌, ◌^◌, ◌≡◌, ◌≢◌, refl, Bool, true, false, ◌&&◌, some, [], ◌∷◌, ◌++◌, arith, ◌==◌,
  if◌then◌else◌, get_elem?, one_if, count, count-append, Bool-cases, inl, inr,
}
use mod_http3_stage.Connections.{
  Io, Pending, Answers, conn_free, remove_at, remove_pending_handshake, spawn_succeeds,
  spawn_serviced_session, Fate, timed_out, peer_closed, finished, waits, fate, progress_one,
}
use mod_http3_stage.Connections.Remove.{Removal, remove_at-Removal}

-- Where a pending connection goes.
pub data Place : Type 0 where
  stays is_served is_freed : Place

unfoldable pub place_at : Answers → Pending → Fate → Place
place_at a p timed_out = is_freed
place_at a p peer_closed = is_freed
place_at a p finished = if spawn_succeeds a p.conn then is_served else is_freed
place_at a p waits = stays

unfoldable pub place_of : Answers → ℕ → ℕ → Pending → Place
unfolding place_at
place_of a now timeout p = place_at a p (fate a now timeout p)

abbrev pub has_place : Place → Place → Bool
has_place stays stays = true
has_place is_served is_served = true
has_place is_freed is_freed = true
has_place _ _ = false

-- One connection removed, and put where it goes.
pub record Moves (c i : ℕ) (p : Pending) (w : Place) (io io' : Io) : Type 0 where
  pub removal : Removal i p io.pending_handshakes io'.pending_handshakes
  pub serves :
      count c io'.active_sessions
      ≡ count c io.active_sessions + one_if (c == p.conn && has_place is_served w)
  pub frees : count c io'.freed ≡ count c io.freed + one_if (c == p.conn && has_place is_freed w)

remove_lem :
    (i : ℕ) (p : Pending) (io : Io) (b : Bool)
    → get_elem? io.pending_handshakes i ≡ some p
    → remove_pending_handshake i b io ≡ record (if b then conn_free p.conn io else io) {
      pending_handshakes = remove_at i io.pending_handshakes;
    }
unfolding remove_pending_handshake
remove_lem i p io b e = rw (e, remove_pending_handshake) refl

freeing :
    (c i : ℕ) (p : Pending) (io : Io)
    → get_elem? io.pending_handshakes i ≡ some p
    → Moves c i p is_freed io (remove_pending_handshake i true io)
freeing c i p io e = rw (remove_lem i p io true e) (record {
  removal = remove_at-Removal i p io.pending_handshakes e;
  serves = ground arith;
  frees = ground arith;
})

finishing :
    (c i : ℕ) (a : Answers) (p : Pending) (io : Io)
    → get_elem? io.pending_handshakes i ≡ some p
    → Moves c i p
        (place_at a p finished)
        io
        (remove_pending_handshake i false (spawn_serviced_session a p.conn io))
unfolding spawn_serviced_session place_at
finishing c i a p io e =
    let r = remove_at-Removal i p io.pending_handshakes e in
    let app = count-append c io.active_sessions (p.conn ∷ []) in
    elim (Bool-cases (spawn_succeeds a p.conn)) [
      | inl s ↦ rw s (
          rw
            (remove_lem i p
              (record io {
                active_sessions = io.active_sessions ++ p.conn ∷ [];
                active_session_count = (io.active_session_count + 1) % 2 ^ 32;
              })
              false e)
            (record { removal = r; serves = ground arith; frees = ground arith }))
      | inr s ↦ rw s (
          rw (remove_lem i p (conn_free p.conn io) false e)
            (record { removal = r; serves = ground arith; frees = ground arith }))
    ]

pub moves_lem :
    (c i : ℕ) (a : Answers) (p : Pending) (io : Io) (f : Fate)
    → get_elem? io.pending_handshakes i ≡ some p
    → f ≢ waits
    → Moves c i p (place_at a p f) io (progress_one a i f p io).0
      × ((progress_one a i f p io).1 ≡ false)
unfolding progress_one place_at
moves_lem c i a p io timed_out e n = (freeing c i p io e, refl)
moves_lem c i a p io peer_closed e n = (freeing c i p io e, refl)
moves_lem c i a p io finished e n = (finishing c i a p io e, refl)
moves_lem c i a p io waits e n = absurd (n refl)
