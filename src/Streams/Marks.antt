-- ===== src/Streams/Marks.antt =====
-- The marks that the event thread sets on a stream while it flushes and drains: `write_blocked` with
-- the count `blocked_streams`, `body_complete` and `done`. mod_http3/src/h3_stream.c.
pub mod Laws
use mod_http3_stage.Prelude.{ℕ, ◌+◌, ◌-◌, true, false, none, some, if◌then◌else◌}
use mod_http3_stage.State.{Stream}
use mod_http3_stage.Streams.{Session, find, put}

pub data Mark : Type 0 where
  blocks unblocks body_ends ends : Mark

-- one mark on a stream, and the count afterwards
unfoldable pub set_mark : Mark → Stream → ℕ → Stream × ℕ
set_mark blocks s n = (record s { write_blocked = true }, if s.write_blocked then n else n + 1)
set_mark unblocks s n = (record s { write_blocked = false }, if s.write_blocked then n - 1 else n)
set_mark body_ends s n = (record s { body_complete = true }, n)
set_mark ends s n = (record s { done = true }, n)

unfoldable pub mark : Mark → ℕ → Session → Session
unfolding set_mark
mark m sid session = elim (find sid session.streams) [
  | none ↦ session
  | some s ↦
      let (s', n) = set_mark m s session.blocked_streams in
      record session { streams = put sid s' session.streams; blocked_streams = n }
]
