-- ===== src/Tests/Signals.antt =====
-- The theorems on the sockets.
use mod_http3_stage.Prelude.{true, some}
use mod_http3_stage.Sockets.{Wakeup}

-- Two hundred signals at the reader.
abbrev signalled : Wakeup
signalled = record { reader = true; writer = true; reader_fd = some 5; queued = 200 }
