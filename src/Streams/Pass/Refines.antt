-- ===== src/Streams/Pass/Refines.antt =====
-- service_session_pass against the steps that the threads may take.
use mod_http3_stage.Streams.Outside.{Outside}
use mod_http3_stage.Streams.Outside.Promises.{Promises}
