-- ===== src/Body.antt =====
-- The request and response bodies that are kept in growing buffers: on_recv_data of
-- mod_http3/src/h3_callbacks.c (`Body.Receive`), serve_request_body and capture_body_bucket of
-- mod_http3/src/h3_filter.c (`Body.Serve`, `Body.Capture`).
pub mod Grow
pub mod Receive
pub mod Serve
pub mod Capture
