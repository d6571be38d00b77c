-- ===== src/Quic.antt =====
-- The QUIC layer over OpenSSL: mod_http3/src/quic.
pub mod Datagrams
pub mod Engine
pub mod Write
