-- ===== src/Config.antt =====
-- Server configuration: mod_http3/include/h3_config.h, the constants of mod_http3/include/h3.h and
-- mod_http3/src/h3_config.c (`Config.Directives`, `Config.Merge`, `Config.Resolve`).
pub mod Defs
pub mod Directives
pub mod Merge
pub mod Resolve
