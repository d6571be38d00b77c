-- ===== src/Tests.antt =====
-- The theorems applied to concrete configurations, bodies, queues and connections.
mod Configs
mod Heads
pub mod Bodies
mod Queues
mod Network
pub mod Sessions
mod Passes
mod Rounds
mod Signals
mod Responses
