-- ===== src/Client.antt =====
-- internal/client: what a consumer calls.
pub mod State
pub mod Registration
pub mod Writes
pub mod Reads
pub mod Lifecycle
