-- ===== src/Postgres.antt =====
-- The changefeed of internal/postgres.
pub mod Backoff
