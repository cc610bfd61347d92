-- ===== src/Mongodb.antt =====
-- The changefeeds of internal/mongodb.
pub mod Polling
pub mod Feed
