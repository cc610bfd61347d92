-- ===== src/Engine.antt =====
-- internal/engine: the convergent configuration engine.
pub mod State
pub mod Windows
pub mod Scope
pub mod Dispatch
pub mod Publish
pub mod Ingest
pub mod Reconcile
pub mod Feed
pub mod Core
pub mod Lifecycle
pub mod Steps
pub mod Activation
pub mod Worker
