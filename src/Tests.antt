-- ===== src/Tests.antt =====
-- The theorems at concrete inputs, and runs of the model.
mod Fixture
mod Cache
mod Starts
mod Interleavings
mod Goroutines
mod Groups
mod Clients
mod Feeds
