-- ===== src/Group.antt =====
-- internal/group: the typed groups' machinery.
pub mod Coordinator
