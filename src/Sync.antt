-- ===== src/Sync.antt =====
-- server/sync: the changelog that clients read increments from, and the per-field merge.
pub mod Changelog
pub mod Merge
