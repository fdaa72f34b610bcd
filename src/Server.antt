-- ===== src/Server.antt =====
-- The authoritative state of the GitHub service (src/worktree_review/server).
pub mod Json
pub mod State
