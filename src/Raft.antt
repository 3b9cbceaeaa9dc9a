-- ===== src/Raft.antt =====
-- The Raft core (raft/src/state.rs).
pub mod Index
pub mod Log
pub mod State
pub mod Replication
pub mod Commit
pub mod Election
pub mod Append
pub mod Progress
pub mod Roles
