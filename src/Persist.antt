-- ===== src/Persist.antt =====
-- The persistent version of a node's state (raft/src/persistence.rs).
pub mod Storage
pub mod Restored
pub mod File
use miniraft.Prelude.{Option, some, contains, Outcome, ok, ◌>>=◌, ◌>>◌, assert}
use miniraft.Rpc.{NodeId}
use miniraft.Raft.State.{Role, follower, candidate, leader, State, Persistent}

-- Whom the persistent state names. A candidate that lacks its own vote is a fault.
abbrev pub persistent_vote : NodeId → Role → Outcome (Option NodeId)
persistent_vote id (follower leader_id voted_for) = ok voted_for
persistent_vote id (candidate votes) = assert (contains votes id) >> ok (some id)
persistent_vote id (leader next_indexes match_indexes last_replication) = ok (some id)

module _ {Cmd : Type 0} where
  -- `From<&State<S>> for Persistent<S::Command>`.
  unfoldable pub persistent : State Cmd → Outcome (Persistent Cmd)
  persistent s = do
    voted_for ← persistent_vote s.c.id s.r
    ok (record { current_term = s.c.current_term; voted_for = voted_for; log = s.c.log })
