-- ===== src/Raft/Replication.antt =====
-- Log replication by a leader (raft/src/state.rs, `replicate_log`, `become_leader`, `append`).
pub mod Paced
use miniraft.Prelude.{
  ℕ, ◌-◌, Bool, true, false, not, ◌&&◌, Option, none, some, List, [], ◌∷◌, ltb, if◌then◌else◌,
  str_eq, lookup, insert, Outcome, ok, ◌>>=◌, ◌>>◌, assert, expect,
}
use miniraft.Rpc.{NodeId, RaftMessage, append_entries, Outgoing}
use miniraft.Raft.Index.{LogIndex, inc, dec, default}
use miniraft.Raft.Log.{Log, LogEntry, get, get_from, highest_index, append}
use miniraft.Raft.State.{Common, Role, follower, candidate, leader, State, Clock, is_empty}

-- 5 ms and 50 ms.
abbrev pub min_replication_interval : ℕ
min_replication_interval = 5_000_000

abbrev pub heartbeat_interval : ℕ
heartbeat_interval = 50_000_000

-- Whether a round is due, and if so, whether it must reach every peer. An `Instant` that is not later
-- leaves no time elapsed.
abbrev pub heartbeat_needed : Option ℕ → ℕ → Option Bool
heartbeat_needed none now = some true
heartbeat_needed (some lr) now =
    if ltb (now - lr) min_replication_interval
    then none
    else some (ltb heartbeat_interval (now - lr))

-- The two maps of a new leader. A node must not be its own peer.
unfoldable pub initial_next_indexes :
    NodeId → LogIndex → List NodeId → Outcome (List (NodeId × LogIndex))
initial_next_indexes id next [] = ok []
initial_next_indexes id next (node ∷ nodes) = do
  assert (not (str_eq node id))
  rest ← initial_next_indexes id next nodes
  ok (insert node next rest)

unfoldable pub initial_match_indexes : List NodeId → List (NodeId × Option LogIndex)
initial_match_indexes [] = []
initial_match_indexes (node ∷ nodes) = insert node none (initial_match_indexes nodes)

abbrev pub is_candidate : Role → Bool
is_candidate (candidate votes) = true
is_candidate (follower leader_id voted_for) = false
is_candidate (leader next_indexes match_indexes last_replication) = false

module _ {Cmd : Type 0} where
  abbrev pub term_at : Log Cmd → Option LogIndex → Option ℕ
  term_at log none = none
  term_at log (some i) = elim (get log i) [ none ↦ none | some entry ↦ some entry.term ]

  -- `get_from(…).unwrap_or_default()`.
  abbrev pub entries_from : Log Cmd → LogIndex → List (LogEntry Cmd)
  entries_from log next = elim (get_from log next) [ none ↦ [] | some entries ↦ entries ]

  -- What a peer is sent whose next index is `next`.
  unfoldable pub message_for : Common Cmd → LogIndex → RaftMessage Cmd
  message_for c next =
      append_entries c.current_term c.commit_index (dec next) (term_at c.log (dec next))
        (entries_from c.log next)

  -- The loop over the peers.
  unfoldable pub replicate_to :
      Common Cmd → List (NodeId × LogIndex) → Bool → List NodeId → Outcome (Outgoing Cmd)
  replicate_to c next_indexes heartbeat [] = ok []
  replicate_to c next_indexes heartbeat (node ∷ nodes) = do
    next ← expect (lookup node next_indexes)
    rest ← replicate_to c next_indexes heartbeat nodes
    ok (
        if is_empty (entries_from c.log next) && not heartbeat
        then rest
        else (node, message_for c next) ∷ rest)

  replicate_as_leader :
      Clock
      → State Cmd
      → List (NodeId × LogIndex)
      → List (NodeId × Option LogIndex)
      → Option ℕ
      → Outcome (State Cmd × Outgoing Cmd)
  replicate_as_leader clock s next_indexes match_indexes last_replication =
      elim (heartbeat_needed last_replication clock.now) [
        | none ↦ ok (s, [])
        | some heartbeat ↦ replicate_to s.c next_indexes heartbeat s.c.node_ids >>= λ msgs. ok (
          record s {
            r =
                leader next_indexes match_indexes
                  (if is_empty msgs then last_replication else some clock.later);
          },
          msgs,
        )
      ]

  replicate_role : Clock → State Cmd → Role → Outcome (State Cmd × Outgoing Cmd)
  unfolding replicate_as_leader
  replicate_role clock s (leader next_indexes match_indexes last_replication) =
      replicate_as_leader clock s next_indexes match_indexes last_replication
  replicate_role clock s (follower leader_id voted_for) = ok (s, [])
  replicate_role clock s (candidate votes) = ok (s, [])

  unfoldable pub replicate_log : Clock → State Cmd → Outcome (State Cmd × Outgoing Cmd)
  unfolding replicate_role
  replicate_log clock s = replicate_role clock s s.r

  -- The index one beyond the end of the log.
  abbrev pub next_index : Log Cmd → Outcome LogIndex
  next_index log = elim (highest_index log) [ none ↦ ok default | some hi ↦ inc hi ]

  unfoldable pub become_leader : Clock → State Cmd → Outcome (State Cmd × Outgoing Cmd)
  become_leader clock s = do
    assert (is_candidate s.r)
    next ← next_index s.c.log
    next_indexes ← initial_next_indexes s.c.id next s.c.node_ids
    replicate_log clock
        (record s { r = leader next_indexes (initial_match_indexes s.c.node_ids) none })

  -- `State::append`.
  unfoldable pub append_command : State Cmd → Cmd → State Cmd
  append_command s cmd = record s {
    c = record (s.c) { log = append s.c.log (record { cmd = cmd; term = s.c.current_term }) };
  }
