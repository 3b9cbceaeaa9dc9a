-- ===== src/Raft/Append.antt =====
-- Appending entries: a follower's handler and a leader's (raft/src/state.rs,
-- `handle_append_entries`, `handle_append_entries_response`).
pub mod Stored
pub mod Handler
pub mod CatchUp
pub mod Tracking
use miniraft.Prelude.{
  ℕ, Bool, true, false, not, Option, none, some, List, [], ltb, ◌==◌, if◌then◌else◌, str_eq, lookup,
  insert, Outcome, ok, panic, ◌>>=◌, ◌>>◌, assert,
}
use miniraft.Rpc.{NodeId, RaftMessage, append_entries_response, Outgoing}
use miniraft.Raft.Index.{LogIndex, inc, dec, default, unwrap_or_default, opt_lt, opt_min}
use miniraft.Raft.Log.{Log, replace_from, highest_index}
use miniraft.Raft.State.{
  Common, Role, follower, candidate, leader, State, Clock, extend_election_deadline,
  become_follower,
}
use miniraft.Raft.Replication.{term_at, replicate_log}
use miniraft.Raft.Commit.{advance_state_machine, advance_commit_index}

-- `Option<Term>` equality.
abbrev pub same_term : Option ℕ → Option ℕ → Bool
same_term none none = true
same_term none (some b) = false
same_term (some a) none = false
same_term (some a) (some b) = a == b

-- Where the new entries go: behind the previous one, or at the start.
abbrev pub insertion_index : Option LogIndex → Outcome LogIndex
insertion_index none = ok default
insertion_index (some i) = inc i

-- A candidate cancels its candidacy, keeping its vote for itself.
abbrev pub cancel_candidacy : {Cmd : Type 0} → State Cmd → Role → State Cmd
cancel_candidacy s (candidate votes) = become_follower s (some s.c.id)
cancel_candidacy s (follower leader_id voted_for) = s
cancel_candidacy s (leader next_indexes match_indexes last_replication) = s

-- A follower recognises the sender as its leader; a leader of the same term cannot meet another.
abbrev pub recognize : NodeId → NodeId → Role → Outcome Role
recognize id peer (follower leader_id voted_for) =
    assert (not (str_eq id peer)) >> ok (follower (some peer) voted_for)
recognize id peer (candidate votes) = panic
recognize id peer (leader next_indexes match_indexes last_replication) = panic

module _ {Cmd : Type 0} where
  -- From the check of the term to the recognition of the leader.
  unfoldable pub accept_leader : Clock → State Cmd → NodeId → ℕ → Outcome (State Cmd)
  accept_leader clock s peer leader_term = do
    let s' = cancel_candidacy (record s { c = extend_election_deadline clock s.c }) s.r
    assert (leader_term == s.c.current_term)
    r' ← recognize s'.c.id peer s'.r
    ok (record s' { r = r' })

  unfoldable pub consistent : Log Cmd → Option LogIndex → Option ℕ → Bool
  consistent log prev_log_index prev_log_term = same_term (term_at log prev_log_index) prev_log_term

  -- A refusal: the peer's next index goes down by one, and replication is tried again.
  unfoldable pub retry :
      Clock
      → State Cmd
      → NodeId
      → List (NodeId × LogIndex)
      → List (NodeId × Option LogIndex)
      → Option ℕ
      → LogIndex
      → Outcome (State Cmd × Outgoing Cmd)
  retry clock s peer next_indexes match_indexes last_replication next =
      replicate_log clock (record s {
        r =
            leader (insert peer (unwrap_or_default (dec next)) next_indexes) match_indexes
              last_replication;
      })

module _ {Cmd M : Type 0} (apply : M → Cmd → M) where
  -- The commit index follows the leader's, but not beyond our own log.
  unfoldable pub follow_commit : Common Cmd → Option LogIndex → M → Outcome (Common Cmd × M)
  follow_commit c leader_commit machine =
      if opt_lt c.commit_index leader_commit
      then advance_state_machine apply
          (record c { commit_index = opt_min leader_commit (highest_index c.log) }) machine
      else ok (c, machine)

  -- What happens once the consistency check has passed. The third part lists the dismissed commands.
  unfoldable pub store_entries :
      Common Cmd
      → Option LogIndex
      → Option LogIndex
      → Log Cmd
      → M
      → Outcome (Common Cmd × M × List Cmd)
  store_entries c leader_commit prev_log_index entries machine = do
    index ← insertion_index prev_log_index
    (log', dismissed) ← replace_from c.log index entries
    (c', machine') ← follow_commit (record c { log = log' }) leader_commit machine
    ok (c', machine', dismissed)

  unfoldable pub append_accepted :
      State Cmd
      → Option LogIndex
      → Option LogIndex
      → Option ℕ
      → Log Cmd
      → M
      → Outcome (State Cmd × M × List Cmd × RaftMessage Cmd)
  append_accepted s leader_commit prev_log_index prev_log_term entries machine =
      let refused = append_entries_response s.c.current_term (highest_index s.c.log) false in
      let stored = (do
        (c', machine', dismissed) ← store_entries s.c leader_commit prev_log_index entries machine
        ok (
          record s { c = c' },
          machine',
          dismissed,
          append_entries_response s.c.current_term (highest_index c'.log) true,
        )) in
      if consistent s.c.log prev_log_index prev_log_term
      then stored
      else ok (s, machine, [], refused)

  unfoldable pub handle_append_entries :
      Clock
      → State Cmd
      → NodeId
      → ℕ
      → Option LogIndex
      → Option LogIndex
      → Option ℕ
      → Log Cmd
      → M
      → Outcome (State Cmd × M × List Cmd × RaftMessage Cmd)
  unfolding append_accepted
  handle_append_entries clock s peer leader_term leader_commit prev_log_index prev_log_term entries
        machine =
      if ltb leader_term s.c.current_term
      then ok
          (s, machine, [], append_entries_response s.c.current_term (highest_index s.c.log) false)
      else accept_leader clock s peer leader_term >>= λ s'.
          append_accepted s' leader_commit prev_log_index prev_log_term entries machine

  -- A success: both indexes of the peer follow the index that it reports.
  unfoldable pub record_match :
      State Cmd
      → NodeId
      → List (NodeId × LogIndex)
      → List (NodeId × Option LogIndex)
      → Option ℕ
      → Option LogIndex
      → M
      → Outcome (State Cmd × M)
  record_match s peer next_indexes match_indexes last_replication none machine = ok (s, machine)
  record_match s peer next_indexes match_indexes last_replication (some index) machine = do
    next ← inc index
    advance_commit_index apply
        (record s {
          r =
              leader (insert peer next next_indexes) (insert peer (some index) match_indexes)
                last_replication;
        })
        machine

  unfoldable pub respond_as_leader :
      Clock
      → State Cmd
      → NodeId
      → Bool
      → Option LogIndex
      → M
      → List (NodeId × LogIndex)
      → List (NodeId × Option LogIndex)
      → Option ℕ
      → Outcome (State Cmd × M × Outgoing Cmd)
  respond_as_leader clock s peer success index machine next_indexes match_indexes last_replication =
      elim (lookup peer next_indexes) [
        | none ↦ ok (s, machine, [])
        | some next ↦
            if not success
            then (retry clock s peer next_indexes match_indexes last_replication next >>= λ p.
                ok (p.0, machine, p.1))
            else elim (lookup peer match_indexes) [
              | none ↦ ok (s, machine, [])
              | some matched ↦
                  record_match s peer next_indexes match_indexes last_replication index machine
                  >>= λ p. ok (p.0, p.1, [])
            ]
      ]

  respond_role :
      Clock
      → State Cmd
      → NodeId
      → Bool
      → Option LogIndex
      → M
      → Role
      → Outcome (State Cmd × M × Outgoing Cmd)
  unfolding respond_as_leader
  respond_role clock s peer success index machine
        (leader next_indexes match_indexes last_replication) =
      respond_as_leader clock s peer success index machine next_indexes match_indexes
        last_replication
  respond_role clock s peer success index machine (follower leader_id voted_for) =
      ok (s, machine, [])
  respond_role clock s peer success index machine (candidate votes) = ok (s, machine, [])

  unfoldable pub handle_append_entries_response :
      Clock
      → State Cmd
      → NodeId
      → Bool
      → Option LogIndex
      → M
      → Outcome (State Cmd × M × Outgoing Cmd)
  unfolding respond_role
  handle_append_entries_response clock s peer success index machine =
      respond_role clock s peer success index machine s.r
