-- ===== src/Raft/Election.antt =====
-- Votes (raft/src/state.rs, `handle_vote_request`, `handle_vote_response`, `won_election`).
pub mod Quorum
pub mod Votes
pub mod Tally
use Prim.Native.Nat.{compare, Ordering}
use miniraft.Prelude.{
  ℕ, ◌+◌, ◌/◌, Bool, true, false, not, Option, none, some, List, [], ltb, leb, if◌then◌else◌,
  length, str_eq, contains, set_insert, Outcome, ok, panic, ◌>>◌, assert,
}
use miniraft.Rpc.{NodeId, RaftMessage, request_vote_response, Outgoing}
use miniraft.Raft.Index.{LogIndex, opt_le}
use miniraft.Raft.Log.{Log, highest_index}
use miniraft.Raft.State.{
  Common, Role, follower, candidate, leader, State, Clock, extend_election_deadline, last_term,
}
use miniraft.Raft.Replication.{become_leader}

-- `Option<Term>` is ordered with `None` first.
abbrev pub opt_compare : Option ℕ → Option ℕ → Ordering
opt_compare none none = Ordering.eq
opt_compare none (some b) = Ordering.lt
opt_compare (some a) none = Ordering.gt
opt_compare (some a) (some b) = compare a b

-- We voted for a different candidate.
abbrev pub voted_for_other : Option NodeId → NodeId → Bool
voted_for_other none candidate_id = false
voted_for_other (some voted_for) candidate_id = not (str_eq candidate_id voted_for)

module _ {Cmd : Type 0} where
  -- The candidate's log is at least as up to date as ours.
  unfoldable pub up_to_date : Log Cmd → Option LogIndex → Option ℕ → Bool
  up_to_date log last_log_index last_log_term = elim (opt_compare last_log_term (last_term log)) [
    | Ordering.lt ↦ false
    | Ordering.eq ↦ opt_le (highest_index log) last_log_index
    | Ordering.gt ↦ true
  ]

  unfoldable pub grants :
      Common Cmd → Option NodeId → NodeId → ℕ → Option LogIndex → Option ℕ → Bool
  grants c voted_for candidate_id candidate_term last_log_index last_log_term =
      if ltb candidate_term c.current_term
      then false
      else if voted_for_other voted_for candidate_id
      then false
      else up_to_date c.log last_log_index last_log_term

  vote_as :
      Clock
      → State Cmd
      → NodeId
      → ℕ
      → Option LogIndex
      → Option ℕ
      → Role
      → State Cmd × RaftMessage Cmd
  vote_as clock s candidate_id candidate_term last_log_index last_log_term
        (follower leader_id voted_for) =
      if grants s.c voted_for candidate_id candidate_term last_log_index last_log_term
      then (
        record s {
          c = extend_election_deadline clock s.c;
          r = follower leader_id (some candidate_id);
        },
        request_vote_response s.c.current_term true,
      )
      else (s, request_vote_response s.c.current_term false)
  vote_as clock s candidate_id candidate_term last_log_index last_log_term (candidate votes) =
      (s, request_vote_response s.c.current_term false)
  vote_as clock s candidate_id candidate_term last_log_index last_log_term
        (leader next_indexes match_indexes last_replication) =
      (s, request_vote_response s.c.current_term false)

  unfoldable pub handle_vote_request :
      Clock
      → State Cmd
      → NodeId
      → ℕ
      → Option LogIndex
      → Option ℕ
      → Outcome (State Cmd × RaftMessage Cmd)
  unfolding vote_as
  handle_vote_request clock s candidate_id candidate_term last_log_index last_log_term = do
    assert (not (str_eq s.c.id candidate_id))
    ok (vote_as clock s candidate_id candidate_term last_log_index last_log_term s.r)

  unfoldable pub won_election : Common Cmd → ℕ → Bool
  won_election c votes_received =
      let cluster_size = length c.node_ids + 1 in leb (cluster_size / 2 + 1) votes_received

  -- A favourable vote of the current term is counted.
  unfoldable pub count_vote :
      Clock → State Cmd → List NodeId → NodeId → Outcome (State Cmd × Outgoing Cmd)
  count_vote clock s votes peer =
      let votes' = set_insert peer votes in
      let s' = record s { r = candidate votes' } in
      if won_election s.c (length votes') then become_leader clock s' else ok (s', [])

  receive_vote : Clock → State Cmd → NodeId → ℕ → Role → Outcome (State Cmd × Outgoing Cmd)
  receive_vote clock s peer remote_term (candidate votes) =
      assert (contains votes s.c.id) >> elim (compare s.c.current_term remote_term) [
        | Ordering.lt ↦ panic
        | Ordering.eq ↦ count_vote clock s votes peer
        | Ordering.gt ↦ ok (s, [])
      ]
  receive_vote clock s peer remote_term (follower leader_id voted_for) = ok (s, [])
  receive_vote clock s peer remote_term (leader next_indexes match_indexes last_replication) =
      ok (s, [])

  unfoldable pub handle_vote_response :
      Clock → State Cmd → NodeId → ℕ → Bool → Outcome (State Cmd × Outgoing Cmd)
  unfolding receive_vote
  handle_vote_response clock s peer remote_term vote_granted =
      if not vote_granted then ok (s, []) else receive_vote clock s peer remote_term s.r
