-- ===== src/Examples/Elections.antt =====
-- The theorems on elections, and on how a leader starts and replicates, at concrete nodes
-- (raft/src/state.rs).
use miniraft.Prelude.{
  if◌then◌else◌, ℕ, ◌≤◌, ◌≡◌, ◌≢◌, ◌⊎◌, refl, true, false, none, some, [], ◌∷◌, arith, ok, contains,
  eq_iff, map, ◌-◌, ◌<◌, Option,
}
use miniraft.Rpc.{NodeId, request_vote, request_vote_response, Outgoing}
use miniraft.Raft.Log.{highest_index}
use miniraft.Raft.State.{
  is_empty, State, follower, maybe_step_down, maybe_begin_election, last_term, can_stand,
  extend_election_deadline, candidate, leader,
}
use miniraft.Raft.Replication.{replicate_log}
use miniraft.Raft.Election.{won_election, handle_vote_request, handle_vote_response}
use miniraft.Raft.Election.Quorum.{quorums_meet}
use miniraft.Raft.Election.Votes.{
  Eligible, voted, handle_vote_request-decides, maybe_step_down-blocks_votes,
}
use miniraft.Raft.Election.Tally.{Started, handle_vote_response-counts}
use miniraft.Raft.State.Candidacy.{standing, maybe_begin_election-decides}
use miniraft.Raft.Replication.Paced.{AllSent, NewSent, replicate_log-paced}
use miniraft.Examples.{
  first_leader, second_voted, both_next, both_matched, first_common, place, noon, short_log,
  second_common, second_follower, first_common, n1, n2, n3, n2-n1,
}

three-won : won_election first_common 2 ≡ true
unfolding won_election
three-won = refl

quorums_meet_example :
    (x : NodeId) × (contains (n1 ∷ n2 ∷ []) x ≡ true) × (contains (n3 ∷ n2 ∷ []) x ≡ true)
quorums_meet_example =
    quorums_meet first_common (n1 ∷ n2 ∷ n3 ∷ []) (n1 ∷ n2 ∷ []) (n3 ∷ n2 ∷ []) refl
      (refl, (refl, tt)) (refl, (refl, tt)) three-won (refl, (refl, tt)) (refl, (refl, tt))
      three-won

handle_vote_request-decides_example :
    (Eligible second_common (follower none none) n1 2 (some (place 4)) (some 1)
      × (handle_vote_request noon second_follower n1 2 (some (place 4)) (some 1)
          ≡ ok (voted noon second_follower n1, request_vote_response 2 true)))
    ⊎ (¬ Eligible second_common (follower none none) n1 2 (some (place 4)) (some 1)
        × (handle_vote_request noon second_follower n1 2 (some (place 4)) (some 1)
            ≡ ok (second_follower, request_vote_response 2 false)))
handle_vote_request-decides_example =
    handle_vote_request-decides noon second_follower n1 2 (some (place 4)) (some 1) n2-n1

n1-n3 : n1 ≢ n3
n1-n3 e = ground (arith, eq_iff n1 n3)

maybe_step_down-blocks_votes_example :
    (s' : State ℕ) × (maybe_step_down second_voted 3 ≡ ok s')
    × (s'.c.current_term ≡ 3)
    × (handle_vote_request noon s' n1 3 (some (place 4)) (some 1)
        ≡ ok (s', request_vote_response 3 false))
maybe_step_down-blocks_votes_example =
    maybe_step_down-blocks_votes noon second_voted none n3 n1 3 (some (place 4)) (some 1) refl
      (omega arith) n2-n1 n1-n3

abbrev no_time : Option ℕ
no_time = none

abbrev first_candidate : State ℕ
first_candidate = record { c = first_common; r = candidate (n1 ∷ []) }

n3-n1 : n3 ≢ n1
n3-n1 e = ground (arith, eq_iff n3 n1)

handle_vote_response-counts_example :
    (won_election first_common 2 ≡ false
      → handle_vote_response noon first_candidate n2 2 true
        ≡ ok (record { c = first_common; r = candidate (n2 ∷ n1 ∷ []) }, []))
    × (won_election first_common 2 ≡ true
        → (s' : State ℕ) × (msgs : Outgoing ℕ) × (handle_vote_response noon first_candidate n2 2
              true
            ≡ ok (s', msgs))
          × Started noon first_candidate s' msgs)
handle_vote_response-counts_example =
    handle_vote_response-counts noon first_candidate (n1 ∷ []) n2 refl refl (n2-n1, (n3-n1, tt))
      (omega arith)

maybe_begin_election-decides_example :
    (900000000 < 1000000000
      → can_stand second_follower.r ≡ true
      → maybe_begin_election noon second_follower
        ≡ ok (
          standing noon second_follower,
          map
              (λ node. (node, request_vote 3 (highest_index short_log) (last_term short_log)))
              (n1 ∷ n3 ∷ []),
        ))
    × (900000000 < 1000000000
        → can_stand second_follower.r ≡ false
        → maybe_begin_election noon second_follower
          ≡ ok (record second_follower { c = extend_election_deadline noon second_common }, []))
    × (1000000000 ≤ 900000000
        → maybe_begin_election noon second_follower ≡ ok (second_follower, []))
maybe_begin_election-decides_example =
    maybe_begin_election-decides noon second_follower (omega arith) (omega arith)

replicate_log-paced_example :
    ((t : ℕ)
      → none ≡ some t
      → 1000000000 - t < 5_000_000
      → replicate_log noon first_leader ≡ ok (first_leader, []))
    × ((no_time ≡ none) ⊎ ((t : ℕ) × (none ≡ some t) × (50_000_000 < 1000000000 - t))
        → (s' : State ℕ) × (msgs : Outgoing ℕ) × (replicate_log noon first_leader ≡ ok (s', msgs))
          × (s'.c ≡ first_common)
          × (s'.r ≡ leader both_next both_matched (some 1000000100))
          × AllSent first_common both_next (n2 ∷ n3 ∷ []) msgs)
    × ((t : ℕ)
        → none ≡ some t
        → 5_000_000 ≤ 1000000000 - t
        → 1000000000 - t ≤ 50_000_000
        → (s' : State ℕ) × (msgs : Outgoing ℕ) × (replicate_log noon first_leader ≡ ok (s', msgs))
          × (s'.c ≡ first_common)
          × (s'.r ≡ leader both_next both_matched (if is_empty msgs then none else some 1000000100))
          × NewSent first_common both_next (n2 ∷ n3 ∷ []) msgs)
replicate_log-paced_example =
    replicate_log-paced noon first_leader both_next both_matched none refl
      ((place 1, refl), ((place 2, refl), tt))
