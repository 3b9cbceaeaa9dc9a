-- ===== src/Raft/State/Candidacy.antt =====
-- When a node stands for election (raft/src/state.rs, `maybe_begin_election`, `become_candidate`).
use miniraft.Prelude.{
  ℕ, ◌+◌, ◌≤◌, ◌<◌, ◌≡◌, refl, true, false, [], ◌∷◌, map, arith, lt→ltb, ltb-false, ok,
}
use miniraft.Rpc.{request_vote}
use miniraft.Raft.Index.{u64_mod, step_term}
use miniraft.Raft.Log.{highest_index}
use miniraft.Raft.State.{
  candidate, State, Clock, can_stand, last_term, request_votes, become_candidate,
  maybe_begin_election, extend_election_deadline,
}

step_term_ok : (t : ℕ) → t + 1 < u64_mod → step_term t ≡ ok (t + 1)
step_term_ok t h = ground arith

module _ {Cmd : Type 0} where
  -- The node after it has stood for election.
  abbrev pub standing : Clock → State Cmd → State Cmd
  standing clock s = record {
    c = record (s.c) {
      current_term = s.c.current_term + 1;
      election_deadline = clock.later + clock.timeout;
    };
    r = candidate (s.c.id ∷ []);
  }

  -- With a clock that does not run back and a term below 2^64 - 1: once the election deadline
  -- has passed, a follower or candidate stands in the next term, with its own vote and an
  -- extended deadline, and asks every peer for its vote with its last entry; a leader extends
  -- its deadline and sends nothing. Before that nothing happens.
  pub maybe_begin_election-decides :
      (clock : Clock) (s : State Cmd)
      → clock.now ≤ clock.later
      → s.c.current_term + 1 < u64_mod
      → (s.c.election_deadline < clock.now
          → can_stand s.r ≡ true
          → maybe_begin_election clock s
            ≡ ok (
              standing clock s,
              map
                  (λ node. (
                    node,
                    request_vote (s.c.current_term + 1) (highest_index s.c.log) (last_term s.c.log),
                  ))
                  s.c.node_ids,
            ))
        × (s.c.election_deadline < clock.now
            → can_stand s.r ≡ false
            → maybe_begin_election clock s
              ≡ ok (record s { c = extend_election_deadline clock s.c }, []))
        × (clock.now ≤ s.c.election_deadline → maybe_begin_election clock s ≡ ok (s, []))
  unfolding maybe_begin_election become_candidate request_votes
  maybe_begin_election-decides clock s forward small = (
    (λ late stands.
        rw
          (
            lt→ltb s.c.election_deadline clock.now late,
            lt→ltb s.c.election_deadline clock.later (omega arith),
            stands,
            step_term_ok s.c.current_term small,
          )
          refl),
    (λ late leads. rw (lt→ltb s.c.election_deadline clock.now late, leads) refl),
    (λ early. rw (ltb-false s.c.election_deadline clock.now early) refl),
  )
