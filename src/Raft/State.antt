-- ===== src/Raft/State.antt =====
-- The state of a node and its transitions (raft/src/state.rs, `Common`, `Role`, `State` and Figure 4).
-- Diagnostic output is left out. A clock reading is an argument: a call reads the clock when it
-- starts (`now`) and again when it stores a time (`later`), and each election timeout that it draws,
-- `ELECTION_TIMEOUT * (rand() + 1)`, is an argument too (`timeout`). Times are in nanoseconds.
pub mod Candidacy
use miniraft.Prelude.{
  ℕ, ◌+◌, Bool, true, false, not, Option, none, some, List, [], ◌∷◌, map, ltb, if◌then◌else◌,
  Outcome, ok, ◌>>=◌, ◌>>◌, assert,
}
use miniraft.Rpc.{NodeId, request_vote, Outgoing}
use miniraft.Raft.Index.{LogIndex, set_term, step_term}
use miniraft.Raft.Log.{Log, last, highest_index}

pub record Common (Cmd : Type 0) : Type 0 where
  pub current_term : ℕ
  pub log : Log Cmd
  pub commit_index : Option LogIndex
  pub last_applied : Option LogIndex
  pub id : NodeId
  pub node_ids : List NodeId
  pub election_deadline : ℕ

pub data Role : Type 0 where
  -- `leader` and `voted_for`.
  follower : Option NodeId → Option NodeId → Role
  -- `votes`, a set.
  candidate : List NodeId → Role
  -- `next_indexes`, `match_indexes` and `last_replication`.
  leader : List (NodeId × LogIndex) → List (NodeId × Option LogIndex) → Option ℕ → Role

pub record State (Cmd : Type 0) : Type 0 where
  pub c : Common Cmd
  pub r : Role

-- The clock readings of one call and the election timeout that it draws.
pub record Clock : Type 0 where
  pub now : ℕ
  pub later : ℕ
  pub timeout : ℕ

-- `Persistent` (raft/src/persistence.rs).
pub record Persistent (Cmd : Type 0) : Type 0 where
  pub current_term : ℕ
  pub voted_for : Option NodeId
  pub log : Log Cmd

abbrev pub is_empty : {A : Type 0} → List A → Bool
is_empty [] = true
is_empty (x ∷ xs) = false

-- The role that `become_follower` leaves: a follower stays as it is.
abbrev pub follower_role : Role → Option NodeId → Role
follower_role (candidate votes) voted_for = follower none voted_for
follower_role (leader next_indexes match_indexes last_replication) voted_for =
    follower none voted_for
follower_role (follower leader_id voted_for') voted_for = follower leader_id voted_for'

-- A leader does not become a candidate.
abbrev pub can_stand : Role → Bool
can_stand (leader next_indexes match_indexes last_replication) = false
can_stand r = true

abbrev pub known_leader : Role → Option NodeId
known_leader (follower leader_id voted_for) = leader_id
known_leader (candidate votes) = none
known_leader (leader next_indexes match_indexes last_replication) = none

module _ {Cmd : Type 0} where
  -- `Common::new` and `State::new`.
  unfoldable pub new : NodeId → List NodeId → Persistent Cmd → ℕ → Outcome (State Cmd)
  new id node_ids p now = do
    assert (not (is_empty node_ids))
    ok (record {
      c = record {
        current_term = p.current_term;
        log = p.log;
        commit_index = none;
        last_applied = none;
        id = id;
        node_ids = node_ids;
        election_deadline = now;
      };
      r = follower none p.voted_for;
    })

  abbrev pub extend_election_deadline : Clock → Common Cmd → Common Cmd
  extend_election_deadline clock c = record c { election_deadline = clock.later + clock.timeout }

  abbrev pub become_follower : State Cmd → Option NodeId → State Cmd
  become_follower s voted_for = record s { r = follower_role s.r voted_for }

  unfoldable pub maybe_step_down : State Cmd → ℕ → Outcome (State Cmd)
  maybe_step_down s remote =
      let behind = (do
        t ← set_term s.c.current_term remote
        ok (become_follower (record s { c = record (s.c) { current_term = t } }) none)) in
      if ltb s.c.current_term remote then behind else ok s

  abbrev pub election_timeout_passed : State Cmd → ℕ → Bool
  election_timeout_passed s now = ltb s.c.election_deadline now

  abbrev pub last_term : Log Cmd → Option ℕ
  last_term log = elim (last log) [ none ↦ none | some entry ↦ some entry.term ]

  unfoldable pub request_votes : State Cmd → Outgoing Cmd
  request_votes s =
      map
        (λ node. (node, request_vote s.c.current_term (highest_index s.c.log) (last_term s.c.log)))
        s.c.node_ids

  unfoldable pub become_candidate : Clock → State Cmd → Outcome (State Cmd × Outgoing Cmd)
  become_candidate clock s = do
    assert (election_timeout_passed s clock.later)
    assert (can_stand s.r)
    t ← step_term s.c.current_term
    let c' = extend_election_deadline clock (record (s.c) { current_term = t })
    let s' = record s { c = c'; r = candidate (s.c.id ∷ []) }
    ok (s', request_votes s')

  abbrev pub is_leader : State Cmd → Bool
  is_leader s = not (can_stand s.r)

  unfoldable pub maybe_begin_election : Clock → State Cmd → Outcome (State Cmd × Outgoing Cmd)
  unfolding become_candidate
  maybe_begin_election clock s =
      if not (election_timeout_passed s clock.now)
      then ok (s, [])
      else if is_leader s
      then ok (record s { c = extend_election_deadline clock s.c }, [])
      else become_candidate clock s

  abbrev pub current_leader : State Cmd → Option NodeId
  current_leader s = known_leader s.r
