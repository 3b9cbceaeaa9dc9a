-- ===== src/Raft/Progress.antt =====
-- The term, the vote in a term and the identity of a node in its transitions (raft/src/state.rs).
pub mod Handlers
pub mod Reach
pub mod Crashes
use miniraft.Prelude.{
  ℕ, ◌+◌, ◌≤◌, ◌<◌, ◌≡◌, refl, Bool, true, false, Option, none, some, List, [], ◌∷◌, inl, inr,
  arith, str_eq, eq_iff, Outcome, assert, ok, panic, ◌>>=◌, >>=-eq-ok, Bool-cases, length,
  set_insert,
}
use miniraft.Rpc.{NodeId, RaftMessage, Outgoing}
use miniraft.Raft.Index.{LogIndex, step_term-suc}
use miniraft.Raft.Log.{Log}
use miniraft.Raft.State.{
  Common, Role, follower, candidate, leader, State, Clock, maybe_step_down, become_candidate,
  maybe_begin_election,
}
use miniraft.Raft.Replication.{
  replicate_log, become_leader, append_command, is_candidate, next_index, initial_next_indexes,
  initial_match_indexes,
}
use miniraft.Raft.Election.{
  handle_vote_request, handle_vote_response, count_vote, grants, won_election,
}
use miniraft.Raft.Append.{accept_leader}

-- Whom a node has voted for in its current term. A candidate and a leader voted for themselves.
abbrev pub vote : NodeId → Role → Option NodeId
vote id (follower leader_id voted_for) = voted_for
vote id (candidate votes) = some id
vote id (leader next_indexes match_indexes last_replication) = some id

abbrev pub VoteKept : Option NodeId → Option NodeId → Type 0
VoteKept none now = Unit {0}
VoteKept (some v) now = now ≡ some v

pub record Progress {Cmd : Type 0} (s s' : State Cmd) : Type 0 where
  pub term_le : s.c.current_term ≤ s'.c.current_term
  pub id_same : s'.c.id ≡ s.c.id
  pub node_ids_same : s'.c.node_ids ≡ s.c.node_ids
  pub vote_kept :
      s'.c.current_term ≡ s.c.current_term → VoteKept (vote s.c.id s.r) (vote s'.c.id s'.r)

pub VoteKept-refl : (a : Option NodeId) → VoteKept a a
VoteKept-refl none = tt
VoteKept-refl (some v) = refl

VoteKept-trans : (a b c : Option NodeId) → VoteKept a b → VoteKept b c → VoteKept a c
VoteKept-trans none b c p q = tt
VoteKept-trans (some v) none c p q = cc
VoteKept-trans (some v) (some w) c p q = ground arith

module _ {Cmd : Type 0} where
  pub Progress-refl : (s : State Cmd) → Progress s s
  Progress-refl s = record {
    term_le = omega arith;
    id_same = refl;
    node_ids_same = refl;
    vote_kept = λ e. VoteKept-refl (vote s.c.id s.r);
  }

  pub Progress-trans : {s t u : State Cmd} → Progress s t → Progress t u → Progress s u
  Progress-trans p q = record {
    term_le = omega arith;
    id_same = cc;
    node_ids_same = cc;
    vote_kept = λ e. VoteKept-trans _ _ _ (p.vote_kept (omega arith)) (q.vote_kept (omega arith));
  }

  pub maybe_step_down-Progress :
      (s : State Cmd) (remote : ℕ) {s' : State Cmd}
      → maybe_step_down s remote ≡ ok s'
      → Progress s s'
  unfolding maybe_step_down
  maybe_step_down-Progress s remote h = ground (arith, VoteKept-refl (vote s.c.id s.r))

  pub become_candidate-Progress :
      (clock : Clock) (s : State Cmd) {s' : State Cmd} {msgs : Outgoing Cmd}
      → become_candidate clock s ≡ ok (s', msgs)
      → Progress s s'
  unfolding become_candidate
  become_candidate-Progress clock s h = ground arith

  pub maybe_begin_election-Progress :
      (clock : Clock) (s : State Cmd) {s' : State Cmd} {msgs : Outgoing Cmd}
      → maybe_begin_election clock s ≡ ok (s', msgs)
      → Progress s s'
  unfolding maybe_begin_election
  maybe_begin_election-Progress clock s h = ground (arith, VoteKept-refl (vote s.c.id s.r))

  grants-VoteKept :
      (c : Common Cmd) (v : Option NodeId) (peer : NodeId) (t : ℕ) (i : Option LogIndex)
      (u : Option ℕ)
      → grants c v peer t i u ≡ true
      → VoteKept v (some peer)
  unfolding grants
  grants-VoteKept c none peer t i u h = tt
  grants-VoteKept c (some v) peer t i u h = ground (arith, eq_iff peer v)

  pub handle_vote_request-Progress :
      (clock : Clock) (s : State Cmd) (peer : NodeId) (t : ℕ) (i : Option LogIndex) (u : Option ℕ)
      {s' : State Cmd} {msg : RaftMessage Cmd}
      → handle_vote_request clock s peer t i u ≡ ok (s', msg)
      → Progress s s'
  unfolding handle_vote_request
  handle_vote_request-Progress clock s peer t i u {s'} h = go s.r refl
    where
      go : (r : Role) → s.r ≡ r → Progress s s'
      go (follower leader_id voted_for) e =
          ground (arith, grants-VoteKept s.c voted_for peer t i u, VoteKept-refl voted_for)
      go (candidate votes) e = ground arith
      go (leader next_indexes match_indexes last_replication) e = ground arith

  pub replicate_log-Progress :
      (clock : Clock) (s : State Cmd) {s' : State Cmd} {msgs : Outgoing Cmd}
      → replicate_log clock s ≡ ok (s', msgs)
      → Progress s s' × (s'.c ≡ s.c)
  unfolding replicate_log
  replicate_log-Progress clock s h = ground (arith, VoteKept-refl (vote s.c.id s.r))

  pub become_leader-Progress :
      (clock : Clock) (s : State Cmd) {s' : State Cmd} {msgs : Outgoing Cmd}
      → become_leader clock s ≡ ok (s', msgs)
      → Progress s s'
  unfolding become_leader
  become_leader-Progress clock s h =
      let (a, standing, h₁) = >>=-eq-ok (assert (is_candidate s.r)) _ h in
      let (next, e₁, h₂) = >>=-eq-ok (next_index s.c.log) _ h₁ in
      let (nexts, e₂, h₃) = >>=-eq-ok (initial_next_indexes s.c.id next s.c.node_ids) _ h₂ in
      let s₁ : State Cmd = record s {
        r = leader nexts (initial_match_indexes s.c.node_ids) none;
      } in
      let promoted : Progress s s₁ = ground arith in
      Progress-trans promoted (replicate_log-Progress clock s₁ h₃).0

  pub accept_leader-Progress :
      (clock : Clock) (s : State Cmd) (peer : NodeId) (t : ℕ) {s' : State Cmd}
      → accept_leader clock s peer t ≡ ok s'
      → Progress s s'
  unfolding accept_leader
  accept_leader-Progress clock s peer t h = ground (arith, VoteKept-refl (vote s.c.id s.r))

  count_vote-Progress :
      (clock : Clock) (s : State Cmd) (votes : List NodeId) (peer : NodeId) {s' : State Cmd}
      {msgs : Outgoing Cmd}
      → s.r ≡ candidate votes
      → count_vote clock s votes peer ≡ ok (s', msgs)
      → Progress s s'
  unfolding count_vote
  count_vote-Progress clock s votes peer e h =
      let s₁ : State Cmd = record s { r = candidate (set_insert peer votes) } in
      let counted : Progress s s₁ = ground arith in
      elim (Bool-cases (won_election s.c (length (set_insert peer votes)))) [
        | inl won ↦ Progress-trans counted (become_leader-Progress clock s₁ (rw won at h))
        | inr lost ↦ ground arith
      ]

  pub handle_vote_response-Progress :
      (clock : Clock) (s : State Cmd) (peer : NodeId) (t : ℕ) (granted : Bool) {s' : State Cmd}
      {msgs : Outgoing Cmd}
      → handle_vote_response clock s peer t granted ≡ ok (s', msgs)
      → Progress s s'
  unfolding handle_vote_response
  handle_vote_response-Progress clock s peer t granted {s'} {msgs} h = go s.r refl
    where
      go : (r : Role) → s.r ≡ r → Progress s s'
      go (candidate votes) e = ground (
        arith,
        VoteKept-refl (vote s.c.id s.r),
        count_vote-Progress clock s votes peer {s' = s'} {msgs = msgs} e,
      )
      go (follower leader_id voted_for) e = ground (arith, VoteKept-refl (vote s.c.id s.r))
      go (leader next_indexes match_indexes last_replication) e =
          ground (arith, VoteKept-refl (vote s.c.id s.r))
