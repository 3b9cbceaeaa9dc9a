-- ===== src/Raft/Roles.antt =====
-- What each role's own state should hold (raft/src/state.rs, `Role`).
pub mod Handlers
pub mod Reach
use miniraft.Prelude.{
  ℕ, ◌≤◌, ◌<◌, ◌≡◌, refl, ap, ◌∙◌, ◌⊎◌, inl, inr, Bool, true, false, Bool-cases, Option, none, some,
  Option-cases, List, [], ◌∷◌, map, arith, ltb, if◌then◌else◌, length, lookup, insert,
  lookup-insert, contains, set_insert, contains-set_insert, str_eq, eq_iff, eq_refl, Outcome, ok,
  ◌>>=◌, >>=-eq-ok, assert, expect, not, ok-injective, Outcome-cases,
}
use miniraft.Rpc.{NodeId, RaftMessage, Outgoing}
use miniraft.Raft.Index.{LogIndex, unwrap_or_default}
use miniraft.Raft.State.{
  Common, Role, follower, candidate, leader, State, Clock, maybe_step_down, maybe_begin_election,
  is_empty, become_follower, follower_role,
}
use miniraft.Raft.Replication.{
  heartbeat_needed, message_for, replicate_to, replicate_log, next_index, initial_next_indexes,
  initial_match_indexes, is_candidate, become_leader,
}
use miniraft.Raft.Election.{count_vote, won_election, handle_vote_request, handle_vote_response}
use miniraft.Raft.Election.Quorum.{Distinct, set_insert-Distinct}

-- Every node of a list has a value.
abbrev pub Covers : {V : Type 0} → List NodeId → List (NodeId × V) → Type 0
Covers {V} [] m = Unit {0}
Covers {V} (node ∷ nodes) m = ((v : V) × (lookup node m ≡ some v)) × Covers nodes m

-- A candidate has its own vote and counts no vote twice; a leader tracks every peer.
abbrev pub RoleInv : NodeId → List NodeId → Role → Type 0
RoleInv id node_ids (follower leader_id voted_for) = Unit {0}
RoleInv id node_ids (candidate votes) = (contains votes id ≡ true) × Distinct votes
RoleInv id node_ids (leader next_indexes match_indexes last_replication) =
    Covers node_ids next_indexes × Covers node_ids match_indexes

abbrev pub IsSound : {Cmd : Type 0} → State Cmd → Type 0
IsSound s = RoleInv s.c.id s.c.node_ids s.r

follower_role-RoleInv :
    (id : NodeId) (node_ids : List NodeId) (r : Role) (v : Option NodeId)
    → RoleInv id node_ids (follower_role r v)
follower_role-RoleInv id node_ids (follower l w) v = tt
follower_role-RoleInv id node_ids (candidate votes) v = tt
follower_role-RoleInv id node_ids (leader nexts matches last) v = tt

module _ {V : Type 0} where
  pub Covers-insert :
      (k : NodeId) (v : V) (nodes : List NodeId) (m : List (NodeId × V))
      → Covers nodes m
      → Covers nodes (insert k v m)
  Covers-insert k v [] m h = tt
  Covers-insert k v (node ∷ nodes) m h = (
    elim (Bool-cases (str_eq k node)) [
      | inl e ↦ (v, lookup-insert k node v m ∙ ap (λ b. if b then some v else lookup node m) e)
      | inr e ↦ (
        h.0.0,
        lookup-insert k node v m ∙ ap (λ b. if b then some v else lookup node m) e ∙ h.0.1,
      )
    ],
    Covers-insert k v nodes m h.1,
  )

  Covers-insert_self :
      (node : NodeId) (v : V) (nodes : List NodeId) (m : List (NodeId × V))
      → Covers nodes m
      → Covers (node ∷ nodes) (insert node v m)
  Covers-insert_self node v nodes m h = (
    (v, lookup-insert node node v m ∙ ap (λ b. if b then some v else lookup node m) (eq_refl node)),
    Covers-insert node v nodes m h,
  )

pub initial_next_indexes-Covers :
    (id : NodeId) (next : LogIndex) (nodes : List NodeId) {m : List (NodeId × LogIndex)}
    → initial_next_indexes id next nodes ≡ ok m
    → Covers nodes m
unfolding initial_next_indexes
initial_next_indexes-Covers id next [] h = tt
initial_next_indexes-Covers id next (node ∷ nodes) h =
    let (a, e₀, h₀) = >>=-eq-ok (assert (not (str_eq node id))) _ h in
    let (rest, e, h₁) = >>=-eq-ok (initial_next_indexes id next nodes) _ h₀ in
    rw (ok-injective h₁) at
      (Covers-insert_self node next nodes rest (initial_next_indexes-Covers id next nodes e))

initial_match_indexes-Covers : (nodes : List NodeId) → Covers nodes (initial_match_indexes nodes)
unfolding initial_match_indexes
initial_match_indexes-Covers [] = tt
initial_match_indexes-Covers (node ∷ nodes) =
    Covers-insert_self node none nodes _ (initial_match_indexes-Covers nodes)

module _ {Cmd : Type 0} where
  -- A leader that replicates stays one, with its maps.
  replicate_log-role :
      (clock : Clock) (s : State Cmd) (nexts : List (NodeId × LogIndex))
      (matches : List (NodeId × Option LogIndex)) (last : Option ℕ) {s' : State Cmd}
      {msgs : Outgoing Cmd}
      → s.r ≡ leader nexts matches last
      → replicate_log clock s ≡ ok (s', msgs)
      → (last' : Option ℕ) × (s' ≡ record s { r = leader nexts matches last' })
  unfolding replicate_log
  replicate_log-role clock s nexts matches last e h =
      elim (Option-cases (heartbeat_needed last clock.now)) [
        | inl idle ↦ (last, ground arith)
        | inr (beat, due) ↦ elim (Outcome-cases (replicate_to s.c nexts beat s.c.node_ids)) [
          | inl (out, run) ↦ (if is_empty out then last else some clock.later, ground arith)
          | inr run ↦ (last, ground arith)
        ]
      ]

  pub replicate_log-IsSound :
      (clock : Clock) (s : State Cmd) {s' : State Cmd} {msgs : Outgoing Cmd}
      → IsSound s
      → replicate_log clock s ≡ ok (s', msgs)
      → IsSound s'
  unfolding replicate_log
  replicate_log-IsSound clock s {s'} {msgs} v h = go s.r refl
    where
      go : (r : Role) → s.r ≡ r → IsSound s'
      go (follower l w) e = ground arith
      go (candidate votes) e = ground arith
      go (leader nexts matches last) e =
          let (last', q) = replicate_log-role clock s nexts matches last e h in
          let covered : RoleInv s.c.id s.c.node_ids (leader nexts matches last) = rw e at v in
          rw q covered

  become_leader-IsSound :
      (clock : Clock) (s : State Cmd) {s' : State Cmd} {msgs : Outgoing Cmd}
      → become_leader clock s ≡ ok (s', msgs)
      → IsSound s'
  unfolding become_leader
  become_leader-IsSound clock s h =
      let (a, standing, h₁) = >>=-eq-ok (assert (is_candidate s.r)) _ h in
      let (next, e₁, h₂) = >>=-eq-ok (next_index s.c.log) _ h₁ in
      let (nexts, e₂, h₃) = >>=-eq-ok (initial_next_indexes s.c.id next s.c.node_ids) _ h₂ in
      let s₁ : State Cmd = record s {
        r = leader nexts (initial_match_indexes s.c.node_ids) none;
      } in
      replicate_log-IsSound clock s₁
        (
          initial_next_indexes-Covers s.c.id next s.c.node_ids e₂,
          initial_match_indexes-Covers s.c.node_ids,
        )
        h₃

  count_vote-IsSound :
      (clock : Clock) (s : State Cmd) (votes : List NodeId) (peer : NodeId) {s' : State Cmd}
      {msgs : Outgoing Cmd}
      → (contains votes s.c.id ≡ true) × Distinct votes
      → count_vote clock s votes peer ≡ ok (s', msgs)
      → IsSound s'
  unfolding count_vote
  count_vote-IsSound clock s votes peer {s'} v h =
      let s₁ : State Cmd = record s { r = candidate (set_insert peer votes) } in
      elim (Bool-cases (won_election s.c (length (set_insert peer votes)))) [
        | inl won ↦ become_leader-IsSound clock s₁ (rw won at h)
        | inr lost ↦
            let same : s₁ ≡ s' = ground arith in
            rw (← same) (
              contains-set_insert peer s.c.id votes ∙ ground (arith, v.0),
              set_insert-Distinct peer votes v.1,
            )
      ]

  pub handle_vote_response-IsSound :
      (clock : Clock) (s : State Cmd) (peer : NodeId) (t : ℕ) (granted : Bool) {s' : State Cmd}
      {msgs : Outgoing Cmd}
      → IsSound s
      → handle_vote_response clock s peer t granted ≡ ok (s', msgs)
      → IsSound s'
  unfolding handle_vote_response
  handle_vote_response-IsSound clock s peer t granted {s'} {msgs} v h = go s.r refl
    where
      kept : s ≡ s' → IsSound s'
      kept e = rw e at v

      counted :
          (votes : List NodeId)
          → s.r ≡ candidate votes
          → (s ≡ s') ⊎ (count_vote clock s votes peer ≡ ok (s', msgs))
      counted votes e = ground arith

      go : (r : Role) → s.r ≡ r → IsSound s'
      go (follower l w) e = kept (ground arith)
      go (leader nexts matches last) e = kept (ground arith)
      go (candidate votes) e = elim (counted votes e) [
        | inl q ↦ kept q
        | inr q ↦
            let own : RoleInv s.c.id s.c.node_ids (candidate votes) = rw e at v in
            count_vote-IsSound clock s votes peer own q
      ]

  pub handle_vote_request-IsSound :
      (clock : Clock) (s : State Cmd) (peer : NodeId) (t : ℕ) (i : Option LogIndex) (u : Option ℕ)
      {s' : State Cmd} {msg : RaftMessage Cmd}
      → IsSound s
      → handle_vote_request clock s peer t i u ≡ ok (s', msg)
      → IsSound s'
  unfolding handle_vote_request
  handle_vote_request-IsSound clock s peer t i u {s'} v h = go s.r refl
    where
      kept : s ≡ s' → IsSound s'
      kept e = rw e at v

      go : (r : Role) → s.r ≡ r → IsSound s'
      go (follower l w) e = ground arith
      go (candidate votes) e = kept (ground arith)
      go (leader nexts matches last) e = kept (ground arith)

  pub maybe_step_down-IsSound :
      (s : State Cmd) (remote : ℕ) {s' : State Cmd}
      → IsSound s
      → maybe_step_down s remote ≡ ok s'
      → IsSound s'
  unfolding maybe_step_down
  maybe_step_down-IsSound s remote {s'} v h = elim (Bool-cases (ltb s.c.current_term remote)) [
    | inl behind ↦
        let s₁ : State Cmd =
          become_follower (record s { c = record (s.c) { current_term = remote } }) none in
        let e : s₁ ≡ s' = ground arith in
        rw (← e) (follower_role-RoleInv s.c.id s.c.node_ids s.r none)
    | inr ahead ↦ rw (let e : s ≡ s' = ground arith in e) at v
  ]

  pub maybe_begin_election-IsSound :
      (clock : Clock) (s : State Cmd) {s' : State Cmd} {msgs : Outgoing Cmd}
      → IsSound s
      → maybe_begin_election clock s ≡ ok (s', msgs)
      → IsSound s'
  unfolding maybe_begin_election
  maybe_begin_election-IsSound clock s {s'} v h = elim stands [
    | inl (r, i, n) ↦ rw (r, i, n) v
    | inr (r, i, n) ↦ rw (r, i) (rw (eq_refl s.c.id) (refl, (refl, tt)))
  ]
    where
      stands :
          ((s'.r ≡ s.r) × (s'.c.id ≡ s.c.id) × (s'.c.node_ids ≡ s.c.node_ids))
          ⊎ ((s'.r ≡ candidate (s.c.id ∷ [])) × (s'.c.id ≡ s.c.id) × (s'.c.node_ids ≡ s.c.node_ids))
      stands = ground arith
