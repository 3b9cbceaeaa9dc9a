-- ===== src/Raft/Election/Votes.antt =====
-- When a node grants its vote (raft/src/state.rs, `handle_vote_request`, `maybe_step_down`).
use Prim.Native.Nat.{Ordering}
use miniraft.Prelude.{
  ℕ, suc, ◌≤◌, ◌<◌, ◌≡◌, ◌≢◌, ◌↔◌, refl, ◌⊎◌, inl, inr, true, false, Bool-cases, Option, none, some,
  arith, str_eq, eq_iff, ok,
}
use miniraft.Rpc.{NodeId, request_vote_response}
use miniraft.Raft.Index.{LogIndex, reach, opt_le, opt_le-reach}
use miniraft.Raft.Log.{Log, highest_index}
use miniraft.Raft.State.{
  Common, Role, follower, candidate, leader, State, Clock, maybe_step_down, last_term,
  current_leader, extend_election_deadline,
}
use miniraft.Raft.Election.{opt_compare, up_to_date, grants, handle_vote_request}

-- The place of an optional term in its order.
abbrev pub rank : Option ℕ → ℕ
rank none = 0
rank (some t) = suc t

-- The candidate's log ends in a later term, or in the same one and is at least as long.
abbrev pub AtLeastAsUpToDate : Option ℕ → Option LogIndex → Option ℕ → Option LogIndex → Type 0
AtLeastAsUpToDate our_term our_index their_term their_index =
    (rank our_term < rank their_term)
    ⊎ ((rank our_term ≡ rank their_term) × (reach our_index ≤ reach their_index))

up_to_date_sound :
    (a b : Option ℕ) (i j : Option LogIndex)
    → elim (opt_compare b a) [ Ordering.lt ↦ false | Ordering.eq ↦ opt_le i j | Ordering.gt ↦ true ]
      ≡ true
    → AtLeastAsUpToDate a i b j
up_to_date_sound none none i j h = ground (arith, opt_le-reach i j)
up_to_date_sound none (some b) i j h = inl (omega arith)
up_to_date_sound (some a) none i j h = absurd (cc)
up_to_date_sound (some a) (some b) i j h = ground (arith, opt_le-reach i j)

up_to_date_complete :
    (a b : Option ℕ) (i j : Option LogIndex)
    → AtLeastAsUpToDate a i b j
    → elim (opt_compare b a) [ Ordering.lt ↦ false | Ordering.eq ↦ opt_le i j | Ordering.gt ↦ true ]
      ≡ true
up_to_date_complete none none i j h = ground (arith, opt_le-reach i j)
up_to_date_complete none (some b) i j h = refl
up_to_date_complete (some a) none i j h = absurd (ground arith)
up_to_date_complete (some a) (some b) i j h = ground (arith, opt_le-reach i j)

module _ {Cmd : Type 0} where
  -- A candidate's last entry passes the test of the logs exactly if its term is later than that
  -- of the node's last entry, or the same and its index not lower, where no entry counts as
  -- before all.
  pub up_to_date_iff :
      (log : Log Cmd) (i : Option LogIndex) (u : Option ℕ)
      → (up_to_date log i u ≡ true) ↔ AtLeastAsUpToDate (last_term log) (highest_index log) u i
  unfolding up_to_date
  up_to_date_iff log i u = (
    up_to_date_sound (last_term log) u (highest_index log) i,
    up_to_date_complete (last_term log) u (highest_index log) i,
  )

  grants-true :
      (c : Common Cmd) (v : Option NodeId) (peer : NodeId) (t : ℕ) (i : Option LogIndex)
      (u : Option ℕ)
      → grants c v peer t i u ≡ true
      → (c.current_term ≤ t)
        × ((v ≡ none) ⊎ (v ≡ some peer))
        × AtLeastAsUpToDate (last_term c.log) (highest_index c.log) u i
  unfolding grants
  grants-true c none peer t i u h =
      (ground arith, inl refl, (up_to_date_iff c.log i u).0 (ground arith))
  grants-true c (some v) peer t i u h =
      (ground arith, ground (arith, eq_iff peer v), (up_to_date_iff c.log i u).0 (ground arith))

  grants-of :
      (c : Common Cmd) (v : Option NodeId) (peer : NodeId) (t : ℕ) (i : Option LogIndex)
      (u : Option ℕ)
      → c.current_term ≤ t
      → (v ≡ none) ⊎ (v ≡ some peer)
      → AtLeastAsUpToDate (last_term c.log) (highest_index c.log) u i
      → grants c v peer t i u ≡ true
  unfolding grants
  grants-of c none peer t i u h w a = ground (arith, (up_to_date_iff c.log i u).1 a)
  grants-of c (some v) peer t i u h w a =
      ground (arith, eq_iff peer v, (up_to_date_iff c.log i u).1 a)

  -- A follower whose term is not ahead, which has not voted for another, and whose log is not ahead.
  abbrev pub Eligible : Common Cmd → Role → NodeId → ℕ → Option LogIndex → Option ℕ → Type 0
  Eligible c (follower l v) peer t i u =
      (c.current_term ≤ t)
      × ((v ≡ none) ⊎ (v ≡ some peer))
      × AtLeastAsUpToDate (last_term c.log) (highest_index c.log) u i
  Eligible c (candidate votes) peer t i u = ⊥
  Eligible c (leader nexts matches last) peer t i u = ⊥

  -- The state after a granted vote: the vote is registered and the election deadline is pushed on.
  abbrev pub voted : Clock → State Cmd → NodeId → State Cmd
  voted clock s peer = record s {
    c = extend_election_deadline clock s.c;
    r = follower (current_leader s) (some peer);
  }

  -- A vote request from another node is granted if the node is a follower whose term is not
  -- ahead, which has not voted for another and whose log is not ahead of the candidate's; then
  -- the vote is registered and the election deadline extended. Otherwise it is refused and
  -- nothing changes. Either answer has the node's term.
  pub handle_vote_request-decides :
      (clock : Clock) (s : State Cmd) (peer : NodeId) (t : ℕ) (i : Option LogIndex) (u : Option ℕ)
      → s.c.id ≢ peer
      → (Eligible s.c s.r peer t i u
          × (handle_vote_request clock s peer t i u
              ≡ ok (voted clock s peer, request_vote_response s.c.current_term true)))
        ⊎ (¬ Eligible s.c s.r peer t i u
            × (handle_vote_request clock s peer t i u
                ≡ ok (s, request_vote_response s.c.current_term false)))
  unfolding handle_vote_request
  handle_vote_request-decides clock s peer t i u n = go s.r refl
    where
      other : str_eq s.c.id peer ≡ false
      other = ground (arith, eq_iff s.c.id peer)

      go :
          (r : Role)
          → s.r ≡ r
          → (Eligible s.c s.r peer t i u
              × (handle_vote_request clock s peer t i u
                  ≡ ok (voted clock s peer, request_vote_response s.c.current_term true)))
            ⊎ (¬ Eligible s.c s.r peer t i u
                × (handle_vote_request clock s peer t i u
                    ≡ ok (s, request_vote_response s.c.current_term false)))
      go (follower l v) e = elim (Bool-cases (grants s.c v peer t i u)) [
        | inl g ↦ inl (rw e (grants-true s.c v peer t i u g), rw other (ground arith))
        | inr g ↦
            inr (rw e (λ w. cc (grants-of s.c v peer t i u w.0 w.1 w.2)), rw other (ground arith))
      ]
      go (candidate votes) e = inr (rw e (λ w. w), rw other (ground arith))
      go (leader nexts matches last) e = inr (rw e (λ w. w), rw other (ground arith))

  -- A follower that has voted keeps that vote when it enters a later term, and so refuses every
  -- other candidate of the new term, whatever the candidate's log.
  pub maybe_step_down-blocks_votes :
      (clock : Clock) (s : State Cmd) (l : Option NodeId) (v peer : NodeId) (t : ℕ)
      (i : Option LogIndex) (u : Option ℕ)
      → s.r ≡ follower l (some v)
      → s.c.current_term < t
      → s.c.id ≢ peer
      → peer ≢ v
      → (s' : State Cmd) × (maybe_step_down s t ≡ ok s')
        × (s'.c.current_term ≡ t)
        × (handle_vote_request clock s' peer t i u ≡ ok (s', request_vote_response t false))
  unfolding maybe_step_down handle_vote_request grants
  maybe_step_down-blocks_votes clock s l v peer t i u e later n m = (
    record s { c = record (s.c) { current_term = t } },
    ground arith,
    refl,
    ground (arith, eq_iff s.c.id peer, eq_iff peer v),
  )
