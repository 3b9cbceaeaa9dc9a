-- ===== src/Engine/Durable.antt =====
-- Stable storage and what a node says to its peers (raft/src/lib.rs,
-- `incoming_raft_rpcs_loop`, and raft/src/persistence.rs).
use miniraft.Prelude.{
  ℕ, ◌≤◌, ◌≡◌, refl, Bool, true, false, Bool-cases, inl, inr, Option, none, some, [], ◌∷◌, arith,
  ok, >>=-eq-ok, sym, subst, ap, ◌∙◌, ◌⊎◌,
}
use miniraft.Rpc.{NodeId, RaftMessage, request_vote, request_vote_response, term}
use miniraft.Raft.Index.{LogIndex}
use miniraft.Raft.State.{
  State, Role, Clock, Persistent, follower, candidate, leader, maybe_step_down,
}
use miniraft.Raft.Election.{handle_vote_request}
use miniraft.Raft.Progress.{vote, VoteKept, Progress}
use miniraft.Raft.Progress.Reach.{Reach, Reach-Progress}
use miniraft.Raft.Progress.Crashes.{Node, Run, Run-Lasting, persistent-vote, snapshot-Since}
use miniraft.Persist.{persistent}
use miniraft.Engine.{Handled, Served, dispatch, peer_step}

module _ {Cmd M : Type 0} (apply : M → Cmd → M) where
  -- A turn of the loop that does not panic steps down, handles the message, and then either
  -- writes the persistent version of the state that it leaves and sends what the handler
  -- answered, or fails to write and sends nothing.
  pub peer_step-durable :
      (write : Persistent Cmd → Bool) (clock : Clock) (before after : State Cmd → State Cmd)
      (s : State Cmd) (machine : M) (peer : NodeId) (msg : RaftMessage Cmd) {served : Served Cmd M}
      → peer_step apply write clock before after s machine peer msg ≡ ok served
      → (s₁ : State Cmd) × (h : Handled Cmd M) × (p : Persistent Cmd) × (maybe_step_down s
            (term msg)
          ≡ ok s₁)
        × (dispatch apply clock (before s₁) machine peer msg ≡ ok h)
        × (served.state ≡ after h.state)
        × (persistent served.state ≡ ok p)
        × (((write p ≡ true) × (served.written ≡ some p) × (served.sent ≡ h.responses))
            ⊎ ((write p ≡ false) × (served.written ≡ none) × (served.sent ≡ [])))
  unfolding peer_step
  peer_step-durable write clock before after s machine peer msg {served} e =
      let (s₁, e₁, f₁) = >>=-eq-ok (maybe_step_down s (term msg)) _ e in
      let (h, e₂, f₂) = >>=-eq-ok (dispatch apply clock (before s₁) machine peer msg) _ f₁ in
      let (p, e₃, f₃) = >>=-eq-ok (persistent (after h.state)) _ f₂ in
      let same : served.state ≡ after h.state = ground arith in
      (
        s₁,
        h,
        p,
        e₁,
        e₂,
        same,
        rw same e₃,
        elim (Bool-cases (write p)) [
          | inl w ↦ inl (w, ground arith, ground arith)
          | inr w ↦ inr (w, ground arith, ground arith)
        ],
      )

  grant-vote :
      (clock : Clock) (s : State Cmd) (r : Role) (peer : NodeId) (t : ℕ) (i : Option LogIndex)
      (u : Option ℕ) {s' : State Cmd} {w : ℕ}
      → s.r ≡ r
      → handle_vote_request clock s peer t i u ≡ ok (s', request_vote_response w true)
      → (vote s'.c.id s'.r ≡ some peer) × (s'.c.current_term ≡ w)
  unfolding handle_vote_request
  grant-vote clock s (follower l v) peer t i u e h = ground arith
  grant-vote clock s (candidate votes) peer t i u e h = ground arith
  grant-vote clock s (leader nexts matches last) peer t i u e h = ground arith

  vote-kept :
      (s z : State Cmd) (peer : NodeId) (w : ℕ) (p : Persistent Cmd)
      → vote s.c.id s.r ≡ some peer
      → s.c.current_term ≡ w
      → Progress s z
      → persistent z ≡ ok p
      → (w ≤ p.current_term) × (p.current_term ≡ w → p.voted_for ≡ some peer)
  vote-kept s z peer w p v t g saved =
      let (pt, pv, pl) = persistent-vote z p saved in
      (
        ground (arith, g.term_le),
        λ e. pv ∙ subst (λ o. VoteKept o (vote z.c.id z.r)) v (g.vote_kept (ground arith)),
      )

  -- Let the other threads make any run of locked calls after the handler. If a granted vote
  -- leaves the node, then what was written to stable storage has the vote's term or a later
  -- one, and names the candidate if it has that term.
  pub granted_vote-durable :
      (write : Persistent Cmd → Bool) (clock : Clock) (before after : State Cmd → State Cmd)
      (s : State Cmd) (machine : M) (peer : NodeId) (t : ℕ) (i : Option LogIndex) (u : Option ℕ)
      (w : ℕ) {served : Served Cmd M}
      → ((q : State Cmd) → Reach apply q (after q))
      → peer_step apply write clock before after s machine peer (request_vote t i u) ≡ ok served
      → served.sent ≡ (peer, request_vote_response w true) ∷ []
      → (p : Persistent Cmd) × (served.written ≡ some p)
        × (w ≤ p.current_term)
        × (p.current_term ≡ w → p.voted_for ≡ some peer)
  unfolding dispatch
  granted_vote-durable write clock before after s machine peer t i u w {served} others e sent =
      let (s₁, h, p, e₁, e₂, same, saved, done) =
        peer_step-durable write clock before after s machine peer (request_vote t i u) e in
      let ((s', msg), ev, hv) = >>=-eq-ok (handle_vote_request clock (before s₁) peer t i u) _ e₂ in
      let m : msg ≡ request_vote_response w true = elim done [
        | inl k ↦ ground arith
        | inr k ↦ ground arith
      ] in
      let (v, term_w) =
        grant-vote clock (before s₁) (before s₁).r peer t i u refl
          (subst (λ x. handle_vote_request clock (before s₁) peer t i u ≡ ok (s', x)) m ev) in
      let left : h.state ≡ s' = ground arith in
      let g : Progress s' (after s') = Reach-Progress apply (others s') in
      let at_end : persistent (after s') ≡ ok p =
        ap persistent (sym (same ∙ ap after left)) ∙ saved in
      let (le, kept) = vote-kept s' (after s') peer w p v term_w g at_end in
      elim done [ inl k ↦ (p, k.1, le, kept) | inr k ↦ ground arith ]

  -- Let the other threads make any run of locked calls after the handler, and let a granted
  -- vote leave the node, so that its state was written. However the node goes on from there,
  -- through locked calls, further writes and crashes after which it boots from what was last
  -- written: whenever it is in the term of that vote, its vote is for the same candidate.
  pub granted_vote-survives :
      (write : Persistent Cmd → Bool) (clock : Clock) (before after : State Cmd → State Cmd)
      (s : State Cmd) (machine : M) (peer : NodeId) (t : ℕ) (i : Option LogIndex) (u : Option ℕ)
      (w : ℕ) {served : Served Cmd M} (p : Persistent Cmd) {m : Node Cmd}
      → ((q : State Cmd) → Reach apply q (after q))
      → peer_step apply write clock before after s machine peer (request_vote t i u) ≡ ok served
      → served.sent ≡ (peer, request_vote_response w true) ∷ []
      → served.written ≡ some p
      → Run apply (record { live = served.state; pending = none; stored = p }) m
      → m.live.c.current_term ≡ w
      → vote m.live.c.id m.live.r ≡ some peer
  granted_vote-survives write clock before after s machine peer t i u w {served} p {m} others e sent
        out run same_term =
      let (p', out', le, kept) =
        granted_vote-durable write clock before after s machine peer t i u w others e sent in
      let (s₁, h, q, e₁, e₂, left, saved, done) =
        peer_step-durable write clock before after s machine peer (request_vote t i u) e in
      let stored : persistent served.state ≡ ok p = elim done [
        | inl k ↦ ground arith
        | inr k ↦ ground arith
      ] in
      let (_, lasting) =
        Run-Lasting apply run
          (record { behind = snapshot-Since served.state p stored; between = tt }) in
      let same : p' ≡ p = cc in
      let term_same : p.current_term ≡ w =
        omega (arith, lasting.state.term_le, ap (λ (x : Persistent Cmd). x.current_term) same) in
      let voted : p.voted_for ≡ some peer =
        subst (λ x. x.current_term ≡ w → x.voted_for ≡ some peer) same kept term_same in
      subst (λ o. VoteKept o (vote m.live.c.id m.live.r)) voted
        (lasting.state.vote_kept (same_term ∙ sym term_same))
