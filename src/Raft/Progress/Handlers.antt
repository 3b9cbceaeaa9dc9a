-- ===== src/Raft/Progress/Handlers.antt =====
-- Terms, votes and identity in the handlers of AppendEntries and its response
-- (raft/src/state.rs).
use miniraft.Prelude.{
  ℕ, ◌≡◌, refl, ap, inl, inr, Bool, true, false, Bool-cases, Option, none, some, Option-cases,
  Outcome-cases, List, arith, ltb, ok, >>=-eq-ok, ok-injective, insert, lookup,
}
use miniraft.Rpc.{NodeId, RaftMessage, Outgoing}
use miniraft.Raft.Index.{LogIndex, inc, dec, unwrap_or_default, opt_lt}
use miniraft.Raft.Log.{Log, replace_from}
use miniraft.Raft.State.{Common, Role, follower, candidate, leader, State, Clock}
use miniraft.Raft.Commit.{commit_role, advance_commit_index}
use miniraft.Raft.Commit.Quorum.{advance_state_machine-Frame, commit_by-Committed}
use miniraft.Raft.Append.{
  insertion_index, accept_leader, consistent, follow_commit, store_entries, append_accepted,
  handle_append_entries, retry, record_match, respond_as_leader, handle_append_entries_response,
}
use miniraft.Raft.Progress.{
  vote, VoteKept-refl, Progress, Progress-refl, Progress-trans, replicate_log-Progress,
  accept_leader-Progress,
}

-- The parts of the common state that entries and commits leave alone.
pub record Settled {Cmd : Type 0} (c c' : Common Cmd) : Type 0 where
  pub term_same : c'.current_term ≡ c.current_term
  pub id_same : c'.id ≡ c.id
  pub nodes_same : c'.node_ids ≡ c.node_ids

Settled-Progress :
    {Cmd : Type 0} (s : State Cmd) (c' : Common Cmd)
    → Settled s.c c'
    → Progress s (record s { c = c' })
Settled-Progress s c' f = ground (arith, VoteKept-refl (vote s.c.id s.r))

module _ {Cmd M : Type 0} (apply : M → Cmd → M) where
  follow_commit-Settled :
      (c : Common Cmd) (leader_commit : Option LogIndex) (machine : M) {c' : Common Cmd}
      {machine' : M}
      → follow_commit apply c leader_commit machine ≡ ok (c', machine')
      → Settled c c'
  unfolding follow_commit
  follow_commit-Settled c leader_commit machine h =
      elim (Bool-cases (opt_lt c.commit_index leader_commit)) [
        | inl more ↦
            let f = advance_state_machine-Frame apply _ machine (rw (more, follow_commit) at h) in
            record { term_same = f.term_same; id_same = f.id_same; nodes_same = f.nodes_same }
        | inr same ↦ ground arith
      ]

  store_entries-Settled :
      (c : Common Cmd) (leader_commit prev : Option LogIndex) (entries : Log Cmd) (machine : M)
      {r : Common Cmd × M × List Cmd}
      → store_entries apply c leader_commit prev entries machine ≡ ok r
      → Settled c r.0
  unfolding store_entries
  store_entries-Settled c leader_commit prev entries machine {r} h =
      let (i, e₁, h₁) = >>=-eq-ok (insertion_index prev) _ h in
      let ((log', gone), e₂, h₂) = >>=-eq-ok (replace_from c.log i entries) _ h₁ in
      let ((c₁, m₁), e₃, h₃) =
        >>=-eq-ok (follow_commit apply (record c { log = log' }) leader_commit machine) _ h₂ in
      let f : Settled (record c { log = log' }) c₁ =
        follow_commit-Settled (record c { log = log' }) leader_commit machine e₃ in
      let same : c₁ ≡ r.0 = ground arith in record { term_same = cc; id_same = cc; nodes_same = cc }

  append_accepted-Progress :
      (s : State Cmd) (leader_commit prev : Option LogIndex) (prev_term : Option ℕ)
      (entries : Log Cmd) (machine : M) {s' : State Cmd} {machine' : M} {gone : List Cmd}
      {msg : RaftMessage Cmd}
      → append_accepted apply s leader_commit prev prev_term entries machine
        ≡ ok (s', machine', gone, msg)
      → Progress s s'
  unfolding append_accepted
  append_accepted-Progress s leader_commit prev prev_term entries machine {s'} h =
      elim (Bool-cases (consistent s.c.log prev prev_term)) [
        | inl fits ↦
            elim (Outcome-cases (store_entries apply s.c leader_commit prev entries machine)) [
              | inl (r, e) ↦
                  let p =
                    Settled-Progress s r.0
                      (store_entries-Settled s.c leader_commit prev entries machine e) in
                  let same : record s { c = r.0 } ≡ s' = ground arith in rw same at p
              | inr e ↦ ground arith
            ]
        | inr differs ↦ ground (arith, Progress-refl s)
      ]

  pub handle_append_entries-Progress :
      (clock : Clock) (s : State Cmd) (peer : NodeId) (t : ℕ) (leader_commit prev : Option LogIndex)
      (prev_term : Option ℕ) (entries : Log Cmd) (machine : M) {s' : State Cmd} {machine' : M}
      {gone : List Cmd} {msg : RaftMessage Cmd}
      → handle_append_entries apply clock s peer t leader_commit prev prev_term entries machine
        ≡ ok (s', machine', gone, msg)
      → Progress s s'
  unfolding handle_append_entries
  handle_append_entries-Progress clock s peer t leader_commit prev prev_term entries machine h =
      elim (Bool-cases (ltb t s.c.current_term)) [
        | inl stale ↦ ground (arith, Progress-refl s)
        | inr fresh ↦
            let (s₁, e, h₁) =
              >>=-eq-ok (accept_leader clock s peer t) _ (rw (fresh, handle_append_entries) at h) in
            Progress-trans (accept_leader-Progress clock s peer t e)
              (append_accepted-Progress s₁ leader_commit prev prev_term entries machine h₁)
      ]

  pub advance_commit_index-Progress :
      (s : State Cmd) (machine : M) {r : State Cmd × M}
      → advance_commit_index apply s machine ≡ ok r
      → Progress s r.0
  unfolding advance_commit_index
  advance_commit_index-Progress s machine {r} h =
      let (p, e, h₁) = >>=-eq-ok (commit_role apply s.r s.c machine) _ h in
      let same : record s { c = p.0 } ≡ r.0 = ground arith in
      rw same at (Settled-Progress s p.0 (settled s.r refl p.0 p.1 e))
    where
      settled :
          (role : Role)
          → s.r ≡ role
          → (c' : Common Cmd) (machine' : M)
          → commit_role apply role s.c machine ≡ ok (c', machine')
          → Settled s.c c'
      settled (leader nexts matches last) q c' machine' e =
          let (a, b, c, d, f, g) = commit_by-Committed apply matches s.c machine e in
          record { term_same = b; id_same = c; nodes_same = d }
      settled (follower leader_id voted_for) q c' machine' e = absurd (cc)
      settled (candidate votes) q c' machine' e = absurd (cc)

  record_match-Progress :
      (s : State Cmd) (peer : NodeId) (nexts : List (NodeId × LogIndex))
      (matches : List (NodeId × Option LogIndex)) (last : Option ℕ) (index : Option LogIndex)
      (machine : M) {r : State Cmd × M}
      → s.r ≡ leader nexts matches last
      → record_match apply s peer nexts matches last index machine ≡ ok r
      → Progress s r.0
  unfolding record_match
  record_match-Progress s peer nexts matches last none machine q h = ground (arith, Progress-refl s)
  record_match-Progress s peer nexts matches last (some i) machine q h =
      let (next, e, h₁) = >>=-eq-ok (inc i) _ h in
      let s₁ : State Cmd = record s {
        r = leader (insert peer next nexts) (insert peer (some i) matches) last;
      } in
      let p : Progress s s₁ = ground arith in
      Progress-trans p (advance_commit_index-Progress s₁ machine h₁)

  retry-Progress :
      (clock : Clock) (s : State Cmd) (peer : NodeId) (nexts : List (NodeId × LogIndex))
      (matches : List (NodeId × Option LogIndex)) (last : Option ℕ) (next : LogIndex)
      {r : State Cmd × Outgoing Cmd}
      → s.r ≡ leader nexts matches last
      → retry clock s peer nexts matches last next ≡ ok r
      → Progress s r.0
  unfolding retry
  retry-Progress clock s peer nexts matches last next q h =
      let s₁ : State Cmd = record s {
        r = leader (insert peer (unwrap_or_default (dec next)) nexts) matches last;
      } in
      let p : Progress s s₁ = ground arith in Progress-trans p (replicate_log-Progress clock s₁ h).0

  respond_as_leader-Progress :
      (clock : Clock) (s : State Cmd) (peer : NodeId) (success : Bool) (index : Option LogIndex)
      (machine : M) (nexts : List (NodeId × LogIndex)) (matches : List (NodeId × Option LogIndex))
      (last : Option ℕ) {r : State Cmd × M × Outgoing Cmd}
      → s.r ≡ leader nexts matches last
      → respond_as_leader apply clock s peer success index machine nexts matches last ≡ ok r
      → Progress s r.0
  unfolding respond_as_leader
  respond_as_leader-Progress clock s peer success index machine nexts matches last {r} q h =
      elim (Option-cases (lookup peer nexts)) [
        | inl e ↦ ground (arith, Progress-refl s)
        | inr (next, e) ↦ refused_or_matched success refl next e
      ]
    where
      refused_or_matched :
          (b : Bool)
          → success ≡ b
          → (next : LogIndex) → lookup peer nexts ≡ some next
          → Progress s r.0
      refused_or_matched false b next e =
          let (p, e₁, h₁) =
            >>=-eq-ok (retry clock s peer nexts matches last next) _
              (rw (e, b, respond_as_leader) at h) in
          rw (ap (λ (x : State Cmd × M × Outgoing Cmd). x.0) (ok-injective h₁)) at
            (retry-Progress clock s peer nexts matches last next q e₁)
      refused_or_matched true b next e = elim (Option-cases (lookup peer matches)) [
        | inl e' ↦ ground (arith, Progress-refl s)
        | inr (m, e') ↦
            let (p, e₁, h₁) =
              >>=-eq-ok (record_match apply s peer nexts matches last index machine) _
                (rw (e, b, e', respond_as_leader) at h) in
            rw (ap (λ (x : State Cmd × M × Outgoing Cmd). x.0) (ok-injective h₁)) at
              (record_match-Progress s peer nexts matches last index machine q e₁)
      ]

  pub handle_append_entries_response-Progress :
      (clock : Clock) (s : State Cmd) (peer : NodeId) (success : Bool) (index : Option LogIndex)
      (machine : M) {r : State Cmd × M × Outgoing Cmd}
      → handle_append_entries_response apply clock s peer success index machine ≡ ok r
      → Progress s r.0
  unfolding handle_append_entries_response
  handle_append_entries_response-Progress clock s peer success index machine {r} h = go s.r refl
    where
      go : (role : Role) → s.r ≡ role → Progress s r.0
      go (follower leader_id voted_for) q = ground (arith, Progress-refl s)
      go (candidate votes) q = ground (arith, Progress-refl s)
      go (leader nexts matches last) q =
          respond_as_leader-Progress clock s peer success index machine nexts matches last {r = r} q
            (ground arith)
