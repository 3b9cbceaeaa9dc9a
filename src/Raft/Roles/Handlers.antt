-- ===== src/Raft/Roles/Handlers.antt =====
-- Each role's state in the handlers of AppendEntries and its response (raft/src/state.rs).
use miniraft.Prelude.{
  ℕ, ◌≡◌, refl, ap, inl, inr, Bool, true, false, Bool-cases, Option, none, some, Option-cases,
  Outcome-cases, List, ltb, arith, lookup, ok, >>=-eq-ok, ok-injective,
}
use miniraft.Rpc.{NodeId, RaftMessage, Outgoing}
use miniraft.Raft.Index.{LogIndex, inc, dec, unwrap_or_default}
use miniraft.Raft.Log.{Log}
use miniraft.Raft.State.{Role, follower, candidate, leader, State, Clock}
use miniraft.Raft.Commit.{commit_role, advance_commit_index}
use miniraft.Raft.Append.{
  accept_leader, consistent, store_entries, append_accepted, handle_append_entries, retry,
  record_match, respond_as_leader, handle_append_entries_response,
}
use miniraft.Raft.Progress.{Progress}
use miniraft.Raft.Progress.Handlers.{advance_commit_index-Progress}
use miniraft.Raft.Roles.{Covers-insert, RoleInv, IsSound, replicate_log-IsSound}

module _ {Cmd : Type 0} where
  -- Soundness depends on the role and the identity alone.
  IsSound-of : {s s' : State Cmd} → s'.r ≡ s.r → Progress s s' → IsSound s → IsSound s'
  IsSound-of e p v = rw (e, p.id_same, p.node_ids_same) v

  accept_leader_role :
      (clock : Clock) (s : State Cmd) (peer : NodeId) (t : ℕ) {s' : State Cmd}
      → accept_leader clock s peer t ≡ ok s'
      → (v : Option NodeId) × (s'.r ≡ follower (some peer) v)
  unfolding accept_leader
  accept_leader_role clock s peer t {s'} h = go s.r refl
    where
      go : (r : Role) → s.r ≡ r → (v : Option NodeId) × (s'.r ≡ follower (some peer) v)
      go (follower l w) e = (w, ground arith)
      go (candidate votes) e = (some s.c.id, ground arith)
      go (leader nexts matches last) e = (none, ground arith)

module _ {Cmd M : Type 0} (apply : M → Cmd → M) where
  append_accepted_role :
      (s : State Cmd) (commit prev : Option LogIndex) (u : Option ℕ) (entries : Log Cmd)
      (machine : M) {r : State Cmd × M × List Cmd × RaftMessage Cmd}
      → append_accepted apply s commit prev u entries machine ≡ ok r
      → r.0.r ≡ s.r
  unfolding append_accepted
  append_accepted_role s commit prev u entries machine h =
      elim (Bool-cases (consistent s.c.log prev u)) [
        | inl fits ↦ elim (Outcome-cases (store_entries apply s.c commit prev entries machine)) [
          | inl (p, e) ↦ ground arith
          | inr e ↦ ground arith
        ]
        | inr differs ↦ ground arith
      ]

  pub handle_append_entries-IsSound :
      (clock : Clock) (s : State Cmd) (peer : NodeId) (t : ℕ) (commit prev : Option LogIndex)
      (u : Option ℕ) (entries : Log Cmd) (machine : M)
      {r : State Cmd × M × List Cmd × RaftMessage Cmd}
      → IsSound s
      → handle_append_entries apply clock s peer t commit prev u entries machine ≡ ok r
      → IsSound r.0
  unfolding handle_append_entries
  handle_append_entries-IsSound clock s peer t commit prev u entries machine {r} v h =
      elim (Bool-cases (ltb t s.c.current_term)) [
        | inl stale ↦ let e : s ≡ r.0 = ground arith in rw e at v
        | inr fresh ↦
            let (s₁, e, h₁) =
              >>=-eq-ok (accept_leader clock s peer t) _ (rw (fresh, handle_append_entries) at h) in
            let (w, q) = accept_leader_role clock s peer t e in
            rw (append_accepted_role s₁ commit prev u entries machine h₁, q) tt
      ]

  advance_commit_index-IsSound :
      (s : State Cmd) (machine : M) {r : State Cmd × M}
      → IsSound s
      → advance_commit_index apply s machine ≡ ok r
      → IsSound r.0
  unfolding advance_commit_index
  advance_commit_index-IsSound s machine {r} v h =
      let (p, e, h₁) = >>=-eq-ok (commit_role apply s.r s.c machine) _ h in
      let same : r.0.r ≡ s.r = ground arith in
      IsSound-of same (advance_commit_index-Progress apply s machine h) v

  record_match-IsSound :
      (s : State Cmd) (peer : NodeId) (nexts : List (NodeId × LogIndex))
      (matches : List (NodeId × Option LogIndex)) (last : Option ℕ) (index : Option LogIndex)
      (machine : M) {r : State Cmd × M}
      → s.r ≡ leader nexts matches last
      → IsSound s
      → record_match apply s peer nexts matches last index machine ≡ ok r
      → IsSound r.0
  unfolding record_match
  record_match-IsSound s peer nexts matches last none machine {r} q v h =
      let e : s ≡ r.0 = ground arith in rw e at v
  record_match-IsSound s peer nexts matches last (some i) machine q v h =
      let (next, e, h₁) = >>=-eq-ok (inc i) _ h in
      let covered : RoleInv s.c.id s.c.node_ids (leader nexts matches last) = rw q at v in
      advance_commit_index-IsSound _ machine
        (
          Covers-insert peer next s.c.node_ids nexts covered.0,
          Covers-insert peer (some i) s.c.node_ids matches covered.1,
        )
        h₁

  respond_as_leader-IsSound :
      (clock : Clock) (s : State Cmd) (peer : NodeId) (success : Bool) (index : Option LogIndex)
      (machine : M) (nexts : List (NodeId × LogIndex)) (matches : List (NodeId × Option LogIndex))
      (last : Option ℕ) {r : State Cmd × M × Outgoing Cmd}
      → s.r ≡ leader nexts matches last
      → IsSound s
      → respond_as_leader apply clock s peer success index machine nexts matches last ≡ ok r
      → IsSound r.0
  unfolding respond_as_leader retry
  respond_as_leader-IsSound clock s peer success index machine nexts matches last {r} q v h =
      elim (Option-cases (lookup peer nexts)) [
        | inl e ↦ kept (ground arith)
        | inr (next, e) ↦ refused_or_matched success refl next e
      ]
    where
      kept : s ≡ r.0 → IsSound r.0
      kept e = rw e at v

      covered : RoleInv s.c.id s.c.node_ids (leader nexts matches last)
      covered = rw q at v

      refused_or_matched :
          (b : Bool) → success ≡ b → (next : LogIndex) → lookup peer nexts ≡ some next → IsSound r.0
      refused_or_matched false b next e =
          let (p, e₁, h₁) =
            >>=-eq-ok (retry clock s peer nexts matches last next) _
              (rw (e, b, respond_as_leader) at h) in
          rw (ap (λ (x : State Cmd × M × Outgoing Cmd). x.0) (ok-injective h₁)) at (
            replicate_log-IsSound clock _
              (
                Covers-insert peer (unwrap_or_default (dec next)) s.c.node_ids nexts covered.0,
                covered.1,
              )
              e₁)
      refused_or_matched true b next e = elim (Option-cases (lookup peer matches)) [
        | inl e' ↦ kept (ground arith)
        | inr (m, e') ↦
            let (p, e₁, h₁) =
              >>=-eq-ok (record_match apply s peer nexts matches last index machine) _
                (rw (e, b, e', respond_as_leader) at h) in
            rw (ap (λ (x : State Cmd × M × Outgoing Cmd). x.0) (ok-injective h₁)) at
              (record_match-IsSound s peer nexts matches last index machine q v e₁)
      ]

  pub handle_append_entries_response-IsSound :
      (clock : Clock) (s : State Cmd) (peer : NodeId) (success : Bool) (index : Option LogIndex)
      (machine : M) {r : State Cmd × M × Outgoing Cmd}
      → IsSound s
      → handle_append_entries_response apply clock s peer success index machine ≡ ok r
      → IsSound r.0
  unfolding handle_append_entries_response
  handle_append_entries_response-IsSound clock s peer success index machine {r} v h = go s.r refl
    where
      kept : s ≡ r.0 → IsSound r.0
      kept e = rw e at v

      go : (role : Role) → s.r ≡ role → IsSound r.0
      go (follower l w) q = kept (ground arith)
      go (candidate votes) q = kept (ground arith)
      go (leader nexts matches last) q =
          respond_as_leader-IsSound clock s peer success index machine nexts matches last {r = r} q
            v (ground arith)
