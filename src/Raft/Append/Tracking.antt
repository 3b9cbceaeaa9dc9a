-- ===== src/Raft/Append/Tracking.antt =====
-- What a leader learns from a follower's answer (raft/src/state.rs, `handle_append_entries` and
-- `handle_append_entries_response`).
use miniraft.Prelude.{
  ℕ, ◌+◌, ◌≤◌, ◌<◌, ◌≡◌, ◌≢◌, refl, ap, sym, ◌∙◌, ok-injective, take, drop, take-append-drop, ◌-◌,
  true, Option, some, List, [], ◌∷◌, ◌++◌, arith, length, lookup, insert, lookup-insert, eq_iff,
  eq_refl, ok, ◌>>=◌, >>=-eq-ok,
}
use miniraft.Rpc.{NodeId, Outgoing, append_entries_response}
use miniraft.Raft.Index.{LogIndex, u64_mod, reach, inc, to_machine_index}
use miniraft.Raft.Log.{Log, highest_index, replace_from}
use miniraft.Raft.Log.Replace.{merge, replace_from-merge}
use miniraft.Raft.Log.Merge.{Agree}
use miniraft.Raft.State.{State, Clock, leader, can_stand}
use miniraft.Raft.Commit.{advance_commit_index, commit_role}
use miniraft.Raft.Commit.Applied.{Applied}
use miniraft.Raft.Append.{
  consistent, handle_append_entries, handle_append_entries_response, respond_as_leader,
  record_match,
}
use miniraft.Raft.Append.Stored.{reach-highest_index}
use miniraft.Raft.Append.Handler.{handle_append_entries-Applied}

module _ {Cmd : Type 0} where
  Agree-nil : (tail : Log Cmd) → Agree tail []
  Agree-nil [] = tt
  Agree-nil (e ∷ tail) = tt

  merge-nil : (tail : Log Cmd) → merge tail [] ≡ tail
  unfolding merge
  merge-nil [] = refl
  merge-nil (e ∷ tail) = refl

  replace_from-nothing :
      (log result : Log Cmd) (i : LogIndex) (gone : List Cmd)
      → to_machine_index i ≤ length log
      → length log + 1 < u64_mod
      → replace_from log i [] ≡ ok (result, gone)
      → result ≡ log
  replace_from-nothing log result i gone h small run =
      let at = to_machine_index i in
      let e = ok-injective (sym run ∙ replace_from-merge log [] i h small) in
      ap (λ p. p.0) e
      ∙ ap (λ t. take at log ++ t) (merge-nil (drop at log))
      ∙ take-append-drop at log

module _ {Cmd M : Type 0} (apply : M → Cmd → M) where
  advance_commit_index-role :
      (s : State Cmd) (machine : M) {s' : State Cmd} {machine' : M}
      → advance_commit_index apply s machine ≡ ok (s', machine')
      → s'.r ≡ s.r
  unfolding advance_commit_index
  advance_commit_index-role s machine h =
      let ((c', m'), e, f) = >>=-eq-ok (commit_role apply s.r s.c machine) _ h in ground arith

  respond_success :
      (clock : Clock) (s : State Cmd) (peer : NodeId) (index next : LogIndex)
      (matched : Option LogIndex) (machine : M) (nexts : List (NodeId × LogIndex))
      (matches : List (NodeId × Option LogIndex)) (last : Option ℕ)
      → s.r ≡ leader nexts matches last
      → lookup peer nexts ≡ some next
      → lookup peer matches ≡ some matched
      → handle_append_entries_response apply clock s peer true (some index) machine ≡ (
          record_match apply s peer nexts matches last (some index) machine >>= λ p.
          ok (p.0, p.1, []))
  unfolding handle_append_entries_response
  respond_success clock s peer index next matched machine nexts matches last e n m =
      rw (e, respond_as_leader, n, m) refl

  -- A success that is handled without a panic, from a peer for which a leader has both indexes,
  -- sets the peer's match index to the index that it reports and its next index to the one
  -- behind; the other peers' indexes stay, and nothing is sent.
  pub success-tracks :
      (clock : Clock) (s : State Cmd) (peer : NodeId) (index next : LogIndex)
      (matched : Option LogIndex) (machine : M) (nexts : List (NodeId × LogIndex))
      (matches : List (NodeId × Option LogIndex)) (last : Option ℕ) {s' : State Cmd} {machine' : M}
      {msgs : Outgoing Cmd}
      → s.r ≡ leader nexts matches last
      → lookup peer nexts ≡ some next
      → lookup peer matches ≡ some matched
      → handle_append_entries_response apply clock s peer true (some index) machine
        ≡ ok (s', machine', msgs)
      → (msgs ≡ [])
        × (nexts' : List (NodeId × LogIndex)) × (matches' : List (NodeId × Option LogIndex)) × (s'.r
            ≡ leader nexts' matches' last)
        × (lookup peer matches' ≡ some (some index))
        × ((i : LogIndex) × (inc index ≡ ok i) × (lookup peer nexts' ≡ some i))
        × ((other : NodeId)
            → peer ≢ other
            → (lookup other matches' ≡ lookup other matches)
              × (lookup other nexts' ≡ lookup other nexts))
  unfolding record_match
  success-tracks clock s peer index next matched machine nexts matches last {s'} {machine'} {msgs} e
        n m h =
      let ((t, m₁), e₁, f₁) =
        >>=-eq-ok (record_match apply s peer nexts matches last (some index) machine)
          (λ p. ok (p.0, p.1, []))
          (sym (respond_success clock s peer index next matched machine nexts matches last e n m)
            ∙ h) in
      let (i, e₂, f₂) = >>=-eq-ok (inc index) _ e₁ in
      let nexts' = insert peer i nexts in
      let matches' = insert peer (some index) matches in
      let kept : t.r ≡ leader nexts' matches' last =
        advance_commit_index-role (record s { r = leader nexts' matches' last }) machine f₂ in
      let same : s'.r ≡ t.r = ground arith in
      (
        ground arith,
        nexts',
        matches',
        same ∙ kept,
        ground (arith, lookup-insert peer peer (some index) matches, eq_refl peer),
        (i, e₂, ground (arith, lookup-insert peer peer i nexts, eq_refl peer)),
        λ other d. (
          ground (arith, lookup-insert peer other (some index) matches, eq_iff peer other),
          ground (arith, lookup-insert peer other i nexts, eq_iff peer other),
        ),
      )

  -- A follower or candidate that has applied what it should, given a message of its own term
  -- with no entries whose previous entry it has and is not its last, keeps its log and reports
  -- success up to the end of it, beyond the previous entry that was compared.
  pub heartbeat-reports_unchecked :
      (clock : Clock) (s : State Cmd) (peer : NodeId) (leader_commit prev : Option LogIndex)
      (prev_term : Option ℕ) (initial machine : M)
      → can_stand s.r ≡ true
      → s.c.id ≢ peer
      → consistent s.c.log prev prev_term ≡ true
      → Applied apply initial s.c machine
      → length s.c.log + reach prev + 2 < u64_mod
      → reach prev < length s.c.log
      → (s' : State Cmd) × (machine' : M) × (gone : List Cmd) × (reported : Option LogIndex)
        × (handle_append_entries apply clock s peer s.c.current_term leader_commit prev prev_term []
              machine
            ≡ ok (s', machine', gone, append_entries_response s.c.current_term reported true))
        × (s'.c.log ≡ s.c.log)
        × (reach reported ≡ length s.c.log)
        × (reach prev < reach reported)
  heartbeat-reports_unchecked clock s peer leader_commit prev prev_term initial machine stand n fits
        v small more =
      let (s', machine', gone, run, known, v', grown, kept, term_same, replaced) =
        handle_append_entries-Applied apply clock s peer leader_commit prev prev_term [] initial
          machine stand n fits v (omega arith)
          (Agree-nil (take (reach s.c.commit_index - reach prev) (drop (reach prev) s.c.log))) in
      let same : s'.c.log ≡ s.c.log =
        replace_from-nothing s.c.log s'.c.log (record { machine = reach prev }) gone (omega arith)
          (omega arith) replaced in
      let size : reach (highest_index s'.c.log) ≡ length s.c.log =
        reach-highest_index s'.c.log ∙ ap length same in
      (s', machine', gone, highest_index s'.c.log, run, same, size, omega arith)
