-- ===== src/Raft/Commit/Quorum.antt =====
-- What an advance of the commit index rests on (raft/src/state.rs, `advance_commit_index`).
use miniraft.Prelude.{
  ℕ, zero, suc, ◌+◌, ◌-◌, ◌/◌, ◌≤◌, ◌≡◌, sym, ◌∙◌, ap, leb→le, ◌⊎◌, inl, inr, Bool-cases, Option,
  none, some, Option-cases, Outcome-cases, List, [], ◌∷◌, arith, leb, ◌==◌, ==_iff, if◌then◌else◌,
  length, ok, >>=-eq-ok, assert,
}
use miniraft.Rpc.{NodeId}
use miniraft.Raft.Index.{LogIndex, reach, opt_max, opt_le, opt_le-reach}
use miniraft.Raft.Log.{LogEntry, get}
use miniraft.Raft.State.{Common}
use miniraft.Raft.Commit.{
  lower_median, collect, apply_next, apply_loop, advance_state_machine, commit_at, commit_by,
}
use miniraft.Raft.Commit.Median.{count_ge, lower_median-majority}

-- What applying commands leaves alone: all but `last_applied`.
pub record Frame {Cmd : Type 0} (c c' : Common Cmd) : Type 0 where
  pub term_same : c'.current_term ≡ c.current_term
  pub log_same : c'.log ≡ c.log
  pub commit_same : c'.commit_index ≡ c.commit_index
  pub id_same : c'.id ≡ c.id
  pub nodes_same : c'.node_ids ≡ c.node_ids

-- How many peers are known to hold the log up to `n`.
unfoldable pub holders : LogIndex → List (NodeId × Option LogIndex) → ℕ
holders n [] = 0
holders n ((node, none) ∷ rest) = holders n rest
holders n ((node, some i) ∷ rest) =
    let others = holders n rest in if leb n.machine i.machine then suc others else others

holders-collect :
    (n : LogIndex) (matches : List (NodeId × Option LogIndex)) {is : List LogIndex}
    → collect matches ≡ some is
    → (holders n matches ≡ count_ge n is) × (length matches ≡ length is)
unfolding holders count_ge
holders-collect n [] h = ground arith
holders-collect n ((node, none) ∷ rest) h = absurd (cc)
holders-collect n ((node, some i) ∷ rest) h = elim (Option-cases (collect rest)) [
  | inl e ↦ ground arith
  | inr (js, e) ↦ ground (arith, holders-collect n rest e)
]

module _ {Cmd M : Type 0} (apply : M → Cmd → M) where
  apply_next-Frame :
      (c : Common Cmd) (machine : M) {c' : Common Cmd} {machine' : M}
      → apply_next apply c machine ≡ ok (c', machine')
      → Frame c c'
  unfolding apply_next
  apply_next-Frame c machine h = ground arith

  apply_loop-Frame :
      (rounds : ℕ) (c : Common Cmd) (machine : M) {c' : Common Cmd} {machine' : M}
      → apply_loop apply rounds c machine ≡ ok (c', machine')
      → Frame c c'
  unfolding apply_loop
  apply_loop-Frame zero c machine h = ground arith
  apply_loop-Frame (suc rounds) c machine {c'} {machine'} h =
      elim (Outcome-cases (apply_next apply c machine)) [
        | inl ((c₁, m₁), e) ↦ ground (
          arith,
          apply_next-Frame c machine e,
          apply_loop-Frame rounds c₁ m₁ {c' = c'} {machine' = machine'},
        )
        | inr e ↦ ground arith
      ]

  pub advance_state_machine-Frame :
      (c : Common Cmd) (machine : M) {c' : Common Cmd} {machine' : M}
      → advance_state_machine apply c machine ≡ ok (c', machine')
      → Frame c c'
  unfolding advance_state_machine
  advance_state_machine-Frame c machine h =
      apply_loop-Frame (reach c.commit_index - reach c.last_applied) c machine
        (>>=-eq-ok (assert (opt_le c.last_applied c.commit_index)) _ h).2

  -- The new commit index is the old one, or an entry of the current term that a majority of the
  -- cluster holds: more than half of the peers and, with them, the leader.
  abbrev pub Committed : List (NodeId × Option LogIndex) → Common Cmd → Common Cmd → Type 0
  Committed matches c c' =
      (c'.commit_index ≡ c.commit_index)
      ⊎ ((n : LogIndex) × (e : LogEntry Cmd) × (c'.commit_index ≡ some n)
          × (get c.log n ≡ some e)
          × (e.term ≡ c.current_term)
          × (length matches / 2 + 1 ≤ holders n matches))

  abbrev Advanced : List (NodeId × Option LogIndex) → Common Cmd → Common Cmd → Type 0
  Advanced matches c c' =
      (c'.log ≡ c.log)
      × (c'.current_term ≡ c.current_term)
      × (c'.id ≡ c.id)
      × (c'.node_ids ≡ c.node_ids)
      × (reach c.commit_index ≤ reach c'.commit_index)
      × Committed matches c c'

  commit_now-Committed :
      (matches : List (NodeId × Option LogIndex)) (c c' : Common Cmd) (n : LogIndex)
      (e : LogEntry Cmd)
      → get c.log n ≡ some e
      → e.term ≡ c.current_term
      → length matches / 2 + 1 ≤ holders n matches
      → Frame (record c { commit_index = opt_max c.commit_index (some n) }) c'
      → Advanced matches c c'
  commit_now-Committed matches c c' n e at current held f =
      elim (Bool-cases (opt_le c.commit_index (some n))) [
        | inl further ↦
            let new : opt_max c.commit_index (some n) ≡ some n =
              ap (λ b. if b then some n else c.commit_index) further in
            let reached : c'.commit_index ≡ some n = cc in
            (
              f.log_same,
              f.term_same,
              f.id_same,
              f.nodes_same,
              rw reached (leb→le _ _ (sym (opt_le-reach c.commit_index (some n)) ∙ further)),
              inr (n, e, reached, at, current, held),
            )
        | inr behind ↦
            let old : opt_max c.commit_index (some n) ≡ c.commit_index =
              ap (λ b. if b then some n else c.commit_index) behind in
            let kept : c'.commit_index ≡ c.commit_index = cc in
            (f.log_same, f.term_same, f.id_same, f.nodes_same, rw kept (omega arith), inl kept)
      ]

  commit_at-Committed :
      (matches : List (NodeId × Option LogIndex)) (c : Common Cmd) (machine : M) (n : LogIndex)
      {c' : Common Cmd} {machine' : M}
      → length matches / 2 + 1 ≤ holders n matches
      → commit_at apply c machine n ≡ ok (c', machine')
      → Advanced matches c c'
  unfolding commit_at
  commit_at-Committed matches c machine n {c'} held h = elim (Option-cases (get c.log n)) [
    | inl e ↦ ground arith
    | inr (e, at) ↦ elim (Bool-cases (e.term == c.current_term)) [
      | inl current ↦
          commit_now-Committed matches c c' n e at ((==_iff _ _).0 current) held
            (advance_state_machine-Frame _ machine (rw (at, commit_at, current) at h))
      | inr stale ↦ ground arith
    ]
  ]

  -- When the commit index is advanced without a panic, the log, the term, the node's id and its
  -- peers stay, the commit index does not fall, and it either stays or becomes the index of an
  -- entry of the current term that more than half of the peers are recorded to hold.
  pub commit_by-Committed :
      (matches : List (NodeId × Option LogIndex)) (c : Common Cmd) (machine : M) {c' : Common Cmd}
      {machine' : M}
      → commit_by apply matches c machine ≡ ok (c', machine')
      → (c'.log ≡ c.log)
        × (c'.current_term ≡ c.current_term)
        × (c'.id ≡ c.id)
        × (c'.node_ids ≡ c.node_ids)
        × (reach c.commit_index ≤ reach c'.commit_index)
        × Committed matches c c'
  unfolding commit_by
  commit_by-Committed matches c machine {c'} {machine'} h = elim (Option-cases (collect matches)) [
    | inl e ↦ ground arith
    | inr (is, e) ↦ elim (Option-cases (lower_median is)) [
      | inl e' ↦ ground arith
      | inr (n, e') ↦
          commit_at-Committed matches c machine n {c' = c'} {machine' = machine'}
            (omega (arith, holders-collect n matches e, lower_median-majority is e')) (ground arith)
    ]
  ]
