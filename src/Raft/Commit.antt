-- ===== src/Raft/Commit.antt =====
-- The commit index and the state machine (raft/src/state.rs, `advance_commit_index`,
-- `advance_state_machine`, `lower_median`). `apply` is the injected state machine's own.
pub mod Applied
pub mod Median
pub mod Quorum
use miniraft.Prelude.{
  ℕ, zero, suc, ◌-◌, ◌/◌, true, false, Option, none, some, List, [], ◌∷◌, leb, ◌==◌, if◌then◌else◌,
  length, get_elem?, Outcome, ok, panic, ◌>>=◌, ◌>>◌, assert, expect,
}
use miniraft.Rpc.{NodeId}
use miniraft.Raft.Index.{LogIndex, inc, default, reach, opt_lt, opt_le, opt_max}
use miniraft.Raft.Log.{get}
use miniraft.Raft.State.{Common, Role, follower, candidate, leader, State}

-- The order in which `select_nth_unstable` selects.
unfoldable pub insert_sorted : LogIndex → List LogIndex → List LogIndex
insert_sorted i [] = i ∷ []
insert_sorted i (j ∷ js) = if leb i.machine j.machine then i ∷ j ∷ js else j ∷ insert_sorted i js

unfoldable pub sort : List LogIndex → List LogIndex
sort [] = []
sort (i ∷ is) = insert_sorted i (sort is)

unfoldable pub lower_median : List LogIndex → Option LogIndex
unfolding sort insert_sorted
lower_median [] = none
lower_median (i ∷ is) = get_elem? (sort (i ∷ is)) ((length (i ∷ is) - 1) / 2)

-- `values().cloned().collect()`: nothing if a value is missing.
abbrev pub collect : List (NodeId × Option LogIndex) → Option (List LogIndex)
collect [] = some []
collect ((node, none) ∷ rest) = none
collect ((node, some i) ∷ rest) = elim (collect rest) [ none ↦ none | some is ↦ some (i ∷ is) ]

-- `last_applied.map(inc).unwrap_or_default()`.
abbrev pub next_applied : Option LogIndex → Outcome LogIndex
next_applied none = ok default
next_applied (some i) = inc i

module _ {Cmd M : Type 0} (apply : M → Cmd → M) where
  -- One round of the loop of `advance_state_machine`.
  unfoldable pub apply_next : Common Cmd → M → Outcome (Common Cmd × M)
  apply_next c machine = do
    i ← next_applied c.last_applied
    entry ← expect (get c.log i)
    ok (record c { last_applied = some i }, apply machine entry.cmd)

  -- The `while` loop, on the number of rounds left.
  unfoldable pub apply_loop : ℕ → Common Cmd → M → Outcome (Common Cmd × M)
  apply_loop zero c machine = ok (c, machine)
  apply_loop (suc rounds) c machine = elim (opt_lt c.last_applied c.commit_index) [
    | false ↦ ok (c, machine)
    | true ↦ apply_next c machine >>= λ p. apply_loop rounds p.0 p.1
  ]

  -- Each round brings `last_applied` one nearer to `commit_index`, which bounds the rounds.
  unfoldable pub advance_state_machine : Common Cmd → M → Outcome (Common Cmd × M)
  advance_state_machine c machine = do
    assert (opt_le c.last_applied c.commit_index)
    apply_loop (reach c.commit_index - reach c.last_applied) c machine

  commit_at : Common Cmd → M → LogIndex → Outcome (Common Cmd × M)
  commit_at c machine n = elim (get c.log n) [
    | none ↦ ok (c, machine)
    | some entry ↦
        if entry.term == c.current_term
        then advance_state_machine (record c { commit_index = opt_max c.commit_index (some n) })
            machine
        else ok (c, machine)
  ]

  -- The body of `advance_commit_index`, on the match indexes.
  unfoldable pub commit_by :
      List (NodeId × Option LogIndex) → Common Cmd → M → Outcome (Common Cmd × M)
  unfolding commit_at
  commit_by match_indexes c machine = elim (collect match_indexes) [
    | none ↦ ok (c, machine)
    | some indexes ↦ expect (lower_median indexes) >>= λ n. commit_at c machine n
  ]

  unfoldable pub commit_role : Role → Common Cmd → M → Outcome (Common Cmd × M)
  commit_role (leader next_indexes match_indexes last_replication) c machine =
      commit_by match_indexes c machine
  commit_role (follower leader_id voted_for) c machine = panic
  commit_role (candidate votes) c machine = panic

  unfoldable pub advance_commit_index : State Cmd → M → Outcome (State Cmd × M)
  unfolding commit_role
  advance_commit_index s machine = do
    (c', machine') ← commit_role s.r s.c machine
    ok (record s { c = c' }, machine')
