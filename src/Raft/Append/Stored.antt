-- ===== src/Raft/Append/Stored.antt =====
-- A follower that stores entries: its committed prefix and its machine (raft/src/state.rs,
-- `handle_append_entries`).
use Prim.Native.Nat.{min}
use miniraft.Prelude.{
  ◌+◌, ◌-◌, ◌≤◌, ◌<◌, ◌≡◌, refl, sym, ◌∙◌, ap, inl, inr, Bool-cases, Option, none, some, List, [],
  ◌∷◌, ◌++◌, arith, leb, leb→le, leb_false→lt, ltb→lt, length, length-append, length-take_le,
  length-drop, take, drop, take_le, length_of_take, ok,
}
use miniraft.Raft.Index.{LogIndex, u64_mod, to_machine_index, reach, opt_lt, opt_min, opt_lt-reach}
use miniraft.Raft.Log.{Log, replace_from, highest_index}
use miniraft.Raft.Log.Replace.{merge, dropped, replace_from-merge, replace_from_gap}
use miniraft.Raft.Log.Merge.{Agree, replace_from-keeps, length-merge_le}
use miniraft.Raft.State.{Common}
use miniraft.Raft.Commit.Applied.{Applied, replay, advance_state_machine-replay, caught_up-Applied}
use miniraft.Raft.Append.{insertion_index, follow_commit, store_entries}

pub insertion_index_lem :
    (prev : Option LogIndex)
    → reach prev + 1 < u64_mod
    → insertion_index prev ≡ ok (record { machine = reach prev })
insertion_index_lem none h = refl
insertion_index_lem (some i) h = ground arith

pub reach-highest_index {ℓ} :
    {Cmd : Type ℓ} (log : Log Cmd) → reach (highest_index log) ≡ length log
reach-highest_index [] = refl
reach-highest_index (e ∷ log) = omega arith

pub reach-opt_min : (a b : Option LogIndex) → reach (opt_min a b) ≡ min (reach a) (reach b)
reach-opt_min none b = omega arith
reach-opt_min (some i) none = omega arith
reach-opt_min (some i) (some j) = ground arith

-- The new entries contradict nothing that is committed.
abbrev pub SparesCommitted : {Cmd : Type 0} → Common Cmd → Option LogIndex → Log Cmd → Type 0
SparesCommitted c prev entries =
    Agree (take (reach c.commit_index - reach prev) (drop (reach prev) c.log)) entries

module _ {Cmd M : Type 0} (apply : M → Cmd → M) (initial : M) where
  Applied-log :
      (c : Common Cmd) (machine : M) (log' : Log Cmd)
      → Applied apply initial c machine
      → take (reach c.commit_index) log' ≡ take (reach c.commit_index) c.log
      → Applied apply initial (record c { log = log' }) machine
  Applied-log c machine log' v e = record {
    applied_le = v.applied_le;
    commit_le = length_of_take (reach c.commit_index) log' c.log e v.commit_le;
    replayed =
        v.replayed
        ∙ ap (replay apply initial)
            (sym (take_le (reach c.last_applied) (reach c.commit_index) log' c.log v.applied_le e));
  }

  -- Following the leader's commit index ends well.
  follow_commit_lem :
      (c : Common Cmd) (leader_commit : Option LogIndex) (machine : M)
      → Applied apply initial c machine
      → length c.log + 1 < u64_mod
      → (c' : Common Cmd) × (machine' : M) × (follow_commit apply c leader_commit machine
          ≡ ok (c', machine'))
        × Applied apply initial c' machine'
        × (reach c.commit_index ≤ reach c'.commit_index)
        × (c'.log ≡ c.log)
        × (c'.current_term ≡ c.current_term)
  unfolding follow_commit
  follow_commit_lem c leader_commit machine v small =
      elim (Bool-cases (opt_lt c.commit_index leader_commit)) [
        | inl more ↦
            let commit' = opt_min leader_commit (highest_index c.log) in
            let less : reach c.commit_index < reach leader_commit =
              ltb→lt _ _ (sym (opt_lt-reach c.commit_index leader_commit) ∙ more) in
            let c₁ : Common Cmd = record c { commit_index = commit' } in
            let v₁ : Applied apply initial c₁ machine = record {
              applied_le = omega (
                arith,
                reach-opt_min leader_commit (highest_index c.log),
                reach-highest_index c.log,
                v.applied_le,
                v.commit_le,
              );
              commit_le = omega (
                arith,
                reach-opt_min leader_commit (highest_index c.log),
                reach-highest_index c.log,
              );
              replayed = v.replayed;
            } in
            (
              record c { commit_index = commit'; last_applied = commit' },
              replay apply initial (take (reach commit') c.log),
              rw (more, follow_commit)
                  (advance_state_machine-replay apply initial c₁ machine v₁ small),
              caught_up-Applied apply initial c₁ v₁.commit_le,
              omega (
                arith,
                reach-opt_min leader_commit (highest_index c.log),
                reach-highest_index c.log,
                v.commit_le,
              ),
              refl,
              refl,
            )
        | inr same ↦ (c, machine, rw (same, follow_commit), v, omega arith, refl, refl)
      ]

  -- The log after the entries are stored, whatever the previous index.
  replace_lem :
      (c : Common Cmd) (prev : Option LogIndex) (entries : Log Cmd)
      → reach c.commit_index ≤ length c.log
      → length c.log + length entries + reach prev + 2 < u64_mod
      → SparesCommitted c prev entries
      → (log' : Log Cmd) × (dismissed : List Cmd) × (replace_from c.log
            (record { machine = reach prev })
            entries
          ≡ ok (log', dismissed))
        × (take (reach c.commit_index) log' ≡ take (reach c.commit_index) c.log)
        × (length log' ≤ length c.log + length entries + reach prev)
  replace_lem c prev entries inside small spares =
      let i : LogIndex = record { machine = reach prev } in
      let at : to_machine_index i ≡ reach prev = omega arith in
      let k = reach c.commit_index - reach prev in
      let agree : Agree (take k (drop (to_machine_index i) c.log)) entries = rw at spares in
      elim (Bool-cases (leb (reach prev) (length c.log))) [
        | inl h ↦
            let bound : to_machine_index i ≤ length c.log = omega (arith, leb→le _ _ h) in
            let run = replace_from-merge c.log entries i bound (omega arith) in
            (
              take (to_machine_index i) c.log ++ merge (drop (to_machine_index i) c.log) entries,
              dropped (drop (to_machine_index i) c.log) entries,
              run,
              take_le (reach c.commit_index) (to_machine_index i + k) _ c.log (omega arith) (
                  replace_from-keeps c.log entries i bound (omega arith) _ _ run k (omega arith)
                    agree),
              omega (
                arith,
                length-append (take (to_machine_index i) c.log)
                    (merge (drop (to_machine_index i) c.log) entries),
                length-take_le (to_machine_index i) c.log bound,
                length-merge_le (drop (to_machine_index i) c.log) entries,
                length-drop (to_machine_index i) c.log,
              ),
            )
        | inr h ↦ (
          c.log,
          [],
          replace_from_gap c.log entries i (omega (arith, leb_false→lt _ _ h)),
          refl,
          omega arith,
        )
      ]

  -- Storing entries that spare the committed prefix succeeds; the committed prefix stays, the commit
  -- index does not fall, and the machine is what the applied prefix of the new log makes of the
  -- initial one.
  pub store_entries-Applied :
      (c : Common Cmd) (leader_commit prev : Option LogIndex) (entries : Log Cmd) (machine : M)
      → Applied apply initial c machine
      → length c.log + length entries + reach prev + 2 < u64_mod
      → SparesCommitted c prev entries
      → (c' : Common Cmd) × (machine' : M) × (dismissed : List Cmd) × (store_entries apply c
            leader_commit prev entries machine
          ≡ ok (c', machine', dismissed))
        × Applied apply initial c' machine'
        × (reach c.commit_index ≤ reach c'.commit_index)
        × (take (reach c.commit_index) c'.log ≡ take (reach c.commit_index) c.log)
        × (c'.current_term ≡ c.current_term)
        × (replace_from c.log (record { machine = reach prev }) entries ≡ ok (c'.log, dismissed))
  unfolding store_entries
  store_entries-Applied c leader_commit prev entries machine v small spares =
      let (log', dismissed, run, kept, short) =
        replace_lem c prev entries v.commit_le small spares in
      let c₁ : Common Cmd = record c { log = log' } in
      let (c', machine', followed, v', grown, log_same, term_same) =
        follow_commit_lem c₁ leader_commit machine (Applied-log c machine log' v kept)
          (omega arith) in
      (
        c',
        machine',
        dismissed,
        rw (insertion_index_lem prev (omega arith), run, followed),
        v',
        grown,
        rw log_same kept,
        term_same,
        rw log_same run,
      )
