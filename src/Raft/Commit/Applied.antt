-- ===== src/Raft/Commit/Applied.antt =====
-- The state machine and the applied prefix of the log (raft/src/state.rs,
-- `advance_state_machine`).
use miniraft.Prelude.{
  ℕ, zero, suc, ◌+◌, ◌-◌, ◌≤◌, ◌<◌, ◌≡◌, refl, ap, sym, ◌∙◌, Option, none, some, [], ◌∷◌, arith,
  lt→ltb, le→leb, true, length, take, get_elem?, get_elem?-some, ok,
}
use miniraft.Raft.Index.{
  LogIndex, u64_mod, to_machine_index, reach, opt_lt, opt_le, opt_lt-reach, opt_le-reach,
}
use miniraft.Raft.Log.{Log, LogEntry, get}
use miniraft.Raft.State.{Common}
use miniraft.Raft.Commit.{next_applied, apply_next, apply_loop, advance_state_machine}

pub reach_inj : (a b : Option LogIndex) → reach a ≡ reach b → a ≡ b
reach_inj none none h = refl
reach_inj none (some j) h = absurd (omega arith)
reach_inj (some i) none h = absurd (omega arith)
reach_inj (some i) (some j) h = ground arith

next_applied_lem :
    (o : Option LogIndex)
    → reach o + 1 < u64_mod
    → next_applied o ≡ ok (record { machine = reach o })
next_applied_lem none h = refl
next_applied_lem (some i) h = ground arith

module _ {Cmd M : Type 0} (apply : M → Cmd → M) where
  -- The machine that has been given the commands of a log in order.
  unfoldable pub replay : M → Log Cmd → M
  replay machine [] = machine
  replay machine (e ∷ log) = replay (apply machine e.cmd) log

  replay-take-suc :
      (machine : M) (log : Log Cmd) (n : ℕ) (e : LogEntry Cmd)
      → get_elem? log n ≡ some e
      → replay machine (take (suc n) log) ≡ apply (replay machine (take n log)) e.cmd
  unfolding replay
  replay-take-suc machine [] n e h = absurd (cc)
  replay-take-suc machine (x ∷ log) zero e h = ground arith
  replay-take-suc machine (x ∷ log) (suc n) e h = replay-take-suc (apply machine x.cmd) log n e h

  -- The indexes are in order, and the machine is what the applied prefix of the log makes of the
  -- initial one.
  pub record Applied (initial : M) (c : Common Cmd) (machine : M) : Type 0 where
    pub applied_le : reach c.last_applied ≤ reach c.commit_index
    pub commit_le : reach c.commit_index ≤ length c.log
    pub replayed : machine ≡ replay initial (take (reach c.last_applied) c.log)

  apply_next_lem :
      (initial : M) (c : Common Cmd) (machine : M)
      → Applied initial c machine
      → reach c.last_applied < reach c.commit_index
      → length c.log + 1 < u64_mod
      → (i : LogIndex) × (apply_next apply c machine
          ≡ ok (record c { last_applied = some i }, replay initial (take (reach (some i)) c.log)))
        × (reach (some i) ≡ reach c.last_applied + 1)
  unfolding apply_next
  apply_next_lem initial c machine v less small =
      let i : LogIndex = record { machine = reach c.last_applied } in
      let (e, at) = get_elem?-some c.log (reach c.last_applied) (omega arith) in
      let found : get c.log i ≡ some e =
        ap (get_elem? c.log) {x = to_machine_index i} (omega arith) ∙ at in
      (
        i,
        rw (next_applied_lem c.last_applied (omega arith)) (
            rw found (
              ap (λ m. ok (record c { last_applied = some i }, m))
                (rw v.replayed (sym (replay-take-suc initial c.log (reach c.last_applied) e at))))),
        omega arith,
      )

  apply_loop_lem :
      (rounds : ℕ) (initial : M) (c : Common Cmd) (machine : M)
      → Applied initial c machine
      → reach c.last_applied + rounds ≡ reach c.commit_index
      → length c.log + 1 < u64_mod
      → apply_loop apply rounds c machine
        ≡ ok (
          record c { last_applied = c.commit_index },
          replay initial (take (reach c.commit_index) c.log),
        )
  unfolding apply_loop
  apply_loop_lem zero initial c machine v e small =
      let done : c.last_applied ≡ c.commit_index = reach_inj _ _ (omega arith) in
      rw (v.replayed, ← done)
  apply_loop_lem (suc rounds) initial c machine v e small =
      let (i, step, next) = apply_next_lem initial c machine v (omega arith) small in
      let behind : opt_lt c.last_applied c.commit_index ≡ true =
        opt_lt-reach c.last_applied c.commit_index ∙ lt→ltb _ _ (omega arith) in
      let c' : Common Cmd = record c { last_applied = some i } in
      rw (behind, apply_loop, step)
        (apply_loop_lem rounds initial c' (replay initial (take (reach (some i)) c.log))
          (record { applied_le = omega arith; commit_le = v.commit_le; replayed = refl })
          (omega arith) small)

  -- If the machine has applied exactly the applied prefix of a log of fewer than 2^64 - 1
  -- entries and the commit index lies in the log, the loop ends without a panic with everything
  -- committed applied once and in order; it changes nothing else.
  pub advance_state_machine-replay :
      (initial : M) (c : Common Cmd) (machine : M)
      → Applied initial c machine
      → length c.log + 1 < u64_mod
      → advance_state_machine apply c machine
        ≡ ok (
          record c { last_applied = c.commit_index },
          replay initial (take (reach c.commit_index) c.log),
        )
  unfolding advance_state_machine
  advance_state_machine-replay initial c machine v small =
      let allowed : opt_le c.last_applied c.commit_index ≡ true =
        opt_le-reach c.last_applied c.commit_index ∙ le→leb _ _ v.applied_le in
      rw allowed (
        apply_loop_lem (reach c.commit_index - reach c.last_applied) initial c machine v
          (omega arith) small)

  -- The invariant for the state that the loop leaves.
  pub caught_up-Applied :
      (initial : M) (c : Common Cmd)
      → reach c.commit_index ≤ length c.log
      → Applied initial
          (record c { last_applied = c.commit_index })
          (replay initial (take (reach c.commit_index) c.log))
  caught_up-Applied initial c h = record {
    applied_le = omega arith;
    commit_le = h;
    replayed = refl;
  }
