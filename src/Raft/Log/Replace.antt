-- ===== src/Raft/Log/Replace.antt =====
-- What `replace_from` does to a log (raft/src/state.rs).
use mathlib.Core.List.{append-nil, append_assoc}
use miniraft.Prelude.{
  ℕ, suc, ◌+◌, ◌≤◌, ◌<◌, ◌≡◌, refl, subst, ap, inl, inr, List, [], ◌∷◌, ◌++◌, map, arith, ◌==◌,
  if◌then◌else◌, Bool-cases, length, length-append, length-take_le, length-drop, le→leb, take, drop,
  take-append-drop, take-length_append, drop-length_append, ok,
}
use miniraft.Raft.Index.{LogIndex, u64_mod, to_machine_index, inc}
use miniraft.Raft.Log.{LogEntry, Log, overwrite, replace_loop, replace_from}

inc_ok :
    (i : LogIndex) → suc i.machine + 1 < u64_mod → inc i ≡ ok (record { machine = suc i.machine })
inc_ok i h = ground arith

module _ {ℓ} {Cmd : Type ℓ} where
  abbrev pub terms : List (LogEntry Cmd) → List ℕ
  terms = map (λ entry. entry.term)

  -- The reference: existing entries are kept as long as the terms agree, and from the first conflict
  -- on the new entries take their place.
  unfoldable pub merge : List (LogEntry Cmd) → List (LogEntry Cmd) → List (LogEntry Cmd)
  merge [] with = with
  merge (t ∷ tail) [] = t ∷ tail
  merge (t ∷ tail) (w ∷ with) = if t.term == w.term then t ∷ merge tail with else w ∷ with

  -- The commands that a merge drops.
  unfoldable pub dropped : List (LogEntry Cmd) → List (LogEntry Cmd) → List Cmd
  dropped [] with = []
  dropped (t ∷ tail) [] = []
  dropped (t ∷ tail) (w ∷ with) =
      if t.term == w.term then dropped tail with else map (λ entry. entry.cmd) (t ∷ tail)

  overwrite_at :
      (pre tail with : List (LogEntry Cmd)) (i : LogIndex)
      → i.machine ≡ length pre
      → overwrite (pre ++ tail) i with ≡ (pre ++ with, map (λ entry. entry.cmd) tail)
  overwrite_at pre tail with i e =
      let at : to_machine_index i ≡ length pre = omega arith in
      rw (at, take-length_append pre tail, drop-length_append pre tail)

  replace_loop-merge :
      (pre tail with : List (LogEntry Cmd)) (i : LogIndex)
      → i.machine ≡ length pre
      → length pre + length tail + 1 < u64_mod
      → replace_loop (pre ++ tail) i tail with ≡ ok (pre ++ merge tail with, dropped tail with)
  unfolding replace_loop merge dropped
  replace_loop-merge pre [] with i e h = simp append-nil
  replace_loop-merge pre (t ∷ tail) [] i e h = refl
  replace_loop-merge pre (t ∷ tail) (w ∷ with) i e h = elim (Bool-cases (t.term == w.term)) [
    | inl same ↦
        rw (same, inc_ok i (omega arith))
          (simp append_assoc at (
            replace_loop-merge (pre ++ t ∷ []) tail with (record { machine = suc i.machine })
              (omega (arith, length-append pre (t ∷ [])))
              (omega (arith, length-append pre (t ∷ [])))))
    | inr differ ↦ rw differ (ap ok (overwrite_at pre (t ∷ tail) (w ∷ with) i e))
  ]

  -- From an index inside a log of fewer than 2^64 - 1 entries, or just behind it, the loop ends
  -- without a panic with the front of the log followed by the merge of what stood behind with
  -- the new entries, and dismisses what that merge drops.
  pub replace_from-merge :
      (log with : Log Cmd) (i : LogIndex)
      → to_machine_index i ≤ length log
      → length log + 1 < u64_mod
      → let at = to_machine_index i in
        replace_from log i with
        ≡ ok (take at log ++ merge (drop at log) with, dropped (drop at log) with)
  unfolding replace_from
  replace_from-merge log with i h small =
      let at = to_machine_index i in
      rw (le→leb at (length log) h, replace_from)
        (subst
          (λ l.
            replace_loop l i (drop at log) with
            ≡ ok (take at log ++ merge (drop at log) with, dropped (drop at log) with))
          (take-append-drop at log)
          (replace_loop-merge (take at log) (drop at log) with i
            (omega (arith, length-take_le at log h))
            (omega (arith, length-take_le at log h, length-drop at log))))

  -- Past the end the log is left alone.
  pub replace_from_gap :
      (log with : Log Cmd) (i : LogIndex)
      → length log < to_machine_index i
      → replace_from log i with ≡ ok (log, [])
  unfolding replace_from
  replace_from_gap log with i h = ground arith
