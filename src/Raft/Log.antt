-- ===== src/Raft/Log.antt =====
-- The Raft log (raft/src/state.rs, `LogEntry` and `Log`). A method that mutates the log returns the
-- new one. `Dismiss::dismiss` is an effect on each dropped command: `replace_from` returns the
-- commands it dismisses, in order.
pub mod Replace
pub mod Merge
use miniraft.Prelude.{
  ℕ, suc, ◌+◌, ◌-◌, ◌≡◌, Bool, Option, none, some, List, [], ◌∷◌, ◌++◌, map, leb, ◌==◌,
  if◌then◌else◌, length, get_elem?, take, drop, Outcome, ok, ◌>>=◌,
}
use miniraft.Raft.Index.{LogIndex, inc, to_machine_index, from_machine_index}

pub record LogEntry {ℓ} (Cmd : Type ℓ) : Type ℓ where
  pub cmd : Cmd
  pub term : ℕ

abbrev pub Log {ℓ} : Type ℓ → Type ℓ
Log Cmd = List (LogEntry Cmd)

module _ {ℓ} {Cmd : Type ℓ} where
  abbrev pub get : Log Cmd → LogIndex → Option (LogEntry Cmd)
  get log index = get_elem? log (to_machine_index index)

  -- A slice from `start` on, if that is in range.
  abbrev pub slice_from : List (LogEntry Cmd) → ℕ → Option (List (LogEntry Cmd))
  slice_from xs start = if leb start (length xs) then some (drop start xs) else none

  abbrev pub get_from : Log Cmd → LogIndex → Option (List (LogEntry Cmd))
  get_from log index = slice_from log (to_machine_index index)

  -- `drain(index..)` with the commands dismissed, then `push(w)` and `extend(with)`.
  abbrev pub overwrite : Log Cmd → LogIndex → List (LogEntry Cmd) → Log Cmd × List Cmd
  overwrite log index with =
      let at = to_machine_index index in
      (take at log ++ with, map (λ entry. entry.cmd) (drop at log))

  -- The loop of `replace_from`, on what the two iterators have left.
  pub replace_loop :
      Log Cmd → LogIndex → List (LogEntry Cmd) → List (LogEntry Cmd) → Outcome (Log Cmd × List Cmd)
  replace_loop log index [] with = ok (log ++ with, [])
  replace_loop log index (t ∷ tail) [] = ok (log, [])
  replace_loop log index (t ∷ tail) (w ∷ with) =
      let next = (do index' ← inc index; replace_loop log index' tail with) in
      if t.term == w.term then next else ok (overwrite log index (w ∷ with))

  -- A start that would leave a gap changes nothing.
  pub replace_from : Log Cmd → LogIndex → List (LogEntry Cmd) → Outcome (Log Cmd × List Cmd)
  replace_from log index with = elim (get_from log index) [
    | none ↦ ok (log, [])
    | some tail ↦ replace_loop log index tail with
  ]

  abbrev pub last : Log Cmd → Option (LogEntry Cmd)
  last [] = none
  last (e ∷ []) = some e
  last (e ∷ f ∷ log) = last (f ∷ log)

  abbrev pub highest_index : Log Cmd → Option LogIndex
  highest_index [] = none
  highest_index (e ∷ log) = some (from_machine_index (length (e ∷ log) - 1))

  abbrev pub append : Log Cmd → LogEntry Cmd → Log Cmd
  append log entry = log ++ entry ∷ []
