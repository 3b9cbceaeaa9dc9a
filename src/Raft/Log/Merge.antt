-- ===== src/Raft/Log/Merge.antt =====
-- Laws of the merge that `replace_from` computes (raft/src/state.rs).
use miniraft.Prelude.{
  ℕ, suc, zero, ◌+◌, ◌≤◌, ◌<◌, ◌≡◌, refl, sym, ◌∙◌, ap, ap₂, inl, inr, List, [], ◌∷◌, ◌++◌, arith,
  ◌==◌, Bool-cases, ==_iff, length, length-append, length-take_le, length-drop, take, drop,
  take-length, take-split, ok,
}
use miniraft.Raft.Index.{LogIndex, u64_mod, to_machine_index}
use miniraft.Raft.Log.{LogEntry, Log, replace_from}
use miniraft.Raft.Log.Replace.{terms, merge, dropped, replace_from-merge}

module _ {ℓ} {Cmd : Type ℓ} where
  -- The entries agree in term as far as both lists go.
  abbrev pub Agree : List (LogEntry Cmd) → List (LogEntry Cmd) → Type 0
  Agree [] with = Unit {0}
  Agree (t ∷ tail) [] = Unit {0}
  Agree (t ∷ tail) (w ∷ with) = (t.term ≡ w.term) × Agree tail with

  merge-terms :
      (tail with : List (LogEntry Cmd)) → terms (take (length with) (merge tail with)) ≡ terms with
  unfolding merge
  merge-terms [] with = ap terms (take-length with)
  merge-terms (t ∷ tail) [] = refl
  merge-terms (t ∷ tail) (w ∷ with) = elim (Bool-cases (t.term == w.term)) [
    | inl same ↦ rw same (ap₂ ◌∷◌ ((==_iff t.term w.term).0 same) (merge-terms tail with))
    | inr differ ↦ rw differ (ap (λ l. w.term ∷ terms l) (take-length with))
  ]

  merge_again : (tail with : List (LogEntry Cmd)) → merge (merge tail with) with ≡ merge tail with
  unfolding merge
  merge_again [] [] = refl
  merge_again [] (w ∷ with) = ground (arith, merge_again [] with)
  merge_again (t ∷ tail) [] = refl
  merge_again (t ∷ tail) (w ∷ with) = ground (arith, merge_again tail with, merge_again [] with)

  dropped-merge : (tail with : List (LogEntry Cmd)) → dropped (merge tail with) with ≡ []
  unfolding merge dropped
  dropped-merge [] [] = refl
  dropped-merge [] (w ∷ with) = ground (arith, dropped-merge [] with)
  dropped-merge (t ∷ tail) [] = refl
  dropped-merge (t ∷ tail) (w ∷ with) =
      ground (arith, dropped-merge tail with, dropped-merge [] with)

  take-merge :
      (k : ℕ) (tail with : List (LogEntry Cmd))
      → k ≤ length tail
      → Agree (take k tail) with
      → take k (merge tail with) ≡ take k tail
  unfolding merge
  take-merge zero tail with h a = refl
  take-merge (suc k) [] with h a = elim h [ ]
  take-merge (suc k) (t ∷ tail) [] h a = refl
  take-merge (suc k) (t ∷ tail) (w ∷ with) h a =
      rw ((==_iff t.term w.term).1 a.0) (ap (◌∷◌ t) (take-merge k tail with (omega arith) a.1))

  pub length-merge_le :
      (tail with : List (LogEntry Cmd)) → length (merge tail with) ≤ length tail + length with
  unfolding merge
  length-merge_le [] with = omega arith
  length-merge_le (t ∷ tail) [] = omega arith
  length-merge_le (t ∷ tail) (w ∷ with) = ground (arith, length-merge_le tail with)

  length-merge : (tail with : List (LogEntry Cmd)) → length with ≤ length (merge tail with)
  unfolding merge
  length-merge [] with = omega arith
  length-merge (t ∷ tail) [] = omega arith
  length-merge (t ∷ tail) (w ∷ with) = ground (arith, length-merge tail with)

  drop-take_append : (n : ℕ) (log ys : Log Cmd) → n ≤ length log → drop n (take n log ++ ys) ≡ ys
  drop-take_append zero log ys h = refl
  drop-take_append (suc n) [] ys h = elim h [ ]
  drop-take_append (suc n) (x ∷ log) ys h = drop-take_append n log ys (omega arith)

  take-take_append :
      (n : ℕ) (log ys : Log Cmd) → n ≤ length log → take n (take n log ++ ys) ≡ take n log
  take-take_append zero log ys h = refl
  take-take_append (suc n) [] ys h = elim h [ ]
  take-take_append (suc n) (x ∷ log) ys h = ap (◌∷◌ x) (take-take_append n log ys (omega arith))

  module _ (log with : Log Cmd) (i : LogIndex) (bound : to_machine_index i ≤ length log)
      (small : length log + 1 < u64_mod) (result : Log Cmd) (gone : List Cmd)
      (run : replace_from log i with ≡ ok (result, gone)) where
    result-merge :
        result ≡ take (to_machine_index i) log ++ merge (drop (to_machine_index i) log) with
    result-merge = cc (replace_from-merge log with i bound small)

    tail-merged : drop (to_machine_index i) result ≡ merge (drop (to_machine_index i) log) with
    tail-merged = rw result-merge (drop-take_append (to_machine_index i) log _ bound)

    front-same : take (to_machine_index i) result ≡ take (to_machine_index i) log
    front-same = rw result-merge (take-take_append (to_machine_index i) log _ bound)

    -- When entries are stored from an index inside a log of fewer than 2^64 - 1 entries, or
    -- just behind it, the log has their terms at their places and is unchanged in front of
    -- them.
    pub replace_from-terms :
        let at = to_machine_index i in
        (take at result ≡ take at log) × (terms (take (length with) (drop at result)) ≡ terms with)
    replace_from-terms =
        (front-same, rw tail-merged (merge-terms (drop (to_machine_index i) log) with))

    -- The same entries stored again at the same index change nothing and dismiss nothing, as
    -- long as the log that the first time left has fewer than 2^64 - 1 entries.
    pub replace_from_again :
        length result + 1 < u64_mod → replace_from result i with ≡ ok (result, [])
    replace_from_again small' =
        let at = to_machine_index i in
        let inside : at ≤ length result = rw result-merge (
          omega (
            arith,
            length-append (take at log) (merge (drop at log) with),
            length-take_le at log bound,
          )) in
        replace_from-merge result with i inside small'
        ∙ rw (tail-merged, front-same)
            (rw (merge_again (drop at log) with, dropped-merge (drop at log) with)
              (ap (λ l. ok (l, [])) (sym result-merge)))

    -- When entries are stored from an index inside a log of fewer than 2^64 - 1 entries, or
    -- just behind it, a prefix whose terms they do not contradict is kept, commands included.
    pub replace_from-keeps :
        (k : ℕ)
        → to_machine_index i + k ≤ length log
        → Agree (take k (drop (to_machine_index i) log)) with
        → take (to_machine_index i + k) result ≡ take (to_machine_index i + k) log
    replace_from-keeps k h agree =
        let at = to_machine_index i in
        take-split at k result log front-same (
          rw tail-merged
            (take-merge k (drop at log) with (omega (arith, length-drop at log)) agree))
