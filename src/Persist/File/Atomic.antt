-- ===== src/Persist/File/Atomic.antt =====
-- Saving with `FileMoF` (raft/src/persistence.rs) when calls fail and the machine crashes.
use miniraft.Prelude.{
  ℕ, ◌≡◌, ◌≢◌, ◌⊎◌, inl, inr, refl, arith, Bool, true, false, Option, none, some, List, [], ◌∷◌,
}
use miniraft.Persist.File.{
  FilePath, FileSystem, FileMof, Calls, Done, new_file_mof, write_all, flush, rewind, save,
  ◌then_if_done◌,
}
use miniraft.Persist.File.Kept.{Kept, Kept-create_new, Kept-weaken}
use miniraft.Persist.File.Crash.{CrashLeaves, read, Kept-CrashLeaves}
use miniraft.Persist.File.Writing.{
  IsSafe, Writing, Outcome, AllNames, rewind-Writing, write_all-Writing, new_backing-elim,
}
use miniraft.Persist.File.Flush.{flush-Outcome}

pub then_if_done-Outcome :
    (A B C : FileMof → FileSystem → Type 0) (d : Done) (k : FileMof → FileSystem → Done)
    → Outcome A B d
    → ((f : FileMof) (fs : FileSystem) → A f fs → Outcome C B (k f fs))
    → Outcome C B (d then_if_done k)
then_if_done-Outcome A B C (true, f, fs) k h g = g f fs h
then_if_done-Outcome A B C (false, f, fs) k h g = h

abbrev pub Created : (FileMof → FileSystem → Type 0) → Option (FileMof × FileSystem) → Type 0
Created A none = Unit {0}
Created A (some (f, fs)) = A f fs

-- The target is safe after a success and after a failure.
kept_of :
    {P : Option (List ℕ) → Type 0} {t : FilePath} (text : List ℕ) (d : Done)
    → Outcome (λ f fs. IsSafe P t f fs × (read fs t ≡ some text)) (IsSafe P t) d
    → IsSafe P t d.1 d.2
kept_of text (true, f, fs) (safe, reads) = safe
kept_of text (false, f, fs) safe = safe

pub IsSafe-weaken :
    {P Q : Option (List ℕ) → Type 0} {t : FilePath} {f : FileMof} {fs : FileSystem}
    → ((o : Option (List ℕ)) → P o → Q o)
    → IsSafe P t f fs
    → IsSafe Q t f fs
IsSafe-weaken weaker safe = record {
  same = safe.same;
  kept = Kept-weaken weaker (λ i h. h) safe.kept;
  known = safe.known;
  apart = safe.apart;
}

module _ {P : Option (List ℕ) → Type 0} {t : FilePath} where
  -- A new file is safe, where the target's is on the disk.
  pub new_file_mof-IsSafe :
      (names : List (FilePath × Bool)) (fs : FileSystem)
      → AllNames (λ p. p ≢ t) names
      → Kept P (λ i. Unit {0}) t fs
      → Created (IsSafe P t) (new_file_mof t names fs)
  unfolding new_file_mof
  new_file_mof-IsSafe names fs apart k =
      new_backing-elim
        (λ o.
          Created (IsSafe P t)
            (elim o [ none ↦ none | some (b, fs') ↦ some (record { target = t; inner = b }, fs') ]))
        (λ p. p ≢ t) fs names apart
        (λ p away. record {
          same = refl;
          kept = Kept-weaken (λ o h. h) (λ i h. inr refl) (Kept-create_new p away k);
          known = omega arith;
          apart = away;
        })
        tt

  -- Let a property hold of what the target has in every directory that a crash may leave, and
  -- of a text. If no temporary name is the target, it holds so after the text is saved,
  -- whichever calls fail, and the next save can follow. After a success the target reads as the
  -- text.
  pub save-IsSafe :
      (parent : FilePath → Option FilePath) (calls : Calls) (f : FileMof) (fs : FileSystem)
      (text : List ℕ)
      → AllNames (λ p. p ≢ t) (calls.first ∷ calls.second ∷ calls.third ∷ [])
      → IsSafe P t f fs
      → P (some text)
      → Outcome
          (λ f' fs'. IsSafe P t f' fs' × (read fs' t ≡ some text))
          (IsSafe P t)
          (save parent calls text f fs)
  unfolding save
  save-IsSafe parent calls f fs text apart safe good =
      then_if_done-Outcome (Writing P t text) (IsSafe P t) _
        (rewind parent calls f fs then_if_done write_all calls text) (flush parent calls)
        (then_if_done-Outcome (Writing P t []) (IsSafe P t) (Writing P t text)
          (rewind parent calls f fs) (write_all calls text)
          (rewind-Writing parent calls f fs apart safe) (write_all-Writing calls text))
        (λ f' fs' w. flush-Outcome parent calls f' fs' text w good)

-- After a save the target has what it had before or the text, whatever fails and whatever a crash
-- leaves.
pub save-IsAtomic :
    (parent : FilePath → Option FilePath) (calls : Calls) (f : FileMof) (fs : FileSystem)
    (t : FilePath) (old : Option (List ℕ)) (text : List ℕ) (o : Option (List ℕ))
    → AllNames (λ p. p ≢ t) (calls.first ∷ calls.second ∷ calls.third ∷ [])
    → IsSafe (λ o. o ≡ old) t f fs
    → CrashLeaves (save parent calls text f fs).2 t o
    → (o ≡ old) ⊎ (o ≡ some text)
save-IsAtomic parent calls f fs t old text o apart safe left =
    Kept-CrashLeaves o
      (kept_of {P = λ o. (o ≡ old) ⊎ (o ≡ some text)} text (save parent calls text f fs) (
        save-IsSafe parent calls f fs text apart (IsSafe-weaken (λ o e. inl e) safe)
          (inr refl))).kept
      left
