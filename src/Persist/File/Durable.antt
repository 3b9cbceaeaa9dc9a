-- ===== src/Persist/File/Durable.antt =====
-- When all files are in one directory, what `flush` of `FileMoF` (raft/src/persistence.rs) syncs is
-- also the directory of the target.
use miniraft.Prelude.{
  ℕ, ◌≡◌, ◌≢◌, ◌⊎◌, inl, inr, refl, sym, subst, true, false, not, Option, none, some, List, [], ◌∷◌,
  ◌&&◌, eq_refl, Bool-cases,
}
use miniraft.Persist.File.{
  FilePath, FileSystem, append_file, sync_all, rename, all_in, FileMof, Calls, Done, is_some,
  write_all, flush, rewind, save, new_inner, replace_inner, sync_parent, ◌then_if_done◌,
}
use miniraft.Persist.File.Kept.{EntryKept, AllKept}
use miniraft.Persist.File.Crash.{CrashLeaves, read, content_of, Kept-CrashLeaves}
use miniraft.Persist.File.Writing.{IsSafe, Outcome, AllNames, new_backing-elim}
use miniraft.Persist.File.Atomic.{save-IsSafe, IsSafe-weaken, then_if_done-Outcome}

-- What is read, is on the disk.
read-Kept :
    (P : Option (List ℕ) → Type 0) (H : ℕ → Type 0) (fs : FileSystem) (text : List ℕ) (o : Option ℕ)
    → EntryKept P H fs o
    → content_of fs o ≡ some text
    → EntryKept (λ c. c ≡ some text) H fs o
read-Kept P H fs text none h e = e
read-Kept P H fs text (some i) (known, h, synced, good) e = (known, h, synced, e)

durable_of :
    (P : Option (List ℕ) → Type 0) {t : FilePath} (text : List ℕ) (r : Done) (o : Option (List ℕ))
    → Outcome (λ f fs. IsSafe P t f fs × (read fs t ≡ some text)) (IsSafe P t) r
    → Outcome (λ f fs. fs.older ≡ []) (λ f fs. Unit {0}) r
    → r.0 ≡ true
    → CrashLeaves r.2 t o
    → o ≡ some text
durable_of P {t} text (true, f, fs) o (safe, reads) older success left =
    Kept-CrashLeaves {P = λ c. c ≡ some text} {H = H} o
      (record {
        current = read-Kept P H fs text (fs.dir t) safe.kept.current reads;
        others = subst (AllKept (λ c. c ≡ some text) H fs t) (sym older) tt;
      })
      left
  where
    H : ℕ → Type 0
    H i = (i ≢ f.inner.file) ⊎ (f.inner.buffer ≡ [])
durable_of P text (false, f, fs) o safe older success left = absurd cc

module _ (parent : FilePath → Option FilePath) (d : FilePath) where
  -- All that changed since the directory was synced is in it.
  pub record OneDirectory (t : FilePath) (f : FileMof) (fs : FileSystem) : Type 0 where
    pub same : f.target ≡ t
    pub inner_in : parent f.inner.path ≡ some d
    pub touched_in : all_in parent d fs.touched ≡ true

  all_in-cons :
      (p : FilePath) (ps : List FilePath)
      → parent p ≡ some d
      → all_in parent d ps ≡ true
      → all_in parent d (p ∷ ps) ≡ true
  all_in-cons p ps e h = rw (e, eq_refl d, h) refl

  sync_parent-older :
      (calls : Calls) (f : FileMof) (fs : FileSystem)
      → all_in parent d fs.touched ≡ true
      → Outcome
          (λ f' fs'. fs'.older ≡ [])
          (λ f' fs'. Unit {0})
          (sync_parent parent calls (some d) f fs)
  sync_parent-older calls f fs all = elim (Bool-cases (calls.opened && calls.dir_synced)) [
    | inl synced ↦ rw (synced, all) refl
    | inr not_synced ↦ rw not_synced tt
  ]

  module _ {t : FilePath} (target_in : parent t ≡ some d) where
    new_inner-OneDirectory :
        (calls : Calls) (f : FileMof) (fs : FileSystem)
        → AllNames (λ p. parent p ≡ some d) (calls.first ∷ calls.second ∷ calls.third ∷ [])
        → OneDirectory t f fs
        → Outcome (OneDirectory t) (λ f' fs'. Unit {0}) (new_inner parent calls f fs)
    new_inner-OneDirectory calls f fs names o =
        new_backing-elim
          (λ b. Outcome (OneDirectory t) (λ f' fs'. Unit {0}) (replace_inner parent calls f b fs))
          (λ p. parent p ≡ some d) fs _ names
          (λ p e. record {
            same = o.same;
            inner_in = e;
            touched_in = all_in-cons p fs.touched e o.touched_in;
          })
          tt

    rewind-OneDirectory :
        (calls : Calls) (f : FileMof) (fs : FileSystem)
        → AllNames (λ p. parent p ≡ some d) (calls.first ∷ calls.second ∷ calls.third ∷ [])
        → OneDirectory t f fs
        → Outcome (OneDirectory t) (λ f' fs'. Unit {0}) (rewind parent calls f fs)
    unfolding rewind
    rewind-OneDirectory calls f fs names o =
        elim (Bool-cases (not (is_some (fs.dir f.inner.path)))) [
          | inl gone ↦ rw gone (new_inner-OneDirectory calls f fs names o)
          | inr left ↦ rw left (elim (Bool-cases calls.removed) [
            | inl removed ↦ rw removed (
                new_inner-OneDirectory calls f _ names (record {
                  same = o.same;
                  inner_in = o.inner_in;
                  touched_in = all_in-cons f.inner.path fs.touched o.inner_in o.touched_in;
                }))
            | inr refused ↦ rw refused tt
          ])
        ]

    write_all-OneDirectory :
        (calls : Calls) (text : List ℕ) (f : FileMof) (fs : FileSystem)
        → OneDirectory t f fs
        → Outcome (OneDirectory t) (λ f' fs'. Unit {0}) (write_all calls text f fs)
    unfolding write_all
    write_all-OneDirectory calls text f fs o = elim (Bool-cases calls.written) [
      | inl written ↦
          rw written (record { same = o.same; inner_in = o.inner_in; touched_in = o.touched_in })
      | inr refused ↦ rw refused tt
    ]

    -- No older directory is left.
    flush-OneDirectory :
        (calls : Calls) (f : FileMof) (fs : FileSystem)
        → OneDirectory t f fs
        → Outcome (λ f' fs'. fs'.older ≡ []) (λ f' fs'. Unit {0}) (flush parent calls f fs)
    unfolding flush
    flush-OneDirectory calls f fs o = elim (Bool-cases (not calls.flushed)) [
      | inl failed ↦ rw failed tt
      | inr flushed ↦ rw flushed (elim (Bool-cases (not calls.synced)) [
        | inl failed ↦ rw failed tt
        | inr synced ↦
            rw synced (elim (Bool-cases (calls.renamed && is_some (fs.dir f.inner.path))) [
              | inl renamed ↦ rw renamed (
                  rw o.inner_in (
                    sync_parent-older calls _
                      (rename f.inner.path f.target
                        (sync_all f.inner.file (append_file f.inner.file f.inner.buffer fs)))
                      (all_in-cons f.inner.path (f.target ∷ fs.touched) o.inner_in
                        (all_in-cons f.target fs.touched (rw o.same target_in) o.touched_in))))
              | inr failed ↦ rw failed tt
            ])
      ])
    ]

    save-older :
        (calls : Calls) (f : FileMof) (fs : FileSystem) (text : List ℕ)
        → AllNames (λ p. parent p ≡ some d) (calls.first ∷ calls.second ∷ calls.third ∷ [])
        → OneDirectory t f fs
        → Outcome (λ f' fs'. fs'.older ≡ []) (λ f' fs'. Unit {0}) (save parent calls text f fs)
    unfolding save
    save-older calls f fs text names one =
        then_if_done-Outcome (OneDirectory t) (λ f' fs'. Unit {0}) _
          (rewind parent calls f fs then_if_done write_all calls text) (flush parent calls)
          (then_if_done-Outcome (OneDirectory t) (λ f' fs'. Unit {0}) (OneDirectory t)
            (rewind parent calls f fs) (write_all calls text)
            (rewind-OneDirectory calls f fs names one) (write_all-OneDirectory calls text))
          (flush-OneDirectory calls)

    -- If the temporary files are in the target's directory, and all that changed since it was
    -- synced is in it too, then after a save that succeeds a crash leaves the text at the
    -- target, and nothing else.
    pub save-IsDurable :
        {P : Option (List ℕ) → Type 0} (calls : Calls) (f : FileMof) (fs : FileSystem)
        (text : List ℕ) (o : Option (List ℕ))
        → AllNames (λ p. parent p ≡ some d) (calls.first ∷ calls.second ∷ calls.third ∷ [])
        → AllNames (λ p. p ≢ t) (calls.first ∷ calls.second ∷ calls.third ∷ [])
        → OneDirectory t f fs
        → IsSafe P t f fs
        → (save parent calls text f fs).0 ≡ true
        → CrashLeaves (save parent calls text f fs).2 t o
        → o ≡ some text
    save-IsDurable calls f fs text o names apart one safe success left =
        durable_of (λ c. Unit {0}) text (save parent calls text f fs) o
          (save-IsSafe parent calls f fs text apart
            (IsSafe-weaken {Q = λ c. Unit {0}} (λ c h. tt) safe) tt)
          (save-older calls f fs text names one) success left
