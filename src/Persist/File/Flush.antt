-- ===== src/Persist/File/Flush.antt =====
-- What `flush` of `FileMoF` (raft/src/persistence.rs) keeps of the target.
use mathlib.Core.List.{append-nil}
use miniraft.Prelude.{
  ℕ, ◌≡◌, ◌≢◌, inl, inr, refl, sym, ap, subst, ◌∙◌, not, Option, none, some, List, [], ◌++◌, ◌&&◌,
  take, eq_refl, Bool-cases,
}
use miniraft.Persist.File.{
  FilePath, FileSystem, append_file, sync_all, rename, all_in, FileMof, Calls, is_some, flush,
  sync_parent,
}
use miniraft.Persist.File.Kept.{Kept, Kept-append_file, Kept-sync_all, Kept-rename, Kept-weaken}
use miniraft.Persist.File.Crash.{read}
use miniraft.Persist.File.Writing.{IsSafe, Writing, Outcome, update_here}

module _ {P : Option (List ℕ) → Type 0} {t : FilePath} where
  sync_parent-Outcome :
      (parent : FilePath → Option FilePath) (calls : Calls) (o : Option FilePath) (f : FileMof)
      (fs : FileSystem) (text : List ℕ)
      → IsSafe P t f fs
      → read fs t ≡ some text
      → Outcome
          (λ f' fs'. IsSafe P t f' fs' × (read fs' t ≡ some text))
          (IsSafe P t)
          (sync_parent parent calls o f fs)
  sync_parent-Outcome parent calls none f fs text safe reads = (safe, reads)
  sync_parent-Outcome parent calls (some d) f fs text safe reads =
      elim (Bool-cases (calls.opened && calls.dir_synced)) [
        | inl synced ↦ rw synced (elim (Bool-cases (all_in parent d fs.touched)) [
          | inl all ↦ rw all (
            record {
              same = safe.same;
              kept = record { current = safe.kept.current; others = tt };
              known = safe.known;
              apart = safe.apart;
            },
            reads,
          )
          | inr some_elsewhere ↦ rw some_elsewhere (safe, reads)
        ])
        | inr not_synced ↦ rw not_synced safe
      ]

  -- A file that is on the disk takes the target's place.
  rename-Saved :
      (f : FileMof) (fs : FileSystem) (text : List ℕ)
      → Writing P t text f fs
      → f.inner.buffer ≡ []
      → fs.content f.inner.file ≡ fs.stable f.inner.file
      → P (some text)
      → IsSafe P t f (rename f.inner.path t fs) × (read (rename f.inner.path t fs) t ≡ some text)
  rename-Saved f fs text w empty synced good =
      let whole : fs.content f.inner.file ≡ text =
        sym (append-nil (fs.content f.inner.file))
        ∙ ap (λ b. fs.content f.inner.file ++ b) (sym empty)
        ∙ w.whole in
      (
        record {
          same = w.same;
          kept =
              Kept-rename f.inner.path f.inner.file w.entry
                (w.known, inr empty, synced, subst (λ c. P (some c)) (sym whole) good)
                (Kept-weaken (λ o h. h) (λ i h. inl h) w.kept);
          known = w.known;
          apart = w.apart;
        },
        rw (eq_refl t, w.entry, whole) refl,
      )

  pub flush-Outcome :
      (parent : FilePath → Option FilePath) (calls : Calls) (f : FileMof) (fs : FileSystem)
      (text : List ℕ)
      → Writing P t text f fs
      → P (some text)
      → Outcome
          (λ f' fs'. IsSafe P t f' fs' × (read fs' t ≡ some text))
          (IsSafe P t)
          (flush parent calls f fs)
  unfolding flush
  flush-Outcome parent calls f fs text w good = elim (Bool-cases (not calls.flushed)) [
    | inl failed ↦ rw failed (record {
      same = w.same;
      kept =
          Kept-weaken (λ o h. h) (λ i h. inl h)
            (Kept-append_file f.inner.file (take calls.partly f.inner.buffer) (λ i h. inl h)
              w.kept);
      known = w.known;
      apart = w.apart;
    })
    | inr flushed ↦ rw flushed (elim (Bool-cases (not calls.synced)) [
      | inl failed ↦ rw failed (unwritten (append_file f.inner.file f.inner.buffer fs) refl kept)
      | inr synced ↦ rw synced (elim (Bool-cases (calls.renamed && is_some (fs.dir f.inner.path))) [
        | inl renamed ↦ rw renamed after_rename
        | inr failed ↦ rw failed (unwritten synced_files refl (Kept-sync_all f.inner.file kept))
      ])
    ])
  ]
    where
      emptied : FileMof
      emptied = record f { inner = record f.inner { buffer = [] } }

      synced_files : FileSystem
      synced_files = sync_all f.inner.file (append_file f.inner.file f.inner.buffer fs)

      kept : Kept P (λ i. i ≢ f.inner.file) t (append_file f.inner.file f.inner.buffer fs)
      kept = Kept-append_file f.inner.file f.inner.buffer (λ i h. inl h) w.kept

      unwritten :
          (gs : FileSystem)
          → gs.next ≡ fs.next
          → Kept P (λ i. i ≢ f.inner.file) t gs
          → IsSafe P t emptied gs
      unwritten gs e k = record {
        same = w.same;
        kept = Kept-weaken (λ o h. h) (λ i h. inr refl) k;
        known = rw e w.known;
        apart = w.apart;
      }

      writing : Writing P t text emptied synced_files
      writing = record {
        same = w.same;
        kept = Kept-sync_all f.inner.file kept;
        known = w.known;
        apart = w.apart;
        entry = w.entry;
        whole = append-nil _ ∙ rw (update_here f.inner.file _ fs.content) w.whole;
      }

      after_rename :
          Outcome
            (λ f' fs'. IsSafe P t f' fs' × (read fs' t ≡ some text))
            (IsSafe P t)
            (sync_parent parent calls
              (parent f.inner.path)
              emptied
              (rename f.inner.path f.target synced_files))
      after_rename =
          let (safe, reads) =
            rename-Saved emptied synced_files text writing refl
              (sym (update_here f.inner.file _ fs.stable)) good in
          subst
            (λ q.
              Outcome (λ f' fs'. IsSafe P t f' fs' × (read fs' t ≡ some text)) (IsSafe P t)
                (sync_parent parent calls (parent f.inner.path) emptied
                  (rename f.inner.path q synced_files)))
            (sym w.same)
            (sync_parent-Outcome parent calls (parent f.inner.path) emptied _ text safe reads)
