-- ===== src/Persist/File/Kept.antt =====
-- What each call on the file system keeps of a file that a crash may leave
-- (raft/src/persistence.rs, `FileMoF`).
use mathlib.Core.List.{append-nil}
use miniraft.Prelude.{
  ℕ, ◌<◌, ◌≡◌, ◌≢◌, ◌⊎◌, inl, inr, refl, sym, subst, ◌∙◌, arith, false, Option, none, some, List,
  [], ◌∷◌, ◌++◌, ◌==◌, if◌then◌else◌, str_ne, eq_refl, Bool-cases, ==_iff,
}
use miniraft.Persist.File.{
  FilePath, Directory, FileSystem, with_entry, change, append_file, sync_all, rename, create_new,
  sync_dir, all_in,
}

module _ (P : Option (List ℕ) → Type 0) where
  -- A path's entry: no file, or a known one that is on the disk as it is read; `P` holds of it.
  abbrev pub EntryKept : (ℕ → Type 0) → FileSystem → Option ℕ → Type 0
  EntryKept H fs none = P none
  EntryKept H fs (some i) =
      (i < fs.next) × H i × (fs.content i ≡ fs.stable i) × P (some (fs.content i))

  abbrev pub AllKept : (ℕ → Type 0) → FileSystem → FilePath → List Directory → Type 0
  AllKept H fs t [] = Unit {0}
  AllKept H fs t (d ∷ ds) = EntryKept H fs (d t) × AllKept H fs t ds

  -- So in the current directory, and in each that a crash may leave.
  pub record Kept (H : ℕ → Type 0) (t : FilePath) (fs : FileSystem) : Type 0 where
    pub current : EntryKept H fs (fs.dir t)
    pub others : AllKept H fs t fs.older

AllKept-map :
    {H K : ℕ → Type 0} (P : Option (List ℕ) → Type 0) (fs gs : FileSystem) (t : FilePath)
    (ds : List Directory)
    → ((o : Option ℕ) → EntryKept P H fs o → EntryKept P K gs o)
    → AllKept P H fs t ds
    → AllKept P K gs t ds
AllKept-map P fs gs t [] f h = tt
AllKept-map P fs gs t (d ∷ ds) f (h, hs) = (f (d t) h, AllKept-map P fs gs t ds f hs)

module _ {P : Option (List ℕ) → Type 0} where
  -- A call that leaves the directories alone.
  pub Kept-files :
      {H K : ℕ → Type 0} (t : FilePath) (fs gs : FileSystem)
      → gs.dir ≡ fs.dir
      → gs.older ≡ fs.older
      → ((o : Option ℕ) → EntryKept P H fs o → EntryKept P K gs o)
      → Kept P H t fs
      → Kept P K t gs
  Kept-files {H} {K} t fs gs same_dir same_older f k = record {
    current = subst (λ d. EntryKept P K gs (d t)) (sym same_dir) (f (fs.dir t) k.current);
    others = subst (AllKept P K gs t) (sym same_older) (AllKept-map P fs gs t fs.older f k.others);
  }

  -- A change at another path.
  pub Kept-change :
      {H : ℕ → Type 0} {t : FilePath} {fs : FileSystem} (p : FilePath) (o : Option ℕ)
      → p ≢ t
      → Kept P H t fs
      → Kept P H t (change (p ∷ []) (with_entry p o fs.dir) fs)
  Kept-change {t = t} p o apart k = record {
    current = rw (str_ne p t apart) k.current;
    others = (k.current, k.others);
  }

  pub Kept-append_file :
      {H : ℕ → Type 0} {t : FilePath} {fs : FileSystem} (file : ℕ) (bytes : List ℕ)
      → ((i : ℕ) → H i → (i ≢ file) ⊎ (bytes ≡ []))
      → Kept P H t fs
      → Kept P H t (append_file file bytes fs)
  Kept-append_file {H} {t} {fs} file bytes untouched k =
      Kept-files t fs (append_file file bytes fs) refl refl entry k
    where
      same :
          (i : ℕ)
          → (i ≢ file) ⊎ (bytes ≡ [])
          → (if i == file then fs.content file ++ bytes else fs.content i) ≡ fs.content i
      same i (inl apart) = ground arith
      same i (inr empty) = elim (Bool-cases (i == file)) [
        | inl here ↦
            let e : i ≡ file = (==_iff i file).0 here in
            rw (here, empty, e, append-nil (fs.content file)) refl
        | inr away ↦ rw away refl
      ]

      entry : (o : Option ℕ) → EntryKept P H fs o → EntryKept P H (append_file file bytes fs) o
      entry none h = h
      entry (some i) (known, h, synced, good) =
          let e = same i (untouched i h) in
          (known, h, e ∙ synced, subst (λ c. P (some c)) (sym e) good)

  pub Kept-sync_all :
      {H : ℕ → Type 0} {t : FilePath} {fs : FileSystem} (file : ℕ)
      → Kept P H t fs
      → Kept P H t (sync_all file fs)
  Kept-sync_all {H} {t} {fs} file k = Kept-files t fs (sync_all file fs) refl refl entry k
    where
      entry : (o : Option ℕ) → EntryKept P H fs o → EntryKept P H (sync_all file fs) o
      entry none h = h
      entry (some i) (known, h, synced, good) = (known, h, ground arith, good)

  -- A new file is none of those.
  pub Kept-create_new :
      {H : ℕ → Type 0} {t : FilePath} {fs : FileSystem} (p : FilePath)
      → p ≢ t
      → Kept P H t fs
      → Kept P (λ i. (i ≢ fs.next) × H i) t (create_new p fs).1
  Kept-create_new {H} {t} {fs} p apart k =
      Kept-files t changed (create_new p fs).1 refl refl entry
        (Kept-change p (some fs.next) apart k)
    where
      changed : FileSystem
      changed = change (p ∷ []) (with_entry p (some fs.next) fs.dir) fs

      entry :
          (o : Option ℕ)
          → EntryKept P H fs o
          → EntryKept P (λ i. (i ≢ fs.next) × H i) (create_new p fs).1 o
      entry none h = h
      entry (some i) (known, h, synced, good) =
          let other : (i == fs.next) ≡ false = ground arith in
          (omega arith, (λ e. absurd (omega arith), h), rw other synced, rw other good)

  -- A file that is on the disk takes the place.
  pub Kept-rename :
      {H : ℕ → Type 0} {t : FilePath} {fs : FileSystem} (from : FilePath) (file : ℕ)
      → fs.dir from ≡ some file
      → EntryKept P H fs (some file)
      → Kept P H t fs
      → Kept P H t (rename from t fs)
  Kept-rename {H} {t} {fs} from file e new k = record {
    current = rw (eq_refl t) (subst (EntryKept P H fs) (sym e) new);
    others = (k.current, k.others);
  }

  pub Kept-sync_dir :
      {H : ℕ → Type 0} {t : FilePath} {fs : FileSystem} (parent : FilePath → Option FilePath)
      (d : FilePath)
      → Kept P H t fs
      → Kept P H t (sync_dir parent d fs)
  Kept-sync_dir {fs = fs} parent d k = elim (Bool-cases (all_in parent d fs.touched)) [
    | inl all ↦ rw all (record { current = k.current; others = tt })
    | inr some_elsewhere ↦ rw some_elsewhere k
  ]

  pub Kept-weaken :
      {Q : Option (List ℕ) → Type 0} {H K : ℕ → Type 0} {t : FilePath} {fs : FileSystem}
      → ((o : Option (List ℕ)) → P o → Q o)
      → ((i : ℕ) → H i → K i)
      → Kept P H t fs
      → Kept Q K t fs
  Kept-weaken {Q} {H} {K} {t} {fs} f g k = record {
    current = entry (fs.dir t) k.current;
    others = all fs.older k.others;
  }
    where
      entry : (o : Option ℕ) → EntryKept P H fs o → EntryKept Q K fs o
      entry none h = f none h
      entry (some i) (known, h, synced, good) = (known, g i h, synced, f _ good)

      all : (ds : List Directory) → AllKept P H fs t ds → AllKept Q K fs t ds
      all [] h = tt
      all (d ∷ ds) (h, hs) = (entry (d t) h, all ds hs)
