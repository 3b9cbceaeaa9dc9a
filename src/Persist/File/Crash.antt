-- ===== src/Persist/File/Crash.antt =====
-- What a crash may leave of a file (raft/src/persistence.rs, `FileMoF`).
use miniraft.Prelude.{ℕ, ◌≡◌, sym, subst, Option, none, some, List, [], ◌∷◌}
use miniraft.Persist.File.{FilePath, Directory, FileSystem}
use miniraft.Persist.File.Kept.{EntryKept, AllKept, Kept}

pub data Among (d : Directory) : List Directory → Type 0 where
  here : {ds : List Directory} → Among d (d ∷ ds)
  there : {e : Directory} {ds : List Directory} → Among d ds → Among d (e ∷ ds)

-- What a crash may leave at a path: the entry that the current directory has, or one of `older`; and
-- of a file with bytes that are not synced, anything.
pub data CrashLeaves (fs : FileSystem) (p : FilePath) : Option (List ℕ) → Type 0 where
  no_file : (d : Directory) → Among d (fs.dir ∷ fs.older) → d p ≡ none → CrashLeaves fs p none
  some_file :
      {bytes : List ℕ} (d : Directory) (i : ℕ)
      → Among d (fs.dir ∷ fs.older)
      → d p ≡ some i
      → (fs.content i ≡ fs.stable i → bytes ≡ fs.content i)
      → CrashLeaves fs p (some bytes)

abbrev pub content_of : FileSystem → Option ℕ → Option (List ℕ)
content_of fs none = none
content_of fs (some i) = some (fs.content i)

abbrev pub read : FileSystem → FilePath → Option (List ℕ)
read fs p = content_of fs (fs.dir p)

AllKept-Among :
    (P : Option (List ℕ) → Type 0) (H : ℕ → Type 0) (fs : FileSystem) (t : FilePath)
    (ds : List Directory) (d : Directory)
    → AllKept P H fs t ds
    → Among d ds
    → EntryKept P H fs (d t)
AllKept-Among P H fs t [] c h m = elim m [ ]
AllKept-Among P H fs t (d ∷ ds) c (h, hs) here = h
AllKept-Among P H fs t (e ∷ ds) d (h, hs) (there m) = AllKept-Among P H fs t ds d hs m

module _ {P : Option (List ℕ) → Type 0} {t : FilePath} where
  pub Kept-CrashLeaves :
      {H : ℕ → Type 0} {fs : FileSystem} (o : Option (List ℕ))
      → Kept P H t fs
      → CrashLeaves fs t o
      → P o
  Kept-CrashLeaves {H} {fs} none k (no_file d m e) =
      subst (EntryKept P H fs) e
        (AllKept-Among P H fs t (fs.dir ∷ fs.older) d (k.current, k.others) m)
  Kept-CrashLeaves {H} {fs} (some bytes) k (some_file d i m e on_disk) =
      let (known, h, synced, good) =
        subst (EntryKept P H fs) e
          (AllKept-Among P H fs t (fs.dir ∷ fs.older) d (k.current, k.others) m) in
      subst (λ c. P (some c)) (sym (on_disk synced)) good
