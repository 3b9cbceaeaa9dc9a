-- ===== src/Persist/File.antt =====
-- The file with moves on flush (raft/src/persistence.rs, `FileMoF`) on a file system. A directory
-- entry names a numbered file. A file has what a read gives, and what the disk has of it since the
-- last `sync_all`. Changes of directories reach the disk in order, at any time, and all at once when
-- their directory is synced: `older` has the directories that a crash may leave instead of the
-- current one, `touched` the paths of the changes between them. The operating system may refuse each
-- call: `Calls` says which go well, and how much of a buffer gets out. The names of temporary files,
-- which are random, and `Path::parent` are arguments.
pub mod Kept
pub mod Crash
pub mod Writing
pub mod Flush
pub mod Atomic
pub mod Durable
pub mod Recovery
use miniraft.Prelude.{
  ℕ, suc, ◌+◌, Bool, true, false, not, ◌&&◌, Option, none, some, List, [], ◌∷◌, ◌++◌, take, drop,
  ◌==◌, if◌then◌else◌, String, str_eq,
}

abbrev pub FilePath : Type 0
FilePath = String

abbrev pub Directory : Type 0
Directory = FilePath → Option ℕ

pub record FileSystem : Type 0 where
  pub dir : Directory
  pub older : List Directory
  pub touched : List FilePath
  pub content : ℕ → List ℕ
  pub stable : ℕ → List ℕ
  pub next : ℕ

abbrev pub with_entry : FilePath → Option ℕ → Directory → Directory
with_entry p o d = λ q. if str_eq p q then o else d q

abbrev pub update : ℕ → List ℕ → (ℕ → List ℕ) → ℕ → List ℕ
update i bytes f = λ j. if j == i then bytes else f j

-- A change of directories.
abbrev pub change : List FilePath → Directory → FileSystem → FileSystem
change paths d fs = record fs { dir = d; older = fs.dir ∷ fs.older; touched = paths ++ fs.touched }

abbrev pub append_file : ℕ → List ℕ → FileSystem → FileSystem
append_file i bytes fs = record fs { content = update i (fs.content i ++ bytes) fs.content }

abbrev pub sync_all : ℕ → FileSystem → FileSystem
sync_all i fs = record fs { stable = update i (fs.content i) fs.stable }

abbrev pub remove_file : FilePath → FileSystem → FileSystem
remove_file p fs = change (p ∷ []) (with_entry p none fs.dir) fs

abbrev pub rename : FilePath → FilePath → FileSystem → FileSystem
rename from to fs =
    change (from ∷ to ∷ []) (with_entry to (fs.dir from) (with_entry from none fs.dir)) fs

abbrev pub is_some : Option ℕ → Bool
is_some none = false
is_some (some i) = true

-- `BufWriter<File>`, with its path.
pub record Backing : Type 0 where
  pub path : FilePath
  pub file : ℕ
  pub buffer : List ℕ

pub record FileMof : Type 0 where
  pub target : FilePath
  pub inner : Backing

abbrev pub create_new : FilePath → FileSystem → Backing × FileSystem
create_new p fs = (
  record { path = p; file = fs.next; buffer = [] },
  record (change (p ∷ []) (with_entry p (some fs.next) fs.dir) fs) {
    content = update fs.next [] fs.content;
    stable = update fs.next [] fs.stable;
    next = suc fs.next;
  },
)

-- The attempts of `new_backing`: each has a name, and whether the system would create the file.
unfoldable pub new_backing : List (FilePath × Bool) → FileSystem → Option (Backing × FileSystem)
new_backing [] fs = none
new_backing ((p, allowed) ∷ more) fs =
    if allowed && not (is_some (fs.dir p)) then some (create_new p fs) else new_backing more fs

-- `FileMoF::new`.
unfoldable pub new_file_mof :
    FilePath → List (FilePath × Bool) → FileSystem → Option (FileMof × FileSystem)
new_file_mof target names fs = elim (new_backing names fs) [
  | none ↦ none
  | some (b, fs') ↦ some (record { target = target; inner = b }, fs')
]

pub record Calls : Type 0 where
  -- `remove_file`, and the names for the new file: three attempts.
  pub removed : Bool
  pub first : FilePath × Bool
  pub second : FilePath × Bool
  pub third : FilePath × Bool
  -- `write_all`, and how much of the buffer it hands on.
  pub written : Bool
  pub spilled : ℕ
  -- The calls of `flush`. What is not written, or not flushed, is so up to some byte.
  pub flushed : Bool
  pub synced : Bool
  pub renamed : Bool
  pub opened : Bool
  pub dir_synced : Bool
  pub partly : ℕ

-- A `BufWriter` hands on some of what it holds.
abbrev pub spill : ℕ → List ℕ → FileMof → FileSystem → FileMof × FileSystem
spill n bytes f fs = (
  record f { inner = record f.inner { buffer = drop n bytes } },
  append_file f.inner.file (take n bytes) fs,
)

-- A call's success, with what it leaves.
abbrev pub Done : Type 0
Done = Bool × FileMof × FileSystem

infixl 5 ◌then_if_done◌
-- The calls after one that went well.
abbrev pub ◌then_if_done◌ : Done → (FileMof → FileSystem → Done) → Done
(true, f, fs) then_if_done k = k f fs
(false, f, fs) then_if_done k = (false, f, fs)

-- `write_all`, in the calls of `write` that it takes: all of the bytes, or the first of them.
unfoldable pub write_all : Calls → List ℕ → FileMof → FileSystem → Done
write_all calls buf f fs =
    if calls.written
    then (let (f', fs') = spill calls.spilled (f.inner.buffer ++ buf) f fs in (true, f', fs'))
    else (let taken = take calls.partly buf in
        let (f', fs') = spill calls.spilled (f.inner.buffer ++ taken) f fs in (false, f', fs'))

module _ (parent : FilePath → Option FilePath) where
  abbrev pub same_path : FilePath → Option FilePath → Bool
  same_path d none = false
  same_path d (some e) = str_eq d e

  abbrev pub all_in : FilePath → List FilePath → Bool
  all_in d [] = true
  all_in d (p ∷ ps) = same_path d (parent p) && all_in d ps

  abbrev pub sync_dir : FilePath → FileSystem → FileSystem
  sync_dir d fs = if all_in d fs.touched then record fs { older = []; touched = [] } else fs

  -- After the rename: the directory of the temporary file is synced.
  abbrev pub sync_parent : Calls → Option FilePath → FileMof → FileSystem → Done
  sync_parent calls none f fs = (true, f, fs)
  sync_parent calls (some d) f fs =
      if calls.opened && calls.dir_synced then (true, f, sync_dir d fs) else (false, f, fs)

  unfoldable pub flush : Calls → FileMof → FileSystem → Done
  flush calls f fs =
      if not calls.flushed
      then (let (f', fs') = spill calls.partly f.inner.buffer f fs in (false, f', fs'))
      else (let out = append_file f.inner.file f.inner.buffer fs in
          let f' = record f { inner = record f.inner { buffer = [] } } in
          if not calls.synced
          then (false, f', out)
          else (let safe = sync_all f.inner.file out in
              if calls.renamed && is_some (fs.dir f.inner.path)
              then sync_parent calls (parent f.inner.path) f' (rename f.inner.path f.target safe)
              else (false, f', safe)))

  -- The new file takes the old one's place, whose buffer gets out as far as it does.
  abbrev pub replace_inner : Calls → FileMof → Option (Backing × FileSystem) → FileSystem → Done
  replace_inner calls f none fs = (false, f, fs)
  replace_inner calls f (some (b, fs')) fs = (
    true,
    record f { inner = b },
    append_file f.inner.file (take calls.partly f.inner.buffer) fs',
  )

  abbrev pub new_inner : Calls → FileMof → FileSystem → Done
  new_inner calls f fs =
      replace_inner calls f (new_backing (calls.first ∷ calls.second ∷ calls.third ∷ []) fs) fs

  unfoldable pub rewind : Calls → FileMof → FileSystem → Done
  rewind calls f fs =
      if not (is_some (fs.dir f.inner.path))
      then new_inner calls f fs
      else if calls.removed
      then new_inner calls f (remove_file f.inner.path fs)
      else (false, f, fs)

  -- Seeking to anywhere rewinds.
  abbrev pub seek : Calls → FileMof → FileSystem → Done
  seek calls f fs = rewind calls f fs

  -- What the Raft loop does before it answers.
  unfoldable pub save : Calls → List ℕ → FileMof → FileSystem → Done
  save calls text f fs =
      rewind calls f fs then_if_done write_all calls text then_if_done flush calls
