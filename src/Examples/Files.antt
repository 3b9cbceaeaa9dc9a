-- ===== src/Examples/Files.antt =====
-- The theorems on `FileMoF` (raft/src/persistence.rs), at a file in `node` that is replaced from
-- `tmp`.
use miniraft.Prelude.{
  ℕ, ◌≡◌, ◌≢◌, ◌⊎◌, inl, inr, refl, arith, true, false, Option, none, some, List, [], ◌∷◌, ok,
  String, str_eq, eq_iff, if◌then◌else◌, ◌==◌,
}
use miniraft.Prelude.Results.{done}
use miniraft.Json.Serde.{Serde, string_serde, string_trips, u64_serde, u64_trips}
use miniraft.Kv.{Command, write}
use miniraft.Kv.Answers.{requested}
use miniraft.Raft.State.{Persistent}
use miniraft.Wire.RoundTrip.Restored.{command_serde}
use miniraft.Wire.Text.{string-Spelled, u64-Spelled}
use miniraft.Persist.Storage.{persist, restore}
use miniraft.Persist.Restored.{file, restore-persist}
use miniraft.Persist.File.{
  FilePath, FileSystem, FileMof, Calls, new_backing, write_all, flush, rewind, save,
}
use miniraft.Persist.File.Crash.{CrashLeaves, some_file, here, there, read}
use miniraft.Persist.File.Writing.{IsSafe, AllNames, Outcome}
use miniraft.Persist.File.Atomic.{save-IsSafe, IsSafe-weaken}
use miniraft.Persist.File.Durable.{save-IsDurable}
use miniraft.Persist.File.Recovery.{restore-after_crash, without_clients}
use miniraft.Examples.{n3}

abbrev target : FilePath
target = "node/n1"

-- File 0 is the target, file 1 the temporary one.
abbrev a_disk : List ℕ → FileSystem
a_disk old = record {
  dir = λ q. if str_eq "node/n1" q then some 0 else if str_eq "tmp/a" q then some 1 else none;
  older = [];
  touched = [];
  content = λ i. if i == 0 then old else [];
  stable = λ i. if i == 0 then old else [];
  next = 2;
}

abbrev a_file : FileMof
a_file = record { target = "node/n1"; inner = record { path = "tmp/a"; file = 1; buffer = [] } }

-- The first name is taken.
abbrev all_well : Calls
all_well = record {
  removed = true;
  first = ("tmp/b", false);
  second = ("tmp/c", true);
  third = ("tmp/d", true);
  written = true;
  spilled = 1;
  flushed = true;
  synced = true;
  renamed = true;
  opened = true;
  dir_synced = true;
  partly = 0;
}

abbrev old_text : List ℕ
old_text = 9 ∷ []

abbrev new_text : List ℕ
new_text = 7 ∷ 8 ∷ []

abbrev OldOrNew : Option (List ℕ) → Type 0
OldOrNew o = (o ≡ some old_text) ⊎ (o ≡ some new_text)

abbrev two_directories : FilePath → Option FilePath
two_directories p = some (if str_eq "node/n1" p then "node" else "tmp")

abbrev one_directory : FilePath → Option FilePath
one_directory p = some "node"

b_apart : "tmp/b" ≢ target
b_apart e = ground (arith, eq_iff "tmp/b" "node/n1")

names_apart : AllNames (λ p. p ≢ target) (all_well.first ∷ all_well.second ∷ all_well.third ∷ [])
names_apart = (
  b_apart,
  (
    (λ e. ground (arith, eq_iff "tmp/c" "node/n1")),
    ((λ e. ground (arith, eq_iff "tmp/d" "node/n1")), tt),
  ),
)

a_file-IsSafe : (old : List ℕ) → IsSafe (λ o. o ≡ some old) target a_file (a_disk old)
a_file-IsSafe old = record {
  same = refl;
  kept = record { current = (omega arith, inl (λ e. omega arith), refl, refl); others = tt };
  known = omega arith;
  apart = λ e. ground (arith, eq_iff "tmp/a" "node/n1");
}

save-IsSafe_example :
    Outcome
      (λ f' fs'. IsSafe OldOrNew target f' fs' × (read fs' target ≡ some new_text))
      (IsSafe OldOrNew target)
      (save two_directories all_well new_text a_file (a_disk old_text))
save-IsSafe_example =
    save-IsSafe two_directories all_well a_file (a_disk old_text) new_text names_apart
      (IsSafe-weaken (λ o e. inl e) (a_file-IsSafe old_text)) (inr refl)

-- The directory of the target is not synced, so that a crash may leave the old file after a success.
not_durable :
    CrashLeaves
      (save two_directories all_well new_text a_file (a_disk old_text)).2
      target
      (some old_text)
unfolding save rewind write_all flush new_backing
not_durable = some_file _ 0 (there here) refl (λ e. refl)

all_well_done :
    (text : List ℕ) → (save one_directory all_well text a_file (a_disk old_text)).0 ≡ true
unfolding save rewind write_all flush new_backing
all_well_done text = refl

save-IsDurable_example : some new_text ≡ some new_text
unfolding save rewind write_all flush new_backing
save-IsDurable_example =
    save-IsDurable one_directory "node" refl all_well a_file (a_disk old_text) new_text
      (some new_text) (refl, (refl, (refl, tt))) names_apart
      (record { same = refl; inner_in = refl; touched_in = refl }) (a_file-IsSafe old_text)
      (all_well_done new_text) (some_file _ 2 here refl (λ e. refl))

abbrev kept_command : Command String ℕ
kept_command = requested n3 40 7 (write "x" 1)

abbrev last_saved : Persistent (Command String ℕ)
last_saved = record {
  current_term = 2;
  voted_for = some n3;
  log = record { cmd = kept_command; term = 2 } ∷ [];
}

abbrev serde : Serde (Command String ℕ)
serde = command_serde string_trips u64_trips

last-restore :
    restore serde (file (persist serde last_saved)) ≡ ok (done (without_clients last_saved))
last-restore =
    restore-persist string_trips u64_trips (λ s h. string-Spelled s) u64-Spelled last_saved
      (omega arith) (((tt, omega arith), omega arith), tt)

last_left :
    CrashLeaves
      (save two_directories all_well
        (persist serde (record last_saved { current_term = 3 }))
        a_file
        (a_disk (persist serde last_saved))).2
      target
      (some (persist serde last_saved))
unfolding save rewind write_all flush new_backing
last_left = some_file _ 0 (there here) refl (λ e. refl)

restore-after_crash_example :
    (text : List ℕ) × (some (persist serde last_saved) ≡ some text)
    × ((restore serde (file text) ≡ ok (done (without_clients last_saved)))
        ⊎ (restore serde (file text)
            ≡ ok (done (without_clients (record last_saved { current_term = 3 })))))
restore-after_crash_example =
    restore-after_crash string_trips u64_trips (λ s h. string-Spelled s) u64-Spelled two_directories
      all_well a_file (a_disk (persist serde last_saved)) target
      (record last_saved { current_term = 3 }) (without_clients last_saved)
      (persist serde last_saved) (some (persist serde last_saved)) (omega arith)
      (((tt, omega arith), omega arith), tt) last-restore names_apart
      (a_file-IsSafe (persist serde last_saved)) last_left
