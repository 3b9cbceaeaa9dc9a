-- ===== src/Persist/File/Recovery.antt =====
-- What a node restores after a crash while it saves its state to a `FileMoF`
-- (raft/src/persistence.rs).
use miniraft.Prelude.{ℕ, ◌≡◌, ◌≢◌, ◌⊎◌, inl, inr, Option, some, List, [], ◌∷◌, map, ok}
use miniraft.Prelude.Results.{done}
use miniraft.Json.Serde.{Serde, RoundTrips, whole, AllValid}
use miniraft.Raft.State.{Persistent}
use miniraft.Kv.{Command, stored}
use miniraft.Wire.RoundTrip.{IsU64, entry_trips}
use miniraft.Wire.RoundTrip.Restored.{command_serde, command_trips}
use miniraft.Wire.Text.{Spells}
use miniraft.Persist.Storage.{persist, restore}
use miniraft.Persist.Restored.{file, restore-persist}
use miniraft.Persist.File.{FilePath, FileSystem, FileMof, Calls, save}
use miniraft.Persist.File.Crash.{CrashLeaves}
use miniraft.Persist.File.Writing.{IsSafe, AllNames}
use miniraft.Persist.File.Atomic.{save-IsAtomic}

-- The commands of the log have lost their clients.
abbrev pub without_clients : {K V : Type 0} → Persistent (Command K V) → Persistent (Command K V)
without_clients p = record p { log = map (λ e. record { cmd = stored e.cmd; term = e.term }) p.log }

module _ {K V : Type 0} {k : Serde K} {v : Serde V} (r : RoundTrips k whole)
    (w : RoundTrips v whole) (keys : Spells k r.IsValid 1) (values : Spells v w.IsValid 1) where
  -- A node saves its state to a file whose target, in every directory that a crash may leave,
  -- is a synced text from which a state is restored, and whose temporary names are not the
  -- target. Whichever of the calls fail, a crash afterwards leaves a text at the target from
  -- which either that state is restored, or the one that was to be saved, without the clients
  -- of its commands.
  pub restore-after_crash :
      (parent : FilePath → Option FilePath) (calls : Calls) (f : FileMof) (fs : FileSystem)
      (t : FilePath) (p q : Persistent (Command K V)) (old : List ℕ) (o : Option (List ℕ))
      → IsU64 p.current_term
      → AllValid (entry_trips (command_trips r w)) p.log
      → restore (command_serde r w) (file old) ≡ ok (done q)
      → AllNames (λ p. p ≢ t) (calls.first ∷ calls.second ∷ calls.third ∷ [])
      → IsSafe (λ o. o ≡ some old) t f fs
      → CrashLeaves (save parent calls (persist (command_serde r w) p) f fs).2 t o
      → (text : List ℕ) × (o ≡ some text)
        × ((restore (command_serde r w) (file text) ≡ ok (done q))
            ⊎ (restore (command_serde r w) (file text) ≡ ok (done (without_clients p))))
  restore-after_crash parent calls f fs t p q old o term log before apart safe left =
      let text = persist (command_serde r w) p in
      elim (save-IsAtomic parent calls f fs t (some old) text o apart safe left) [
        | inl e ↦ (old, e, inl before)
        | inr e ↦ (text, e, inr (restore-persist r w keys values p term log))
      ]
