-- ===== src/Persist/Restored.antt =====
-- What is restored (raft/src/persistence.rs): what was persisted, and on any other input an error.
use miniraft.Prelude.{
  ℕ, ◌≡◌, inl, inr, refl, sym, subst, ap, ◌∙◌, arith, Option, none, some, List, [], ◌∷◌, map, ok,
  Option-cases,
}
use miniraft.Prelude.Results.{Result, done, failed}
use miniraft.Json.{Value}
use miniraft.Json.Printer.{print}
use miniraft.Json.Parser.{Read, byte, broken, ParseResult}
use miniraft.Json.Parser.Reads.{source}
use miniraft.Json.Parser.Ends.{AllBytes}
use miniraft.Json.Parser.Values.{parse}
use miniraft.Json.Parser.Values.Total.{Settles, accepted, refused, parse-Settles}
use miniraft.Json.Serde.{Serde, RoundTrips, whole, AllValid}
use miniraft.Raft.State.{Persistent}
use miniraft.Kv.{Command, stored}
use miniraft.Wire.Commands.{serialize_persistent, deserialize_persistent}
use miniraft.Wire.RoundTrip.{IsU64, entry_trips}
use miniraft.Wire.RoundTrip.Restored.{command_serde, command_trips, persistent_round_trip}
use miniraft.Wire.Text.{Spells, Spelled-parse}
use miniraft.Wire.Text.Messages.{persistent-Spelled, command-Spelled}
use miniraft.Persist.Storage.{
  PersistenceError, parse_error, io_error, read_to_end, persist, or_deserialize_error, after_parse,
  after_read, restore,
}

-- A file with these bytes.
abbrev pub file : List ℕ → List Read
file text = source text []

file-map : (text : List ℕ) → map byte text ≡ file text
file-map [] = refl
file-map (b ∷ text) = ap (◌∷◌ (byte b)) (file-map text)

read_to_end-file : (text : List ℕ) → read_to_end (file text) ≡ some text
read_to_end-file [] = refl
read_to_end-file (b ∷ text) = rw (read_to_end-file text) refl

some_inj : {a b : List ℕ} → some a ≡ some b → a ≡ b
some_inj e = cc

none-ne-some : {a : List ℕ} → none ≡ some a → ⊥
none-ne-some e = cc

module _ {K V : Type 0} {k : Serde K} {v : Serde V} (r : RoundTrips k whole)
    (w : RoundTrips v whole) (keys : Spells k r.IsValid 1) (values : Spells v w.IsValid 1) where
  -- What a node writes to its stable storage it restores: the term, the vote and the log, but
  -- that each command of the log has lost its client. The terms have 64 bits, and keys and
  -- values are read back from their JSON, which has one level.
  pub restore-persist :
      (p : Persistent (Command K V))
      → IsU64 p.current_term
      → AllValid (entry_trips (command_trips r w)) p.log
      → restore (command_serde r w) (file (persist (command_serde r w) p))
        ≡ ok (
            done (record p { log = map (λ e. record { cmd = stored e.cmd; term = e.term }) p.log }))
  unfolding restore persist
  restore-persist p t l =
      let c = command_serde r w in
      let text = print (serialize_persistent c p) in
      let (n, e) =
        Spelled-parse (serialize_persistent c p)
          (persistent-Spelled (command_trips r w) (command-Spelled r w keys values) p t l)
          (omega arith) in
      ap (after_read c) (read_to_end-file text)
      ∙ ap (λ s. after_parse c (parse s)) (file-map text)
      ∙ ap (after_parse c) e
      ∙ ap (λ o. ok (or_deserialize_error c o)) (persistent_round_trip r w p t l)

bytes_read :
    (s : List Read) (buf : List ℕ) → AllBytes s → read_to_end s ≡ some buf → AllBytes (map byte buf)
bytes_read [] buf h e = subst (λ b. AllBytes (map byte b)) (some_inj e) tt
bytes_read (broken ∷ s) buf h e = absurd (none-ne-some e)
bytes_read (byte b ∷ s) buf (small, h) e = elim (Option-cases (read_to_end s)) [
  | inl fault ↦ absurd (none-ne-some (sym (rewritten fault) ∙ e))
  | inr (rest, found) ↦
      subst (λ t. AllBytes (map byte t)) (some_inj (sym (rewritten found) ∙ e))
        (small, bytes_read s rest h found)
]
  where
    rewritten :
        {o : Option (List ℕ)}
        → read_to_end s ≡ o
        → read_to_end (byte b ∷ s) ≡ elim o [ none ↦ none | some bytes ↦ some (b ∷ bytes) ]
    rewritten e = ap (λ o. elim o [ none ↦ none | some bytes ↦ some (b ∷ bytes) ]) e

module _ {Cmd : Type 0} (c : Serde Cmd) where
  after_Settles :
      {s : List Read} {p : ParseResult Value}
      → Settles s p
      → (r : Result PersistenceError (Persistent Cmd)) × (after_parse c p ≡ ok r)
  after_Settles (accepted {v} _ _ _ _) = (or_deserialize_error c (deserialize_persistent c v), refl)
  after_Settles (refused {e} _) = (failed (parse_error e), refl)

  -- Whatever is read, restoring comes to a state or to an error.
  pub restore-ok :
      (s : List Read)
      → AllBytes s
      → (r : Result PersistenceError (Persistent Cmd)) × (restore c s ≡ ok r)
  unfolding restore
  restore-ok s h = elim (Option-cases (read_to_end s)) [
    | inl fault ↦ (failed io_error, ap (after_read c) fault)
    | inr (buf, found) ↦
        let (r, e) = after_Settles (parse-Settles (map byte buf) (bytes_read s buf h found)) in
        (r, ap (after_read c) found ∙ e)
  ]
