-- ===== src/Persist/Storage.antt =====
-- Writing the persistent state out and restoring it (raft/src/persistence.rs, `persist`, `restore`,
-- `PersistenceError`). No serialization fails, so that variant of the error is left out. A reader is
-- the list of what it gives until its end.
use miniraft.Prelude.{ℕ, Option, none, some, List, [], ◌∷◌, map, Outcome, ok, panic}
use miniraft.Prelude.Results.{Result, done, failed}
use miniraft.Json.{Value, DeserializeError}
use miniraft.Json.Printer.{print}
use miniraft.Json.Parser.{Read, byte, broken, Error, ParseResult, parsed, rejected}
use miniraft.Json.Parser.Values.{parse}
use miniraft.Json.Serde.{Serde}
use miniraft.Raft.State.{Persistent}
use miniraft.Wire.Commands.{serialize_persistent, deserialize_persistent}

pub data PersistenceError : Type 0 where
  parse_error : Error → PersistenceError
  deserialize_error : DeserializeError → PersistenceError
  io_error : PersistenceError

-- `read_to_end`: all bytes, or an I/O error.
abbrev pub read_to_end : List Read → Option (List ℕ)
read_to_end [] = some []
read_to_end (broken ∷ rest) = none
read_to_end (byte b ∷ rest) = elim (read_to_end rest) [
  | none ↦ none
  | some bytes ↦ some (b ∷ bytes)
]

module _ {Cmd : Type 0} (c : Serde Cmd) where
  -- The text that `persist` writes.
  unfoldable pub persist : Persistent Cmd → List ℕ
  persist p = print (serialize_persistent c p)

  -- `?` on the result of deserializing.
  abbrev pub or_deserialize_error :
      Result DeserializeError (Persistent Cmd) → Result PersistenceError (Persistent Cmd)
  or_deserialize_error (done p) = done p
  or_deserialize_error (failed e) = failed (deserialize_error e)

  -- A parser that runs out of fuel is a fault too.
  abbrev pub after_parse : ParseResult Value → Outcome (Result PersistenceError (Persistent Cmd))
  after_parse (parsed v p) = ok (or_deserialize_error (deserialize_persistent c v))
  after_parse (rejected e) = ok (failed (parse_error e))
  after_parse ParseResult.panicked = panic
  after_parse ParseResult.out_of_fuel = panic

  abbrev pub after_read : Option (List ℕ) → Outcome (Result PersistenceError (Persistent Cmd))
  after_read none = ok (failed io_error)
  after_read (some buf) = after_parse (parse (map byte buf))

  unfoldable pub restore : List Read → Outcome (Result PersistenceError (Persistent Cmd))
  restore src = after_read (read_to_end src)
