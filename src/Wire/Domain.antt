-- ===== src/Wire/Domain.antt =====
-- Log indexes, terms and log entries in JSON (raft/src/serde/mod.rs).
use miniraft.Prelude.{ℕ, none, some, [], ◌∷◌}
use miniraft.Prelude.Results.{done, failed, ◌>>=◌}
use miniraft.Json.{Value, object, number, Parsed, invalid_value, print_u64}
use miniraft.Json.Serde.{
  Serde, serialize_u64, deserialize_u64, u64_serde, list_serde, option_serde, serialize_list,
  deserialize_list,
}
use miniraft.Raft.Index.{LogIndex, get, try_from}
use miniraft.Raft.Log.{LogEntry, Log}
use miniraft.Wire.{object_of, take_two}

abbrev pub serialize_index : LogIndex → Value
serialize_index i = serialize_u64 (get i)

-- `NonZero<u64>` (json/src/serde/mod.rs), under `LogIndex`.
unfoldable pub deserialize_index : Value → Parsed LogIndex
deserialize_index value = deserialize_u64 value >>= λ v. elim (try_from v) [
  | none ↦ failed (invalid_value (number (print_u64 v)))
  | some i ↦ done i
]

-- `Term`.
abbrev pub serialize_term : ℕ → Value
serialize_term t = serialize_u64 t

abbrev pub deserialize_term : Value → Parsed ℕ
deserialize_term value = deserialize_u64 value

instance abbrev pub index_serde : Serde LogIndex
index_serde = record { serialize = serialize_index; deserialize = deserialize_index }

module _ {Cmd : Type 0} (c : Serde Cmd) where
  unfoldable pub serialize_entry : LogEntry Cmd → Value
  serialize_entry e = object_of (("c", c.serialize e.cmd) ∷ ("t", serialize_term e.term) ∷ [])

  unfoldable pub deserialize_entry : Value → Parsed (LogEntry Cmd)
  deserialize_entry (object m) = take_two "c" "t" m λ cmd term. c.deserialize cmd >>= λ cmd'.
      deserialize_term term >>= λ term'. done (record { cmd = cmd'; term = term' })
  deserialize_entry value = failed (invalid_value value)

  abbrev pub entry_serde : Serde (LogEntry Cmd)
  entry_serde = record { serialize = serialize_entry; deserialize = deserialize_entry }

  -- `Log`.
  abbrev pub serialize_log : Log Cmd → Value
  serialize_log log = serialize_list entry_serde log

  abbrev pub deserialize_log : Value → Parsed (Log Cmd)
  deserialize_log value = deserialize_list entry_serde value
