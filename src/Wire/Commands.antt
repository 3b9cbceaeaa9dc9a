-- ===== src/Wire/Commands.antt =====
-- Commands and the persistent state in JSON (raft/src/lib.rs, `Serialize` and `Deserialize for
-- WireCommand` and `Command`, and raft/src/persistence.rs, those for `Persistent`).
use miniraft.Prelude.{false, Option, none, [], ◌∷◌, String, str_eq, if◌then◌else◌}
use miniraft.Prelude.Results.{done, failed, ◌>>=◌}
use miniraft.Json.{Value, string, object, Entries, Parsed, invalid_value}
use miniraft.Json.Serde.{Serde, serialize, deserialize, string_serde, option_serde}
use miniraft.Kv.{WireCommand, read, write, cas, Command}
use miniraft.Rpc.{NodeId}
use miniraft.Raft.State.{Persistent}
use miniraft.Wire.{object_of, refused, take_one, take_two, take_three, tagged}
use miniraft.Wire.Domain.{serialize_term, deserialize_term, serialize_log, deserialize_log}

module _ {K V : Type 0} (k : Serde K) (v : Serde V) where
  unfoldable pub serialize_wire : WireCommand K V → Value
  serialize_wire (read key) = object_of (("T", string "r") ∷ ("k", k.serialize key) ∷ [])
  serialize_wire (write key value) =
      object_of (("T", string "w") ∷ ("k", k.serialize key) ∷ ("v", v.serialize value) ∷ [])
  serialize_wire (cas key old desired) = object_of (
      ("T", string "c")
      ∷ ("k", k.serialize key)
      ∷ ("f", v.serialize old)
      ∷ ("t", v.serialize desired)
      ∷ [])

  unfoldable pub wire_body : String → Entries → Parsed (WireCommand K V)
  wire_body kind m =
      if str_eq kind "r"
      then take_one "k" m (λ key. do a ← k.deserialize key; done (read a))
      else if str_eq kind "w"
      then take_two "k" "v" m
          (λ key value. do a ← k.deserialize key; b ← v.deserialize value; done (write a b))
      else if str_eq kind "c"
      then take_three "k" "f" "t" m (λ key old desired. do
        a ← k.deserialize key
        b ← v.deserialize old
        d ← v.deserialize desired
        done (cas a b d))
      else refused m

  unfoldable pub deserialize_wire : Value → Parsed (WireCommand K V)
  deserialize_wire value = tagged "T" wire_body value

  unfoldable pub serialize_command : Command K V → Value
  serialize_command cmd = serialize_wire cmd.inner

  unfoldable pub deserialize_command : Value → Parsed (Command K V)
  deserialize_command value = do
    op ← deserialize_wire value
    done (record {
      inner = op;
      response_id = none;
      in_reply_to = none;
      client = none;
      respond = false;
    })

module _ {Cmd : Type 0} (c : Serde Cmd) where
  unfoldable pub serialize_persistent : Persistent Cmd → Value
  serialize_persistent p = object_of (
      ("current_term", serialize_term p.current_term)
      ∷ ("voted_for", serialize p.voted_for)
      ∷ ("log", serialize_log c p.log)
      ∷ [])

  unfoldable pub deserialize_persistent : Value → Parsed (Persistent Cmd)
  deserialize_persistent (object m) =
      take_three "current_term" "voted_for" "log" m λ current_term voted_for log. do
        t ← deserialize_term current_term
        v ← deserialize {A = Option NodeId} voted_for
        l ← deserialize_log c log
        done (record { current_term = t; voted_for = v; log = l })
  deserialize_persistent value = failed (invalid_value value)
