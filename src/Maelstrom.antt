-- ===== src/Maelstrom.antt =====
-- Maelstrom's envelopes and the init exchange in JSON (raft/src/maelstrom/rpc.rs), the enum of all
-- messages of a node (raft/src/rpc.rs, `Message`), and reading, sending and routing lines of text
-- (raft/src/maelstrom/infra.rs). Standard input is the list of its bytes, which are UTF-8, and a
-- write to standard output goes well.
pub mod Tags
pub mod Envelopes
pub mod Delivery
use miniraft.Prelude.{
  ℕ, Bool, true, false, Option, none, some, List, [], ◌∷◌, ◌++◌, map, ◌==◌, if◌then◌else◌, String,
  str_eq, Outcome, ok, panic,
}
use miniraft.Prelude.Results.{Result, done, failed, ◌>>=◌}
use miniraft.Json.{
  Value, string, object, Entries, Parsed, invalid_value, remove_entry, DeserializeError,
}
use miniraft.Json.Printer.{print}
use miniraft.Json.Parser.{Read, byte, Error, ParseResult, parsed, rejected}
use miniraft.Json.Parser.Values.{parse}
use miniraft.Json.Serde.{
  Serde, string_serde, serialize_string, deserialize_string, serialize_u64, deserialize_u64,
  deserialize_list,
}
use miniraft.Rpc.{NodeId, MessageId, RaftMessage, ClientMessage}
use miniraft.Wire.{object_of, refused, take_three, tagged}
use miniraft.Wire.Messages.{serialize_message, deserialize_message}
use miniraft.Wire.Clients.{serialize_client, deserialize_client}

pub data Message (K V Cmd : Type 0) : Type 0 where
  raft : RaftMessage Cmd → Message K V Cmd
  client : ClientMessage K V → Message K V Cmd

module _ {K V Cmd : Type 0} (k : Serde K) (v : Serde V) (c : Serde Cmd) where
  unfoldable pub serialize_any : Message K V Cmd → Value
  serialize_any (raft r) = serialize_message c r
  serialize_any (client kv) = serialize_client k v kv

  -- `if let Ok(msg)`: the next attempt, after an error.
  abbrev pub or_client : Value → Parsed (RaftMessage Cmd) → Parsed (Message K V Cmd)
  or_client value (done msg) = done (raft msg)
  or_client value (failed e) = elim (deserialize_client k v value) [
    | done msg ↦ done (client msg)
    | failed e' ↦ failed (invalid_value value)
  ]

  unfoldable pub deserialize_any : Value → Parsed (Message K V Cmd)
  deserialize_any value = or_client value (deserialize_message c value)

  abbrev pub any_serde : Serde (Message K V Cmd)
  any_serde = record { serialize = serialize_any; deserialize = deserialize_any }

pub record MessageEnvelope (B : Type 0) : Type 0 where
  pub source : NodeId
  pub destination : NodeId
  pub body : B

module _ {B : Type 0} (serialize : B → Value) where
  unfoldable pub serialize_envelope : MessageEnvelope B → Value
  serialize_envelope e = object_of (
      ("src", serialize_string e.source)
      ∷ ("dest", serialize_string e.destination)
      ∷ ("body", serialize e.body)
      ∷ [])

  -- `send`: the line that goes out.
  unfoldable pub send : MessageEnvelope B → Outcome (List ℕ)
  send e =
      if str_eq e.source e.destination then panic else ok (print (serialize_envelope e) ++ 10 ∷ [])

unfoldable pub deserialize_envelope :
    {B : Type 0} → (Value → Parsed B) → Value → Parsed (MessageEnvelope B)
deserialize_envelope deserialize (object m) = take_three "src" "dest" "body" m λ src dest body. do
  from ← deserialize_string src
  to ← deserialize_string dest
  b ← deserialize body
  done (record { source = from; destination = to; body = b })
deserialize_envelope deserialize value = failed (invalid_value value)

pub record InitRequest : Type 0 where
  pub message_id : MessageId
  pub node_id : NodeId
  pub node_ids : List NodeId

pub record InitResponse : Type 0 where
  pub in_reply_to : MessageId

-- The other fields are taken out before the kind is looked at.
abbrev pub init_body : String → Entries → Parsed InitRequest
init_body kind m =
    if str_eq kind "init"
    then take_three "msg_id" "node_id" "node_ids" m (λ msg_id node_id node_ids. do
      i ← deserialize_u64 msg_id
      n ← deserialize_string node_id
      ns ← deserialize_list string_serde node_ids
      done (record { message_id = i; node_id = n; node_ids = ns }))
    else refused (remove_entry "node_ids" (remove_entry "node_id" (remove_entry "msg_id" m)))

unfoldable pub deserialize_init : Value → Parsed InitRequest
deserialize_init value = tagged "type" init_body value

unfoldable pub serialize_init_ok : InitResponse → Value
serialize_init_ok r =
    object_of (("type", string "init_ok") ∷ ("in_reply_to", serialize_u64 r.in_reply_to) ∷ [])

-- `read_line`: the first line with its end, and what is left.
unfoldable pub read_line : List ℕ → List ℕ × List ℕ
read_line [] = ([], [])
read_line (b ∷ bs) =
    let (line, rest) = read_line bs in if b == 10 then (b ∷ [], bs) else (b ∷ line, rest)

-- `io::ErrorKind::InvalidData`, with its cause.
pub data InvalidData : Type 0 where
  no_json : Error → InvalidData
  no_message : DeserializeError → InvalidData

module _ {B : Type 0} (deserialize : Value → Parsed B) where
  abbrev pub or_invalid : Parsed B → Result InvalidData B
  or_invalid (done b) = done b
  or_invalid (failed e) = failed (no_message e)

  -- A parser that runs out of fuel is a fault too.
  abbrev pub interpret : ParseResult Value → Outcome (Result InvalidData B)
  interpret (parsed v p) = ok (or_invalid (deserialize v))
  interpret (rejected e) = ok (failed (no_json e))
  interpret ParseResult.panicked = panic
  interpret ParseResult.out_of_fuel = panic

  -- `read`, with what it leaves of the input.
  unfoldable pub read : List ℕ → Outcome (Result InvalidData B) × List ℕ
  read input = let (line, rest) = read_line input in (interpret (parse (map byte line)), rest)

-- `read_and_handle_init`: the node and its cluster, and the line that answers.
abbrev pub answer_init :
    Result InvalidData (MessageEnvelope InitRequest)
    → Outcome (Result InvalidData (NodeId × List NodeId × List ℕ))
answer_init (failed e) = ok (failed e)
answer_init (done e) =
    elim (send serialize_init_ok (record {
      source = e.body.node_id;
      destination = e.source;
      body = record { in_reply_to = e.body.message_id };
    })) [ ok line ↦ ok (done (e.body.node_id, e.body.node_ids, line)) | panic ↦ panic ]

-- The queues of the two loops.
pub record Queues (K V Cmd : Type 0) : Type 0 where
  pub to_raft : List (NodeId × RaftMessage Cmd)
  pub to_client : List (NodeId × ClientMessage K V)

unfoldable pub route_incoming :
    {K V Cmd : Type 0} → MessageEnvelope (Message K V Cmd) → Queues K V Cmd → Queues K V Cmd
route_incoming e q = elim e.body [
  | client msg ↦ record q { to_client = q.to_client ++ (e.source, msg) ∷ [] }
  | raft msg ↦ record q { to_raft = q.to_raft ++ (e.source, msg) ∷ [] }
]

abbrev pub routed :
    {K V Cmd : Type 0}
    → Queues K V Cmd
    → Result InvalidData (MessageEnvelope (Message K V Cmd))
    → Result InvalidData (Queues K V Cmd)
routed q (done e) = done (route_incoming e q)
routed q (failed e) = failed e

abbrev pub routed_if_ok :
    {K V Cmd : Type 0}
    → Queues K V Cmd
    → Outcome (Result InvalidData (MessageEnvelope (Message K V Cmd)))
    → Outcome (Result InvalidData (Queues K V Cmd))
routed_if_ok q (ok r) = ok (routed q r)
routed_if_ok q panic = panic

-- A turn of the program's loop over its input; an error ends the program.
unfoldable pub receive :
    {K V Cmd : Type 0}
    → Serde K
    → Serde V
    → Serde Cmd
    → List ℕ
    → Queues K V Cmd
    → Outcome (Result InvalidData (Queues K V Cmd)) × List ℕ
receive k v c input q =
    let (r, rest) = read (deserialize_envelope (deserialize_any k v c)) input in
    (routed_if_ok q r, rest)
