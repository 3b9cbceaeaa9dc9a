-- ===== src/Maelstrom/Envelopes.antt =====
-- Envelopes are read back from their JSON and from their text (raft/src/maelstrom/rpc.rs).
use miniraft.Prelude.{ℕ, suc, ◌≡◌, refl, arith}
use miniraft.Prelude.Results.{done}
use miniraft.Json.{Value, Parsed}
use miniraft.Json.Parser.Strings.Whole.{AllPlain}
use miniraft.Json.Serde.{Serde, RoundTrips, whole, string_round_trip}
use miniraft.Rpc.{
  ClientMessage, read_request, write_request, cas_request, read_response, write_response,
  cas_response, error_response,
}
use miniraft.Wire.Clients.{serialize_client}
use miniraft.Wire.RoundTrip.Client.{ValidClient}
use miniraft.Wire.Text.{
  Spelled, Spelled-weaken, Spells, string-Spelled, u64-Spelled, object_of-Spelled, field, no_field,
}
use miniraft.Wire.Text.Messages.{message-Spelled}
use miniraft.Maelstrom.{
  Message, raft, client, serialize_any, MessageEnvelope, serialize_envelope, deserialize_envelope,
}
use miniraft.Maelstrom.Tags.{ValidAny}

pub envelope_round_trip :
    {B : Type 0} (serialize : B → Value) (deserialize : Value → Parsed B) (e : MessageEnvelope B)
    (b : B)
    → deserialize (serialize e.body) ≡ done b
    → deserialize_envelope deserialize (serialize_envelope serialize e)
      ≡ done (record e { body = b })
unfolding serialize_envelope deserialize_envelope
envelope_round_trip serialize deserialize e b h =
    rw (string_round_trip e.source, string_round_trip e.destination, h) refl

pub envelope-Spelled :
    {B : Type 0} {levels : ℕ} (serialize : B → Value) (e : MessageEnvelope B)
    → Spelled (suc levels) (serialize e.body)
    → Spelled (suc (suc levels)) (serialize_envelope serialize e)
unfolding serialize_envelope AllPlain
envelope-Spelled serialize e body = object_of-Spelled (
    field "src" (omega arith) (string-Spelled e.source) (omega arith) (
      field "dest" (omega arith) (string-Spelled e.destination) (omega arith)
        (field "body" (omega arith) body (omega arith) no_field)))

module _ {K V : Type 0} {k : Serde K} {v : Serde V} (r : RoundTrips k whole)
    (w : RoundTrips v whole) (keys : Spells k r.IsValid 1) (values : Spells v w.IsValid 1) where
  client-Spelled :
      (msg : ClientMessage K V) → ValidClient r w msg → Spelled 2 (serialize_client k v msg)
  unfolding serialize_client AllPlain
  client-Spelled (read_request key id) (h, i) = object_of-Spelled (
      field "type" (omega arith) (string-Spelled "read") (omega arith) (
        field "key" (omega arith) (keys key h) (omega arith)
          (field "msg_id" (omega arith) (u64-Spelled id i) (omega arith) no_field)))
  client-Spelled (write_request key value id) (h, h', i) = object_of-Spelled (
      field "type" (omega arith) (string-Spelled "write") (omega arith) (
        field "key" (omega arith) (keys key h) (omega arith) (
          field "value" (omega arith) (values value h') (omega arith)
            (field "msg_id" (omega arith) (u64-Spelled id i) (omega arith) no_field))))
  client-Spelled (cas_request key old desired id) (h, h', h'', i) = object_of-Spelled (
      field "type" (omega arith) (string-Spelled "cas") (omega arith) (
        field "key" (omega arith) (keys key h) (omega arith) (
          field "from" (omega arith) (values old h') (omega arith) (
            field "to" (omega arith) (values desired h'') (omega arith)
              (field "msg_id" (omega arith) (u64-Spelled id i) (omega arith) no_field)))))
  client-Spelled (read_response in_reply_to value id) (j, h', i) = object_of-Spelled (
      field "type" (omega arith) (string-Spelled "read_ok") (omega arith) (
        field "in_reply_to" (omega arith) (u64-Spelled in_reply_to j) (omega arith) (
          field "value" (omega arith) (values value h') (omega arith)
            (field "msg_id" (omega arith) (u64-Spelled id i) (omega arith) no_field))))
  client-Spelled (write_response in_reply_to id) (j, i) = object_of-Spelled (
      field "type" (omega arith) (string-Spelled "write_ok") (omega arith) (
        field "in_reply_to" (omega arith) (u64-Spelled in_reply_to j) (omega arith)
          (field "msg_id" (omega arith) (u64-Spelled id i) (omega arith) no_field)))
  client-Spelled (cas_response in_reply_to id) (j, i) = object_of-Spelled (
      field "type" (omega arith) (string-Spelled "cas_ok") (omega arith) (
        field "in_reply_to" (omega arith) (u64-Spelled in_reply_to j) (omega arith)
          (field "msg_id" (omega arith) (u64-Spelled id i) (omega arith) no_field)))
  client-Spelled (error_response in_reply_to id code text) (j, i, n) = object_of-Spelled (
      field "type" (omega arith) (string-Spelled "error") (omega arith) (
        field "in_reply_to" (omega arith) (u64-Spelled in_reply_to j) (omega arith) (
          field "msg_id" (omega arith) (u64-Spelled id i) (omega arith) (
            field "code" (omega arith) (u64-Spelled code n) (omega arith)
              (field "text" (omega arith) (string-Spelled text) (omega arith) no_field)))))

  pub any-Spelled :
      {Cmd : Type 0} {c : Serde Cmd} {kept : Cmd → Cmd} (t : RoundTrips c kept) {levels : ℕ}
      (spells : Spells c t.IsValid (suc levels)) (msg : Message K V Cmd)
      → ValidAny r w t msg
      → Spelled (suc (suc (suc (suc levels)))) (serialize_any k v c msg)
  unfolding serialize_any
  any-Spelled t spells (raft msg) h = message-Spelled t spells msg h
  any-Spelled t spells (client msg) h = Spelled-weaken (omega arith) (client-Spelled msg h)
