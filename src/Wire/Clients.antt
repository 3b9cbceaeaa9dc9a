-- ===== src/Wire/Clients.antt =====
-- Client messages in JSON (raft/src/rpc.rs, `Serialize` and `Deserialize for ClientMessage`).
use miniraft.Prelude.{[], ◌∷◌, String, str_eq, if◌then◌else◌}
use miniraft.Prelude.Results.{done, ◌>>=◌}
use miniraft.Json.{Value, string, Entries, Parsed}
use miniraft.Json.Serde.{
  Serde, serialize_u64, deserialize_u64, serialize_string, deserialize_string,
}
use miniraft.Rpc.{
  ClientMessage, read_request, write_request, cas_request, read_response, write_response,
  cas_response, error_response,
}
use miniraft.Wire.{object_of, refused, take_two, take_three, take_four, tagged}

module _ {K V : Type 0} (k : Serde K) (v : Serde V) where
  unfoldable pub serialize_client : ClientMessage K V → Value
  serialize_client (read_request key id) =
      object_of
        (("type", string "read") ∷ ("key", k.serialize key) ∷ ("msg_id", serialize_u64 id) ∷ [])
  serialize_client (write_request key value id) = object_of (
      ("type", string "write")
      ∷ ("key", k.serialize key)
      ∷ ("value", v.serialize value)
      ∷ ("msg_id", serialize_u64 id)
      ∷ [])
  serialize_client (cas_request key old desired id) = object_of (
      ("type", string "cas")
      ∷ ("key", k.serialize key)
      ∷ ("from", v.serialize old)
      ∷ ("to", v.serialize desired)
      ∷ ("msg_id", serialize_u64 id)
      ∷ [])
  serialize_client (read_response in_reply_to value id) = object_of (
      ("type", string "read_ok")
      ∷ ("in_reply_to", serialize_u64 in_reply_to)
      ∷ ("value", v.serialize value)
      ∷ ("msg_id", serialize_u64 id)
      ∷ [])
  serialize_client (write_response in_reply_to id) = object_of (
      ("type", string "write_ok")
      ∷ ("in_reply_to", serialize_u64 in_reply_to)
      ∷ ("msg_id", serialize_u64 id)
      ∷ [])
  serialize_client (cas_response in_reply_to id) = object_of (
      ("type", string "cas_ok")
      ∷ ("in_reply_to", serialize_u64 in_reply_to)
      ∷ ("msg_id", serialize_u64 id)
      ∷ [])
  serialize_client (error_response in_reply_to id code text) = object_of (
      ("type", string "error")
      ∷ ("in_reply_to", serialize_u64 in_reply_to)
      ∷ ("msg_id", serialize_u64 id)
      ∷ ("code", serialize_u64 code)
      ∷ ("text", serialize_string text)
      ∷ [])

  unfoldable pub client_body : String → Entries → Parsed (ClientMessage K V)
  client_body kind m =
      if str_eq kind "read"
      then take_two "key" "msg_id" m
          (λ key id. do a ← k.deserialize key; i ← deserialize_u64 id; done (read_request a i))
      else if str_eq kind "write"
      then take_three "key" "value" "msg_id" m (λ key value id. do
        a ← k.deserialize key
        b ← v.deserialize value
        i ← deserialize_u64 id
        done (write_request a b i))
      else if str_eq kind "cas"
      then take_four "key" "from" "to" "msg_id" m (λ key old desired id. do
        a ← k.deserialize key
        b ← v.deserialize old
        d ← v.deserialize desired
        i ← deserialize_u64 id
        done (cas_request a b d i))
      else if str_eq kind "read_ok"
      then take_three "in_reply_to" "value" "msg_id" m (λ in_reply_to value id. do
        r ← deserialize_u64 in_reply_to
        b ← v.deserialize value
        i ← deserialize_u64 id
        done (read_response r b i))
      else if str_eq kind "write_ok"
      then take_two "in_reply_to" "msg_id" m (λ in_reply_to id. do
        r ← deserialize_u64 in_reply_to
        i ← deserialize_u64 id
        done (write_response r i))
      else if str_eq kind "cas_ok"
      then take_two "in_reply_to" "msg_id" m (λ in_reply_to id. do
        r ← deserialize_u64 in_reply_to
        i ← deserialize_u64 id
        done (cas_response r i))
      else if str_eq kind "error"
      then take_four "in_reply_to" "msg_id" "code" "text" m (λ in_reply_to id code text. do
        r ← deserialize_u64 in_reply_to
        i ← deserialize_u64 id
        n ← deserialize_u64 code
        t ← deserialize_string text
        done (error_response r i n t))
      else refused m

  unfoldable pub deserialize_client : Value → Parsed (ClientMessage K V)
  deserialize_client value = tagged "type" client_body value
