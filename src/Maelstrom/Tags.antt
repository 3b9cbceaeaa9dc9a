-- ===== src/Maelstrom/Tags.antt =====
-- A message of either kind is read back as what it is (raft/src/rpc.rs, `Message`).
use miniraft.Prelude.{◌≡◌, refl, ap, ◌∙◌}
use miniraft.Prelude.Results.{done, failed}
use miniraft.Json.{DeserializeError}
use miniraft.Json.Serde.{Serde, RoundTrips, whole}
use miniraft.Rpc.{
  ClientMessage, read_request, write_request, cas_request, read_response, write_response,
  cas_response, error_response,
}
use miniraft.Wire.Messages.{serialize_message, deserialize_message, message_body}
use miniraft.Wire.Clients.{serialize_client}
use miniraft.Wire.RoundTrip.{ValidMessage, kept_message, message_round_trip}
use miniraft.Wire.RoundTrip.Client.{ValidClient, client_round_trip}
use miniraft.Maelstrom.{Message, raft, client, serialize_any, deserialize_any, or_client}

module _ {K V Cmd : Type 0} (k : Serde K) (v : Serde V) (c : Serde Cmd) where
  -- No client message is taken for a Raft message.
  client-not_raft :
      (msg : ClientMessage K V)
      → (e : DeserializeError) × (deserialize_message c (serialize_client k v msg) ≡ failed e)
  unfolding serialize_client deserialize_message message_body
  client-not_raft (read_request key id) = (_, refl)
  client-not_raft (write_request key value id) = (_, refl)
  client-not_raft (cas_request key old desired id) = (_, refl)
  client-not_raft (read_response in_reply_to value id) = (_, refl)
  client-not_raft (write_response in_reply_to id) = (_, refl)
  client-not_raft (cas_response in_reply_to id) = (_, refl)
  client-not_raft (error_response in_reply_to id code text) = (_, refl)

module _ {K V Cmd : Type 0} {k : Serde K} {v : Serde V} {c : Serde Cmd} {kept : Cmd → Cmd}
    (r : RoundTrips k whole) (w : RoundTrips v whole) (t : RoundTrips c kept) where
  abbrev pub ValidAny : Message K V Cmd → Type 0
  ValidAny (raft msg) = ValidMessage t msg
  ValidAny (client msg) = ValidClient r w msg

  abbrev pub kept_any : Message K V Cmd → Message K V Cmd
  kept_any (raft msg) = raft (kept_message t msg)
  kept_any (client msg) = client msg

  pub any_round_trip :
      (msg : Message K V Cmd)
      → ValidAny msg
      → deserialize_any k v c (serialize_any k v c msg) ≡ done (kept_any msg)
  unfolding serialize_any deserialize_any
  any_round_trip (raft msg) h =
      ap (or_client k v c (serialize_message c msg)) (message_round_trip t msg h)
  any_round_trip (client msg) h =
      let (e, not_raft) = client-not_raft k v c msg in
      ap (or_client k v c (serialize_client k v msg)) not_raft
      ∙ rw (client_round_trip r w msg h, or_client) refl
