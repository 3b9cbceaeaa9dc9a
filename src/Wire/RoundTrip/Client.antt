-- ===== src/Wire/RoundTrip/Client.antt =====
-- Reading client messages back from their JSON (raft/src/rpc.rs).
use miniraft.Prelude.{◌≡◌, refl}
use miniraft.Prelude.Results.{done}
use miniraft.Json.Serde.{Serde, RoundTrips, whole, u64_round_trip, string_round_trip}
use miniraft.Rpc.{
  ClientMessage, read_request, write_request, cas_request, read_response, write_response,
  cas_response, error_response,
}
use miniraft.Wire.Clients.{serialize_client, deserialize_client, client_body}
use miniraft.Wire.RoundTrip.{IsU64}

module _ {K V : Type 0} {k : Serde K} {v : Serde V} (r : RoundTrips k whole)
    (w : RoundTrips v whole) where
  abbrev pub ValidClient : ClientMessage K V → Type 0
  ValidClient (read_request key id) = r.IsValid key × IsU64 id
  ValidClient (write_request key value id) = r.IsValid key × w.IsValid value × IsU64 id
  ValidClient (cas_request key old desired id) =
      r.IsValid key × w.IsValid old × w.IsValid desired × IsU64 id
  ValidClient (read_response in_reply_to value id) = IsU64 in_reply_to × w.IsValid value × IsU64 id
  ValidClient (write_response in_reply_to id) = IsU64 in_reply_to × IsU64 id
  ValidClient (cas_response in_reply_to id) = IsU64 in_reply_to × IsU64 id
  ValidClient (error_response in_reply_to id code text) = IsU64 in_reply_to × IsU64 id × IsU64 code

  -- A client message with 64-bit numbers, and keys and values that are read back, is read back
  -- from its JSON.
  pub client_round_trip :
      (msg : ClientMessage K V)
      → ValidClient msg
      → deserialize_client k v (serialize_client k v msg) ≡ done msg
  unfolding deserialize_client serialize_client client_body
  client_round_trip (read_request key id) h = rw (r.round_trip key h.0, u64_round_trip id h.1) refl
  client_round_trip (write_request key value id) h =
      rw (r.round_trip key h.0, w.round_trip value h.1, u64_round_trip id h.2) refl
  client_round_trip (cas_request key old desired id) h =
      rw
        (
          r.round_trip key h.0,
          w.round_trip old h.1,
          w.round_trip desired h.2,
          u64_round_trip id h.3,
        )
        refl
  client_round_trip (read_response in_reply_to value id) h =
      rw (u64_round_trip in_reply_to h.0, w.round_trip value h.1, u64_round_trip id h.2) refl
  client_round_trip (write_response in_reply_to id) h =
      rw (u64_round_trip in_reply_to h.0, u64_round_trip id h.1) refl
  client_round_trip (cas_response in_reply_to id) h =
      rw (u64_round_trip in_reply_to h.0, u64_round_trip id h.1) refl
  client_round_trip (error_response in_reply_to id code text) h =
      rw
        (
          u64_round_trip in_reply_to h.0,
          u64_round_trip id h.1,
          u64_round_trip code h.2,
          string_round_trip text,
        )
        refl
