-- ===== src/Wire/RoundTrip.antt =====
-- Reading messages and log entries back from their JSON (raft/src/rpc.rs,
-- raft/src/serde/mod.rs, raft/src/persistence.rs, raft/src/lib.rs).
pub mod Restored
pub mod Client
use miniraft.Prelude.{
  ℕ, suc, ◌+◌, ◌-◌, ◌<◌, ◌^◌, ◌≡◌, ◌≢◌, refl, ap, ◌∙◌, Option, none, some, List, [], ◌∷◌, map,
  arith, ◌==◌, if◌then◌else◌,
}
use miniraft.Prelude.Results.{Result, done, failed, ◌>>=◌}
use miniraft.Json.{Value, null, number, object, print_u64}
use miniraft.Json.Serde.{
  Serde, RoundTrips, whole, u64_serde, u64_trips, u64_round_trip, serialize_u64, deserialize_u64,
  bool_round_trip, string_round_trip, AllValid, list_round_trip, OptValid, option_round_trip,
}
use miniraft.Raft.Index.{LogIndex, get, try_from}
use miniraft.Raft.Log.{LogEntry, Log}
use miniraft.Rpc.{
  RaftMessage, append_entries, append_entries_response, request_vote, request_vote_response,
  ClientMessage, read_request, write_request, cas_request, read_response, write_response,
  cas_response, error_response,
}
use miniraft.Wire.Domain.{
  serialize_index, deserialize_index, index_serde, serialize_entry, deserialize_entry, entry_serde,
}
use miniraft.Wire.Messages.{
  serialize_message, deserialize_message, message_body, append_entries_body,
  append_entries_response_body, request_vote_body, request_vote_response_body,
}
use miniraft.Wire.Clients.{serialize_client, deserialize_client, client_body}

-- The numbers of the source have 64 bits.
abbrev pub IsU64 : ℕ → Type 0
IsU64 n = n < 2 ^ 64

pub index_round_trip :
    (i : LogIndex) → IsU64 (get i) → deserialize_index (serialize_index i) ≡ done i
unfolding deserialize_index
index_round_trip i h = rw (u64_round_trip (get i) h) (ground arith)

abbrev pub index_trips : RoundTrips index_serde whole
index_trips = record {
  IsValid = λ i. IsU64 (get i);
  round_trip = index_round_trip;
  not_null = λ i. u64_trips.not_null (get i);
}

module _ {Cmd : Type 0} {c : Serde Cmd} {kept : Cmd → Cmd} (r : RoundTrips c kept) where
  abbrev pub kept_entry : LogEntry Cmd → LogEntry Cmd
  kept_entry e = record { cmd = kept e.cmd; term = e.term }

  pub entry_round_trip :
      (e : LogEntry Cmd)
      → r.IsValid e.cmd × IsU64 e.term
      → deserialize_entry c (serialize_entry c e) ≡ done (kept_entry e)
  unfolding deserialize_entry serialize_entry
  entry_round_trip e h = rw (r.round_trip e.cmd h.0, u64_round_trip e.term h.1) refl

  pub entry-not_null : (e : LogEntry Cmd) → serialize_entry c e ≢ null
  unfolding serialize_entry
  entry-not_null e h = cc

  abbrev pub entry_trips : RoundTrips (entry_serde c) kept_entry
  entry_trips = record {
    IsValid = λ e. r.IsValid e.cmd × IsU64 e.term;
    round_trip = entry_round_trip;
    not_null = λ e. entry-not_null e;
  }

  abbrev pub ValidMessage : RaftMessage Cmd → Type 0
  ValidMessage (append_entries t commit_index prev_log_index prev_log_term entries) =
      IsU64 t
      × OptValid index_trips commit_index
      × OptValid index_trips prev_log_index
      × OptValid u64_trips prev_log_term
      × AllValid entry_trips entries
  ValidMessage (append_entries_response t index success) = IsU64 t × OptValid index_trips index
  ValidMessage (request_vote t last_log_index last_log_term) =
      IsU64 t × OptValid index_trips last_log_index × OptValid u64_trips last_log_term
  ValidMessage (request_vote_response t vote_granted) = IsU64 t

  abbrev pub kept_message : RaftMessage Cmd → RaftMessage Cmd
  kept_message (append_entries t commit_index prev_log_index prev_log_term entries) =
      append_entries t commit_index prev_log_index prev_log_term (map kept_entry entries)
  kept_message (append_entries_response t index success) = append_entries_response t index success
  kept_message (request_vote t last_log_index last_log_term) =
      request_vote t last_log_index last_log_term
  kept_message (request_vote_response t vote_granted) = request_vote_response t vote_granted

  -- A Raft message with 64-bit numbers is read back from its JSON, with of each command what
  -- the command's own form keeps.
  pub message_round_trip :
      (msg : RaftMessage Cmd)
      → ValidMessage msg
      → deserialize_message c (serialize_message c msg) ≡ done (kept_message msg)
  unfolding deserialize_message serialize_message message_body append_entries_body
      append_entries_response_body request_vote_body request_vote_response_body
  message_round_trip (append_entries t commit_index prev_log_index prev_log_term entries) h =
      rw
        (
          u64_round_trip t h.0,
          option_round_trip index_trips prev_log_index h.2,
          option_round_trip u64_trips prev_log_term h.3,
          list_round_trip entry_trips entries h.4,
          option_round_trip index_trips commit_index h.1,
        )
        refl
  message_round_trip (append_entries_response t index success) h =
      rw (u64_round_trip t h.0, option_round_trip index_trips index h.1, bool_round_trip success)
        refl
  message_round_trip (request_vote t last_log_index last_log_term) h =
      rw
        (
          u64_round_trip t h.0,
          option_round_trip index_trips last_log_index h.1,
          option_round_trip u64_trips last_log_term h.2,
        )
        refl
  message_round_trip (request_vote_response t vote_granted) h =
      rw (u64_round_trip t h, bool_round_trip vote_granted) refl
