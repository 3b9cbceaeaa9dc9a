-- ===== src/Examples/Network.antt =====
-- The theorems on messages between nodes at concrete messages, and runs of the init exchange
-- (raft/src/maelstrom).
use miniraft.Prelude.{ℕ, ◌≡◌, refl, arith, none, some, List, [], ◌∷◌, ◌++◌, String, ok}
use miniraft.Prelude.Results.{done, failed}
use miniraft.Json.Serde.{
  string_serde, string_trips, u64_serde, u64_trips, deserialize_u64, deserialize_string,
  deserialize_list, deserialize_items,
}
use miniraft.Json.Unicode.{encode_text, encode_char}
use miniraft.Json.{
  Entries, no_entry, entry, object, string, number, array, null, item, no_value, invalid_value,
  parse_u64, parse_digits, decimal,
}
use miniraft.Json.Printer.{print, escape, escape_text}
use miniraft.Rpc.{append_entries}
use miniraft.Wire.Text.{string-Spelled, u64-Spelled}
use miniraft.Maelstrom.{
  Message, raft, serialize_any, MessageEnvelope, send, Queues, receive, answer_init, InitRequest,
  serialize_envelope, serialize_init_ok, deserialize_init,
}
use miniraft.Maelstrom.Delivery.{receive-send}
use miniraft.Examples.{an_entry, place, n1-n2}

abbrev letter : MessageEnvelope (Message String ℕ ℕ)
letter = record {
  source = "n1";
  destination = "n2";
  body = raft (append_entries 2 none (some (place 0)) (some 1) (an_entry 8 1 ∷ []));
}

abbrev nothing_queued : Queues String ℕ ℕ
nothing_queued = record { to_raft = []; to_client = [] }

receive-send_example :
    (line : List ℕ) × (q' : Queues String ℕ ℕ) × (send
        (serialize_any string_serde u64_serde u64_serde)
        letter
      ≡ ok line)
    × (receive string_serde u64_serde u64_serde (line ++ b'{' ∷ []) nothing_queued
        ≡ (ok (done q'), b'{' ∷ []))
    × ((q'.to_raft
          ≡ ("n1", append_entries 2 none (some (place 0)) (some 1) (an_entry 8 1 ∷ [])) ∷ [])
        × (q'.to_client ≡ []))
receive-send_example =
    receive-send string_trips u64_trips (λ s h. string-Spelled s) u64-Spelled u64_trips {levels = 0}
      u64-Spelled letter (b'{' ∷ []) nothing_queued n1-n2 (omega arith)
      (omega arith, tt, omega arith, omega arith, ((omega arith, omega arith), tt))

abbrev an_init : Entries
an_init = entry "type" (string "init") (
    entry "msg_id" (number (b'1' ∷ [])) (
      entry "node_id" (string "n1")
        (entry "node_ids" (array (item (string "n1") (item (string "n2") no_value))) no_entry)))

abbrev init_request : InitRequest
init_request = record { message_id = 1; node_id = "n1"; node_ids = "n1" ∷ "n2" ∷ [] }

init_read : deserialize_init (object an_init) ≡ done init_request
unfolding deserialize_init deserialize_u64 deserialize_string deserialize_list deserialize_items
    parse_u64 parse_digits
init_read = refl

abbrev init_line : String
init_line =
    "{\"src\": \"n1\", \"dest\": \"c0\", \"body\": {\"type\": \"init_ok\", \"in_reply_to\": 1}}\n"

init_answered :
    answer_init (done (record { source = "c0"; destination = "n1"; body = init_request }))
    ≡ ok (done ("n1", "n1" ∷ "n2" ∷ [], encode_text init_line))
unfolding send serialize_envelope serialize_init_ok print escape_text escape encode_text encode_char
    decimal
init_answered = refl

-- The other fields of a message of another kind are gone from the error too.
abbrev a_read : Entries
a_read = entry "type" (string "read") (entry "msg_id" null (entry "key" null no_entry))

init_refused :
    deserialize_init (object a_read) ≡ failed (invalid_value (object (entry "key" null no_entry)))
unfolding deserialize_init
init_refused = refl
