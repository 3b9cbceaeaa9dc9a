-- ===== src/Wire/Text/Messages.antt =====
-- Raft messages, commands and the persistent state, printed and parsed (raft/src/rpc.rs,
-- raft/src/lib.rs, raft/src/persistence.rs, json/src/lib.rs).
use miniraft.Prelude.{ℕ, suc, arith}
use miniraft.Json.Parser.Strings.Whole.{AllPlain}
use miniraft.Json.Serde.{
  Serde, RoundTrips, whole, AllValid, u64_serde, u64_trips, string_serde, string_trips,
}
use miniraft.Raft.State.{Persistent}
use miniraft.Rpc.{
  RaftMessage, append_entries, append_entries_response, request_vote, request_vote_response,
}
use miniraft.Kv.{WireCommand, read, write, cas}
use miniraft.Wire.Domain.{index_serde, serialize_entry, entry_serde}
use miniraft.Wire.Messages.{serialize_message}
use miniraft.Wire.Commands.{serialize_wire, serialize_command, serialize_persistent}
use miniraft.Wire.RoundTrip.{IsU64, index_trips, entry_trips, ValidMessage}
use miniraft.Wire.RoundTrip.Restored.{name_valid, ValidWire, command_serde, command_trips}
use miniraft.Wire.Text.{
  Spelled, Spells, string-Spelled, bool-Spelled, u64-Spelled, object_of-Spelled, field, no_field,
  list-Spelled, option-Spelled,
}

indexes : Spells index_serde index_trips.IsValid 1
indexes i h = u64-Spelled _ h

terms : Spells u64_serde u64_trips.IsValid 1
terms t h = u64-Spelled t h

names : Spells string_serde string_trips.IsValid 1
names s h = string-Spelled s

module _ {Cmd : Type 0} {c : Serde Cmd} {kept : Cmd → Cmd} (r : RoundTrips c kept) {levels : ℕ}
    (spells : Spells c r.IsValid (suc levels)) where
  pub entry-Spelled : Spells (entry_serde c) (entry_trips r).IsValid (suc (suc levels))
  unfolding serialize_entry AllPlain
  entry-Spelled e (valid, term_valid) = object_of-Spelled (
      field "c" (omega arith) (spells e.cmd valid) (omega arith)
        (field "t" (omega arith) (u64-Spelled e.term term_valid) (omega arith) no_field))

  pub message-Spelled :
      (msg : RaftMessage Cmd)
      → ValidMessage r msg
      → Spelled (suc (suc (suc (suc levels)))) (serialize_message c msg)
  unfolding serialize_message AllPlain
  message-Spelled (append_entries t k i u entries) (ht, hk, hi, hu, hes) = object_of-Spelled (
      field "type" (omega arith) (string-Spelled "append_entries") (omega arith) (
        field "leader_term" (omega arith) (u64-Spelled t ht) (omega arith) (
          field "prev_log_index" (omega arith)
            (option-Spelled index_trips indexes i hi (omega arith)) (omega arith)
            (field "prev_log_term" (omega arith) (option-Spelled u64_trips terms u hu (omega arith))
              (omega arith)
              (field "entries" (omega arith)
                (list-Spelled (entry_trips r) entry-Spelled entries hes) (omega arith)
                (field "leader_commit" (omega arith)
                  (option-Spelled index_trips indexes k hk (omega arith)) (omega arith)
                  no_field))))))
  message-Spelled (append_entries_response t i success) (ht, hi) = object_of-Spelled (
      field "type" (omega arith) (string-Spelled "append_entries_response") (omega arith) (
        field "index" (omega arith) (option-Spelled index_trips indexes i hi (omega arith))
          (omega arith)
          (field "current_term" (omega arith) (u64-Spelled t ht) (omega arith)
            (field "success" (omega arith) (bool-Spelled success) (omega arith) no_field))))
  message-Spelled (request_vote t i u) (ht, hi, hu) = object_of-Spelled (
      field "type" (omega arith) (string-Spelled "request_vote") (omega arith) (
        field "candidate_term" (omega arith) (u64-Spelled t ht) (omega arith) (
          field "last_log_index" (omega arith)
            (option-Spelled index_trips indexes i hi (omega arith)) (omega arith)
            (field "last_log_term" (omega arith) (option-Spelled u64_trips terms u hu (omega arith))
              (omega arith) no_field))))
  message-Spelled (request_vote_response t granted) ht = object_of-Spelled (
      field "type" (omega arith) (string-Spelled "request_vote_response") (omega arith) (
        field "term" (omega arith) (u64-Spelled t ht) (omega arith)
          (field "vote_granted" (omega arith) (bool-Spelled granted) (omega arith) no_field)))

  pub persistent-Spelled :
      (p : Persistent Cmd)
      → IsU64 p.current_term
      → AllValid (entry_trips r) p.log
      → Spelled (suc (suc (suc (suc levels)))) (serialize_persistent c p)
  unfolding serialize_persistent AllPlain
  persistent-Spelled p ht hes = object_of-Spelled (
      field "current_term" (omega arith) (u64-Spelled p.current_term ht) (omega arith) (
        field "voted_for" (omega arith)
          (option-Spelled string_trips names p.voted_for (name_valid p.voted_for) (omega arith))
          (omega arith)
          (field "log" (omega arith) (list-Spelled (entry_trips r) entry-Spelled p.log hes)
            (omega arith) no_field)))

module _ {K V : Type 0} {k : Serde K} {v : Serde V} (r : RoundTrips k whole)
    (w : RoundTrips v whole) (keys : Spells k r.IsValid 1) (values : Spells v w.IsValid 1) where
  pub command-Spelled : Spells (command_serde r w) (command_trips r w).IsValid 2
  unfolding serialize_command serialize_wire AllPlain
  command-Spelled cmd = wire cmd.inner
    where
      wire : (op : WireCommand K V) → ValidWire r w op → Spelled 2 (serialize_wire k v op)
      wire (read key) h = object_of-Spelled (
          field "T" (omega arith) (string-Spelled "r") (omega arith)
            (field "k" (omega arith) (keys key h) (omega arith) no_field))
      wire (write key value) (h, h') = object_of-Spelled (
          field "T" (omega arith) (string-Spelled "w") (omega arith) (
            field "k" (omega arith) (keys key h) (omega arith)
              (field "v" (omega arith) (values value h') (omega arith) no_field)))
      wire (cas key old desired) (h, h', h'') = object_of-Spelled (
          field "T" (omega arith) (string-Spelled "c") (omega arith) (
            field "k" (omega arith) (keys key h) (omega arith) (
              field "f" (omega arith) (values old h') (omega arith)
                (field "t" (omega arith) (values desired h'') (omega arith) no_field))))
