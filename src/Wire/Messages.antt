-- ===== src/Wire/Messages.antt =====
-- Raft messages in JSON (raft/src/rpc.rs, `Serialize` and `Deserialize for RaftMessage`).
use miniraft.Prelude.{ℕ, Option, none, some, [], ◌∷◌, String, str_eq, if◌then◌else◌}
use miniraft.Prelude.Results.{done, ◌>>=◌}
use miniraft.Json.{Value, string, Entries, Parsed, get_entry, remove_entry}
use miniraft.Json.Serde.{
  Serde, serialize, deserialize, bool_serde, u64_serde, option_serde, serialize_bool,
  deserialize_bool,
}
use miniraft.Raft.Index.{LogIndex}
use miniraft.Rpc.{
  RaftMessage, append_entries, append_entries_response, request_vote, request_vote_response,
}
use miniraft.Wire.{object_of, refused, take_two, take_three, take_four, tagged}
use miniraft.Wire.Domain.{
  serialize_term, deserialize_term, index_serde, serialize_log, deserialize_log,
}

module _ {Cmd : Type 0} (c : Serde Cmd) where
  unfoldable pub serialize_message : RaftMessage Cmd → Value
  serialize_message (append_entries t commit_index prev_log_index prev_log_term entries) =
      object_of (
        ("type", string "append_entries")
        ∷ ("leader_term", serialize_term t)
        ∷ ("prev_log_index", serialize prev_log_index)
        ∷ ("prev_log_term", serialize prev_log_term)
        ∷ ("entries", serialize_log c entries)
        ∷ ("leader_commit", serialize commit_index)
        ∷ [])
  serialize_message (append_entries_response current_term index success) = object_of (
      ("type", string "append_entries_response")
      ∷ ("index", serialize index)
      ∷ ("current_term", serialize_term current_term)
      ∷ ("success", serialize_bool success)
      ∷ [])
  serialize_message (request_vote candidate_term last_log_index last_log_term) = object_of (
      ("type", string "request_vote")
      ∷ ("candidate_term", serialize_term candidate_term)
      ∷ ("last_log_index", serialize last_log_index)
      ∷ ("last_log_term", serialize last_log_term)
      ∷ [])
  serialize_message (request_vote_response t vote_granted) = object_of (
      ("type", string "request_vote_response")
      ∷ ("term", serialize_term t)
      ∷ ("vote_granted", serialize_bool vote_granted)
      ∷ [])

  -- The five fields are taken out first: the last one here, in the rest of the map. Without it the
  -- error has what the others leave.
  unfoldable pub append_entries_body : Entries → Parsed (RaftMessage Cmd)
  append_entries_body m =
      let rest = remove_entry "leader_commit" m in
      elim (get_entry "leader_commit" m) [
        | none ↦ refused (
            remove_entry "entries" (
              remove_entry "prev_log_term"
                (remove_entry "prev_log_index" (remove_entry "leader_term" rest))))
        | some leader_commit ↦
            take_four "leader_term" "prev_log_index" "prev_log_term" "entries" rest
              λ leader_term prev_log_index prev_log_term entries. do
                t ← deserialize_term leader_term
                i ← deserialize {A = Option LogIndex} prev_log_index
                u ← deserialize {A = Option ℕ} prev_log_term
                es ← deserialize_log c entries
                k ← deserialize {A = Option LogIndex} leader_commit
                done (append_entries t k i u es)
      ]

  unfoldable pub append_entries_response_body : Entries → Parsed (RaftMessage Cmd)
  append_entries_response_body m =
      take_three "current_term" "index" "success" m λ current_term index success. do
        t ← deserialize_term current_term
        i ← deserialize {A = Option LogIndex} index
        b ← deserialize_bool success
        done (append_entries_response t i b)

  unfoldable pub request_vote_body : Entries → Parsed (RaftMessage Cmd)
  request_vote_body m =
      take_three "candidate_term" "last_log_index" "last_log_term" m
        λ candidate_term last_log_index last_log_term. do
          t ← deserialize_term candidate_term
          i ← deserialize {A = Option LogIndex} last_log_index
          u ← deserialize {A = Option ℕ} last_log_term
          done (request_vote t i u)

  unfoldable pub request_vote_response_body : Entries → Parsed (RaftMessage Cmd)
  request_vote_response_body m = take_two "term" "vote_granted" m λ term vote_granted. do
    t ← deserialize_term term
    b ← deserialize_bool vote_granted
    done (request_vote_response t b)

  unfoldable pub message_body : String → Entries → Parsed (RaftMessage Cmd)
  message_body kind m =
      if str_eq kind "append_entries"
      then append_entries_body m
      else if str_eq kind "append_entries_response"
      then append_entries_response_body m
      else if str_eq kind "request_vote"
      then request_vote_body m
      else if str_eq kind "request_vote_response"
      then request_vote_response_body m
      else refused m

  unfoldable pub deserialize_message : Value → Parsed (RaftMessage Cmd)
  deserialize_message value = tagged "type" message_body value
