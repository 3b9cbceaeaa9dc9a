-- ===== src/Rpc.antt =====
-- Raft and client messages (raft/src/rpc.rs).
use miniraft.Prelude.{ℕ, Bool, Option, List, String}
use miniraft.Raft.Index.{LogIndex}
use miniraft.Raft.Log.{Log}

-- `NodeID` (raft/src/lib.rs).
abbrev pub NodeId : Type 0
NodeId = String

abbrev pub MessageId : Type 0
MessageId = ℕ

pub data RaftMessage (Cmd : Type 0) : Type 0 where
  -- Term, commit index, previous log index, previous log term, entries.
  append_entries : ℕ → Option LogIndex → Option LogIndex → Option ℕ → Log Cmd → RaftMessage Cmd
  -- Current term, index, success.
  append_entries_response : ℕ → Option LogIndex → Bool → RaftMessage Cmd
  -- Candidate term, last log index, last log term.
  request_vote : ℕ → Option LogIndex → Option ℕ → RaftMessage Cmd
  -- Term, vote granted.
  request_vote_response : ℕ → Bool → RaftMessage Cmd

-- `RaftMessage::term`.
abbrev pub term : {Cmd : Type 0} → RaftMessage Cmd → ℕ
term (append_entries t commit_index prev_log_index prev_log_term entries) = t
term (append_entries_response t index success) = t
term (request_vote t last_log_index last_log_term) = t
term (request_vote_response t vote_granted) = t

-- Messages with their receivers.
abbrev pub Outgoing : Type 0 → Type 0
Outgoing Cmd = List (NodeId × RaftMessage Cmd)

pub data ClientMessage (K V : Type 0) : Type 0 where
  -- Key, then the message id; values in the source's order.
  read_request : K → MessageId → ClientMessage K V
  write_request : K → V → MessageId → ClientMessage K V
  cas_request : K → V → V → MessageId → ClientMessage K V
  -- `in_reply_to` first, the message's own id after the payload.
  read_response : MessageId → V → MessageId → ClientMessage K V
  write_response : MessageId → MessageId → ClientMessage K V
  cas_response : MessageId → MessageId → ClientMessage K V
  -- `in_reply_to`, id, code, text.
  error_response : MessageId → MessageId → ℕ → String → ClientMessage K V

module _ {K V : Type 0} where
  abbrev pub id : ClientMessage K V → MessageId
  id (read_request key i) = i
  id (write_request key value i) = i
  id (cas_request key from to i) = i
  id (read_response in_reply_to value i) = i
  id (write_response in_reply_to i) = i
  id (cas_response in_reply_to i) = i
  id (error_response in_reply_to i code text) = i

  abbrev pub set_id : ClientMessage K V → MessageId → ClientMessage K V
  set_id (read_request key i) to = read_request key to
  set_id (write_request key value i) to = write_request key value to
  set_id (cas_request key from t i) to = cas_request key from t to
  set_id (read_response in_reply_to value i) to = read_response in_reply_to value to
  set_id (write_response in_reply_to i) to = write_response in_reply_to to
  set_id (cas_response in_reply_to i) to = cas_response in_reply_to to
  set_id (error_response in_reply_to i code text) to = error_response in_reply_to to code text
