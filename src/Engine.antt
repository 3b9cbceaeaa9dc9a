-- ===== src/Engine.antt =====
-- The Raft messages of a node (raft/src/lib.rs, `incoming_raft_rpcs_loop`). `write` says whether the
-- rewind, the write and the flush of the persistent state all succeed. The other threads may change
-- the state between the locks of one message: `before` the handler and `after` it. A fault of the
-- channels is left out.
pub mod Durable
use miniraft.Prelude.{Bool, Option, none, some, List, [], ◌∷◌, if◌then◌else◌, Outcome, ok, ◌>>=◌}
use miniraft.Rpc.{
  NodeId, RaftMessage, append_entries, append_entries_response, request_vote, request_vote_response,
  term, Outgoing,
}
use miniraft.Raft.State.{State, Clock, Persistent, maybe_step_down}
use miniraft.Raft.Election.{handle_vote_request, handle_vote_response}
use miniraft.Raft.Append.{handle_append_entries, handle_append_entries_response}
use miniraft.Persist.{persistent}

-- What a handler leaves.
pub record Handled (Cmd M : Type 0) : Type 0 where
  pub state : State Cmd
  pub machine : M
  pub dismissed : List Cmd
  pub responses : Outgoing Cmd

-- What one message leaves. `written` is what the stable storage holds if the write succeeded.
pub record Served (Cmd M : Type 0) : Type 0 where
  pub state : State Cmd
  pub machine : M
  pub dismissed : List Cmd
  pub written : Option (Persistent Cmd)
  pub sent : Outgoing Cmd

module _ {Cmd M : Type 0} (apply : M → Cmd → M) where
  -- The `match` on the message.
  unfoldable pub dispatch :
      Clock → State Cmd → M → NodeId → RaftMessage Cmd → Outcome (Handled Cmd M)
  dispatch clock s machine peer (request_vote t last_log_index last_log_term) = do
    (s', msg) ← handle_vote_request clock s peer t last_log_index last_log_term
    ok (record { state = s'; machine = machine; dismissed = []; responses = (peer, msg) ∷ [] })
  dispatch clock s machine peer (request_vote_response t vote_granted) = do
    (s', msgs) ← handle_vote_response clock s peer t vote_granted
    ok (record { state = s'; machine = machine; dismissed = []; responses = msgs })
  dispatch clock s machine peer
        (append_entries t commit_index prev_log_index prev_log_term entries) =
      do
        (s', machine', dismissed, msg) ←
            handle_append_entries apply clock s peer t commit_index prev_log_index prev_log_term
              entries machine
        ok (record {
          state = s';
          machine = machine';
          dismissed = dismissed;
          responses = (peer, msg) ∷ [];
        })
  dispatch clock s machine peer (append_entries_response t index success) = do
    (s', machine', msgs) ← handle_append_entries_response apply clock s peer success index machine
    ok (record { state = s'; machine = machine'; dismissed = []; responses = msgs })

  -- One turn of the loop.
  unfoldable pub peer_step :
      (Persistent Cmd → Bool)
      → Clock
      → (State Cmd → State Cmd)
      → (State Cmd → State Cmd)
      → State Cmd
      → M
      → NodeId
      → RaftMessage Cmd
      → Outcome (Served Cmd M)
  peer_step write clock before after s machine peer msg = do
    s₁ ← maybe_step_down s (term msg)
    h ← dispatch clock (before s₁) machine peer msg
    let s₂ = after h.state
    p ← persistent s₂
    ok (record {
      state = s₂;
      machine = h.machine;
      dismissed = h.dismissed;
      written = if write p then some p else none;
      sent = if write p then h.responses else [];
    })
