-- ===== src/Kv.antt =====
-- The key-value state machine and its commands (raft/src/lib.rs, `StateMachine for HashMap`,
-- `Command`, `WireCommand`). A send on the client channel is an entry of `sent`, in order. `show` is
-- the values' `Debug` format.
pub mod Answers
use Prim.Native.String.{◌++◌ as ◌+++◌}
use miniraft.Prelude.{
  ℕ, Bool, true, false, Option, none, some, List, [], ◌∷◌, ◌++◌, if◌then◌else◌, String, Outcome, ok,
  panic,
}
use miniraft.Prelude.Equality.{Eq, find, put}
use miniraft.Rpc.{
  NodeId, MessageId, ClientMessage, read_request, write_request, cas_request, read_response,
  write_response, cas_response, error_response,
}

pub data WireCommand (K V : Type 0) : Type 0 where
  read : K → WireCommand K V
  write : K → V → WireCommand K V
  -- Key, from, to.
  cas : K → V → V → WireCommand K V

-- `respond` says whether the command carries the callback channel.
pub record Command (K V : Type 0) : Type 0 where
  pub inner : WireCommand K V
  pub response_id : Option MessageId
  pub in_reply_to : Option MessageId
  pub client : Option NodeId
  pub respond : Bool

-- Reserved error codes (raft/src/maelstrom/rpc.rs).
abbrev pub temporarily_unavailable : ℕ
temporarily_unavailable = 11

abbrev pub abort : ℕ
abort = 14

abbrev pub key_does_not_exist : ℕ
key_does_not_exist = 20

abbrev pub precondition_failed : ℕ
precondition_failed = 22

pub record Machine (K V : Type 0) : Type 0 where
  pub store : List (K × V)
  pub sent : List (NodeId × ClientMessage K V)

abbrev pub or_zero : Option MessageId → MessageId
or_zero none = 0
or_zero (some i) = i

module _ {K V : Type 0} where
  -- The final `if let` of `apply`, and the send of `dismiss`: only a client with a channel is told.
  abbrev pub reply : Command K V → ClientMessage K V → List (NodeId × ClientMessage K V)
  reply cmd resp = elim cmd.client [
    | none ↦ []
    | some client ↦ if cmd.respond then (client, resp) ∷ [] else []
  ]

  -- `Dismiss for Command`: what is sent when a command is dropped.
  unfoldable pub dismiss : Command K V → List (NodeId × ClientMessage K V)
  dismiss cmd = elim cmd.response_id [
    | none ↦ []
    | some response_id ↦ elim cmd.in_reply_to [
      | none ↦ []
      | some in_reply_to ↦
          reply cmd (error_response in_reply_to response_id abort "dismissing command")
    ]
  ]

  -- `From<(NodeID, NodeMessageID, ClientMessage, PeerSender)> for Command`.
  unfoldable pub from : NodeId → MessageId → ClientMessage K V → Outcome (Command K V)
  from client response_id (read_request key id) = ok (record {
    inner = read key;
    response_id = some response_id;
    in_reply_to = some id;
    client = some client;
    respond = true;
  })
  from client response_id (write_request key value id) = ok (record {
    inner = write key value;
    response_id = some response_id;
    in_reply_to = some id;
    client = some client;
    respond = true;
  })
  from client response_id (cas_request key old desired id) = ok (record {
    inner = cas key old desired;
    response_id = some response_id;
    in_reply_to = some id;
    client = some client;
    respond = true;
  })
  from client response_id (read_response in_reply_to value id) = panic
  from client response_id (write_response in_reply_to id) = panic
  from client response_id (cas_response in_reply_to id) = panic
  from client response_id (error_response in_reply_to id code text) = panic

  -- What a command is after a trip through the persistent log (`Serialize` and `Deserialize for
  -- Command`): the wire command alone.
  unfoldable pub stored : Command K V → Command K V
  stored cmd = record {
    inner = cmd.inner;
    response_id = none;
    in_reply_to = none;
    client = none;
    respond = false;
  }

  module _ ⦃k : Eq K⦄ ⦃v : Eq V⦄ (show : V → String) where
    -- One wire command on the map: the new map and the response.
    unfoldable pub execute :
        WireCommand K V → MessageId → MessageId → List (K × V) → List (K × V) × ClientMessage K V
    execute (read key) in_reply_to id store = elim (find key store) [
      | some value ↦ (store, read_response in_reply_to value id)
      | none ↦ (store, error_response in_reply_to id key_does_not_exist "no such key")
    ]
    execute (write key value) in_reply_to id store =
        (put key value store, write_response in_reply_to id)
    execute (cas key old desired) in_reply_to id store = elim (find key store) [
      | some value ↦
          if v.beq value old then (put key desired store, cas_response in_reply_to id) else (
            store,
            error_response in_reply_to id precondition_failed
                ("values for key differ (found " +++ show value +++ ")"),
          )
      | none ↦ (store, error_response in_reply_to id key_does_not_exist "no such key")
    ]

    -- `StateMachine::apply`.
    unfoldable pub apply : Machine K V → Command K V → Machine K V
    apply m cmd =
        let done = execute cmd.inner (or_zero cmd.in_reply_to) (or_zero cmd.response_id) m.store in
        record { store = done.0; sent = m.sent ++ reply cmd done.1 }
