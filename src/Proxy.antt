-- ===== src/Proxy.antt =====
-- The client messages of a node (raft/src/lib.rs, `incoming_client_rpcs_loop`). `BTreeMap` is a list
-- in the order of its keys. The other threads may change the state between two locks of one message:
-- `meanwhile` is their change after the look at the role, `afterwards` after the append. The metrics
-- and the diagnostic output are left out.
pub mod Replies
pub mod Inflight
use miniraft.Prelude.{
  ℕ, ◌<◌, Bool, true, false, not, Option, none, some, List, [], ◌∷◌, ltb, if◌then◌else◌, ◌==◌,
  String, str_eq, length, Outcome, ok, panic, ◌>>=◌, ◌>>◌, assert, expect,
}
use miniraft.Prelude.Equality.{find, erase, ℕ_eq}
use miniraft.Rpc.{
  NodeId, MessageId, ClientMessage, read_request, write_request, cas_request, read_response,
  write_response, cas_response, error_response, id, set_id, Outgoing,
}
use miniraft.Raft.State.{State, Clock, is_leader, current_leader}
use miniraft.Raft.Replication.{replicate_log, append_command}
use miniraft.Kv.{temporarily_unavailable}

-- The messages to clients and peers, with their receivers.
abbrev pub Sends : Type 0 → Type 0 → Type 0
Sends K V = List (NodeId × ClientMessage K V)

-- The forwarded requests: under the id of each, its original id and its client.
abbrev pub Proxies : Type 0
Proxies = List (MessageId × (MessageId × NodeId))

abbrev pub max_inflight_proxies : ℕ
max_inflight_proxies = 1024

-- `BTreeMap::insert` under a key that is not there.
abbrev pub insert_ordered : MessageId → MessageId × NodeId → Proxies → Proxies
insert_ordered i v [] = (i, v) ∷ []
insert_ordered i v ((j, w) ∷ m) =
    if ltb i j then (i, v) ∷ (j, w) ∷ m else (j, w) ∷ insert_ordered i v m

abbrev pub pop_first : Proxies → Proxies
pop_first [] = []
pop_first (entry ∷ m) = m

abbrev pub make_room : Proxies → Proxies
make_room m = if ltb max_inflight_proxies (length m) then pop_first m else m

abbrev pub is_absent : {A : Type 0} → Option A → Bool
is_absent none = true
is_absent (some a) = false

-- What one message leaves: the state, the forwarded requests, and what is sent on both channels.
pub record Handled (K V Cmd : Type 0) : Type 0 where
  pub state : State Cmd
  pub proxies : Proxies
  pub to_clients : Sends K V
  pub to_peers : Outgoing Cmd

module _ {K V : Type 0} where
  -- The `in_reply_to` that the pattern of a response binds.
  abbrev pub reply_to : ClientMessage K V → Option MessageId
  reply_to (read_request key i) = none
  reply_to (write_request key value i) = none
  reply_to (cas_request key old desired i) = none
  reply_to (read_response in_reply_to value i) = some in_reply_to
  reply_to (write_response in_reply_to i) = some in_reply_to
  reply_to (cas_response in_reply_to i) = some in_reply_to
  reply_to (error_response in_reply_to i code text) = some in_reply_to

  -- A request that goes on to the leader.
  unfoldable pub forward :
      NodeId
      → NodeId
      → MessageId
      → NodeId
      → ClientMessage K V
      → Proxies
      → Outcome (Proxies × Sends K V)
  forward own leader_id forward_id client req proxies = do
    let proxies' = make_room proxies
    assert (not (str_eq leader_id own))
    assert (is_absent (find forward_id proxies'))
    ok (
      insert_ordered forward_id (id req, client) proxies',
      (leader_id, set_id req forward_id) ∷ [],
    )

  -- A request at a node that is not the leader.
  unfoldable pub proxy :
      NodeId
      → Option NodeId
      → MessageId
      → NodeId
      → ClientMessage K V
      → Proxies
      → Outcome (Proxies × Sends K V)
  proxy own (some leader_id) response_id client req proxies =
      forward own leader_id response_id client req proxies
  proxy own none response_id client req proxies = ok (
    proxies,
    (
      client,
      error_response (id req) response_id temporarily_unavailable
          "not a leader and current leader unknown",
    )
        ∷ [],
  )

  -- A response goes to the client that waits for it.
  unfoldable pub relay : MessageId → ClientMessage K V → Proxies → Proxies × Sends K V
  relay in_reply_to resp proxies = elim (find in_reply_to proxies) [
    | none ↦ (proxies, [])
    | some (original_id, original_client) ↦
        (erase in_reply_to proxies, (original_client, set_id resp original_id) ∷ [])
  ]

  module _ {Cmd : Type 0} (command : NodeId → MessageId → ClientMessage K V → Outcome Cmd) where
    -- A request at the leader.
    unfoldable pub propose :
        Clock
        → (State Cmd → State Cmd)
        → State Cmd
        → MessageId
        → NodeId
        → ClientMessage K V
        → Outcome (State Cmd × Outgoing Cmd)
    propose clock afterwards s response_id client req = do
      cmd ← command client response_id req
      replicate_log clock (afterwards (append_command s cmd))

    unfoldable pub client_step :
        Clock
        → (State Cmd → State Cmd)
        → (State Cmd → State Cmd)
        → State Cmd
        → MessageId
        → NodeId
        → ClientMessage K V
        → Proxies
        → Outcome (Handled K V Cmd)
    client_step clock meanwhile afterwards s response_id client msg proxies =
        let t = meanwhile s in
        elim (reply_to msg) [
          | some in_reply_to ↦
              let relayed = relay in_reply_to msg proxies in
              ok (record { state = s; proxies = relayed.0; to_clients = relayed.1; to_peers = [] })
          | none ↦
              if is_leader s
              then (do
                (u, msgs) ← propose clock afterwards t response_id client msg
                ok (record { state = u; proxies = proxies; to_clients = []; to_peers = msgs }))
              else (do
                (m, sends) ← proxy t.c.id (current_leader t) response_id client msg proxies
                ok (record { state = t; proxies = m; to_clients = sends; to_peers = [] }))
        ]
