-- ===== src/Proxy/Replies.antt =====
-- A forwarded request and its reply (raft/src/lib.rs, `incoming_client_rpcs_loop`).
use miniraft.Prelude.{
  ℕ, ◌≡◌, ◌≢◌, refl, none, some, [], ◌∷◌, arith, if◌then◌else◌, ap, ◌∙◌, ok, eq_iff, ◌==◌, ==_iff,
  Option-cases, inl, inr,
}
use miniraft.Prelude.Equality.{find, erase, find-erase, ℕ_eq}
use miniraft.Rpc.{
  NodeId, MessageId, ClientMessage, id, set_id, read_request, write_request, cas_request,
  read_response, write_response, cas_response, error_response,
}
use miniraft.Proxy.{Sends, Proxies, insert_ordered, make_room, reply_to, forward, relay}

pub find-insert :
    (i j : ℕ) (v : MessageId × NodeId) (m : Proxies)
    → find i m ≡ none
    → find j (insert_ordered i v m) ≡ (if i == j then some v else find j m)
find-insert i j v [] h = refl
find-insert i j v ((k, w) ∷ m) h =
    let ih = find-insert i j v m in ground (arith, ==_iff i j, ==_iff k i, ==_iff k j)

module _ {K V : Type 0} where
  pub set_id-reply_to :
      (msg : ClientMessage K V) (i : MessageId) → reply_to (set_id msg i) ≡ reply_to msg
  set_id-reply_to (read_request key j) i = refl
  set_id-reply_to (write_request key value j) i = refl
  set_id-reply_to (cas_request key old desired j) i = refl
  set_id-reply_to (read_response k value j) i = refl
  set_id-reply_to (write_response k j) i = refl
  set_id-reply_to (cas_response k j) i = refl
  set_id-reply_to (error_response k j code text) i = refl

  pub id-set_id : (msg : ClientMessage K V) (i : MessageId) → id (set_id msg i) ≡ i
  id-set_id (read_request key j) i = refl
  id-set_id (write_request key value j) i = refl
  id-set_id (cas_request key old desired j) i = refl
  id-set_id (read_response k value j) i = refl
  id-set_id (write_response k j) i = refl
  id-set_id (cas_response k j) i = refl
  id-set_id (error_response k j code text) i = refl

  pub set_id-set_id :
      (msg : ClientMessage K V) (i : MessageId) → set_id (set_id msg i) (id msg) ≡ msg
  set_id-set_id (read_request key j) i = refl
  set_id-set_id (write_request key value j) i = refl
  set_id-set_id (cas_request key old desired j) i = refl
  set_id-set_id (read_response k value j) i = refl
  set_id-set_id (write_response k j) i = refl
  set_id-set_id (cas_response k j) i = refl
  set_id-set_id (error_response k j code text) i = refl

  -- What `forward` does when it does not panic.
  forward-eq :
      (own leader_id : NodeId) (i : ℕ) (client : NodeId) (req : ClientMessage K V) (m : Proxies)
      {m' : Proxies} {sends : Sends K V}
      → forward own leader_id i client req m ≡ ok (m', sends)
      → (m' ≡ insert_ordered i (id req, client) (make_room m))
        × (sends ≡ (leader_id, set_id req i) ∷ [])
        × (find i (make_room m) ≡ none)
        × (leader_id ≢ own)
  unfolding forward
  forward-eq own leader_id i client req m h = elim (Option-cases (find i (make_room m))) [
    | inl e ↦ ground (arith, eq_iff leader_id own)
    | inr e ↦ ground (arith, eq_iff leader_id own)
  ]

  relay_found :
      (i : ℕ) (resp : ClientMessage K V) (m : Proxies) (o : MessageId) (client : NodeId)
      → find i m ≡ some (o, client)
      → relay i resp m ≡ (erase i m, (client, set_id resp o) ∷ [])
  unfolding relay
  relay_found i resp m o client e = rw (e, relay) refl

  relay_missing :
      (i : ℕ) (resp : ClientMessage K V) (m : Proxies) → find i m ≡ none → relay i resp m ≡ (m, [])
  unfolding relay
  relay_missing i resp m e = rw (e, relay) refl

  -- A request that a node forwards under the id `i` reaches the leader as it is but for its id.
  -- The first reply to `i` goes to the request's client with the request's id as its own, but
  -- still names `i` as what it answers; a second one goes nowhere; the other forwarded requests
  -- that were kept stay.
  pub forward-relay :
      (own leader_id : NodeId) (i : ℕ) (client : NodeId) (req resp : ClientMessage K V)
      (m : Proxies) {m' : Proxies} {sends : Sends K V}
      → forward own leader_id i client req m ≡ ok (m', sends)
      → reply_to resp ≡ some i
      → ((fwd : ClientMessage K V) × (sends ≡ (leader_id, fwd) ∷ [])
          × (id fwd ≡ i)
          × (set_id fwd (id req) ≡ req))
        × ((msg : ClientMessage K V) × ((relay i resp m').1 ≡ (client, msg) ∷ [])
            × (id msg ≡ id req)
            × (reply_to msg ≡ some i))
        × ((relay i resp (relay i resp m').0).1 ≡ [])
        × ((j : ℕ) → j ≢ i → find j (relay i resp m').0 ≡ find j (make_room m))
  forward-relay own leader_id i client req resp m {m'} h r =
      let f = forward-eq own leader_id i client req m h in
      let e : find i m' ≡ some (id req, client) =
        ground (arith, ==_iff i i, find-insert i i (id req, client) (make_room m)) in
      let gone : find i (erase i m') ≡ none = ground (arith, ==_iff i i, find-erase i i m') in
      let first = relay_found i resp m' (id req) client e in
      (
        (set_id req i, f.1, id-set_id req i, set_id-set_id req i),
        (
          set_id resp (id req),
          ap (λ q. q.1) first,
          id-set_id resp (id req),
          set_id-reply_to resp (id req) ∙ r,
        ),
        rw first (ap (λ q. q.1) (relay_missing i resp (erase i m') gone)),
        λ j n. rw first (
            ground (
              arith,
              ==_iff i j,
              find-erase i j m',
              find-insert i j (id req, client) (make_room m),
            )),
      )
