-- ===== src/Proxy/Inflight.antt =====
-- How many forwarded requests are kept, and which (raft/src/lib.rs, `incoming_client_rpcs_loop`).
use miniraft.Prelude.{
  ℕ, ◌≤◌, ◌≡◌, ◌≢◌, refl, Option, none, some, [], ◌∷◌, length, arith, Outcome, ok, Option-cases,
  Bool-cases, Outcome-cases, inl, inr, ◌+◌, str_ne,
}
use miniraft.Prelude.Equality.{find, erase, ℕ_eq}
use miniraft.Rpc.{NodeId, MessageId, ClientMessage, id, set_id}
use miniraft.Raft.State.{State, Clock, is_leader, current_leader}
use miniraft.Proxy.{
  Sends, Proxies, max_inflight_proxies, insert_ordered, make_room, reply_to, forward, proxy, relay,
  Handled, propose, client_step,
}

-- The keys ascend, from `lo` on and below `hi`.
abbrev pub Ascending : ℕ → ℕ → Proxies → Type 0
Ascending lo hi [] = lo ≤ hi
Ascending lo hi ((j, v) ∷ m) = (lo ≤ j) × Ascending (j + 1) hi m

-- One more entry than the constant's text allows.
abbrev pub Inflight : ℕ → Proxies → Type 0
Inflight hi m = Ascending 0 hi m × (length m ≤ max_inflight_proxies + 1)

Ascending-le : (lo hi : ℕ) (m : Proxies) → Ascending lo hi m → lo ≤ hi
Ascending-le lo hi [] h = h
Ascending-le lo hi ((j, v) ∷ m) h = let ih = Ascending-le (j + 1) hi m h.1 in ground arith

Ascending-weaken :
    (lo lo' hi hi' : ℕ) (m : Proxies)
    → lo' ≤ lo
    → hi ≤ hi'
    → Ascending lo hi m
    → Ascending lo' hi' m
Ascending-weaken lo lo' hi hi' [] l u h = omega arith
Ascending-weaken lo lo' hi hi' ((j, v) ∷ m) l u h =
    (ground arith, Ascending-weaken (j + 1) (j + 1) hi hi' m (omega arith) u h.1)

pub find_above : (lo hi i : ℕ) (m : Proxies) → Ascending lo hi m → hi ≤ i → find i m ≡ none
find_above lo hi i [] h u = refl
find_above lo hi i ((j, v) ∷ m) h u =
    let ih = find_above (j + 1) hi i m h.1 u in
    let le = Ascending-le (j + 1) hi m h.1 in ground arith

Ascending-insert :
    (lo hi i : ℕ) (v : MessageId × NodeId) (m : Proxies)
    → Ascending lo hi m
    → hi ≤ i
    → Ascending lo (i + 1) (insert_ordered i v m)
Ascending-insert lo hi i v [] h u = (ground arith, omega arith)
Ascending-insert lo hi i v ((j, w) ∷ m) h u =
    let ih = Ascending-insert (j + 1) hi i v m h.1 u in
    let le = Ascending-le (j + 1) hi m h.1 in ground arith

length-insert :
    (i : ℕ) (v : MessageId × NodeId) (m : Proxies) → length (insert_ordered i v m) ≡ length m + 1
length-insert i v [] = refl
length-insert i v ((j, w) ∷ m) = let ih = length-insert i v m in ground arith

Ascending-erase : (lo hi i : ℕ) (m : Proxies) → Ascending lo hi m → Ascending lo hi (erase i m)
Ascending-erase lo hi i [] h = h
Ascending-erase lo hi i ((j, w) ∷ m) h =
    let ih = Ascending-erase (j + 1) hi i m h.1 in
    let weak = Ascending-weaken (j + 1) lo hi hi (erase i m) in ground arith

length-erase : (i : ℕ) (m : Proxies) → length (erase i m) ≤ length m
length-erase i [] = omega arith
length-erase i ((j, w) ∷ m) = let ih = length-erase i m in ground arith

make_room-Inflight :
    (hi : ℕ) (m : Proxies)
    → Inflight hi m
    → Ascending 0 hi (make_room m) × (length (make_room m) ≤ max_inflight_proxies)
make_room-Inflight hi [] h = ground arith
make_room-Inflight hi ((j, v) ∷ m) h =
    let weak = Ascending-weaken (j + 1) 0 hi hi m (omega arith) (omega arith) h.0.1 in ground arith

relay-Inflight :
    {K V : Type 0} (hi i : ℕ) (resp : ClientMessage K V) (m : Proxies)
    → Inflight hi m
    → Inflight hi (relay i resp m).0
unfolding relay
relay-Inflight hi i resp m h =
    let a = Ascending-erase 0 hi i m h.0 in
    let l = length-erase i m in
    elim (Option-cases (find i m)) [ inl e ↦ ground arith | inr e ↦ ground arith ]

module _ {K V : Type 0} where
  -- With ascending forwarded ids below that of a request, at most 1025 of them, and a leader
  -- that is another node, the request is forwarded without a panic, under its id and with its
  -- client.
  pub forward_ok :
      (own leader_id : NodeId) (hi forward_id : ℕ) (client : NodeId) (req : ClientMessage K V)
      (m : Proxies)
      → Inflight hi m
      → hi ≤ forward_id
      → leader_id ≢ own
      → forward own leader_id forward_id client req m
        ≡ ok (
          insert_ordered forward_id (id req, client) (make_room m),
          (leader_id, set_id req forward_id) ∷ [],
        )
  unfolding forward
  forward_ok own leader_id hi forward_id client req m h u n =
      let room = make_room-Inflight hi m h in
      rw (str_ne leader_id own n, find_above 0 hi forward_id (make_room m) room.0 u) refl

  forward-Inflight :
      (own leader_id : NodeId) (hi i : ℕ) (client : NodeId) (req : ClientMessage K V) (m : Proxies)
      {m' : Proxies} {sends : Sends K V}
      → Inflight hi m
      → hi ≤ i
      → forward own leader_id i client req m ≡ ok (m', sends)
      → Inflight (i + 1) m'
  unfolding forward
  forward-Inflight own leader_id hi i client req m {m'} h u e =
      let room = make_room-Inflight hi m h in
      let v : MessageId × NodeId = (id req, client) in
      let e' : m' ≡ insert_ordered i v (make_room m) = ground arith in
      let asc = Ascending-insert 0 hi i v (make_room m) room.0 u in
      let len = length-insert i v (make_room m) in rw e' (asc, omega arith)

  proxy-Inflight :
      (own : NodeId) (known : Option NodeId) (hi i : ℕ) (client : NodeId) (req : ClientMessage K V)
      (m : Proxies) {m' : Proxies} {sends : Sends K V}
      → Inflight hi m
      → hi ≤ i
      → proxy own known i client req m ≡ ok (m', sends)
      → Inflight (i + 1) m'
  unfolding proxy
  proxy-Inflight own (some leader_id) hi i client req m h u e =
      forward-Inflight own leader_id hi i client req m h u e
  proxy-Inflight own none hi i client req m {m'} h u e =
      let e' : m' ≡ m = ground arith in
      rw e' (Ascending-weaken 0 0 hi (i + 1) m (omega arith) (omega arith) h.0, h.1)

  module _ {Cmd : Type 0} (command : NodeId → MessageId → ClientMessage K V → Outcome Cmd) where
    -- If a node's forwarded requests have ascending ids, all below that of the next message,
    -- and are at most 1025, the same holds after any message that is handled without a panic.
    pub client_step-Inflight :
        (clock : Clock) (meanwhile afterwards : State Cmd → State Cmd) (s : State Cmd) (hi i : ℕ)
        (client : NodeId) (msg : ClientMessage K V) (m : Proxies) {h : Handled K V Cmd}
        → Inflight hi m
        → hi ≤ i
        → client_step command clock meanwhile afterwards s i client msg m ≡ ok h
        → Inflight (i + 1) h.proxies
    unfolding client_step
    client_step-Inflight clock meanwhile afterwards s hi i client msg m {h} v u e =
        let weak = Ascending-weaken 0 0 hi (i + 1) m (omega arith) (omega arith) v.0 in
        let t = meanwhile s in
        elim (Option-cases (reply_to msg)) [
          | inr (r, er) ↦
              let e' : h.proxies ≡ (relay r msg m).0 = ground arith in
              let kept = relay-Inflight hi r msg m v in
              let weak' =
                Ascending-weaken 0 0 hi (i + 1) (relay r msg m).0 (omega arith) (omega arith)
                  kept.0 in
              rw e' (weak', kept.1)
          | inl request ↦ elim (Bool-cases (is_leader s)) [
            | inl leads ↦ elim (Outcome-cases (propose command clock afterwards t i client msg)) [
              | inl done ↦ let e' : h.proxies ≡ m = ground arith in rw e' (weak, v.1)
              | inr fault ↦ ground arith
            ]
            | inr not_leader ↦
                elim (Outcome-cases (proxy t.c.id (current_leader t) i client msg m)) [
                  | inl ((m', sends), em) ↦
                      let e' : h.proxies ≡ m' = ground arith in
                      rw e' (proxy-Inflight t.c.id (current_leader t) hi i client msg m v u em)
                  | inr fault ↦ ground arith
                ]
          ]
        ]
