-- ===== src/Kv/Answers.antt =====
-- What the key-value state machine does to its map and whom it answers (raft/src/lib.rs).
use miniraft.Prelude.{
  ◌≡◌, refl, Bool, true, false, Option, none, some, List, [], ◌∷◌, ◌++◌, if◌then◌else◌, String, ok,
  map, arith, ap, Option-cases, ok-injective, subst, ◌∙◌, inl, inr,
}
use miniraft.Prelude.Equality.{Eq, find, find-put}
use miniraft.Rpc.{
  NodeId, MessageId, ClientMessage, read_request, write_request, cas_request, read_response,
  write_response, cas_response, error_response, id,
}
use miniraft.Kv.{
  WireCommand, read, write, cas, Command, Machine, or_zero, dismiss, abort, from, stored, execute,
  apply,
}

-- The abstract map: what is stored under each key.
abbrev pub Content : Type 0 → Type 0 → Type 0
Content K V = K → Option V

-- The command of a client's request.
abbrev pub requested :
    {K V : Type 0} → NodeId → MessageId → MessageId → WireCommand K V → Command K V
requested client response_id i w = record {
  inner = w;
  response_id = some response_id;
  in_reply_to = some i;
  client = some client;
  respond = true;
}

abbrev pub in_reply_to : {K V : Type 0} → ClientMessage K V → Option MessageId
in_reply_to (read_request key i) = none
in_reply_to (write_request key value i) = none
in_reply_to (cas_request key old desired i) = none
in_reply_to (read_response i value j) = some i
in_reply_to (write_response i j) = some i
in_reply_to (cas_response i j) = some i
in_reply_to (error_response i j code text) = some i

abbrev pub holds : {V : Type 0} ⦃v : Eq V⦄ → Option V → V → Bool
holds none value = false
holds ⦃v⦄ (some w) value = v.beq w value

append_nil : {A : Type 0} (xs : List A) → xs ++ [] ≡ xs
append_nil [] = refl
append_nil (x ∷ xs) = ap (λ ys. x ∷ ys) (append_nil xs)

module _ {K V : Type 0} ⦃k : Eq K⦄ ⦃v : Eq V⦄ where
  -- A store with one cell changed.
  abbrev pub at : K → V → Content K V → Content K V
  at key value f j = if k.beq key j then some value else f j

  -- What a command means for the abstract map.
  abbrev pub effect : WireCommand K V → Content K V → Content K V
  effect (read key) f = f
  effect (write key value) f = at key value f
  effect (cas key old desired) f = if holds (f key) old then at key desired f else f

  abbrev pub effects : List (Command K V) → Content K V → Content K V
  effects [] f = f
  effects (cmd ∷ cmds) f = effects cmds (effect cmd.inner f)

  module _ (show : V → String) where
    -- Commands applied one after the other.
    abbrev pub run : Machine K V → List (Command K V) → Machine K V
    run m [] = m
    run m (cmd ∷ cmds) = run (apply show m cmd) cmds

    execute-effect :
        (cmd : WireCommand K V) (i j : MessageId) (s : List (K × V)) (key : K)
        → find key (execute show cmd i j s).0 ≡ effect cmd (λ x. find x s) key
    unfolding execute
    execute-effect (read key') i j s key = elim (Option-cases (find key' s)) [
      | inl e ↦ ground arith
      | inr e ↦ ground arith
    ]
    execute-effect (write key' value) i j s key = find-put key' key value s
    execute-effect (cas key' old desired) i j s key = elim (Option-cases (find key' s)) [
      | inl e ↦ ground arith
      | inr e ↦ ground (arith, find-put key' key desired s)
    ]

    -- However many commands are applied, what is stored under each key is what the commands
    -- mean for the abstract map.
    pub run-effects :
        (cmds : List (Command K V)) (m : Machine K V)
        → (λ key. find key (run m cmds).store) ≡ effects cmds (λ key. find key m.store)
    unfolding apply
    run-effects [] m = refl
    run-effects (cmd ∷ cmds) m =
        run-effects cmds (apply show m cmd)
        ∙ ap (effects cmds) (λ i key.
          execute-effect cmd.inner (or_zero cmd.in_reply_to) (or_zero cmd.response_id) m.store key
            i)

    execute-ids :
        (cmd : WireCommand K V) (i j i' j' : MessageId) (s : List (K × V))
        → (execute show cmd i j s).0 ≡ (execute show cmd i' j' s).0
    unfolding execute
    execute-ids (read key') i j i' j' s = ground arith
    execute-ids (write key' value) i j i' j' s = refl
    execute-ids (cas key' old desired) i j i' j' s = ground arith

    -- The commands as they come back from the persistent log, applied to a machine with the
    -- same store, leave the same store as the commands themselves, and answer nobody.
    pub run-stored :
        (cmds : List (Command K V)) (m n : Machine K V)
        → m.store ≡ n.store
        → ((run m (map stored cmds)).store ≡ (run n cmds).store)
          × ((run m (map stored cmds)).sent ≡ m.sent)
    unfolding apply stored
    run-stored [] m n h = (h, refl)
    run-stored (cmd ∷ cmds) m n h =
        let ih = run-stored cmds (apply show m (stored cmd)) (apply show n cmd) (
          execute-ids cmd.inner 0 0 (or_zero cmd.in_reply_to) (or_zero cmd.response_id) m.store
          ∙ ap
              (λ s.
                (execute show cmd.inner (or_zero cmd.in_reply_to) (or_zero cmd.response_id) s).0)
              h) in
        (ih.0, ih.1 ∙ append_nil m.sent)

    execute_reply :
        (cmd : WireCommand K V) (i j : MessageId) (s : List (K × V))
        → (in_reply_to (execute show cmd i j s).1 ≡ some i) × (id (execute show cmd i j s).1 ≡ j)
    unfolding execute
    execute_reply (read key') i j s = (ground arith, ground arith)
    execute_reply (write key' value) i j s = (refl, refl)
    execute_reply (cas key' old desired) i j s = (ground arith, ground arith)

    -- Whom `cmd` tells what, applied or dismissed.
    abbrev pub Answered : NodeId → MessageId → MessageId → Machine K V → Command K V → Type 0
    Answered client response_id i m cmd =
        (resp : ClientMessage K V) × ((apply show m cmd).sent ≡ m.sent ++ (client, resp) ∷ [])
        × (in_reply_to resp ≡ some i)
        × (id resp ≡ response_id)
        × (dismiss cmd ≡ (client, error_response i response_id abort "dismissing command") ∷ [])

    requested_answers :
        (client : NodeId) (response_id i : MessageId) (w : WireCommand K V) (m : Machine K V)
        → Answered client response_id i m (requested client response_id i w)
    unfolding apply dismiss
    requested_answers client response_id i w m =
        let e = execute_reply w i response_id m.store in
        ((execute show w i response_id m.store).1, refl, e.0, e.1, refl)

    -- The command that a client's request becomes tells the client, when it is applied, one
    -- response to the request under the node's id, and, when it is dismissed, one abort to
    -- the request under that id.
    pub from_answers :
        (client : NodeId) (response_id : MessageId) (msg : ClientMessage K V) (cmd : Command K V)
        (m : Machine K V)
        → from client response_id msg ≡ ok cmd
        → Answered client response_id (id msg) m cmd
    unfolding from
    from_answers client response_id (read_request key i) cmd m h =
        subst (Answered client response_id i m) (ok-injective h)
          (requested_answers client response_id i (read key) m)
    from_answers client response_id (write_request key value i) cmd m h =
        subst (Answered client response_id i m) (ok-injective h)
          (requested_answers client response_id i (write key value) m)
    from_answers client response_id (cas_request key old desired i) cmd m h =
        subst (Answered client response_id i m) (ok-injective h)
          (requested_answers client response_id i (cas key old desired) m)
    from_answers client response_id (read_response i value j) cmd m h = cc
    from_answers client response_id (write_response i j) cmd m h = cc
    from_answers client response_id (cas_response i j) cmd m h = cc
    from_answers client response_id (error_response i j code text) cmd m h = cc
