-- ===== src/Raft/Progress/Crashes.antt =====
-- The runs of a node with its stable storage, through crashes (raft/src/lib.rs,
-- `incoming_raft_rpcs_loop` and `new`, and raft/src/persistence.rs). Only the loop of the Raft messages
-- writes: it takes a snapshot under the lock, and writes it out while the other threads go on. A boot
-- starts from what was last written, which may be far behind the state that was lost.
use miniraft.Prelude.{ℕ, ◌≤◌, ◌≡◌, refl, sym, subst, ◌∙◌, arith, Option, none, some, List, map, ok}
use miniraft.Rpc.{NodeId}
use miniraft.Raft.State.{State, Persistent, new}
use miniraft.Raft.Progress.{vote, VoteKept, VoteKept-refl, VoteKept-trans, Progress}
use miniraft.Raft.Progress.Reach.{Step, Step-Progress}
use miniraft.Persist.{persistent}

-- The state behind the lock, the snapshot that is being written, and what the storage holds.
pub record Node (Cmd : Type 0) : Type 0 where
  pub live : State Cmd
  pub pending : Option (Persistent Cmd)
  pub stored : Persistent Cmd

-- What is read back of a written state: of each command what its own form keeps.
abbrev pub read_back : {Cmd : Type 0} → (Cmd → Cmd) → Persistent Cmd → Persistent Cmd
read_back kept p = record p { log = map (λ e. record { cmd = kept e.cmd; term = e.term }) p.log }

module _ {Cmd M : Type 0} (apply : M → Cmd → M) where
  pub data NodeStep (n : Node Cmd) : Node Cmd → Type 0 where
    call : (s : State Cmd) → Step apply n.live s → NodeStep n (record n { live = s })
    snapshot :
        (p : Persistent Cmd) → persistent n.live ≡ ok p → NodeStep n (record n { pending = some p })
    written :
        (p : Persistent Cmd)
        → n.pending ≡ some p
        → NodeStep n (record n { pending = none; stored = p })
    -- A failure after which the storage has what it had; if it has the new state, the state was
    -- written as above.
    write_failed : NodeStep n (record n { pending = none })
    -- A crash at any time, and the boot of the same node.
    reboot :
        (kept : Cmd → Cmd) (now : ℕ) (s : State Cmd)
        → new n.live.c.id n.live.c.node_ids (read_back kept n.stored) now ≡ ok s
        → NodeStep n (record n { live = s; pending = none })

  pub data Run (n : Node Cmd) : Node Cmd → Type 0 where
    here : Run n n
    next : {m o : Node Cmd} → Run n m → NodeStep m o → Run n o

-- A later version of the persistent state: its vote is the same in the same term, if there was one.
pub record Later {Cmd : Type 0} (p q : Persistent Cmd) : Type 0 where
  pub term_le : p.current_term ≤ q.current_term
  pub vote_kept : q.current_term ≡ p.current_term → VoteKept p.voted_for q.voted_for

-- The same of a state behind the lock.
pub record Since {Cmd : Type 0} (p : Persistent Cmd) (s : State Cmd) : Type 0 where
  pub term_le : p.current_term ≤ s.c.current_term
  pub vote_kept : s.c.current_term ≡ p.current_term → VoteKept p.voted_for (vote s.c.id s.r)

module _ {Cmd : Type 0} where
  abbrev PendingFits : Persistent Cmd → State Cmd → Option (Persistent Cmd) → Type 0
  PendingFits stored live none = Unit {0}
  PendingFits stored live (some p) = Later stored p × Since p live

  -- The storage is not ahead of the snapshot, nor is the snapshot ahead of the state.
  pub record IsDurable (n : Node Cmd) : Type 0 where
    pub behind : Since n.stored n.live
    pub between : PendingFits n.stored n.live n.pending

  pub persistent-vote :
      (s : State Cmd) (p : Persistent Cmd)
      → persistent s ≡ ok p
      → (p.current_term ≡ s.c.current_term) × (p.voted_for ≡ vote s.c.id s.r) × (p.log ≡ s.c.log)
  unfolding persistent
  persistent-vote s p h = ground arith

  Later-refl : (p : Persistent Cmd) → Later p p
  Later-refl p = record { term_le = omega arith; vote_kept = λ e. VoteKept-refl p.voted_for }

  Later-trans : {p q r : Persistent Cmd} → Later p q → Later q r → Later p r
  Later-trans a b = record {
    term_le = omega arith;
    vote_kept = λ e. VoteKept-trans _ _ _ (a.vote_kept (omega arith)) (b.vote_kept (omega arith));
  }

  Later-Since : {p q : Persistent Cmd} {s : State Cmd} → Later p q → Since q s → Since p s
  Later-Since a b = record {
    term_le = omega arith;
    vote_kept = λ e. VoteKept-trans _ _ _ (a.vote_kept (omega arith)) (b.vote_kept (omega arith));
  }

  Since-Progress : {p : Persistent Cmd} {s t : State Cmd} → Since p s → Progress s t → Since p t
  Since-Progress a g = record {
    term_le = omega arith;
    vote_kept = λ e. VoteKept-trans _ _ _ (a.vote_kept (omega arith)) (g.vote_kept (omega arith));
  }

  pub snapshot-Since : (s : State Cmd) (p : Persistent Cmd) → persistent s ≡ ok p → Since p s
  snapshot-Since s p h =
      let (t, v, l) = persistent-vote s p h in
      record {
        term_le = omega arith;
        vote_kept = λ e. subst (VoteKept p.voted_for) v (VoteKept-refl p.voted_for);
      }

  snapshot-Later :
      (s : State Cmd) (p q : Persistent Cmd) → Since p s → persistent s ≡ ok q → Later p q
  snapshot-Later s p q a h =
      let (t, v, l) = persistent-vote s q h in
      record {
        term_le = omega arith;
        vote_kept = λ e. subst (VoteKept p.voted_for) (sym v) (a.vote_kept (omega arith));
      }

  pub new-Since :
      (id : NodeId) (node_ids : List NodeId) (p : Persistent Cmd) (now : ℕ) {s : State Cmd}
      → new id node_ids p now ≡ ok s
      → Since p s × (s.c.id ≡ id) × (s.c.node_ids ≡ node_ids)
  unfolding new
  new-Since id node_ids p now {s} h = (
    record { term_le = ground arith; vote_kept = λ e. ground (arith, VoteKept-refl p.voted_for) },
    ground arith,
    ground arith,
  )

-- What every step keeps.
pub record Lasting {Cmd : Type 0} (n m : Node Cmd) : Type 0 where
  pub storage : Later n.stored m.stored
  pub state : Since n.stored m.live
  pub id_same : m.live.c.id ≡ n.live.c.id
  pub node_ids_same : m.live.c.node_ids ≡ n.live.c.node_ids

module _ {Cmd M : Type 0} (apply : M → Cmd → M) where
  call-Durable :
      (n : Node Cmd) (s : State Cmd)
      → Step apply n.live s
      → IsDurable n
      → IsDurable (record n { live = s }) × Lasting n (record n { live = s })
  call-Durable n s st d =
      let g = Step-Progress apply st in
      let behind = Since-Progress d.behind g in
      (
        record { behind = behind; between = still n.pending d.between },
        record {
          storage = Later-refl n.stored;
          state = behind;
          id_same = g.id_same;
          node_ids_same = g.node_ids_same;
        },
      )
    where
      still :
          (o : Option (Persistent Cmd)) → PendingFits n.stored n.live o → PendingFits n.stored s o
      still none h = tt
      still (some p) (a, b) = (a, Since-Progress b (Step-Progress apply st))

  NodeStep-Durable : {n m : Node Cmd} → NodeStep apply n m → IsDurable n → IsDurable m × Lasting n m
  NodeStep-Durable {n} (NodeStep.call s st) d = call-Durable n s st d
  NodeStep-Durable {n} (NodeStep.snapshot p e) d = (
    record {
      behind = d.behind;
      between = (snapshot-Later n.live n.stored p d.behind e, snapshot-Since n.live p e);
    },
    record {
      storage = Later-refl n.stored;
      state = d.behind;
      id_same = refl;
      node_ids_same = refl;
    },
  )
  NodeStep-Durable {n} (NodeStep.written p e) d =
      let (storage, state) = subst (PendingFits n.stored n.live) e d.between in
      (
        record { behind = state; between = tt },
        record { storage = storage; state = d.behind; id_same = refl; node_ids_same = refl },
      )
  NodeStep-Durable {n} NodeStep.write_failed d = (
    record { behind = d.behind; between = tt },
    record {
      storage = Later-refl n.stored;
      state = d.behind;
      id_same = refl;
      node_ids_same = refl;
    },
  )
  NodeStep-Durable {n} (NodeStep.reboot kept now s e) d =
      let (back, id_same, node_ids_same) =
        new-Since n.live.c.id n.live.c.node_ids (read_back kept n.stored) now e in
      let state : Since n.stored s = record {
        term_le = back.term_le;
        vote_kept = back.vote_kept;
      } in
      (
        record { behind = state; between = tt },
        record {
          storage = Later-refl n.stored;
          state = state;
          id_same = id_same;
          node_ids_same = node_ids_same;
        },
      )

  -- Let the storage of a node not be ahead of a snapshot that is being written, nor either of
  -- them of the state. This is kept through every run of locked calls, of snapshots, of writes
  -- that succeed or fail, and of crashes at any time after which the node boots from what was
  -- last written. In such a run the term in the storage never falls and no vote in it is
  -- changed within a term; the state is never behind what the storage had at the start, nor has
  -- it another vote in the same term; and the node keeps its identity and its peers.
  pub Run-Lasting : {n m : Node Cmd} → Run apply n m → IsDurable n → IsDurable m × Lasting n m
  Run-Lasting {n} Run.here d = (
    d,
    record {
      storage = Later-refl n.stored;
      state = d.behind;
      id_same = refl;
      node_ids_same = refl;
    },
  )
  Run-Lasting (Run.next r st) d =
      let (dm, a) = Run-Lasting r d in
      let (later, b) = NodeStep-Durable st dm in
      (
        later,
        record {
          storage = Later-trans a.storage b.storage;
          state = Later-Since a.storage b.state;
          id_same = b.id_same ∙ a.id_same;
          node_ids_same = b.node_ids_same ∙ a.node_ids_same;
        },
      )
