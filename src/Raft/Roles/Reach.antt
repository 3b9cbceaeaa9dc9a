-- ===== src/Raft/Roles/Reach.antt =====
-- Each role's state in the runs of a node, and the lookups and assertions that rest on it
-- (raft/src/state.rs).
use miniraft.Prelude.{
  ℕ, ◌≡◌, refl, inl, inr, Bool, not, ◌&&◌, if◌then◌else◌, none, some, Option-cases, List, [], ◌∷◌,
  arith, ok,
}
use miniraft.Rpc.{NodeId, Outgoing}
use miniraft.Raft.Index.{LogIndex}
use miniraft.Raft.State.{
  Common, Role, follower, candidate, leader, State, Clock, Persistent, new, is_empty,
}
use miniraft.Raft.Replication.{
  heartbeat_needed, entries_from, message_for, replicate_to, replicate_log, append_command,
}
use miniraft.Raft.Progress.Reach.{Step}
use miniraft.Raft.Progress.Crashes.{Node, NodeStep, Run, read_back}
use miniraft.Raft.Roles.{
  Covers, RoleInv, IsSound, replicate_log-IsSound, maybe_step_down-IsSound,
  maybe_begin_election-IsSound, handle_vote_request-IsSound, handle_vote_response-IsSound,
}
use miniraft.Raft.Roles.Handlers.{
  handle_append_entries-IsSound, handle_append_entries_response-IsSound,
}
use miniraft.Persist.{persistent}

replicate_to_ok :
    {Cmd : Type 0} (c : Common Cmd) (nexts : List (NodeId × LogIndex)) (beat : Bool)
    (nodes : List NodeId)
    → Covers nodes nexts
    → (msgs : Outgoing Cmd) × (replicate_to c nexts beat nodes ≡ ok msgs)
unfolding replicate_to
replicate_to_ok c nexts beat [] h = ([], refl)
replicate_to_ok c nexts beat (node ∷ nodes) h =
    let (rest, e) = replicate_to_ok c nexts beat nodes h.1 in
    let next = h.0.0 in
    (
      if is_empty (entries_from c.log next) && not beat
          then rest
          else (node, message_for c next) ∷ rest,
      rw (h.0.1, e) refl,
    )

persistent_ok :
    {Cmd : Type 0} (c : Common Cmd) (r : Role)
    → RoleInv c.id c.node_ids r
    → (q : Persistent Cmd) × (persistent (record { c = c; r = r }) ≡ ok q)
unfolding persistent
persistent_ok c (follower l w) v = (_, refl)
persistent_ok c (candidate votes) v =
    (record { current_term = c.current_term; voted_for = some c.id; log = c.log }, rw v.0)
persistent_ok c (leader nexts matches last) v = (_, refl)

replicate_log_ok :
    {Cmd : Type 0} (clock : Clock) (c : Common Cmd) (r : Role)
    → RoleInv c.id c.node_ids r
    → (q : State Cmd × Outgoing Cmd) × (replicate_log clock (record { c = c; r = r }) ≡ ok q)
unfolding replicate_log
replicate_log_ok clock c (follower l w) v = (_, refl)
replicate_log_ok clock c (candidate votes) v = (_, refl)
replicate_log_ok clock c (leader nexts matches last) v =
    elim (Option-cases (heartbeat_needed last clock.now)) [
      | inl idle ↦ ((record { c = c; r = leader nexts matches last }, []), ground arith)
      | inr (beat, due) ↦
          let (msgs, e) = replicate_to_ok c nexts beat c.node_ids v.0 in
          (
            (
              record {
                c = c;
                r = leader nexts matches (if is_empty msgs then last else some clock.later);
              },
              msgs,
            ),
            ground arith,
          )
    ]

module _ {Cmd M : Type 0} (apply : M → Cmd → M) where
  Step-IsSound : {s s' : State Cmd} → Step apply s s' → IsSound s → IsSound s'
  unfolding append_command new
  Step-IsSound {s} (Step.step_down remote h) v = maybe_step_down-IsSound s remote v h
  Step-IsSound {s} (Step.election clock msgs h) v = maybe_begin_election-IsSound clock s v h
  Step-IsSound {s} (Step.replication clock msgs h) v = replicate_log-IsSound clock s v h
  Step-IsSound {s} (Step.client_append cmd e) v = rw e v
  Step-IsSound {s} (Step.vote_request clock peer t i u msg h) v =
      handle_vote_request-IsSound clock s peer t i u v h
  Step-IsSound {s} (Step.vote_response clock peer t granted msgs h) v =
      handle_vote_response-IsSound clock s peer t granted v h
  Step-IsSound {s} (Step.append clock peer t commit prev u entries machine machine' gone msg h) v =
      handle_append_entries-IsSound apply clock s peer t commit prev u entries machine v h
  Step-IsSound {s} (Step.append_response clock peer success index machine machine' msgs h) v =
      handle_append_entries_response-IsSound apply clock s peer success index machine v h

  new-IsSound :
      (id : NodeId) (node_ids : List NodeId) (p : Persistent Cmd) (now : ℕ) {s : State Cmd}
      → new id node_ids p now ≡ ok s
      → IsSound s
  unfolding new
  new-IsSound id node_ids p now {s} h =
      let first : s.r ≡ follower none p.voted_for = ground arith in rw first tt

  Run-IsSound : {n m : Node Cmd} → Run apply n m → IsSound n.live → IsSound m.live
  Run-IsSound Run.here v = v
  Run-IsSound (Run.next r (NodeStep.call s st)) v = Step-IsSound st (Run-IsSound r v)
  Run-IsSound (Run.next r (NodeStep.snapshot p e)) v = Run-IsSound r v
  Run-IsSound (Run.next r (NodeStep.written p e)) v = Run-IsSound r v
  Run-IsSound (Run.next r NodeStep.write_failed) v = Run-IsSound r v
  Run-IsSound (Run.next {m} r (NodeStep.reboot kept now s e)) v =
      new-IsSound m.live.c.id m.live.c.node_ids (read_back kept m.stored) now e

  -- After a boot and every run of locked calls, of writes that succeed or fail, and of crashes
  -- after which the node boots from what was last written: a candidate has its own vote and
  -- counts no vote twice, a leader has both indexes of every peer, and the state can be made
  -- persistent and the log replicated without a panic.
  pub boot-IsSound :
      (id : NodeId) (node_ids : List NodeId) (p : Persistent Cmd) (now : ℕ) (clock : Clock)
      {s : State Cmd} {m : Node Cmd}
      → new id node_ids p now ≡ ok s
      → Run apply (record { live = s; pending = none; stored = p }) m
      → IsSound m.live
        × ((q : Persistent Cmd) × (persistent m.live ≡ ok q))
        × ((r : State Cmd × Outgoing Cmd) × (replicate_log clock m.live ≡ ok r))
  boot-IsSound id node_ids p now clock {s} {m} h r =
      let v : IsSound m.live = Run-IsSound r (new-IsSound id node_ids p now h) in
      (v, persistent_ok m.live.c m.live.r v, replicate_log_ok clock m.live.c m.live.r v)
