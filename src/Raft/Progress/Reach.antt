-- ===== src/Raft/Progress/Reach.antt =====
-- Any interleaving of the threads of a node from a boot on (raft/src/state.rs, raft/src/lib.rs). The
-- threads share the state behind one lock, so a run is a sequence of locked calls.
use miniraft.Prelude.{ℕ, ◌≡◌, Bool, Option, List, arith, ok}
use miniraft.Rpc.{NodeId, RaftMessage, Outgoing}
use miniraft.Raft.Index.{LogIndex}
use miniraft.Raft.Log.{Log}
use miniraft.Raft.State.{State, Clock, Persistent, new, maybe_step_down, maybe_begin_election}
use miniraft.Raft.Replication.{replicate_log, append_command}
use miniraft.Raft.Election.{handle_vote_request, handle_vote_response}
use miniraft.Raft.Append.{handle_append_entries, handle_append_entries_response}
use miniraft.Raft.Progress.{
  vote, VoteKept-refl, Progress, Progress-refl, Progress-trans, maybe_step_down-Progress,
  maybe_begin_election-Progress, handle_vote_request-Progress, handle_vote_response-Progress,
  replicate_log-Progress,
}
use miniraft.Raft.Progress.Handlers.{
  handle_append_entries-Progress, handle_append_entries_response-Progress,
}
use miniraft.Persist.{persistent}

module _ {Cmd M : Type 0} (apply : M → Cmd → M) where
  -- One locked call on the state, whichever thread makes it and whatever message it handles.
  pub data Step (s s' : State Cmd) : Type 0 where
    step_down : (remote : ℕ) → maybe_step_down s remote ≡ ok s' → Step s s'
    election :
        (clock : Clock) (msgs : Outgoing Cmd)
        → maybe_begin_election clock s ≡ ok (s', msgs)
        → Step s s'
    replication :
        (clock : Clock) (msgs : Outgoing Cmd) → replicate_log clock s ≡ ok (s', msgs) → Step s s'
    client_append : (cmd : Cmd) → s' ≡ append_command s cmd → Step s s'
    vote_request :
        (clock : Clock) (peer : NodeId) (t : ℕ) (i : Option LogIndex) (u : Option ℕ)
        (msg : RaftMessage Cmd)
        → handle_vote_request clock s peer t i u ≡ ok (s', msg)
        → Step s s'
    vote_response :
        (clock : Clock) (peer : NodeId) (t : ℕ) (granted : Bool) (msgs : Outgoing Cmd)
        → handle_vote_response clock s peer t granted ≡ ok (s', msgs)
        → Step s s'
    append :
        (clock : Clock) (peer : NodeId) (t : ℕ) (leader_commit prev : Option LogIndex)
        (prev_term : Option ℕ) (entries : Log Cmd) (machine machine' : M) (gone : List Cmd)
        (msg : RaftMessage Cmd)
        → handle_append_entries apply clock s peer t leader_commit prev prev_term entries machine
          ≡ ok (s', machine', gone, msg)
        → Step s s'
    append_response :
        (clock : Clock) (peer : NodeId) (success : Bool) (index : Option LogIndex)
        (machine machine' : M) (msgs : Outgoing Cmd)
        → handle_append_entries_response apply clock s peer success index machine
          ≡ ok (s', machine', msgs)
        → Step s s'

  pub data Reach (s : State Cmd) : State Cmd → Type 0 where
    here : Reach s s
    next : {t u : State Cmd} → Reach s t → Step t u → Reach s u

  -- A boot from the persistent version of a state restores its term or a later one, its
  -- identity, whom it has voted for, and its log.
  pub reboot-Progress :
      (s : State Cmd) (p : Persistent Cmd) (now : ℕ) {s' : State Cmd}
      → persistent s ≡ ok p
      → new s.c.id s.c.node_ids p now ≡ ok s'
      → Progress s s' × (vote s'.c.id s'.r ≡ vote s.c.id s.r) × (s'.c.log ≡ s.c.log)
  unfolding persistent new
  reboot-Progress s p now e h = ground (arith, VoteKept-refl (vote s.c.id s.r))

  append_command-Progress :
      (s : State Cmd) (cmd : Cmd) {s' : State Cmd} → s' ≡ append_command s cmd → Progress s s'
  unfolding append_command
  append_command-Progress s cmd e = ground (arith, VoteKept-refl (vote s.c.id s.r))

  pub Step-Progress : {s s' : State Cmd} → Step s s' → Progress s s'
  Step-Progress {s} (step_down remote h) = maybe_step_down-Progress s remote h
  Step-Progress {s} (election clock msgs h) = maybe_begin_election-Progress clock s h
  Step-Progress {s} (replication clock msgs h) = (replicate_log-Progress clock s h).0
  Step-Progress {s} (client_append cmd e) = append_command-Progress s cmd e
  Step-Progress {s} (vote_request clock peer t i u msg h) =
      handle_vote_request-Progress clock s peer t i u h
  Step-Progress {s} (vote_response clock peer t granted msgs h) =
      handle_vote_response-Progress clock s peer t granted h
  Step-Progress {s}
        (append clock peer t leader_commit prev prev_term entries machine machine' gone msg h) =
      handle_append_entries-Progress apply clock s peer t leader_commit prev prev_term entries
        machine h
  Step-Progress {s} (append_response clock peer success index machine machine' msgs h) =
      handle_append_entries_response-Progress apply clock s peer success index machine h

  -- Through every run of locked calls, whichever threads make them, the term never falls, the
  -- node keeps its identity and its peers, and within one term it never changes a vote that it
  -- has given.
  pub Reach-Progress : {s s' : State Cmd} → Reach s s' → Progress s s'
  Reach-Progress {s} here = Progress-refl s
  Reach-Progress (next r st) = Progress-trans (Reach-Progress r) (Step-Progress st)
