-- ===== src/Examples/Runs.antt =====
-- The theorems on runs of a node, its stable storage and its crashes, at concrete nodes
-- (raft/src/state.rs, raft/src/lib.rs, raft/src/persistence.rs).
use miniraft.Prelude.{ℕ, ◌≤◌, ◌≡◌, refl, Bool, true, none, some, List, [], ◌∷◌, arith, ok}
use miniraft.Rpc.{request_vote, request_vote_response, Outgoing}
use miniraft.Raft.State.{
  State, Persistent, follower, new, maybe_step_down, maybe_begin_election, become_candidate,
  request_votes, candidate,
}
use miniraft.Raft.Replication.{replicate_log}
use miniraft.Raft.Election.{up_to_date, handle_vote_request, grants}
use miniraft.Raft.Progress.{Progress, vote}
use miniraft.Raft.Progress.Reach
use miniraft.Raft.Progress.Reach.{Reach, Reach-Progress, reboot-Progress}
use miniraft.Raft.Progress.Crashes.{Node, NodeStep, Run, IsDurable, Lasting, Run-Lasting}
use miniraft.Raft.Roles.{IsSound}
use miniraft.Raft.Roles.Reach.{boot-IsSound}
use miniraft.Persist.{persistent}
use miniraft.Engine.{Served, dispatch, peer_step}
use miniraft.Engine.Durable.{granted_vote-durable, granted_vote-survives}
use miniraft.Examples.{
  second_voted, record_number, place, noon, short_log, second_common, second_follower, n1, n2, n3,
}

abbrev blank : Persistent ℕ
blank = record { current_term = 0; voted_for = none; log = [] }

abbrev booted : State ℕ
booted = record {
  c = record {
    current_term = 0;
    log = [];
    commit_index = none;
    last_applied = none;
    id = n1;
    node_ids = n2 ∷ n3 ∷ [];
    election_deadline = 5;
  };
  r = follower none none;
}

boot-run : new n1 (n2 ∷ n3 ∷ []) blank 5 ≡ ok booted
unfolding new
boot-run = refl

-- The node stands for election.
abbrev elected : State ℕ
elected = record {
  c = record {
    current_term = 1;
    log = [];
    commit_index = none;
    last_applied = none;
    id = n1;
    node_ids = n2 ∷ n3 ∷ [];
    election_deadline = 1150000100;
  };
  r = candidate (n1 ∷ []);
}

abbrev asked : Outgoing ℕ
asked = (n2, request_vote 1 none none) ∷ (n3, request_vote 1 none none) ∷ []

first-election : maybe_begin_election noon booted ≡ ok (elected, asked)
unfolding maybe_begin_election become_candidate request_votes
first-election = refl

first-run : Reach record_number booted elected
first-run = Reach.next Reach.here (Reach.election noon asked first-election)

Reach-Progress_example : Progress booted elected
Reach-Progress_example = Reach-Progress record_number first-run

abbrev booted_node : Node ℕ
booted_node = record { live = booted; pending = none; stored = blank }

abbrev stood : Persistent ℕ
stood = record { current_term = 1; voted_for = some n1; log = [] }

first-snapshot : persistent elected ≡ ok stood
unfolding persistent
first-snapshot = refl

-- The node stands for election, its state is written, and it crashes and boots again.
abbrev restarted : State ℕ
restarted = record { c = record elected.c { election_deadline = 9 }; r = follower none (some n1) }

restart : new n1 (n2 ∷ n3 ∷ []) stood 9 ≡ ok restarted
unfolding new
restart = refl

abbrev restarted_node : Node ℕ
restarted_node = record { live = restarted; pending = none; stored = stood }

elected-Run :
    Run record_number booted_node (record { live = elected; pending = some stood; stored = blank })
elected-Run =
    Run.next (Run.next Run.here (NodeStep.call elected (Reach.election noon asked first-election)))
      (NodeStep.snapshot stood first-snapshot)

crash-Run : Run record_number booted_node restarted_node
crash-Run =
    Run.next (Run.next elected-Run (NodeStep.written stood refl))
      (NodeStep.reboot (λ cmd. cmd) 9 restarted restart)

booted_node-IsDurable : IsDurable booted_node
booted_node-IsDurable = record {
  behind = record { term_le = omega arith; vote_kept = λ e. tt };
  between = tt;
}

Run-Lasting_example : IsDurable restarted_node × Lasting booted_node restarted_node
Run-Lasting_example = Run-Lasting record_number crash-Run booted_node-IsDurable

boot-IsSound_example :
    IsSound restarted
    × ((q : Persistent ℕ) × (persistent restarted ≡ ok q))
    × ((r : State ℕ × Outgoing ℕ) × (replicate_log noon restarted ≡ ok r))
boot-IsSound_example = boot-IsSound record_number n1 (n2 ∷ n3 ∷ []) blank 5 noon boot-run crash-Run

-- An election is written only with the next message of a peer. After a crash before that the
-- node is in an earlier term again and has forgotten its own vote.
election_forgotten :
    Run record_number booted_node (record booted_node { live = elected })
    × Run record_number (record booted_node { live = elected }) booted_node
    × (elected.c.current_term ≡ 1)
    × (booted.c.current_term ≡ 0)
election_forgotten = (
  Run.next Run.here (NodeStep.call elected (Reach.election noon asked first-election)),
  Run.next Run.here (NodeStep.reboot (λ cmd. cmd) 5 booted boot-run),
  refl,
  refl,
)

abbrev saved : Persistent ℕ
saved = record { current_term = 2; voted_for = some n3; log = short_log }

second-saved : persistent second_voted ≡ ok saved
unfolding persistent
second-saved = refl

second-rebooted : (s : State ℕ) × (new n2 (n1 ∷ n3 ∷ []) saved 8 ≡ ok s)
unfolding new
second-rebooted = (_, refl)

reboot-Progress_example :
    Progress second_voted second-rebooted.0
    × (vote second-rebooted.0.c.id second-rebooted.0.r ≡ some n3)
    × (second-rebooted.0.c.log ≡ short_log)
reboot-Progress_example =
    reboot-Progress record_number second_voted saved 8 second-saved second-rebooted.1

-- The storage takes everything, and the other threads leave the state alone.
abbrev takes_all : Persistent ℕ → Bool
takes_all p = true

abbrev untouched : State ℕ → State ℕ
untouched s = s

abbrev granted : Persistent ℕ
granted = record { current_term = 2; voted_for = some n1; log = short_log }

abbrev granted_state : State ℕ
granted_state = record {
  c = record second_common { election_deadline = 9; commit_index = none; last_applied = none };
  r = follower none (some n1);
}

second-served :
    (served : Served ℕ (List ℕ)) × (peer_step record_number takes_all noon untouched untouched
        second_follower
        (7 ∷ [])
        n1
        (request_vote 2 (some (place 4)) (some 1))
      ≡ ok served)
    × (served.sent ≡ (n1, request_vote_response 2 true) ∷ [])
    × (served.written ≡ some granted)
    × (new served.state.c.id served.state.c.node_ids granted 9 ≡ ok granted_state)
unfolding peer_step maybe_step_down dispatch handle_vote_request grants up_to_date persistent new
second-served = (_, refl, refl, refl, refl)

granted_vote-durable_example :
    (p : Persistent ℕ) × (second-served.0.written ≡ some p)
    × (2 ≤ p.current_term)
    × (p.current_term ≡ 2 → p.voted_for ≡ some n1)
granted_vote-durable_example =
    granted_vote-durable record_number takes_all noon untouched untouched second_follower (7 ∷ [])
      n1 2 (some (place 4)) (some 1) 2 (λ q. Reach.here) second-served.1 second-served.2

-- The node crashes after it has answered, and boots from what it has written.
granted_vote-survives_example : vote granted_state.c.id granted_state.r ≡ some n1
granted_vote-survives_example =
    granted_vote-survives record_number takes_all noon untouched untouched second_follower (7 ∷ [])
      n1 2 (some (place 4)) (some 1) 2 granted (λ q. Reach.here) second-served.1 second-served.2
      second-served.3
      (Run.next Run.here (NodeStep.reboot (λ cmd. cmd) 9 granted_state second-served.4)) refl
