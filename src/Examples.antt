-- ===== src/Examples.antt =====
-- The states that the examples share: nodes of a cluster of three, whose commands are numbers and
-- whose machine records them.
mod Raft
mod Runs
mod Elections
mod Clients
mod Texts
mod Parsing
mod Files
mod Network
mod Diffs
use miniraft.Prelude.{
  ℕ, ◌≡◌, ◌≢◌, refl, Option, none, some, List, [], ◌∷◌, ◌++◌, arith, eq_iff, String, str_eq, true,
  false,
}
use miniraft.Raft.Index.{LogIndex}
use miniraft.Raft.Log.{LogEntry, Log}
use miniraft.Raft.State.{Common, Role, follower, candidate, leader, State, Clock, Persistent}
use miniraft.Rpc.{NodeId}

abbrev pub n1 : NodeId
n1 = "n1"

abbrev pub n2 : NodeId
n2 = "n2"

abbrev pub n3 : NodeId
n3 = "n3"

abbrev pub record_number : List ℕ → ℕ → List ℕ
record_number machine cmd = machine ++ cmd ∷ []

abbrev pub an_entry : ℕ → ℕ → LogEntry ℕ
an_entry cmd term = record { cmd = cmd; term = term }

-- The index of the entry at a place from 0 on.
abbrev pub place : ℕ → LogIndex
place n = record { machine = n }

abbrev pub noon : Clock
noon = record { now = 1000000000; later = 1000000100; timeout = 150000000 }

abbrev pub short_log : Log ℕ
short_log = an_entry 7 1 ∷ an_entry 8 1 ∷ []

abbrev pub second_common : Common ℕ
second_common = record {
  current_term = 2;
  log = short_log;
  commit_index = some (place 0);
  last_applied = some (place 0);
  id = n2;
  node_ids = n1 ∷ n3 ∷ [];
  election_deadline = 900000000;
}

abbrev pub second_follower : State ℕ
second_follower = record { c = second_common; r = follower none none }

abbrev pub second_voted : State ℕ
second_voted = record { c = second_common; r = follower none (some n3) }

abbrev pub first_common : Common ℕ
first_common = record {
  current_term = 2;
  log = an_entry 7 1 ∷ an_entry 9 2 ∷ [];
  commit_index = some (place 0);
  last_applied = some (place 0);
  id = n1;
  node_ids = n2 ∷ n3 ∷ [];
  election_deadline = 900000000;
}

abbrev pub both_next : List (NodeId × LogIndex)
both_next = (n2, place 1) ∷ (n3, place 2) ∷ []

abbrev pub both_matched : List (NodeId × Option LogIndex)
both_matched = (n2, some (place 1)) ∷ (n3, some (place 1)) ∷ []

abbrev pub first_leader : State ℕ
first_leader = record { c = first_common; r = leader both_next both_matched none }

pub n2-n1 : n2 ≢ n1
n2-n1 e = ground (arith, eq_iff n2 n1)

pub n1-n2 : n1 ≢ n2
n1-n2 e = ground (arith, eq_iff n1 n2)
