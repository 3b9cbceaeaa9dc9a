-- ===== src/Examples/Raft.antt =====
-- The theorems on one call, at concrete nodes (raft/src/state.rs).
use miniraft.Prelude.{
  ℕ, ◌≤◌, ◌<◌, ◌≡◌, ◌≢◌, refl, true, Option, none, some, List, [], ◌∷◌, arith, take, drop, ok,
  lookup,
}
use miniraft.Rpc.{NodeId, append_entries_response, Outgoing}
use miniraft.Raft.Index.{LogIndex, reach, inc}
use miniraft.Raft.Log.{Log, replace_from, highest_index}
use miniraft.Raft.Log.Replace.{terms, merge, dropped, replace_from-merge}
use miniraft.Raft.Log.Merge.{replace_from-terms, replace_from_again, replace_from-keeps}
use miniraft.Raft.State.{Common, State, leader, current_leader}
use miniraft.Raft.Commit.{
  lower_median, advance_state_machine, commit_by, advance_commit_index, apply_loop, apply_next,
}
use miniraft.Raft.Commit.Applied.{Applied, replay, advance_state_machine-replay}
use miniraft.Raft.Append.{
  handle_append_entries, consistent, handle_append_entries_response, record_match,
}
use miniraft.Raft.Append.Handler.{handle_append_entries-Applied, handle_append_entries_refusal}
use miniraft.Raft.Append.CatchUp.{deliver, message_for-catches_up}
use miniraft.Raft.Append.Tracking.{success-tracks, heartbeat-reports_unchecked}
use miniraft.Raft.Replication.{message_for}
use miniraft.Raft.Commit.Median.{count_ge, lower_median-majority}
use miniraft.Raft.Commit.Quorum.{Committed, commit_by-Committed}
use miniraft.Examples.{
  record_number, an_entry, place, noon, short_log, second_common, second_follower, first_common,
  first_leader, both_next, both_matched, n1, n2, n2-n1,
}

abbrev seven : List ℕ
seven = 7 ∷ []

abbrev no_numbers : List ℕ
no_numbers = []

abbrev no_messages : Outgoing ℕ
no_messages = []

second-Applied : Applied record_number [] second_common (7 ∷ [])
unfolding replay
second-Applied = record { applied_le = omega arith; commit_le = omega arith; replayed = refl }

second-consistent : consistent short_log (some (place 0)) (some 1) ≡ true
unfolding consistent
second-consistent = refl

handle_append_entries-Applied_example :
    (s' : State ℕ) × (machine' : List ℕ) × (gone : List ℕ) × (handle_append_entries record_number
        noon second_follower n1 2
        (some (place 1))
        (some (place 0))
        (some 1)
        (an_entry 9 2 ∷ [])
        (7 ∷ [])
      ≡ ok (s', machine', gone, append_entries_response 2 (highest_index s'.c.log) true))
    × (current_leader s' ≡ some n1)
    × Applied record_number [] s'.c machine'
    × (1 ≤ reach s'.c.commit_index)
    × (take 1 s'.c.log ≡ take 1 short_log)
    × (s'.c.current_term ≡ 2)
    × (replace_from short_log (place 1) (an_entry 9 2 ∷ []) ≡ ok (s'.c.log, gone))
handle_append_entries-Applied_example =
    handle_append_entries-Applied record_number noon second_follower n1 (some (place 1))
      (some (place 0)) (some 1) (an_entry 9 2 ∷ []) [] (7 ∷ []) refl n2-n1 second-consistent
      second-Applied (omega arith) tt

message_for-catches_up_example :
    (s' : State ℕ) × (machine' : List ℕ) × (gone : List ℕ) × (deliver record_number noon
        second_follower n1
        (7 ∷ [])
        (message_for first_common (place 1))
      ≡ ok (s', machine', gone, append_entries_response 2 (highest_index s'.c.log) true))
    × (terms (take 2 s'.c.log) ≡ terms first_common.log)
    × Applied record_number [] s'.c machine'
message_for-catches_up_example =
    message_for-catches_up record_number noon second_follower n1 first_common (place 1) [] (7 ∷ [])
      refl n2-n1 refl (omega arith) refl second-Applied tt (omega arith)

handle_append_entries_refusal_example :
    (seven ≡ seven)
    × (no_numbers ≡ no_numbers)
    × (short_log ≡ short_log)
    × (second_common.commit_index ≡ second_common.commit_index)
    × (second_common.last_applied ≡ second_common.last_applied)
    × (second_common.current_term ≡ second_common.current_term)
    × (second_common.current_term ≡ second_common.current_term)
    × (highest_index short_log ≡ highest_index short_log)
unfolding handle_append_entries
handle_append_entries_refusal_example =
    handle_append_entries_refusal record_number noon second_follower n1 1 none none none [] (7 ∷ [])
      {s' = second_follower} {gone = []} refl

heartbeat-reports_unchecked_example :
    (s' : State ℕ) × (machine' : List ℕ) × (gone : List ℕ) × (reported : Option LogIndex)
    × (handle_append_entries record_number noon second_follower n1 2 none
          (some (place 0))
          (some 1)
          []
          (7 ∷ [])
        ≡ ok (s', machine', gone, append_entries_response 2 reported true))
    × (s'.c.log ≡ short_log)
    × (reach reported ≡ 2)
    × (1 < reach reported)
heartbeat-reports_unchecked_example =
    heartbeat-reports_unchecked record_number noon second_follower n1 none (some (place 0)) (some 1)
      [] (7 ∷ []) refl n2-n1 second-consistent second-Applied (omega arith) (omega arith)

first-success :
    (s' : State ℕ) × (machine' : List ℕ) × (handle_append_entries_response record_number noon
        first_leader n2 true
        (some (place 1))
        (7 ∷ [])
      ≡ ok (s', machine', []))
unfolding handle_append_entries_response record_match advance_commit_index commit_by lower_median
    advance_state_machine apply_loop apply_next
first-success = (_, _, refl)

success-tracks_example :
    (no_messages ≡ no_messages)
    × (nexts' : List (NodeId × LogIndex)) × (matches' : List (NodeId × Option LogIndex))
    × (first-success.0.r ≡ leader nexts' matches' none)
    × (lookup n2 matches' ≡ some (some (place 1)))
    × ((i : LogIndex) × (inc (place 1) ≡ ok i) × (lookup n2 nexts' ≡ some i))
    × ((other : NodeId)
        → n2 ≢ other
        → (lookup other matches' ≡ lookup other both_matched)
          × (lookup other nexts' ≡ lookup other both_next))
success-tracks_example =
    success-tracks record_number noon first_leader n2 (place 1) (place 1) (some (place 1)) (7 ∷ [])
      both_next both_matched none refl refl refl first-success.2

replace_from-merge_example :
    replace_from short_log (place 1) (an_entry 9 2 ∷ [])
    ≡ ok (
      an_entry 7 1 ∷ merge (an_entry 8 1 ∷ []) (an_entry 9 2 ∷ []),
      dropped (an_entry 8 1 ∷ []) (an_entry 9 2 ∷ []),
    )
replace_from-merge_example =
    replace_from-merge short_log (an_entry 9 2 ∷ []) (place 1) (omega arith) (omega arith)

abbrev replaced_log : Log ℕ
replaced_log = an_entry 7 1 ∷ an_entry 9 2 ∷ []

short-replaced : replace_from short_log (place 1) (an_entry 9 2 ∷ []) ≡ ok (replaced_log, 8 ∷ [])
unfolding merge dropped
short-replaced =
    replace_from-merge short_log (an_entry 9 2 ∷ []) (place 1) (omega arith) (omega arith)

replace_from-terms_example :
    (take 1 replaced_log ≡ take 1 short_log)
    × (terms (take 1 (drop 1 replaced_log)) ≡ terms (an_entry 9 2 ∷ []))
replace_from-terms_example =
    replace_from-terms short_log (an_entry 9 2 ∷ []) (place 1) (omega arith) (omega arith)
      replaced_log (8 ∷ []) short-replaced

replace_from_again_example :
    replace_from replaced_log (place 1) (an_entry 9 2 ∷ []) ≡ ok (replaced_log, [])
replace_from_again_example =
    replace_from_again short_log (an_entry 9 2 ∷ []) (place 1) (omega arith) (omega arith)
      replaced_log (8 ∷ []) short-replaced (omega arith)

short-kept : replace_from short_log (place 0) (an_entry 6 1 ∷ []) ≡ ok (short_log, [])
unfolding merge dropped
short-kept = replace_from-merge short_log (an_entry 6 1 ∷ []) (place 0) (omega arith) (omega arith)

replace_from-keeps_example : take 1 short_log ≡ take 1 short_log
replace_from-keeps_example =
    replace_from-keeps short_log (an_entry 6 1 ∷ []) (place 0) (omega arith) (omega arith) short_log
      [] short-kept 1 (omega arith) (refl, tt)

advance_state_machine-replay_example :
    advance_state_machine record_number
      (record second_common { commit_index = some (place 1) })
      seven
    ≡ ok (
      record second_common { commit_index = some (place 1); last_applied = some (place 1) },
      replay record_number [] short_log,
    )
unfolding replay
advance_state_machine-replay_example =
    advance_state_machine-replay record_number []
      (record second_common { commit_index = some (place 1) }) seven
      (record { applied_le = omega arith; commit_le = omega arith; replayed = refl }) (omega arith)

median-of_three : lower_median (place 4 ∷ place 2 ∷ place 3 ∷ []) ≡ some (place 3)
unfolding lower_median
median-of_three = refl

lower_median-majority_example : 2 ≤ count_ge (place 3) (place 4 ∷ place 2 ∷ place 3 ∷ [])
lower_median-majority_example =
    lower_median-majority (place 4 ∷ place 2 ∷ place 3 ∷ []) median-of_three

first-committed :
    (c' : Common ℕ) × (machine' : List ℕ) × (commit_by record_number both_matched first_common seven
      ≡ ok (c', machine'))
unfolding commit_by lower_median advance_state_machine apply_loop apply_next
first-committed = (_, _, refl)

commit_by-Committed_example :
    (first-committed.0.log ≡ first_common.log)
    × (first-committed.0.current_term ≡ first_common.current_term)
    × (first-committed.0.id ≡ first_common.id)
    × (first-committed.0.node_ids ≡ first_common.node_ids)
    × (1 ≤ reach first-committed.0.commit_index)
    × Committed record_number both_matched first_common first-committed.0
commit_by-Committed_example =
    commit_by-Committed record_number both_matched first_common seven first-committed.2
