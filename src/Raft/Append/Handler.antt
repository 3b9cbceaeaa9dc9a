-- ===== src/Raft/Append/Handler.antt =====
-- The whole handler of AppendEntries (raft/src/state.rs, `handle_append_entries`).
use miniraft.Prelude.{
  ℕ, ◌+◌, ◌≤◌, ◌<◌, ◌≡◌, ◌≢◌, refl, true, false, Option, some, List, [], arith, ltb-false, ==_refl,
  str_ne, length, take, ok,
}
use miniraft.Rpc.{NodeId, append_entries_response}
use miniraft.Raft.Index.{LogIndex, u64_mod, reach}
use miniraft.Raft.Log.{Log, highest_index, replace_from}
use miniraft.Raft.State.{
  Common, Role, follower, candidate, leader, State, Clock, can_stand, current_leader,
}
use miniraft.Raft.Commit.Applied.{Applied}
use miniraft.Raft.Append.{accept_leader, consistent, append_accepted, handle_append_entries}
use miniraft.Raft.Append.Stored.{SparesCommitted, store_entries-Applied}

accept_leader_lem :
    {Cmd : Type 0} (clock : Clock) (c : Common Cmd) (r : Role) (peer : NodeId)
    → can_stand r ≡ true
    → c.id ≢ peer
    → (s' : State Cmd) × (accept_leader clock (record { c = c; r = r }) peer c.current_term ≡ ok s')
      × (s'.c ≡ record c { election_deadline = clock.later + clock.timeout })
      × (current_leader s' ≡ some peer)
unfolding accept_leader
accept_leader_lem clock c (follower l v) peer stand n =
    let c₁ : Common _ = record c { election_deadline = clock.later + clock.timeout } in
    (
      record { c = c₁; r = follower (some peer) v },
      rw (==_refl c.current_term, str_ne c.id peer n),
      refl,
      refl,
    )
accept_leader_lem clock c (candidate votes) peer stand n =
    let c₁ : Common _ = record c { election_deadline = clock.later + clock.timeout } in
    (
      record { c = c₁; r = follower (some peer) (some c.id) },
      rw (==_refl c.current_term, str_ne c.id peer n),
      refl,
      refl,
    )
accept_leader_lem clock c (leader nexts matches last) peer stand n = absurd (cc)

module _ {Cmd M : Type 0} (apply : M → Cmd → M) where
  -- A message that is refused drops no command and leaves log, commit index, applied index,
  -- term and machine alone; the refusal has the node's term and the end of its log.
  pub handle_append_entries_refusal :
      (clock : Clock) (s : State Cmd) (peer : NodeId) (t : ℕ) (leader_commit prev : Option LogIndex)
      (prev_term : Option ℕ) (entries : Log Cmd) (machine : M) {s' : State Cmd} {machine' : M}
      {gone : List Cmd} {t' : ℕ} {index : Option LogIndex}
      → handle_append_entries apply clock s peer t leader_commit prev prev_term entries machine
        ≡ ok (s', machine', gone, append_entries_response t' index false)
      → (machine' ≡ machine)
        × (gone ≡ [])
        × (s'.c.log ≡ s.c.log)
        × (s'.c.commit_index ≡ s.c.commit_index)
        × (s'.c.last_applied ≡ s.c.last_applied)
        × (s'.c.current_term ≡ s.c.current_term)
        × (t' ≡ s.c.current_term)
        × (index ≡ highest_index s.c.log)
  unfolding handle_append_entries accept_leader
  handle_append_entries_refusal clock s peer t leader_commit prev prev_term entries machine h =
      ground arith

  -- A follower or candidate that has applied what it should is sent a message of its own term
  -- by another node. If the message passes the check of the previous entry, contradicts nothing
  -- committed, and the indexes stay in range, then the handler succeeds: it recognises the
  -- sender, reports the end of its log, keeps the committed prefix and the term, lets the
  -- commit index only grow, stores the entries as `replace_from` does, and leaves a machine
  -- that has applied exactly the applied prefix of the new log.
  pub handle_append_entries-Applied :
      (clock : Clock) (s : State Cmd) (peer : NodeId) (leader_commit prev : Option LogIndex)
      (prev_term : Option ℕ) (entries : Log Cmd) (initial machine : M)
      → can_stand s.r ≡ true
      → s.c.id ≢ peer
      → consistent s.c.log prev prev_term ≡ true
      → Applied apply initial s.c machine
      → length s.c.log + length entries + reach prev + 2 < u64_mod
      → SparesCommitted s.c prev entries
      → (s' : State Cmd) × (machine' : M) × (gone : List Cmd) × (handle_append_entries apply clock s
            peer s.c.current_term leader_commit prev prev_term entries machine
          ≡ ok (
            s',
            machine',
            gone,
            append_entries_response s.c.current_term (highest_index s'.c.log) true,
          ))
        × (current_leader s' ≡ some peer)
        × Applied apply initial s'.c machine'
        × (reach s.c.commit_index ≤ reach s'.c.commit_index)
        × (take (reach s.c.commit_index) s'.c.log ≡ take (reach s.c.commit_index) s.c.log)
        × (s'.c.current_term ≡ s.c.current_term)
        × (replace_from s.c.log (record { machine = reach prev }) entries ≡ ok (s'.c.log, gone))
  unfolding handle_append_entries append_accepted
  handle_append_entries-Applied clock s peer leader_commit prev prev_term entries initial machine
        stand n fits v small spares =
      let (s₁, accepted, c_same, known) = accept_leader_lem clock s.c s.r peer stand n in
      let c₁ : Common Cmd = record (s.c) { election_deadline = clock.later + clock.timeout } in
      let v₁ : Applied apply initial c₁ machine = record {
        applied_le = v.applied_le;
        commit_le = v.commit_le;
        replayed = v.replayed;
      } in
      let (c', machine', gone, stored, v', grown, kept, term_same, replaced) =
        store_entries-Applied apply initial c₁ leader_commit prev entries machine v₁ small spares in
      (
        record s₁ { c = c' },
        machine',
        gone,
        rw
            (
              ltb-false s.c.current_term s.c.current_term (omega arith),
              accepted,
              c_same,
              fits,
              stored,
            )
            refl,
        known,
        v',
        grown,
        kept,
        term_same,
        replaced,
      )
