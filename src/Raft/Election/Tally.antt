-- ===== src/Raft/Election/Tally.antt =====
-- A candidate that counts a vote (raft/src/state.rs, `handle_vote_response`, `become_leader`).
use miniraft.Prelude.{
  ◌∙◌, some, inr, lookup, lookup-insert, str_eq, eq_refl, Bool-cases, if◌then◌else◌, ◌+◌, ◌<◌, ◌≡◌,
  ◌≢◌, refl, inl, true, false, Option, none, List, [], ◌∷◌, arith, length, contains, set_insert,
  str_ne, insert, ok,
}
use miniraft.Rpc.{NodeId, Outgoing}
use miniraft.Raft.Index.{LogIndex, u64_mod, default}
use miniraft.Raft.Log.{Log}
use miniraft.Raft.State.{candidate, leader, State, Clock, is_empty}
use miniraft.Raft.Replication.{
  initial_next_indexes, initial_match_indexes, next_index, become_leader,
}
use miniraft.Raft.Replication.Paced.{AllSent, replicate_log-paced}
use miniraft.Raft.Election.{won_election, count_vote, handle_vote_response}
use miniraft.Raft.Roles.{initial_next_indexes-Covers}

-- No node of the list is the given one.
abbrev pub Others : NodeId → List NodeId → Type 0
Others id [] = Unit {0}
Others id (node ∷ nodes) = (node ≢ id) × Others id nodes

-- The map has the same value for every node of a list.
abbrev pub AllAt : {V : Type 0} → V → List NodeId → List (NodeId × V) → Type 0
AllAt v [] m = Unit {0}
AllAt v (node ∷ nodes) m = (lookup node m ≡ some v) × AllAt v nodes m

lookup-insert_same :
    {V : Type 0} (k node : NodeId) (v : V) (m : List (NodeId × V))
    → lookup node m ≡ some v
    → lookup node (insert k v m) ≡ some v
lookup-insert_same k node v m h =
    lookup-insert k node v m
    ∙ elim (Bool-cases (str_eq k node)) [ inl same ↦ rw same refl | inr other ↦ rw other h ]

insert-AllAt :
    {V : Type 0} (k : NodeId) (v : V) (nodes : List NodeId) (m : List (NodeId × V))
    → AllAt v nodes m
    → AllAt v nodes (insert k v m)
insert-AllAt k v [] m h = tt
insert-AllAt k v (node ∷ nodes) m (h, hs) =
    (lookup-insert_same k node v m h, insert-AllAt k v nodes m hs)

insert_self-AllAt :
    {V : Type 0} (node : NodeId) (v : V) (nodes : List NodeId) (m : List (NodeId × V))
    → AllAt v nodes m
    → AllAt v (node ∷ nodes) (insert node v m)
insert_self-AllAt node v nodes m h =
    (lookup-insert node node v m ∙ rw (eq_refl node) refl, insert-AllAt node v nodes m h)

initial_next_indexes-AllAt :
    (id : NodeId) (next : LogIndex) (nodes : List NodeId)
    → Others id nodes
    → (m : List (NodeId × LogIndex)) × (initial_next_indexes id next nodes ≡ ok m)
      × AllAt next nodes m
unfolding initial_next_indexes
initial_next_indexes-AllAt id next [] h = ([], refl, tt)
initial_next_indexes-AllAt id next (node ∷ nodes) h =
    let (m, e, all) = initial_next_indexes-AllAt id next nodes h.1 in
    (insert node next m, rw (str_ne node id h.0, e) refl, insert_self-AllAt node next nodes m all)

initial_match_indexes-AllAt : (nodes : List NodeId) → AllAt none nodes (initial_match_indexes nodes)
unfolding initial_match_indexes
initial_match_indexes-AllAt [] = tt
initial_match_indexes-AllAt (node ∷ nodes) =
    insert_self-AllAt node none nodes _ (initial_match_indexes-AllAt nodes)

next_index_ok :
    {Cmd : Type 0} (log : Log Cmd)
    → length log + 1 < u64_mod
    → (i : LogIndex) × (next_index log ≡ ok i) × (i.machine ≡ length log)
next_index_ok [] h = (default, refl, refl)
next_index_ok (e ∷ log) h = (record { machine = length (e ∷ log) }, ground arith, refl)

module _ {Cmd : Type 0} where
  -- A leader in the same term as before: it knows of no peer's entries, takes each peer's next index
  -- for that behind its log, and has sent everything that stands from there on.
  pub record Started (clock : Clock) (s s' : State Cmd) (msgs : Outgoing Cmd) : Type 0 where
    pub nexts : List (NodeId × LogIndex)
    pub matches : List (NodeId × Option LogIndex)
    pub behind_log : LogIndex
    pub same : s'.c ≡ s.c
    pub role :
        s'.r ≡ leader nexts matches (if is_empty s.c.node_ids then none else some clock.later)
    pub size : behind_log.machine ≡ length s.c.log
    pub all_next : AllAt behind_log s.c.node_ids nexts
    pub none_matched : AllAt none s.c.node_ids matches
    pub sent : AllSent s.c nexts s.c.node_ids msgs

  become_leader_lem :
      (clock : Clock) (s : State Cmd) (votes : List NodeId)
      → s.r ≡ candidate votes
      → Others s.c.id s.c.node_ids
      → length s.c.log + 1 < u64_mod
      → (s' : State Cmd) × (msgs : Outgoing Cmd) × (become_leader clock s ≡ ok (s', msgs))
        × Started clock s s' msgs
  unfolding become_leader
  become_leader_lem clock s votes e others small =
      let (i, ei, size) = next_index_ok s.c.log small in
      let (nexts, en, all) = initial_next_indexes-AllAt s.c.id i s.c.node_ids others in
      let matches = initial_match_indexes s.c.node_ids in
      let start : State Cmd = record s { r = leader nexts matches none } in
      let (s', msgs, run, same, role, sent) =
        (replicate_log-paced clock start nexts matches none refl
            (initial_next_indexes-Covers s.c.id i s.c.node_ids en)).1
          (inl refl) in
      (
        s',
        msgs,
        rw (e, ei, en) run,
        record {
          nexts = nexts;
          matches = matches;
          behind_log = i;
          same = same;
          role = role;
          size = size;
          all_next = all;
          none_matched = initial_match_indexes-AllAt s.c.node_ids;
          sent = sent;
        },
      )

  -- A candidate with its own vote, which is none of its peers and whose log has fewer than 2^64
  -- - 1 entries, counts a vote granted in its term. If the voters are too few, it stays a
  -- candidate with the vote added and sends nothing. If they are enough, it becomes a leader in
  -- the same term that has for every peer no match index and as next index the one behind the
  -- end of its log, sends every peer a message that has no entries and names the last entry of
  -- its log as the previous one, and, unless it has no peers, notes the clock's reading after
  -- that as its last replication.
  pub handle_vote_response-counts :
      (clock : Clock) (s : State Cmd) (votes : List NodeId) (peer : NodeId)
      → s.r ≡ candidate votes
      → contains votes s.c.id ≡ true
      → Others s.c.id s.c.node_ids
      → length s.c.log + 1 < u64_mod
      → (won_election s.c (length (set_insert peer votes)) ≡ false
          → handle_vote_response clock s peer s.c.current_term true
            ≡ ok (record s { r = candidate (set_insert peer votes) }, []))
        × (won_election s.c (length (set_insert peer votes)) ≡ true
            → (s' : State Cmd) × (msgs : Outgoing Cmd) × (handle_vote_response clock s peer
                  s.c.current_term true
                ≡ ok (s', msgs))
              × Started clock s s' msgs)
  unfolding handle_vote_response count_vote
  handle_vote_response-counts clock s votes peer e own others small =
      let s₁ : State Cmd = record s { r = candidate (set_insert peer votes) } in
      let (s', msgs, run, started) =
        become_leader_lem clock s₁ (set_insert peer votes) refl others small in
      (
        (λ lost. ground arith),
        (λ won. (
          s',
          msgs,
          ground arith,
          record {
            nexts = started.nexts;
            matches = started.matches;
            behind_log = started.behind_log;
            same = started.same;
            role = started.role;
            size = started.size;
            all_next = started.all_next;
            none_matched = started.none_matched;
            sent = started.sent;
          },
        )),
      )
