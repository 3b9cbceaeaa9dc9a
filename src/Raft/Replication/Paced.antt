-- ===== src/Raft/Replication/Paced.antt =====
-- How often a leader replicates, and to whom (raft/src/state.rs, `replicate_log`).
use Prim.Native.Nat.{zero}
use miniraft.Prelude.{
  ℕ, suc, ap, inl, inr, get_elem?, drop, length, ◌-◌, ◌<◌, ◌≤◌, ◌≡◌, refl, ◌⊎◌, Bool, true, false,
  ◌&&◌, Option, none, some, List, [], ◌∷◌, arith, if◌then◌else◌, lookup, ok,
}
use miniraft.Rpc.{NodeId, RaftMessage, append_entries, Outgoing}
use miniraft.Raft.Index.{LogIndex, dec}
use miniraft.Raft.Log.{Log}
use miniraft.Raft.State.{Common, leader, State, Clock, is_empty}
use miniraft.Raft.Replication.{
  min_replication_interval, heartbeat_interval, heartbeat_needed, entries_from, term_at,
  message_for, replicate_to, replicate_log,
}
use miniraft.Raft.Roles.{Covers}

and_false : (b : Bool) → b && false ≡ false
and_false false = refl
and_false true = refl

heartbeat_due :
    (last : Option ℕ) (now : ℕ)
    → (last ≡ none) ⊎ ((t : ℕ) × (last ≡ some t) × (heartbeat_interval < now - t))
    → heartbeat_needed last now ≡ some true
heartbeat_due none now h = refl
heartbeat_due (some t) now h = ground arith

no_heartbeat :
    (last : Option ℕ) (now t : ℕ)
    → last ≡ some t
    → min_replication_interval ≤ now - t
    → now - t ≤ heartbeat_interval
    → heartbeat_needed last now ≡ some false
no_heartbeat last now t e over under = ground arith

-- The index of the last of the first `n` entries.
abbrev pub index_of_last : ℕ → Option LogIndex
index_of_last zero = none
index_of_last (suc n) = some (record { machine = n })

dec_place : (n : ℕ) → dec (record { machine = n }) ≡ index_of_last n
dec_place zero = refl
dec_place (suc n) = ground arith

drop_short : {A : Type 0} (n : ℕ) (xs : List A) → length xs < n → drop n xs ≡ []
drop_short zero xs h = absurd (omega arith)
drop_short (suc n) [] h = refl
drop_short (suc n) (x ∷ xs) h = drop_short n xs (omega arith)

drop-is_empty :
    {A : Type 0} (n : ℕ) (xs : List A)
    → ((length xs ≤ n) × (is_empty (drop n xs) ≡ true))
      ⊎ ((n < length xs) × (is_empty (drop n xs) ≡ false))
drop-is_empty zero [] = inl (omega arith, refl)
drop-is_empty zero (x ∷ xs) = inr (omega arith, refl)
drop-is_empty (suc n) [] = inl (omega arith, refl)
drop-is_empty (suc n) (x ∷ xs) = elim (drop-is_empty n xs) [
  | inl h ↦ inl (omega (arith, h.0), h.1)
  | inr h ↦ inr (omega (arith, h.0), h.1)
]

module _ {Cmd : Type 0} where
  abbrev pub term_of_last : ℕ → Log Cmd → Option ℕ
  term_of_last zero log = none
  term_of_last (suc n) log = elim (get_elem? log n) [ none ↦ none | some entry ↦ some entry.term ]

  -- What follows the first `n` entries of the log, after the index and the term of the last of them.
  abbrev pub rest_of_log : Common Cmd → ℕ → RaftMessage Cmd
  rest_of_log c n =
      append_entries c.current_term c.commit_index (index_of_last n) (term_of_last n c.log)
        (drop n c.log)

  entries_from-drop :
      (log : Log Cmd) (next : LogIndex) → entries_from log next ≡ drop next.machine log
  entries_from-drop log next = ground (arith, drop_short next.machine log)

  term_at_last : (log : Log Cmd) (n : ℕ) → term_at log (index_of_last n) ≡ term_of_last n log
  term_at_last log zero = refl
  term_at_last log (suc n) =
      let at : suc n - 1 ≡ n = omega arith in
      ap (λ k. elim (get_elem? log k) [ none ↦ none | some entry ↦ some entry.term ]) at

  message_for-rest_of_log :
      (c : Common Cmd) (n : ℕ) → message_for c (record { machine = n }) ≡ rest_of_log c n
  unfolding message_for
  message_for-rest_of_log c n =
      rw (dec_place n, term_at_last c.log n, entries_from-drop c.log (record { machine = n })) refl

  -- Every peer of a list is sent what follows the entries in front of its next index.
  abbrev pub AllSent : Common Cmd → List (NodeId × LogIndex) → List NodeId → Outgoing Cmd → Type 0
  AllSent c nexts [] msgs = msgs ≡ []
  AllSent c nexts (node ∷ nodes) [] = ⊥
  AllSent c nexts (node ∷ nodes) (msg ∷ msgs) =
      ((next : LogIndex) × (lookup node nexts ≡ some next)
        × (msg ≡ (node, rest_of_log c next.machine)))
      × AllSent c nexts nodes msgs

  AllSent-is_empty :
      (c : Common Cmd) (nexts : List (NodeId × LogIndex)) (nodes : List NodeId)
      (msgs : Outgoing Cmd)
      → AllSent c nexts nodes msgs
      → is_empty msgs ≡ is_empty nodes
  AllSent-is_empty c nexts [] msgs h = ap is_empty h
  AllSent-is_empty c nexts (node ∷ nodes) [] h = elim h [ ]
  AllSent-is_empty c nexts (node ∷ nodes) (msg ∷ msgs) h = refl

  replicate_to-AllSent :
      (c : Common Cmd) (nexts : List (NodeId × LogIndex)) (nodes : List NodeId)
      → Covers nodes nexts
      → (msgs : Outgoing Cmd) × (replicate_to c nexts true nodes ≡ ok msgs)
        × AllSent c nexts nodes msgs
  unfolding replicate_to
  replicate_to-AllSent c nexts [] h = ([], refl, refl)
  replicate_to-AllSent c nexts (node ∷ nodes) h =
      let (rest, e, sent) = replicate_to-AllSent c nexts nodes h.1 in
      let next = h.0.0 in
      (
        (node, message_for c next) ∷ rest,
        rw (h.0.1, e) (rw (and_false (is_empty (entries_from c.log next))) refl),
        ((next, h.0.1, ap (λ x. (node, x)) (message_for-rest_of_log c next.machine)), sent),
      )

  -- Of a list of peers, those whose next index is inside the log are sent what stands from there on.
  abbrev pub NewSent : Common Cmd → List (NodeId × LogIndex) → List NodeId → Outgoing Cmd → Type 0
  NewSent c nexts [] msgs = msgs ≡ []
  NewSent c nexts (node ∷ nodes) msgs =
      (next : LogIndex) × (lookup node nexts ≡ some next)
      × (((length c.log ≤ next.machine) × NewSent c nexts nodes msgs)
          ⊎ ((next.machine < length c.log)
              × ((rest : Outgoing Cmd) × (msgs ≡ (node, rest_of_log c next.machine) ∷ rest)
                  × NewSent c nexts nodes rest)))

  replicate_to-NewSent :
      (c : Common Cmd) (nexts : List (NodeId × LogIndex)) (nodes : List NodeId)
      → Covers nodes nexts
      → (msgs : Outgoing Cmd) × (replicate_to c nexts false nodes ≡ ok msgs)
        × NewSent c nexts nodes msgs
  unfolding replicate_to
  replicate_to-NewSent c nexts [] h = ([], refl, refl)
  replicate_to-NewSent c nexts (node ∷ nodes) h =
      let (rest, e, sent) = replicate_to-NewSent c nexts nodes h.1 in
      let next = h.0.0 in
      let from = entries_from-drop c.log next in
      elim (drop-is_empty next.machine c.log) [
        | inl (short, none_left) ↦
            (rest, rw (h.0.1, e, from, none_left) refl, (next, h.0.1, inl (short, sent)))
        | inr (long, some_left) ↦ (
          (node, rest_of_log c next.machine) ∷ rest,
          rw (h.0.1, e, from, some_left)
              (ap (λ x. ok ((node, x) ∷ rest)) (message_for-rest_of_log c next.machine)),
          (next, h.0.1, inr (long, (rest, refl, sent))),
        )
      ]

  -- A leader with a next index for every peer sends nothing within 5 ms after its last
  -- replication, and changes nothing then. If it has never replicated, or more than 50 ms ago,
  -- it sends every peer, in their order, the entries from the peer's next index on, with the
  -- index and the term of the entry in front of them. In between it sends the same, but only to
  -- the peers whose next index is inside its log. The clock's reading after the messages
  -- becomes its last replication if there are any, and nothing else changes.
  pub replicate_log-paced :
      (clock : Clock) (s : State Cmd) (nexts : List (NodeId × LogIndex))
      (matches : List (NodeId × Option LogIndex)) (last : Option ℕ)
      → s.r ≡ leader nexts matches last
      → Covers s.c.node_ids nexts
      → ((t : ℕ) → last ≡ some t → clock.now - t < 5_000_000 → replicate_log clock s ≡ ok (s, []))
        × ((last ≡ none) ⊎ ((t : ℕ) × (last ≡ some t) × (50_000_000 < clock.now - t))
            → (s' : State Cmd) × (msgs : Outgoing Cmd) × (replicate_log clock s ≡ ok (s', msgs))
              × (s'.c ≡ s.c)
              × (s'.r
                  ≡ leader nexts matches (if is_empty s.c.node_ids then last else some clock.later))
              × AllSent s.c nexts s.c.node_ids msgs)
        × ((t : ℕ)
            → last ≡ some t
            → 5_000_000 ≤ clock.now - t
            → clock.now - t ≤ 50_000_000
            → (s' : State Cmd) × (msgs : Outgoing Cmd) × (replicate_log clock s ≡ ok (s', msgs))
              × (s'.c ≡ s.c)
              × (s'.r ≡ leader nexts matches (if is_empty msgs then last else some clock.later))
              × NewSent s.c nexts s.c.node_ids msgs)
  unfolding replicate_log
  replicate_log-paced clock s nexts matches last e cover =
      let (msgs, run, sent) = replicate_to-AllSent s.c nexts s.c.node_ids cover in
      let (fresh, run', sent') = replicate_to-NewSent s.c nexts s.c.node_ids cover in
      (
        (λ t l h. ground arith),
        λ due. (
          record s { r = leader nexts matches (if is_empty msgs then last else some clock.later) },
          msgs,
          ground (arith, heartbeat_due last clock.now due, run),
          refl,
          ap (λ b. leader nexts matches (if b then last else some clock.later))
              (AllSent-is_empty s.c nexts s.c.node_ids msgs sent),
          sent,
        ),
        λ t l over under. (
          record s { r = leader nexts matches (if is_empty fresh then last else some clock.later) },
          fresh,
          ground (arith, no_heartbeat last clock.now t l over under, run'),
          refl,
          refl,
          sent',
        ),
      )
