-- ===== src/Raft/Election/Quorum.antt =====
-- Majorities of a cluster (raft/src/state.rs, `won_election`).
use miniraft.Prelude.{
  suc, ◌+◌, ◌≤◌, ◌≡◌, ◌⊎◌, inl, inr, true, false, Bool-cases, List, [], ◌∷◌, ◌++◌, arith,
  if◌then◌else◌, length, length-append, str_eq, eq_iff, leb→le, eq_refl, contains, set_insert,
}
use miniraft.Rpc.{NodeId}
use miniraft.Raft.State.{Common}
use miniraft.Raft.Election.{won_election}

-- No node stands twice.
abbrev pub Distinct : List NodeId → Type 0
Distinct [] = Unit {0}
Distinct (x ∷ xs) = (contains xs x ≡ false) × Distinct xs

abbrev pub Within : List NodeId → List NodeId → Type 0
Within [] ys = Unit {0}
Within (x ∷ xs) ys = (contains ys x ≡ true) × Within xs ys

erase : NodeId → List NodeId → List NodeId
erase k [] = []
erase k (y ∷ ys) = if str_eq y k then ys else y ∷ erase k ys

length-erase :
    (k : NodeId) (ys : List NodeId) → contains ys k ≡ true → suc (length (erase k ys)) ≡ length ys
unfolding erase
length-erase k [] h = absurd (cc)
length-erase k (y ∷ ys) h = ground (arith, length-erase k ys)

contains-erase :
    (k x : NodeId) (ys : List NodeId)
    → str_eq k x ≡ false
    → contains ys x ≡ true
    → contains (erase k ys) x ≡ true
unfolding erase
contains-erase k x [] n h = h
contains-erase k x (y ∷ ys) n h =
    ground (arith, eq_iff y k, eq_iff y x, eq_iff k x, contains-erase k x ys n)

Within-erase :
    (k : NodeId) (xs ys : List NodeId)
    → contains xs k ≡ false
    → Within xs ys
    → Within xs (erase k ys)
Within-erase k [] ys n w = tt
Within-erase k (x ∷ xs) ys n w =
    ground (arith, eq_iff x k, eq_iff k x, contains-erase k x ys, Within-erase k xs ys)

-- Pigeonhole.
length-Distinct : (xs ys : List NodeId) → Distinct xs → Within xs ys → length xs ≤ length ys
length-Distinct [] ys d w = omega arith
length-Distinct (x ∷ xs) ys d w = omega (
  arith,
  length-erase x ys w.0,
  length-Distinct xs (erase x ys) d.1 (Within-erase x xs ys d.0 w.1),
)

contains-append :
    (x : NodeId) (xs ys : List NodeId)
    → contains xs x ≡ false
    → contains ys x ≡ false
    → contains (xs ++ ys) x ≡ false
contains-append x [] ys h k = k
contains-append x (y ∷ xs) ys h k = ground (arith, contains-append x xs ys)

Within-append : (xs ys zs : List NodeId) → Within xs zs → Within ys zs → Within (xs ++ ys) zs
Within-append [] ys zs h k = k
Within-append (x ∷ xs) ys zs h k = (h.0, Within-append xs ys zs h.1 k)

-- A common element, or the two lists together are distinct.
meet_or_apart :
    (xs ys : List NodeId)
    → Distinct xs
    → Distinct ys
    → ((x : NodeId) × (contains xs x ≡ true) × (contains ys x ≡ true)) ⊎ Distinct (xs ++ ys)
meet_or_apart [] ys d e = inr e
meet_or_apart (x ∷ xs) ys d e = elim (Bool-cases (contains ys x)) [
  | inl h ↦ inl (x, rw (eq_refl x), h)
  | inr h ↦ elim (meet_or_apart xs ys d.1 e) [
    | inl (z, p, q) ↦ inl (z, ground arith, q)
    | inr apart ↦ inr (contains-append x xs ys d.0 h, apart)
  ]
]

-- Two sets of distinct voters of one cluster, each large enough to win an election, share a
-- voter.
pub quorums_meet :
    {Cmd : Type 0} (c : Common Cmd) (cluster us vs : List NodeId)
    → length cluster ≡ length c.node_ids + 1
    → Distinct us
    → Within us cluster
    → won_election c (length us) ≡ true
    → Distinct vs
    → Within vs cluster
    → won_election c (length vs) ≡ true
    → (x : NodeId) × (contains us x ≡ true) × (contains vs x ≡ true)
unfolding won_election
quorums_meet c cluster us vs size da wa a db wb b = elim (meet_or_apart us vs da db) [
  | inl m ↦ m
  | inr apart ↦
      let few : length us + length vs ≤ length cluster = omega (
        arith,
        length-append us vs,
        length-Distinct (us ++ vs) cluster apart (Within-append us vs cluster wa wb),
      ) in
      absurd (omega (arith, leb→le _ _ a, leb→le _ _ b))
]

pub set_insert-Distinct : (x : NodeId) (xs : List NodeId) → Distinct xs → Distinct (set_insert x xs)
set_insert-Distinct x xs d = ground arith
