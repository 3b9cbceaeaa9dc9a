-- ===== src/Raft/Commit/Median.antt =====
-- The lower median of a list of indexes (raft/src/state.rs, `lower_median`).
use miniraft.Prelude.{
  ℕ, zero, suc, ◌+◌, ◌-◌, ◌/◌, ◌≤◌, ◌≡◌, refl, some, List, [], ◌∷◌, arith, leb, if◌then◌else◌,
  length, get_elem?,
}
use miniraft.Raft.Index.{LogIndex}
use miniraft.Raft.Commit.{insert_sorted, sort, lower_median}

-- How many indexes are at least `n`.
unfoldable pub count_ge : LogIndex → List LogIndex → ℕ
count_ge n [] = 0
count_ge n (i ∷ is) = let rest = count_ge n is in if leb n.machine i.machine then suc rest else rest

abbrev AllGe : LogIndex → List LogIndex → Type 0
AllGe n [] = Unit {0}
AllGe n (i ∷ is) = (n.machine ≤ i.machine) × AllGe n is

abbrev IsSorted : List LogIndex → Type 0
IsSorted [] = Unit {0}
IsSorted (i ∷ is) = AllGe i is × IsSorted is

AllGe-trans :
    (n m : LogIndex) (is : List LogIndex) → n.machine ≤ m.machine → AllGe m is → AllGe n is
AllGe-trans n m [] h a = tt
AllGe-trans n m (i ∷ is) h a = (omega arith, AllGe-trans n m is h a.1)

AllGe-insert_sorted :
    (n i : LogIndex) (is : List LogIndex)
    → n.machine ≤ i.machine
    → AllGe n is
    → AllGe n (insert_sorted i is)
unfolding insert_sorted
AllGe-insert_sorted n i [] h a = (h, tt)
AllGe-insert_sorted n i (j ∷ js) h a = ground (arith, AllGe-insert_sorted n i js h a.1)

insert_sorted-IsSorted :
    (i : LogIndex) (is : List LogIndex) → IsSorted is → IsSorted (insert_sorted i is)
unfolding insert_sorted
insert_sorted-IsSorted i [] s = (tt, tt)
insert_sorted-IsSorted i (j ∷ js) s =
    ground (arith, AllGe-trans i j js, AllGe-insert_sorted j i js, insert_sorted-IsSorted i js s.1)

sort-IsSorted : (is : List LogIndex) → IsSorted (sort is)
unfolding sort
sort-IsSorted [] = tt
sort-IsSorted (i ∷ is) = insert_sorted-IsSorted i (sort is) (sort-IsSorted is)

count_ge-insert_sorted :
    (n i : LogIndex) (is : List LogIndex) → count_ge n (insert_sorted i is) ≡ count_ge n (i ∷ is)
unfolding insert_sorted count_ge
count_ge-insert_sorted n i [] = refl
count_ge-insert_sorted n i (j ∷ js) = ground (arith, count_ge-insert_sorted n i js)

count_ge-sort : (n : LogIndex) (is : List LogIndex) → count_ge n (sort is) ≡ count_ge n is
unfolding sort count_ge
count_ge-sort n [] = refl
count_ge-sort n (i ∷ is) = ground (arith, count_ge-insert_sorted n i (sort is), count_ge-sort n is)

length-insert_sorted :
    (i : LogIndex) (is : List LogIndex) → length (insert_sorted i is) ≡ suc (length is)
unfolding insert_sorted
length-insert_sorted i [] = refl
length-insert_sorted i (j ∷ js) = ground (arith, length-insert_sorted i js)

length-sort : (is : List LogIndex) → length (sort is) ≡ length is
unfolding sort
length-sort [] = refl
length-sort (i ∷ is) = omega (arith, length-insert_sorted i (sort is), length-sort is)

count_ge-all : (n : LogIndex) (is : List LogIndex) → AllGe n is → count_ge n is ≡ length is
unfolding count_ge
count_ge-all n [] a = refl
count_ge-all n (i ∷ is) a = ground (arith, count_ge-all n is a.1)

length-le-count_ge :
    (is : List LogIndex) (k : ℕ) (m : LogIndex)
    → IsSorted is
    → get_elem? is k ≡ some m
    → length is ≤ k + count_ge m is
unfolding count_ge
length-le-count_ge [] k m s h = absurd (cc)
length-le-count_ge (i ∷ is) zero m s h = ground (arith, count_ge-all i is s.0)
length-le-count_ge (i ∷ is) (suc k) m s h = ground (arith, length-le-count_ge is k m s.1 h)

-- More than half of a list's indexes are at its lower median or above.
pub lower_median-majority :
    (is : List LogIndex) {m : LogIndex}
    → lower_median is ≡ some m
    → length is / 2 + 1 ≤ count_ge m is
unfolding lower_median
lower_median-majority [] h = absurd (cc)
lower_median-majority (i ∷ is) {m} h =
    let k = (length (i ∷ is) - 1) / 2 in
    omega (
      arith,
      length-le-count_ge (sort (i ∷ is)) k m (sort-IsSorted (i ∷ is)) h,
      count_ge-sort m (i ∷ is),
      length-sort (i ∷ is),
    )
