-- ===== src/Json/Unicode/Scalars.antt =====
-- When `char::from_u32` gives a character, and which one.
use Prim.Native.Char.{Char, char, code}
use Prim.Native.Nat.{compare, Ordering}
use mathlib.Core.Option
use text.Mathlib.TextEquality.{Char-path}
use miniraft.Prelude.{ℕ, ◌<◌, ◌≡◌, ◌⊎◌, inl, inr, refl, ap, ◌∙◌, arith, some}
use miniraft.Json.Unicode.{Scalar, scalar?, from_u32}

scalar?-some :
    (o p q : Ordering)
    → (o ≡ Ordering.lt) ⊎ ((p ≡ Ordering.lt) × (q ≡ Ordering.lt))
    → (w : Scalar o p q) × (scalar? o p q ≡ some w)
scalar?-some Ordering.lt p q h = (tt, refl)
scalar?-some Ordering.eq Ordering.lt Ordering.lt h = (tt, refl)
scalar?-some Ordering.gt Ordering.lt Ordering.lt h = (tt, refl)
scalar?-some Ordering.eq Ordering.lt Ordering.eq h = ground arith
scalar?-some Ordering.eq Ordering.lt Ordering.gt h = ground arith
scalar?-some Ordering.gt Ordering.lt Ordering.eq h = ground arith
scalar?-some Ordering.gt Ordering.lt Ordering.gt h = ground arith
scalar?-some Ordering.eq Ordering.eq q h = ground arith
scalar?-some Ordering.eq Ordering.gt q h = ground arith
scalar?-some Ordering.gt Ordering.eq q h = ground arith
scalar?-some Ordering.gt Ordering.gt q h = ground arith

scalar?_given :
    (o p q : Ordering) → Scalar o p q → (o ≡ Ordering.lt) ⊎ ((p ≡ Ordering.lt) × (q ≡ Ordering.lt))
scalar?_given Ordering.lt p q w = inl refl
scalar?_given Ordering.eq Ordering.lt Ordering.lt w = inr (refl, refl)
scalar?_given Ordering.gt Ordering.lt Ordering.lt w = inr (refl, refl)
scalar?_given Ordering.eq Ordering.lt Ordering.eq w = absurd w
scalar?_given Ordering.eq Ordering.lt Ordering.gt w = absurd w
scalar?_given Ordering.gt Ordering.lt Ordering.eq w = absurd w
scalar?_given Ordering.gt Ordering.lt Ordering.gt w = absurd w
scalar?_given Ordering.eq Ordering.eq q w = absurd w
scalar?_given Ordering.eq Ordering.gt q w = absurd w
scalar?_given Ordering.gt Ordering.eq q w = absurd w
scalar?_given Ordering.gt Ordering.gt q w = absurd w

compare-lt : (a b : ℕ) → a < b → compare a b ≡ Ordering.lt
compare-lt a b h = ground arith

abbrev pub InRange : ℕ → Type 0
InRange n = (n < 55296) ⊎ ((57343 < n) × (n < 1114112))

pub from_u32-some : (n : ℕ) → InRange n → (c : Char) × (from_u32 n ≡ some c) × (code c ≡ n)
unfolding from_u32
from_u32-some n h =
    let (w, e) = scalar?-some (compare n 55296) (compare 57343 n) (compare n 1114112) (tests h) in
    (char n w, ap (Option.map (char n)) e, refl)
  where
    tests :
        InRange n
        → (compare n 55296 ≡ Ordering.lt)
          ⊎ ((compare 57343 n ≡ Ordering.lt) × (compare n 1114112 ≡ Ordering.lt))
    tests (inl small) = inl (compare-lt n 55296 small)
    tests (inr (above, under)) = inr (compare-lt 57343 n above, compare-lt n 1114112 under)

pub code-InRange : (c : Char) → InRange (code c)
code-InRange (char n w) =
    in_range (scalar?_given (compare n 55296) (compare 57343 n) (compare n 1114112) w)
  where
    in_range :
        (compare n 55296 ≡ Ordering.lt)
          ⊎ ((compare 57343 n ≡ Ordering.lt) × (compare n 1114112 ≡ Ordering.lt))
        → InRange n
    in_range (inl small) = inl (ground arith)
    in_range (inr (above, under)) = inr (ground arith, ground arith)

-- A character is found again by its number.
pub from_u32-code : (c : Char) → from_u32 (code c) ≡ some c
from_u32-code c =
    let (d, e, same) = from_u32-some (code c) (code-InRange c) in e ∙ ap some (Char-path d c same)
