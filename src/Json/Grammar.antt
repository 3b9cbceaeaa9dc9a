-- ===== src/Json/Grammar.antt =====
-- The grammar of JSON numbers, as RFC 8259 gives it, with a small `e` (json/src/lib.rs, `Number`).
use miniraft.Prelude.{ℕ, ◌≤◌, ◌≡◌, ◌⊎◌, List, [], ◌∷◌, ◌++◌}

abbrev pub IsDigit : ℕ → Type 0
IsDigit d = (b'0' ≤ d) × (d ≤ b'9')

abbrev pub AllDigits : List ℕ → Type 0
AllDigits [] = Unit {0}
AllDigits (d ∷ ds) = IsDigit d × AllDigits ds

pub data IsNatural : List ℕ → Type 0 where
  naught : IsNatural (b'0' ∷ [])
  positive : {d : ℕ} {ds : List ℕ} → b'1' ≤ d → d ≤ b'9' → AllDigits ds → IsNatural (d ∷ ds)

pub data IsIntegral : List ℕ → Type 0 where
  natural : {t : List ℕ} → IsNatural t → IsIntegral t
  negative : {t : List ℕ} → IsNatural t → IsIntegral (b'-' ∷ t)

pub data IsFraction : List ℕ → Type 0 where
  whole : IsFraction []
  fraction : {d : ℕ} {ds : List ℕ} → IsDigit d → AllDigits ds → IsFraction (b'.' ∷ d ∷ ds)

pub data IsExponent : List ℕ → Type 0 where
  no_exponent : IsExponent []
  unsigned : {d : ℕ} {ds : List ℕ} → IsDigit d → AllDigits ds → IsExponent (b'e' ∷ d ∷ ds)
  signed :
      {s d : ℕ} {ds : List ℕ}
      → (s ≡ b'+') ⊎ (s ≡ b'-')
      → IsDigit d
      → AllDigits ds
      → IsExponent (b'e' ∷ s ∷ d ∷ ds)

pub data IsNumber : List ℕ → Type 0 where
  parts :
      {w f e t : List ℕ}
      → IsIntegral w
      → IsFraction f
      → IsExponent e
      → t ≡ w ++ (f ++ e)
      → IsNumber t
