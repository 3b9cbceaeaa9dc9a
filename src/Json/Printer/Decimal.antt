-- ===== src/Json/Printer/Decimal.antt =====
-- The decimal text of a `u64` is a JSON number (json/src/lib.rs, `Number`).
use native.Mathlib.Omega.{pow_step}
use mathlib.Core.List.{append-nil}
use miniraft.Prelude.{
  ℕ, zero, suc, ◌+◌, ◌*◌, ◌/◌, ◌%◌, ◌^◌, ◌<◌, ◌≡◌, ◌⊎◌, inl, inr, refl, sym, arith, List, [], ◌∷◌,
  ltb, Bool-cases, ltb→lt, lt→ltb, subst, false,
}
use miniraft.Json.{decimal, print_u64}
use miniraft.Json.Grammar.{
  AllDigits, IsNatural, naught, positive, natural, whole, no_exponent, IsNumber, parts,
}

-- A digit before others: not a zero, or the only one.
leading-IsNatural :
    (n : ℕ) (text : List ℕ)
    → n < 10
    → AllDigits text
    → (0 < n) ⊎ (text ≡ [])
    → IsNatural ((48 + n) ∷ text)
leading-IsNatural n text small all (inl pos) = positive (omega arith) (omega arith) all
leading-IsNatural zero text small all (inr alone) =
    subst (λ t. IsNatural (48 ∷ t)) (sym alone) naught
leading-IsNatural (suc n) text small all (inr alone) = positive (omega arith) (omega arith) all

decimal-IsNatural :
    (fuel n : ℕ) (text : List ℕ)
    → n < 10 ^ suc fuel
    → AllDigits text
    → (0 < n) ⊎ (text ≡ [])
    → IsNatural (decimal (suc fuel) n text)
unfolding decimal
decimal-IsNatural zero n text h all lead =
    let small : n < 10 = h in rw (lt→ltb n 10 small) (leading-IsNatural n text small all lead)
decimal-IsNatural (suc fuel) n text h all lead = elim (Bool-cases (ltb n 10)) [
  | inl small ↦ rw small (leading-IsNatural n text (ltb→lt n 10 small) all lead)
  | inr large ↦
      let h' : n < 10 * 10 ^ suc fuel = subst (λ k. n < k) (pow_step 10 (suc fuel)) h in
      rw large (
        decimal-IsNatural fuel (n / 10) ((48 + n % 10) ∷ text) (omega arith)
          ((omega arith, omega arith), all) (inl (below n large)))
]
  where
    below : (n : ℕ) → ltb n 10 ≡ false → 0 < n / 10
    below n large = ground arith

pub print_u64-IsNumber : (n : ℕ) → n < 2 ^ 64 → IsNumber (print_u64 n)
print_u64-IsNumber n h =
    parts (natural (decimal-IsNatural 19 n [] (omega arith) tt (inr refl))) whole no_exponent
      (sym (append-nil (print_u64 n)))
