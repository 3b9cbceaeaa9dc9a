-- ===== src/Json/Numbers.antt =====
-- The decimal text of a `u64` (json/src/lib.rs, `Number`).
use miniraft.Prelude.{
  ℕ, suc, zero, ◌+◌, ◌-◌, ◌*◌, ◌/◌, ◌%◌, ◌^◌, ◌≤◌, ◌<◌, ◌≡◌, refl, arith, List, [], ◌∷◌, ltb,
  Bool-cases, inl, inr, lt→ltb, ltb→lt, ap, sym, subst, ◌∙◌,
}
use native.Mathlib.Omega.{pow_step}
use miniraft.Prelude.Results.{done}
use miniraft.Json.{decimal, print_u64, parse_digits, parse_u64}

parse_digits-step :
    (n d : ℕ) (text : List ℕ)
    → d < 10
    → n * 10 + d < 2 ^ 64
    → parse_digits n ((48 + d) ∷ text) ≡ parse_digits (n * 10 + d) text
unfolding parse_digits
parse_digits-step n d text h b = let e : 48 + d - 48 ≡ d = omega arith in ground arith

parse_digits-first :
    (n : ℕ) (text : List ℕ)
    → n < 10
    → n < 2 ^ 64
    → parse_digits 0 ((48 + n) ∷ text) ≡ parse_digits n text
parse_digits-first n text h b =
    let zero_add : 0 * 10 + n ≡ n = omega arith in
    parse_digits-step 0 n text h (omega arith) ∙ ap (λ k. parse_digits k text) zero_add

parse_digits-decimal :
    (fuel n : ℕ) (text : List ℕ)
    → n < 10 ^ suc fuel
    → n < 2 ^ 64
    → parse_digits 0 (decimal (suc fuel) n text) ≡ parse_digits n text
unfolding decimal
parse_digits-decimal zero n text h b =
    let small : n < 10 = h in rw (lt→ltb n 10 small) (parse_digits-first n text small b)
parse_digits-decimal (suc fuel) n text h b = elim (Bool-cases (ltb n 10)) [
  | inl e ↦ rw e (parse_digits-first n text (ltb→lt n 10 e) b)
  | inr e ↦
      let h' : n < 10 * 10 ^ suc fuel = subst (λ k. n < k) (pow_step 10 (suc fuel)) h in
      let shorter : n / 10 < 10 ^ suc fuel = omega arith in
      let back : n / 10 * 10 + n % 10 ≡ n = omega arith in
      rw e (
        parse_digits-decimal fuel (n / 10) ((48 + n % 10) ∷ text) shorter (omega arith)
        ∙ parse_digits-step (n / 10) (n % 10) text (omega arith) (omega arith)
        ∙ ap (λ k. parse_digits k text) back)
]

decimal_head :
    (fuel n : ℕ) (text : List ℕ)
    → (d : ℕ) × (ds : List ℕ) × (decimal (suc fuel) n text ≡ d ∷ ds) × (48 ≤ d)
unfolding decimal
decimal_head zero n text = elim (Bool-cases (ltb n 10)) [
  | inl e ↦ (48 + n, text, rw e refl, omega arith)
  | inr e ↦ (48 + n % 10, text, rw e refl, omega arith)
]
decimal_head (suc fuel) n text = elim (Bool-cases (ltb n 10)) [
  | inl e ↦ (48 + n, text, rw e refl, omega arith)
  | inr e ↦
      let (d, ds, h, le) = decimal_head fuel (n / 10) ((48 + n % 10) ∷ text) in (d, ds, rw e h, le)
]

parse_u64-digits : (d : ℕ) (ds : List ℕ) → 48 ≤ d → parse_u64 (d ∷ ds) ≡ parse_digits 0 (d ∷ ds)
unfolding parse_u64
parse_u64-digits d [] h = refl
parse_u64-digits d (e ∷ ds) h = ground arith

-- The decimal text of a number below 2^64 is read back as the number.
pub parse_u64-print_u64 : (n : ℕ) → n < 2 ^ 64 → parse_u64 (print_u64 n) ≡ done n
unfolding parse_digits
parse_u64-print_u64 n h =
    let (d, ds, e, le) = decimal_head 19 n [] in
    let whole = parse_digits-decimal 19 n [] (omega arith) h in
    ap parse_u64 e ∙ parse_u64-digits d ds le ∙ ap (parse_digits 0) (sym e) ∙ whole
