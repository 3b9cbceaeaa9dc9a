-- ===== src/Json/Parser/Numbers/Sound.antt =====
-- What `visit_number` returns (json/src/lib.rs): a number of the grammar, and never a panic.
use mathlib.Core.List.{append_assoc, append-nil}
use miniraft.Prelude.{
  ℕ, zero, suc, ◌<◌, ◌≡◌, ◌⊎◌, refl, sym, ap, subst, ◌∙◌, arith, Bool, true, false, ◌||◌, ◌==◌,
  Option, none, some, List, [], ◌∷◌, ◌++◌, length, if◌then◌else◌,
}
use miniraft.Json.Grammar.{
  IsDigit, AllDigits, IsNatural, naught, positive, IsIntegral, natural, negative, IsFraction, whole,
  fraction, IsExponent, no_exponent, unsigned, signed, IsNumber, parts,
}
use miniraft.Json.Parser.{
  Parser, Parse, ParseResult, Reason, peek_at, is_some_and, invalid_byte, advance, err,
  no_digit_after_minus, no_exponent_digit,
}
use miniraft.Json.Parser
use miniraft.Json.Parser.Numbers.{
  is_digit, is_nonzero_digit, next_digit, digits_loop, digits, integral_digits, negative_digits,
  visit_number_integral_part, mandatory_digit, visit_number_fractional_part, exponent_digits,
  visit_number_exponent_part, no_digit_left, visit_number, push,
}
use miniraft.Json.Parser.Ends.{
  Ends, Ends-pure, Ends-err, Ends-bind, Ends-if, Ends-weaken, Ends-advance, Ends-advance_peeked,
}

is_digit-IsDigit : (b : ℕ) → is_digit b ≡ true → IsDigit b
is_digit-IsDigit b h = ground arith

-- The number so far, with optional digits.
abbrev Extends : List ℕ → List ℕ → Type 0
Extends number r = (ds : List ℕ) × AllDigits ds × (r ≡ number ++ ds)

-- The number so far, with one digit at least.
abbrev ExtendsMore : List ℕ → List ℕ → Type 0
ExtendsMore number r = (d : ℕ) × (ds : List ℕ) × IsDigit d × AllDigits ds × (r ≡ number ++ d ∷ ds)

Extends-push :
    {b : ℕ} (number : List ℕ)
    → IsDigit b
    → (r : List ℕ) → Extends (push b number) r
    → ExtendsMore number r
Extends-push {b} number digit r (ds, all, e) =
    (b, ds, digit, all, e ∙ append_assoc number (b ∷ []) ds)

next_digit-Ends :
    {P : List ℕ → Type 0} (o : Option ℕ) (p : Parser) (stop : Parse (List ℕ))
    (more : ℕ → Parse (List ℕ))
    → Ends P 0 p (stop p)
    → ((b : ℕ) → is_digit b ≡ true → Ends P 0 p (more b p))
    → Ends P 0 p (next_digit stop more o p)
next_digit-Ends none p stop more at_end at_digit = at_end
next_digit-Ends (some b) p stop more at_end at_digit =
    Ends-if (is_digit b) (more b) stop (at_digit b) (λ _. at_end)

digits_loop-Ends :
    (fuel : ℕ) (number : List ℕ) (p : Parser)
    → length p.stream < fuel
    → Ends (Extends number) 0 p (digits_loop fuel number p)
unfolding digits_loop
digits_loop-Ends zero number p h = absurd (omega arith)
digits_loop-Ends (suc fuel) number p h =
    next_digit-Ends (peek_at p.stream) p _ _ (Ends-pure p ([], tt, sym (append-nil number)))
      (λ b digit. Ends-bind 0 0 (omega arith) (Ends-advance p) (λ c q _ step.
        Ends-weaken 0 (omega arith)
          (digits_loop-Ends fuel (push b number) q (omega (arith, step.read)))
          (λ r longer.
            let (d, ds, one, all, e) = Extends-push number (is_digit-IsDigit b digit) r longer in
            (d ∷ ds, (one, all), e))))

digits-Ends : (number : List ℕ) (p : Parser) → Ends (Extends number) 0 p (digits number p)
unfolding digits
digits-Ends number p = digits_loop-Ends (suc (length p.stream)) number p (omega arith)

mandatory_digit-Ends :
    (reason : Reason) (number : List ℕ) (p : Parser)
    → Ends (ExtendsMore number) 1 p (mandatory_digit reason number p)
mandatory_digit-Ends reason number p = Ends-bind 0 1 (omega arith) (Ends-advance p) λ b q _ step.
    Ends-if (is_digit b) (digits (push b number)) _
      (λ digit.
        Ends-weaken 0 (omega arith) (digits-Ends (push b number) q)
          (Extends-push number (is_digit-IsDigit b digit)))
      (λ _. Ends-err _ 0 q)

-- The number so far, with a natural number of the grammar.
abbrev ExtendsBy : (List ℕ → Type 0) → List ℕ → List ℕ → Type 0
ExtendsBy Part number r = (t : List ℕ) × Part t × (r ≡ number ++ t)

leading_digits-Ends :
    (b : ℕ) (number : List ℕ) (p : Parser) (otherwise : Parse (List ℕ))
    → (is_nonzero_digit b ≡ false
        → (b == b'0') ≡ false
        → Ends (ExtendsBy IsNatural number) 0 p (otherwise p))
    → Ends (ExtendsBy IsNatural number) 0 p (
        (if b == b'0'
            then Parser.pure (push b'0' number)
            else if is_nonzero_digit b
            then digits (push b number)
            else otherwise)
          p)
leading_digits-Ends b number p otherwise none_left =
    Ends-if (b == b'0') _ _ (λ zero_digit. Ends-pure p (b'0' ∷ [], naught, refl))
      (λ no_zero.
        Ends-if (is_nonzero_digit b) (digits (push b number)) otherwise
          (λ digit. Ends-weaken 0 (omega arith) (digits-Ends (push b number) p) (λ r (ds, all, e). (
            b ∷ ds,
            positive (ground arith) (ground arith) all,
            e ∙ append_assoc number (b ∷ []) ds,
          )))
          (λ no_digit. none_left no_digit no_zero))

integral_digits-Ends :
    (b : ℕ) (number : List ℕ) (p : Parser)
    → is_digit b ≡ true
    → Ends (ExtendsBy IsNatural number) 0 p (integral_digits b number p)
unfolding integral_digits
integral_digits-Ends b number p digit =
    leading_digits-Ends b number p _ (λ no_digit no_zero. absurd (ground arith))

negative_digits-Ends :
    (b : ℕ) (number : List ℕ) (p : Parser)
    → Ends (ExtendsBy IsNatural number) 0 p (negative_digits b number p)
unfolding negative_digits
negative_digits-Ends b number p =
    leading_digits-Ends b number p _ (λ no_digit no_zero. Ends-err _ 0 p)

abbrev pub starts_number : ℕ → Bool
starts_number b = b == b'-' || is_digit b

visit_number_integral_part-Ends :
    (b : ℕ) (p : Parser)
    → peek_at p.stream ≡ some b
    → starts_number b ≡ true
    → Ends IsIntegral 1 p (visit_number_integral_part [] p)
unfolding visit_number_integral_part
visit_number_integral_part-Ends b p peeked starts =
    Ends-bind 0 1 (omega arith) (Ends-advance_peeked b p peeked) λ c q same step.
      Ends-if (c == b'-') _ (integral_digits c [])
        (λ minus. Ends-bind 0 0 (omega arith) (Ends-advance q) (λ d r _ further.
          Ends-weaken 0 (omega arith) (negative_digits-Ends d (b'-' ∷ []) r)
            (λ n (t, part, e). subst IsIntegral (sym e) (negative part))))
        (λ no_minus.
          Ends-weaken 0 (omega arith) (integral_digits-Ends c [] q (ground arith))
            (λ n (t, part, e). subst IsIntegral (sym e) (natural part)))

visit_number_fractional_part-Ends :
    (number : List ℕ) (p : Parser)
    → Ends (ExtendsBy IsFraction number) 0 p (visit_number_fractional_part number p)
unfolding visit_number_fractional_part
visit_number_fractional_part-Ends number p =
    Ends-if (is_some_and (λ b. b == b'.') (peek_at p.stream)) _ _
      (λ point. Ends-bind 0 0 (omega arith) (Ends-advance p) (λ b q _ step.
        Ends-weaken 0 (omega arith) (mandatory_digit-Ends _ (push b'.' number) q)
          (λ r (d, ds, one, all, e).
            (b'.' ∷ d ∷ ds, fraction one all, e ∙ append_assoc number (b'.' ∷ []) (d ∷ ds)))))
      (λ _. Ends-pure p ([], whole, sym (append-nil number)))

-- After `e`, which the number ends in.
exponent_digits-Ends :
    (b : ℕ) (number : List ℕ) (p : Parser)
    → Ends (ExtendsBy IsExponent number) 0 p (exponent_digits b (push b'e' number) p)
unfolding exponent_digits
exponent_digits-Ends b number p =
    Ends-if (b == b'+' || b == b'-') _ _
      (λ sign.
        Ends-weaken 0 (omega arith) (mandatory_digit-Ends _ (push b (push b'e' number)) p)
          (λ r (d, ds, one, all, e). (
            b'e' ∷ b ∷ d ∷ ds,
            signed (is_sign b sign) one all,
            e
                ∙ append_assoc (push b'e' number) (b ∷ []) (d ∷ ds)
                ∙ append_assoc number (b'e' ∷ []) (b ∷ d ∷ ds),
          )))
      (λ _.
        Ends-if (is_digit b) (digits (push b (push b'e' number))) _
          (λ digit.
            Ends-weaken 0 (omega arith) (digits-Ends (push b (push b'e' number)) p) (λ r longer.
              let (d, ds, one, all, e) =
                Extends-push (push b'e' number) (is_digit-IsDigit b digit) r longer in
              (b'e' ∷ d ∷ ds, unsigned one all, e ∙ append_assoc number (b'e' ∷ []) (d ∷ ds))))
          (λ _. Ends-err _ 0 p))
  where
    is_sign : (b : ℕ) → (b == b'+' || b == b'-') ≡ true → (b ≡ b'+') ⊎ (b ≡ b'-')
    is_sign b h = ground arith

visit_number_exponent_part-Ends :
    (number : List ℕ) (p : Parser)
    → Ends (ExtendsBy IsExponent number) 0 p (visit_number_exponent_part number p)
unfolding visit_number_exponent_part
visit_number_exponent_part-Ends number p =
    Ends-if (is_some_and (λ b. b == b'e' || b == b'E') (peek_at p.stream)) _ _
      (λ _. Ends-bind 0 0 (omega arith) (Ends-advance p) (λ c q _ step.
        Ends-bind 0 0 (omega arith) (Ends-advance q)
          (λ b r _ further. exponent_digits-Ends b number r)))
      (λ _. Ends-pure p ([], no_exponent, sym (append-nil number)))

no_digit_left-Ends :
    {P : List ℕ → Type 0} (number : List ℕ) (o : Option ℕ) (p : Parser)
    → P number
    → Ends P 0 p (no_digit_left number o p)
no_digit_left-Ends number none p good = Ends-pure p good
no_digit_left-Ends number (some b) p good =
    Ends-if (is_digit b) _ _ (λ _. Ends-err _ 0 p) (λ _. Ends-pure p good)

-- At a minus or a digit, `visit_number` comes to a number of the grammar or to an error.
pub visit_number-Ends :
    (b : ℕ) (p : Parser)
    → peek_at p.stream ≡ some b
    → starts_number b ≡ true
    → Ends IsNumber 1 p (visit_number p)
unfolding visit_number
visit_number-Ends b p peeked starts =
    Ends-bind 0 1 (omega arith) (visit_number_integral_part-Ends b p peeked starts)
      λ w q integral_w _.
        Ends-bind 0 0 (omega arith) (visit_number_fractional_part-Ends w q)
          λ wf r (f, fraction_f, e₁) _.
            Ends-bind 0 0 (omega arith) (visit_number_exponent_part-Ends wf r)
              λ n s (e, exponent_e, e₂) _. no_digit_left-Ends n (peek_at s.stream) s (
                parts integral_w fraction_f exponent_e
                  (e₂ ∙ ap (λ t. t ++ e) e₁ ∙ append_assoc w f e))
