-- ===== src/Json/Parser/Numbers/Reads.antt =====
-- `visit_number` on a number of the grammar (json/src/lib.rs).
use mathlib.Core.List.{append_assoc, append-nil}
use miniraft.Prelude.{
  ℕ, zero, suc, ◌+◌, ◌≤◌, ◌<◌, ◌≡◌, refl, sym, ap, ◌∙◌, arith, Bool, true, false, ◌||◌, ◌==◌,
  Option, none, some, List, [], ◌∷◌, ◌++◌, length,
}
use miniraft.Json.Grammar.{
  IsDigit, AllDigits, naught, positive, IsIntegral, natural, negative, IsFraction, whole, fraction,
  IsExponent, no_exponent, unsigned, signed, IsNumber, parts,
}
use miniraft.Json.Parser.{Read, Parser, Parse, parsed, Reason, peek_at, is_some_and, pure}
use miniraft.Json.Parser.Numbers.{
  is_digit, is_nonzero_digit, next_digit, digits_loop, digits, integral_digits, negative_digits,
  visit_number_integral_part, mandatory_digit, visit_number_fractional_part, exponent_digits,
  visit_number_exponent_part, no_digit_left, visit_number, push,
}
use miniraft.Json.Parser.Reads.{
  source, source-append, at, Comes, Comes-bind, Comes-eq, continues_value, Stops,
}

abbrev NoDigit : List Read → Type 0
NoDigit rest = is_some_and is_digit (peek_at rest) ≡ false

next_digit-stop :
    (o : Option ℕ) (stop : Parse (List ℕ)) (more : ℕ → Parse (List ℕ)) (p : Parser)
    → is_some_and is_digit o ≡ false
    → next_digit stop more o p ≡ stop p
next_digit-stop none stop more p h = refl
next_digit-stop (some b) stop more p h = rw h refl

IsDigit-is_digit : (b : ℕ) → IsDigit b → is_digit b ≡ true
IsDigit-is_digit b (low, high) = ground arith

module _ {rest : List Read} (stops : NoDigit rest) where
  digits_loop-Comes :
      (fuel : ℕ) (number ds : List ℕ) (n d : ℕ)
      → length (source ds rest) < fuel
      → AllDigits ds
      → Comes (digits_loop fuel number (at (source ds rest) n d)) (number ++ ds) rest d
  unfolding digits_loop
  digits_loop-Comes zero number ds n d h all = absurd (omega arith)
  digits_loop-Comes (suc fuel) number [] n d h all = (
    n,
    next_digit-stop (peek_at rest) (pure number) _ (at rest n d) stops
        ∙ ap (λ t. parsed t (at rest n d)) (sym (append-nil number)),
  )
  digits_loop-Comes (suc fuel) number (b ∷ ds) n d h (digit, all) = rw (IsDigit-is_digit b digit) (
      Comes-eq (append_assoc number (b ∷ []) ds)
        (digits_loop-Comes fuel (push b number) ds (n + 1) d (omega arith) all))

  digits-Comes :
      (number ds : List ℕ) (n d : ℕ)
      → AllDigits ds
      → Comes (digits number (at (source ds rest) n d)) (number ++ ds) rest d
  unfolding digits
  digits-Comes number ds n d all =
      digits_loop-Comes (suc (length (source ds rest))) number ds n d (omega arith) all

  mandatory_digit-Comes :
      (reason : Reason) (number : List ℕ) (b : ℕ) (ds : List ℕ) (n d : ℕ)
      → IsDigit b
      → AllDigits ds
      → Comes
          (mandatory_digit reason number (at (source (b ∷ ds) rest) n d))
          (number ++ b ∷ ds)
          rest
          d
  mandatory_digit-Comes reason number b ds n d digit all =
      rw (IsDigit-is_digit b digit)
        (Comes-eq (append_assoc number (b ∷ []) ds) (digits-Comes (push b number) ds (n + 1) d all))

  integral_digits-Comes :
      (b : ℕ) (ds number : List ℕ) (n d : ℕ)
      → b'1' ≤ b
      → b ≤ b'9'
      → AllDigits ds
      → (Comes (integral_digits b number (at (source ds rest) n d)) (number ++ b ∷ ds) rest d)
        × (Comes (negative_digits b number (at (source ds rest) n d)) (number ++ b ∷ ds) rest d)
  unfolding integral_digits negative_digits
  integral_digits-Comes b ds number n d low high all =
      let no_zero : (b == b'0') ≡ false = ground arith in
      let nonzero : is_nonzero_digit b ≡ true = ground arith in
      let read =
        Comes-eq (append_assoc number (b ∷ []) ds) (digits-Comes (push b number) ds n d all) in
      (rw (no_zero, nonzero) read, rw (no_zero, nonzero) read)

  integral_part-Comes :
      (w : List ℕ) (n d : ℕ)
      → IsIntegral w
      → Comes (visit_number_integral_part [] (at (source w rest) n d)) w rest d
  unfolding visit_number_integral_part integral_digits negative_digits
  integral_part-Comes w n d (natural naught) = (n + 1, refl)
  integral_part-Comes w n d (natural (positive {d = b} {ds} low high all)) =
      let no_minus : (b == b'-') ≡ false = ground arith in
      rw no_minus (integral_digits-Comes b ds [] (n + 1) d low high all).0
  integral_part-Comes w n d (negative naught) = (n + 1 + 1, refl)
  integral_part-Comes w n d (negative (positive {d = b} {ds} low high all)) =
      (integral_digits-Comes b ds (b'-' ∷ []) (n + 1 + 1) d low high all).1

  fractional_part-Comes :
      (number f : List ℕ) (n d : ℕ)
      → is_some_and (λ b. b == b'.') (peek_at rest) ≡ false
      → IsFraction f
      → Comes (visit_number_fractional_part number (at (source f rest) n d)) (number ++ f) rest d
  unfolding visit_number_fractional_part
  fractional_part-Comes number f n d no_point whole =
      rw no_point (n, ap (λ t. parsed t (at rest n d)) (sym (append-nil number)))
  fractional_part-Comes number f n d no_point (fraction {d = b} {ds} digit all) =
      Comes-eq (append_assoc number (b'.' ∷ []) (b ∷ ds))
        (mandatory_digit-Comes _ (push b'.' number) b ds (n + 1) d digit all)

  exponent_part-Comes :
      (number e : List ℕ) (n d : ℕ)
      → is_some_and (λ b. b == b'e' || b == b'E') (peek_at rest) ≡ false
      → IsExponent e
      → Comes (visit_number_exponent_part number (at (source e rest) n d)) (number ++ e) rest d
  unfolding visit_number_exponent_part exponent_digits
  exponent_part-Comes number e n d no_e no_exponent =
      rw no_e (n, ap (λ t. parsed t (at rest n d)) (sym (append-nil number)))
  exponent_part-Comes number e n d no_e (unsigned {d = b} {ds} digit all) =
      let no_sign : (b == b'+' || b == b'-') ≡ false = ground arith in
      rw (no_sign, IsDigit-is_digit b digit)
        (Comes-eq
          (append_assoc (push b'e' number) (b ∷ []) ds ∙ append_assoc number (b'e' ∷ []) (b ∷ ds))
          (digits-Comes (push b (push b'e' number)) ds (n + 1 + 1) d all))
  exponent_part-Comes number e n d no_e (signed {s} {d = b} {ds} sign digit all) =
      let is_sign : (s == b'+' || s == b'-') ≡ true = ground arith in
      rw is_sign (
        Comes-eq
          (append_assoc (push b'e' number) (s ∷ []) (b ∷ ds)
            ∙ append_assoc number (b'e' ∷ []) (s ∷ b ∷ ds))
          (mandatory_digit-Comes _ (push s (push b'e' number)) b ds (n + 1 + 1) d digit all))

  no_digit_left-Comes :
      (number : List ℕ) (n d : ℕ)
      → Comes (no_digit_left number (peek_at rest) (at rest n d)) number rest d
  no_digit_left-Comes number n d = (n, no_error (peek_at rest) stops)
    where
      no_error :
          (o : Option ℕ)
          → is_some_and is_digit o ≡ false
          → no_digit_left number o (at rest n d) ≡ parsed number (at rest n d)
      no_error none h = refl
      no_error (some b) h = rw h refl

-- A test that is narrower than what continues a value fails where a value stops.
narrower :
    (test : ℕ → Bool) (o : Option ℕ)
    → ((b : ℕ) → continues_value b ≡ false → test b ≡ false)
    → is_some_and continues_value o ≡ false
    → is_some_and test o ≡ false
narrower test none h stop = refl
narrower test (some b) h stop = h b stop

after_fraction :
    (e : List ℕ) (rest : List Read)
    → IsExponent e
    → Stops rest
    → (is_some_and is_digit (peek_at (source e rest)) ≡ false)
      × (is_some_and (λ b. b == b'.') (peek_at (source e rest)) ≡ false)
after_fraction e rest no_exponent stop = (
  narrower is_digit (peek_at rest) (λ b h. ground arith) stop,
  narrower (λ b. b == b'.') (peek_at rest) (λ b h. ground arith) stop,
)
after_fraction e rest (unsigned digit all) stop = (refl, refl)
after_fraction e rest (signed sign digit all) stop = (refl, refl)

after_integral :
    (f : List ℕ) (rest : List Read) → IsFraction f → NoDigit rest → NoDigit (source f rest)
after_integral f rest whole h = h
after_integral f rest (fraction digit all) h = refl

-- A number of the grammar is read as it is.
pub visit_number-Comes :
    (t : List ℕ) (rest : List Read) (n d : ℕ)
    → IsNumber t
    → Stops rest
    → Comes (visit_number (at (source t rest) n d)) t rest d
unfolding visit_number
visit_number-Comes t rest n d (parts {w} {f} {e} integral_w fraction_f exponent_e form) stop =
    let (no_digit, no_point) = after_fraction e rest exponent_e stop in
    let tail = source e rest in
    let split =
      ap (λ u. source u rest) form
      ∙ source-append w (f ++ e) rest
      ∙ ap (source w) (source-append f e rest) in
    rw (split, form)
      (Comes-bind _
        (integral_part-Comes (after_integral f tail fraction_f no_digit) w n d integral_w)
        λ k. Comes-bind _ (fractional_part-Comes no_digit w f k d no_point fraction_f) λ l.
          Comes-bind _
            (exponent_part-Comes (narrower is_digit (peek_at rest) (λ b h. ground arith) stop)
              (w ++ f) e l d (narrower _ (peek_at rest) (λ b h. ground arith) stop) exponent_e)
            λ m. Comes-eq (append_assoc w f e) (
              no_digit_left-Comes (narrower is_digit (peek_at rest) (λ b h. ground arith) stop)
                ((w ++ f) ++ e) m d))
