-- ===== src/Json/Parser/Numbers.antt =====
-- Scanning numbers (json/src/lib.rs, `visit_number` and its parts). A number is the list of its
-- bytes; a push adds one at the end.
pub mod Sound
pub mod Reads
use miniraft.Prelude.{
  ℕ, zero, suc, Bool, true, false, Option, none, some, List, [], ◌∷◌, ◌++◌, ◌&&◌, ◌||◌, ◌==◌, leb,
  if◌then◌else◌, length,
}
use miniraft.Json.Parser.{
  Parse, ParseResult, out_of_fuel, panicked, pure, ◌>>=◌, ◌>>◌, err, invalid_byte, advance, peek,
  is_some_and, Reason, digit_left, no_digit_after_minus, no_fraction_digit, no_exponent_digit,
  no_exponent,
}

abbrev pub is_digit : ℕ → Bool
is_digit b = leb b'0' b && leb b b'9'

abbrev pub is_nonzero_digit : ℕ → Bool
is_nonzero_digit b = leb b'1' b && leb b b'9'

abbrev pub Number : Type 0
Number = List ℕ

abbrev pub push : ℕ → Number → Number
push b number = number ++ b ∷ []

abbrev pub next_digit : Parse Number → (ℕ → Parse Number) → Option ℕ → Parse Number
next_digit stop more none = stop
next_digit stop more (some b) = if is_digit b then more b else stop

-- The loop over optional digits.
unfoldable pub digits_loop : ℕ → Number → Parse Number
digits_loop zero number p = out_of_fuel
digits_loop (suc fuel) number p =
    let more = λ (b : ℕ). (do advance; digits_loop fuel (push b number)) in
    (do next ← peek; next_digit (pure number) more next) p

unfoldable pub digits : Number → Parse Number
digits number p = digits_loop (suc (length p.stream)) number p

unfoldable pub integral_digits : ℕ → Number → Parse Number
integral_digits b number =
    if b == b'0'
    then pure (push b'0' number)
    else if is_nonzero_digit b
    then digits (push b number)
    else λ p. panicked

unfoldable pub negative_digits : ℕ → Number → Parse Number
negative_digits b number =
    if b == b'0'
    then pure (push b'0' number)
    else if is_nonzero_digit b
    then digits (push b number)
    else err (invalid_byte b no_digit_after_minus)

unfoldable pub visit_number_integral_part : Number → Parse Number
visit_number_integral_part number = do
  b ← advance
  if b == b'-'
      then (do digit ← advance; negative_digits digit (push b'-' number))
      else integral_digits b number

abbrev pub mandatory_digit : Reason → Number → Parse Number
mandatory_digit reason number = do
  b ← advance
  if is_digit b then digits (push b number) else err (invalid_byte b reason)

unfoldable pub visit_number_fractional_part : Number → Parse Number
visit_number_fractional_part number = do
  next ← peek
  if is_some_and (λ b. b == b'.') next
      then (do advance; mandatory_digit no_fraction_digit (push b'.' number))
      else pure number

-- The byte after the `e`.
unfoldable pub exponent_digits : ℕ → Number → Parse Number
exponent_digits b number =
    if b == b'+' || b == b'-'
    then mandatory_digit no_exponent_digit (push b number)
    else if is_digit b
    then digits (push b number)
    else err (invalid_byte b no_exponent)

unfoldable pub visit_number_exponent_part : Number → Parse Number
visit_number_exponent_part number = do
  next ← peek
  if is_some_and (λ b. b == b'e' || b == b'E') next
      then (do advance; b ← advance; exponent_digits b (push b'e' number))
      else pure number

abbrev pub no_digit_left : Number → Option ℕ → Parse Number
no_digit_left number none = pure number
no_digit_left number (some b) =
    if is_digit b then err (invalid_byte b (digit_left number)) else pure number

unfoldable pub visit_number : Parse Number
visit_number = do
  whole ← visit_number_integral_part []
  fractional ← visit_number_fractional_part whole
  number ← visit_number_exponent_part fractional
  next ← peek
  no_digit_left number next
