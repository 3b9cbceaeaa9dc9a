-- ===== src/Json/Parser/Values.antt =====
-- Scanning values (json/src/lib.rs, `visit_value` and the calls that it leads to, and `parse`).
pub mod Sound
pub mod Around
pub mod Total
pub mod Reads
use miniraft.Prelude.{
  ℕ, zero, suc, ◌+◌, ◌-◌, ◌*◌, Bool, true, false, Option, none, some, List, [], ◌∷◌, ◌||◌, ◌==◌,
  leb, if◌then◌else◌, length, String,
}
use miniraft.Json.{
  Value, Entries, Values, string, number, object, array, bool, null, no_entry, no_value, item,
  insert_entry,
}
use miniraft.Json.Parser
use miniraft.Json.Parser.{
  Read, broken, Parser, Parse, ParseResult, parsed, out_of_fuel, panicked, pure, bind, ◌>>=◌, ◌>>◌,
  err, assert, advance, peek, is_some_and, skip_whitespace, Reason, invalid_byte, excessive_data,
  after_key, after_pair, after_element, in_bool, in_null, unexpected_eof, io, nesting_too_deep, new,
}
use miniraft.Json.Parser.Numbers.{visit_number, is_digit}
use miniraft.Json.Parser.Strings.{visit_string}

abbrev pub max_depth : ℕ
max_depth = 256

-- The loops of `visit_bool` and `visit_null` over the bytes that have to come.
unfoldable pub scan : (ℕ → ℕ → Reason) → List ℕ → Parse (Unit {0})
scan reason [] = pure tt
scan reason (expected ∷ more) = do
  got ← advance
  if expected == got then scan reason more else err (invalid_byte got (reason expected got))

unfoldable pub visit_bool : Parse Bool
visit_bool = do
  b ← advance
  if b == b't'
      then (do scan in_bool (b'r' ∷ b'u' ∷ b'e' ∷ []); pure true)
      else if b == b'f'
      then (do scan in_bool (b'a' ∷ b'l' ∷ b's' ∷ b'e' ∷ []); pure false)
      else λ p. panicked

unfoldable pub visit_null : Parse (Unit {0})
visit_null = scan in_null (b'n' ∷ b'u' ∷ b'l' ∷ b'l' ∷ [])

-- `array.push(value)`.
abbrev pub add_item : Value → Values → Values
add_item v no_value = item v no_value
add_item v (item w ws) = item w (add_item v ws)

-- `visit_object` and `visit_array` up to their loops.
unfoldable pub visit_object : Parse Entries → Parse Entries
visit_object members = do
  b ← advance
  assert (b == b'{')
  skip_whitespace
  next ← peek
  if is_some_and (λ c. c == b'}') next then (do advance; pure no_entry) else members

unfoldable pub visit_array : Parse Values → Parse Values
visit_array elements = do
  b ← advance
  assert (b == b'[')
  skip_whitespace
  next ← peek
  if is_some_and (λ c. c == b']') next then (do advance; pure no_value) else elements

-- What the first byte of a value says about it.
abbrev pub value_at : Parse Entries → Parse Values → Option ℕ → Parse Value
value_at members elements none = err unexpected_eof
value_at members elements (some b) =
    if b == 34
    then (do s ← visit_string; pure (string s))
    else if b == b'{'
    then (do m ← visit_object members; pure (object m))
    else if b == b'['
    then (do vs ← visit_array elements; pure (array vs))
    else if b == b't' || b == b'f'
    then (do value ← visit_bool; pure (bool value))
    else if b == b'n'
    then (do visit_null; pure null)
    else if b == b'-' || is_digit b
    then (do n ← visit_number; pure (number n))
    else err (invalid_byte b Parser.no_value)

-- `self.depth += 1`, with the check, and `self.depth -= 1`.
abbrev pub leave : Value → Parse Value
leave v p = pure v (record p { depth = p.depth - 1 })

unfoldable pub enter : Parse (Unit {0})
enter p =
    let deeper = record p { depth = p.depth + 1 } in
    if leb max_depth (p.depth + 1)
    then err (nesting_too_deep (p.depth + 1)) deeper
    else pure tt deeper

-- A turn of the loop of `visit_object`, before and after the value, and one of `visit_array`.
unfoldable pub visit_key : Parse String
visit_key = do
  key ← visit_string
  skip_whitespace
  b ← advance
  if b == b':' then pure key else err (invalid_byte b after_key)

abbrev pub after_entry : Entries → Parse Entries → Parse Entries
after_entry m more = do
  b ← advance
  if b == b'}'
      then pure m
      else if b == b','
      then (do skip_whitespace; more)
      else err (invalid_byte b after_pair)

abbrev pub after_item : Values → Parse Values → Parse Values
after_item vs more = do
  b ← advance
  if b == b']' then pure vs else if b == b',' then more else err (invalid_byte b after_element)

-- `visit_value` between the changes of the depth.
unfoldable pub visit_spaced : Parse Entries → Parse Values → Parse Value
visit_spaced members elements = do
  skip_whitespace
  next ← peek
  v ← value_at members elements next
  skip_whitespace
  pure v

unfoldable mutual
  pub visit_value : ℕ → Parse Value
  visit_value zero p = out_of_fuel
  visit_value (suc fuel) p =
      (do
        enter
        v ← visit_spaced (visit_members fuel no_entry) (visit_elements fuel no_value)
        leave v)
        p

  pub visit_members : ℕ → Entries → Parse Entries
  visit_members zero m p = out_of_fuel
  visit_members (suc fuel) m p =
      (do
        key ← visit_key
        v ← visit_value fuel
        after_entry (insert_entry key v m) (visit_members fuel (insert_entry key v m)))
        p

  pub visit_elements : ℕ → Values → Parse Values
  visit_elements zero vs p = out_of_fuel
  visit_elements (suc fuel) vs p =
      (do v ← visit_value fuel; after_item (add_item v vs) (visit_elements fuel (add_item v vs))) p

-- After the value nothing may be left.
abbrev pub end : Value → List Read → Parse Value
end v [] = pure v
end v (broken ∷ rest) = err io
end v (Parser.byte more ∷ rest) = err (invalid_byte more excessive_data)

-- `Parser::parse`.
unfoldable pub parse_with : Parse Value
parse_with p = bind (visit_value (2 * length p.stream + 2) p) λ v q. end v q.stream q

unfoldable pub parse : List Read → ParseResult Value
unfolding parse_with
parse reader = parse_with (new reader)
