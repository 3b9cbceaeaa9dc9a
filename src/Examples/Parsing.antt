-- ===== src/Examples/Parsing.antt =====
-- The theorems on the JSON parser and printer and on texts, at concrete inputs, and runs of the
-- parser (json/src/lib.rs, raft/src/rpc.rs, raft/src/persistence.rs).
use miniraft.Prelude.{ℕ, ◌≡◌, ◌<◌, refl, arith, true, some, List, [], ◌∷◌, map, String, ok}
use miniraft.Prelude.Results.{done}
use miniraft.Json.{
  Value, string, number, object, array, bool, null, no_entry, entry, no_value, item,
}
use miniraft.Json.Unicode.{encode_text, encode_char, from_u32, from_utf8, decode_pair}
use miniraft.Json.Grammar.{IsNumber, parts, negative, positive, fraction, unsigned}
use miniraft.Json.Valid.{IsValid, height}
use miniraft.Json.Printer.{print}
use miniraft.Json.Printer.Layout.{PlainKeys}
use miniraft.Json.Printer.RoundTrip.{parse-print}
use miniraft.Json.Parser.{
  Read, byte, ParseResult, parsed, rejected, Kind, invalid_byte, unicode_error, unpaired_high,
  digit_left, after_key, skip_whitespace, skip_loop,
}
use miniraft.Json.Parser.Reads.{source, at}
use miniraft.Json.Parser.Numbers.{
  visit_number, digits, digits_loop, integral_digits, negative_digits, visit_number_integral_part,
  visit_number_fractional_part, visit_number_exponent_part, exponent_digits,
}
use miniraft.Json.Parser.Strings.{
  visit_string, string_loop, visit_char, visit_plain, visit_escape, visit_unicode_escape, push_unit,
  pair_pending, collect_hex, collect_unicode_escape_hex_digits, rest_of_char,
}
use miniraft.Json.Parser.Strings.Whole.{AllPlain}
use miniraft.Json.Parser.Values.{
  parse, parse_with, visit_value, visit_spaced, visit_key, enter, visit_object, visit_array,
  visit_bool, visit_null, scan,
}
use miniraft.Json.Parser.Values.Total.{Settles, parse-Settles}
use miniraft.Json.Serde.{string_serde, string_trips, u64_serde, u64_trips}
use miniraft.Kv.{Command, write, stored}
use miniraft.Kv.Answers.{requested}
use miniraft.Raft.State.{Persistent}
use miniraft.Wire.RoundTrip.Restored.{command_serde}
use miniraft.Wire.Text.{string-Spelled, u64-Spelled}
use miniraft.Persist.Storage.{persist, restore}
use miniraft.Persist.Restored.{file, restore-persist}
use miniraft.Examples.{n3}

abbrev read : String → List Read
unfolding encode_text encode_char
read s = map byte (encode_text s)

-- What a caller sees of a run.
data Answer : Type 0 where
  value : Value → Answer
  fault : Kind → ℕ → Answer
  no_answer : Answer

abbrev answer : ParseResult Value → Answer
answer (parsed v p) = value v
answer (rejected e) = fault e.kind e.pos
answer ParseResult.panicked = no_answer
answer ParseResult.out_of_fuel = no_answer

abbrev amount : List ℕ
amount = b'-' ∷ b'1' ∷ b'.' ∷ b'5' ∷ b'e' ∷ b'9' ∷ []

abbrev document : Value
document = object (
    entry "a" (array (item (number amount) (item null (item (bool true) no_value))))
      (entry "" (string "x\"\n") no_entry))

-- A run of the parser, with all that it calls.
abbrev run : String → Answer
unfolding encode_text encode_char from_u32 from_utf8 decode_pair skip_whitespace skip_loop
    visit_number digits digits_loop integral_digits negative_digits visit_number_integral_part
    visit_number_fractional_part visit_number_exponent_part exponent_digits visit_string string_loop
    visit_char visit_plain visit_escape visit_unicode_escape push_unit pair_pending collect_hex
    collect_unicode_escape_hex_digits rest_of_char parse parse_with visit_value visit_spaced
    visit_key enter visit_object visit_array visit_bool visit_null scan
run s = answer (parse (read s))

document_read : run " {\"a\" : [-1.5E9, null , true],\"\":\"x\\\"\\n\"} " ≡ value document
unfolding run
document_read = refl

leading_zero : run "[1, 01]" ≡ fault (invalid_byte b'1' (digit_left (b'0' ∷ []))) 5
unfolding run
leading_zero = refl

pair : run "\"\\ud834\\udd1e\"" ≡ value (string "𝄞")
unfolding run
pair = refl

unpaired : run "\"\\ud834x1\"" ≡ fault (unicode_error (unpaired_high 55348)) 9
unfolding run
unpaired = refl

-- The printer does not escape the one key of this object, so its text is no JSON.
abbrev quoted : Value
quoted = object (entry "\"" null no_entry)

quoted_text : source (print quoted) [] ≡ read "{\"\"\": null}"
unfolding print encode_text encode_char read
quoted_text = refl

quoted_key : run "{\"\"\": null}" ≡ fault (invalid_byte 34 after_key) 4
unfolding run
quoted_key = refl

abbrev broken_text : List Read
unfolding read
broken_text = read "[1, 01]"

parse-Settles_example : Settles broken_text (parse broken_text)
unfolding broken_text
parse-Settles_example = parse-Settles broken_text (omega arith)

amount-IsNumber : IsNumber amount
amount-IsNumber =
    parts (negative (positive {ds = []} (omega arith) (omega arith) tt))
      (fraction {d = b'5'} {ds = []} (omega arith) tt)
      (unsigned {d = b'9'} {ds = []} (omega arith) tt) refl

document_valid : IsValid document
unfolding IsValid
document_valid = (refl, (amount-IsNumber, (tt, (tt, tt))), (refl, tt, tt))

document_plain : PlainKeys document
unfolding PlainKeys AllPlain
document_plain = (omega arith, (tt, (tt, (tt, tt))), (tt, tt, tt))

document-height : height document < 256
unfolding height
document-height = omega arith

parse-print_example : (n : ℕ) × (parse (source (print document) []) ≡ parsed document (at [] n 0))
parse-print_example = parse-print document document_valid document_plain document-height

abbrev a_command : Command String ℕ
a_command = requested n3 40 7 (write "x" 1)

abbrev a_saved : Persistent (Command String ℕ)
a_saved = record {
  current_term = 2;
  voted_for = some n3;
  log = record { cmd = a_command; term = 2 } ∷ [];
}

restore-persist_example :
    restore
      (command_serde string_trips u64_trips)
      (file (persist (command_serde string_trips u64_trips) a_saved))
    ≡ ok (done (record a_saved { log = record { cmd = stored a_command; term = 2 } ∷ [] }))
restore-persist_example =
    restore-persist string_trips u64_trips (λ s h. string-Spelled s) u64-Spelled a_saved
      (omega arith) (((tt, omega arith), omega arith), tt)
