-- ===== src/Json/Parser/Strings.antt =====
-- Scanning strings (json/src/lib.rs, `visit_string` and `collect_hex`). A string is a native text; a
-- push adds a character at its end.
pub mod Pending
pub mod Sound
pub mod Reads
pub mod Whole
use Prim.Native.Char.{Char, code}
use Prim.Native.String.{◌++◌ as text_append}
use miniraft.Prelude.{
  ℕ, zero, suc, ◌+◌, ◌-◌, ◌*◌, ◌/◌, ◌%◌, Bool, true, false, Option, none, some, List, [], ◌∷◌, ◌&&◌,
  ◌==◌, ltb, leb, not, if◌then◌else◌, length, String,
}
use miniraft.Json.Unicode.{from_u32, decode_pair, from_utf8}
use miniraft.Json.Parser.{
  Parser, Parse, out_of_fuel, panicked, pure, ◌>>=◌, ◌>>◌, err, or_err, expect, assert, advance,
  invalid_byte, no_quote, control_character, invalid_escape_sequence, invalid_hex_character,
  unicode_error, UnicodeError, invalid_utf16, unpaired_high, unpaired_low, invalid_utf8,
  invalid_utf8_start,
}

abbrev pub push_char : Char → String → String
push_char c s = text_append s (String.◌∷◌ c String.[])

-- `char::to_digit(16)` of the character with this byte as its number.
abbrev pub hex_digit : ℕ → Option ℕ
hex_digit b =
    if leb b'0' b && leb b b'9'
    then some (b - b'0')
    else if leb b'a' b && leb b b'f'
    then some (b - b'a' + 10)
    else if leb b'A' b && leb b b'F'
    then some (b - b'A' + 10)
    else none

-- `collect_hex` into a `u16`: the rounds left, and the value so far.
unfoldable pub collect_hex : ℕ → ℕ → Parse ℕ
collect_hex zero val = pure val
collect_hex (suc rounds) val = do
  b ← advance
  digit ← or_err (invalid_hex_character b) (hex_digit b)
  collect_hex rounds (val * 16 % 65536 + digit)

unfoldable pub collect_unicode_escape_hex_digits : Parse ℕ
collect_unicode_escape_hex_digits = collect_hex 4 0

abbrev pub get_pending : Parse (Option ℕ)
get_pending p = pure p.pending_high_surrogate p

abbrev pub set_pending : Option ℕ → Parse (Unit {0})
set_pending unit p = pure tt (record p { pending_high_surrogate = unit })

abbrev pub is_none : Option ℕ → Bool
is_none none = true
is_none (some n) = false

-- The turn's first part: a pending high surrogate takes its partner.
unfoldable pub pair_pending : String → Option ℕ → Parse String
pair_pending s none = pure s
pair_pending s (some high) = do
  b ← advance
  u ← advance
  if b == 92 && u == b'u'
      then (do
        low ← collect_unicode_escape_hex_digits
        c ← or_err (unicode_error (invalid_utf16 high)) (decode_pair high low)
        set_pending none
        pure (push_char c s))
      else err (unicode_error (unpaired_high high))

-- What is done with a unit of UTF-16.
unfoldable pub push_unit : ℕ → String → Parse String
push_unit codepoint s =
    if leb 55296 codepoint && leb codepoint 56319
    then (do assert (not (codepoint == 0)); set_pending (some codepoint); pure s)
    else if leb 56320 codepoint && leb codepoint 57343
    then err (unicode_error (unpaired_low codepoint))
    else (do c ← expect (from_u32 codepoint); pure (push_char c s))

-- After `\u`.
unfoldable pub visit_unicode_escape : String → Parse String
visit_unicode_escape s = do
  codepoint ← collect_unicode_escape_hex_digits
  pending ← get_pending
  assert (is_none pending)
  push_unit codepoint s

-- The character of a one-letter escape.
abbrev pub simple_escape : ℕ → Option ℕ
simple_escape b =
    if b == 34
    then some 34
    else if b == 92
    then some 92
    else if b == b'/'
    then some b'/'
    else if b == b'b'
    then some 8
    else if b == b'f'
    then some 12
    else if b == b'n'
    then some 10
    else if b == b'r'
    then some 13
    else if b == b't'
    then some 9
    else none

-- After a backslash.
unfoldable pub visit_escape : ℕ → String → Parse String
visit_escape b s = if b == b'u' then visit_unicode_escape s else (do
  escaped ← or_err (invalid_escape_sequence b) (simple_escape b)
  c ← expect (from_u32 escaped)
  pure (push_char c s))

-- The bytes after the first one of a character.
unfoldable pub rest_of_char : ℕ → Parse (List ℕ)
rest_of_char b =
    if b / 32 % 2 == 0
    then (do x ← advance; pure (x ∷ []))
    else if b / 16 % 2 == 0
    then (do x ← advance; y ← advance; pure (x ∷ y ∷ []))
    else if b / 8 % 2 == 0
    then (do x ← advance; y ← advance; z ← advance; pure (x ∷ y ∷ z ∷ []))
    else err (unicode_error (invalid_utf8_start b))

-- A byte that is no quote and no backslash.
unfoldable pub visit_plain : ℕ → String → Parse String
visit_plain b s =
    if ltb b 32
    then err (invalid_byte b control_character)
    else if ltb b 128
    then (do c ← expect (from_u32 b); pure (push_char c s))
    else (do
      assert (not (b / 128 % 2 == 0))
      others ← rest_of_char b
      c ← or_err (unicode_error invalid_utf8) (from_utf8 (b ∷ others))
      pure (push_char c s))

unfoldable pub visit_char : ℕ → String → Parse String
visit_char b s = if b == 92 then (do e ← advance; visit_escape e s) else visit_plain b s

unfoldable pub string_loop : ℕ → String → Parse String
string_loop zero s p = out_of_fuel
string_loop (suc fuel) s p =
    let again = λ (b : ℕ) (t : String). (do u ← visit_char b t; string_loop fuel u) in
    (do
      pending ← get_pending
      t ← pair_pending s pending
      b ← advance
      if b == 34 then pure t else again b t)
      p

unfoldable pub visit_string : Parse String
visit_string = do
  b ← advance
  if b == 34
      then (λ p. string_loop (suc (length p.stream)) String.[] p)
      else err (invalid_byte b no_quote)
