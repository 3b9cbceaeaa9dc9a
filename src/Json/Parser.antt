-- ===== src/Json/Parser.antt =====
-- The streaming JSON parser (json/src/lib.rs, `Parser`, and json/src/error.rs): its state, its
-- errors and the calls that read the stream. The stream is the list of what the reader has still to
-- give, where `broken` is an I/O error. The reasons of an invalid byte are constructors, and the
-- payload of a UTF-8 error is left out. A parser is not used after it has failed, so a failure keeps
-- no state. Loops run on fuel.
pub mod Numbers
pub mod Strings
pub mod Values
pub mod Ends
pub mod Reads
use miniraft.Prelude.{
  ℕ, zero, suc, ◌+◌, Bool, true, false, Option, none, some, List, [], ◌∷◌, ◌||◌, ◌==◌,
  if◌then◌else◌, length,
}

pub data Read : Type 0 where
  byte : ℕ → Read
  broken : Read

pub data Reason : Type 0 where
  excessive_data no_value no_quote control_character after_key after_pair after_element : Reason
  no_digit_after_minus no_fraction_digit no_exponent_digit no_exponent : Reason
  in_bool in_null : ℕ → ℕ → Reason
  digit_left : List ℕ → Reason

pub data UnicodeError : Type 0 where
  invalid_utf16 unpaired_high unpaired_low invalid_utf8_start : ℕ → UnicodeError
  invalid_utf8 : UnicodeError

pub data Kind : Type 0 where
  io unexpected_eof : Kind
  invalid_byte : ℕ → Reason → Kind
  invalid_escape_sequence invalid_hex_character nesting_too_deep : ℕ → Kind
  unicode_error : UnicodeError → Kind

pub record Error : Type 0 where
  pub kind : Kind
  pub pos : ℕ

pub record Parser : Type 0 where
  pub stream : List Read
  pub stream_pos : ℕ
  pub pending_high_surrogate : Option ℕ
  pub depth : ℕ

-- `panicked` is a failed `assert!`, `expect` or `unreachable!`; `out_of_fuel` has no counterpart.
pub data ParseResult (A : Type 0) : Type 0 where
  parsed : A → Parser → ParseResult A
  rejected : Error → ParseResult A
  panicked out_of_fuel : ParseResult A

abbrev pub bind : {A B : Type 0} → ParseResult A → (A → Parser → ParseResult B) → ParseResult B
bind (parsed a p) f = f a p
bind (rejected e) f = rejected e
bind panicked f = panicked
bind out_of_fuel f = out_of_fuel

abbrev pub Parse : Type 0 → Type 0
Parse A = Parser → ParseResult A

abbrev pub pure : {A : Type 0} → A → Parse A
pure a p = parsed a p

infixl 1 ◌>>=◌ ◌>>◌
abbrev pub ◌>>=◌ : {A B : Type 0} → Parse A → (A → Parse B) → Parse B
call >>= next = λ p. bind (call p) next

abbrev pub ◌>>◌ : {A B : Type 0} → Parse A → Parse B → Parse B
call >> after = call >>= λ _. after

abbrev pub assert : Bool → Parse (Unit {0})
assert true p = parsed tt p
assert false p = panicked

-- `Err(self.err(kind))`.
abbrev pub err : {A : Type 0} → Kind → Parse A
err kind p = rejected (record { kind = kind; pos = p.stream_pos })

-- A `Result` or an option, with the error or the panic on failure.
abbrev pub or_err : {A : Type 0} → Kind → Option A → Parse A
or_err kind none = err kind
or_err kind (some a) = pure a

abbrev pub expect : {A : Type 0} → Option A → Parse A
expect none p = panicked
expect (some a) p = parsed a p

abbrev pub advance_over : List Read → Parse ℕ
advance_over [] p = err unexpected_eof p
advance_over (broken ∷ rest) p = err io p
advance_over (byte b ∷ rest) p =
    parsed b (record p { stream = rest; stream_pos = p.stream_pos + 1 })

abbrev pub advance : Parse ℕ
advance p = advance_over p.stream p

-- The next byte, where the source matches `peek` with `Some(Ok(byte))`.
abbrev pub peek_at : List Read → Option ℕ
peek_at [] = none
peek_at (broken ∷ rest) = none
peek_at (byte b ∷ rest) = some b

abbrev pub peek : Parse (Option ℕ)
peek p = parsed (peek_at p.stream) p

-- A round more than there is to read.
abbrev pub rounds : Parse ℕ
rounds p = parsed (suc (length p.stream)) p

abbrev pub is_some_and : (ℕ → Bool) → Option ℕ → Bool
is_some_and test none = false
is_some_and test (some b) = test b

abbrev pub is_json_whitespace : ℕ → Bool
is_json_whitespace c = c == b' ' || (c == 10 || (c == 13 || c == 9))

unfoldable pub skip_loop : ℕ → Parse (Unit {0})
skip_loop zero p = out_of_fuel
skip_loop (suc fuel) p =
    let again = (do advance; skip_loop fuel) in
    (do next ← peek; if is_some_and is_json_whitespace next then again else pure tt) p

unfoldable pub skip_whitespace : Parse (Unit {0})
skip_whitespace p = skip_loop (suc (length p.stream)) p

-- `Parser::new`.
abbrev pub new : List Read → Parser
new reader = record { stream = reader; stream_pos = 0; pending_high_surrogate = none; depth = 0 }
