-- ===== src/Json/Printer.antt =====
-- The printed text of a JSON value, as UTF-8 (json/src/lib.rs, `Display for Value`).
pub mod Joined
pub mod Decimal
pub mod Layout
pub mod Starts
pub mod RoundTrip
pub mod OneLine
use Prim.Native.Char.{code}
use miniraft.Prelude.{
  ℕ, ◌+◌, ◌-◌, ◌/◌, ◌%◌, Bool, true, false, List, [], ◌∷◌, ◌++◌, ◌&&◌, ◌||◌, ◌==◌, ltb, leb,
  if◌then◌else◌, String,
}
use miniraft.Json.{
  Value, Entries, Values, string, number, object, array, bool, null, no_entry, entry, no_value,
  item,
}
use miniraft.Json.Unicode.{encode_char, encode_text}

-- `char::is_control`.
abbrev pub is_control : ℕ → Bool
is_control n = ltb n 32 || (leb 127 n && ltb n 160)

abbrev pub hex_symbol : ℕ → ℕ
hex_symbol d = if ltb d 10 then 48 + d else 87 + d

-- `{:04x}` of a number below 2^16.
abbrev pub hex4 : ℕ → List ℕ
hex4 n =
    hex_symbol (n / 4096 % 16)
    ∷ hex_symbol (n / 256 % 16)
    ∷ hex_symbol (n / 16 % 16)
    ∷ hex_symbol (n % 16)
    ∷ []

unfoldable pub escape : ℕ → List ℕ
escape n =
    if n == 34
    then 92 ∷ 34 ∷ []
    else if n == 92
    then 92 ∷ 92 ∷ []
    else if n == 10
    then 92 ∷ b'n' ∷ []
    else if n == 9
    then 92 ∷ b't' ∷ []
    else if n == 13
    then 92 ∷ b'r' ∷ []
    else if n == 8
    then 92 ∷ b'b' ∷ []
    else if n == 12
    then 92 ∷ b'f' ∷ []
    else if is_control n
    then 92 ∷ b'u' ∷ hex4 n
    else encode_char n

unfoldable pub escape_text : String → List ℕ
escape_text String.[] = []
escape_text (String.◌∷◌ c s) = escape (code c) ++ escape_text s

abbrev pub separator : Bool → List ℕ
separator first = if first then [] else b',' ∷ b' ' ∷ []

abbrev pub print_bool : Bool → List ℕ
print_bool true = b't' ∷ b'r' ∷ b'u' ∷ b'e' ∷ []
print_bool false = b'f' ∷ b'a' ∷ b'l' ∷ b's' ∷ b'e' ∷ []

-- A key is written as it is.
abbrev pub print_key : String → List ℕ
print_key k = 34 ∷ (encode_text k ++ 34 ∷ b':' ∷ b' ' ∷ [])

-- The flag says that nothing has been written of the object or the array.
unfoldable mutual
  pub print : Value → List ℕ
  print (string s) = 34 ∷ (escape_text s ++ 34 ∷ [])
  print (number n) = n
  print (object m) = b'{' ∷ (print_entries true m ++ b'}' ∷ [])
  print (array vs) = b'[' ∷ (print_items true vs ++ b']' ∷ [])
  print (bool b) = print_bool b
  print null = b'n' ∷ b'u' ∷ b'l' ∷ b'l' ∷ []

  pub print_entries : Bool → Entries → List ℕ
  print_entries first no_entry = []
  print_entries first (entry k v m) =
      separator first ++ (print_key k ++ (print v ++ print_entries false m))

  pub print_items : Bool → Values → List ℕ
  print_items first no_value = []
  print_items first (item v vs) = separator first ++ (print v ++ print_items false vs)
