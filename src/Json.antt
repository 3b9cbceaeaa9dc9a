-- ===== src/Json.antt =====
-- JSON values, their numbers, and the two traits of serialization (json/src/lib.rs, `Value` and
-- `Number`, and json/src/serde/mod.rs). `SerializeError` has no values, so serialization is total. An
-- object is a list of fields in an unspecified order; a number's text is the list of its bytes.
pub mod Numbers
pub mod Serde
pub mod Unicode
pub mod Grammar
pub mod Valid
pub mod Parser
pub mod Printer
pub mod Diff
use miniraft.Prelude.{
  ℕ, suc, zero, ◌+◌, ◌-◌, ◌*◌, ◌/◌, ◌%◌, ◌^◌, Bool, true, false, Option, none, some, List, [], ◌∷◌,
  ltb, leb, ◌==◌, if◌then◌else◌, ◌&&◌, String, str_eq,
}
use miniraft.Prelude.Results.{Result, done, failed, ◌>>=◌}

mutual
  pub data Value : Type 0 where
    string : String → Value
    number : List ℕ → Value
    object : Entries → Value
    array : Values → Value
    bool : Bool → Value
    null : Value

  pub data Entries : Type 0 where
    no_entry : Entries
    entry : String → Value → Entries → Entries

  pub data Values : Type 0 where
    no_value : Values
    item : Value → Values → Values

pub data DeserializeError : Type 0 where
  invalid_value : Value → DeserializeError
  invalid_integer : DeserializeError

abbrev pub Parsed : Type 0 → Type 0
Parsed A = Result DeserializeError A

-- `HashMap::insert`, `get` and the map that `remove` leaves.
abbrev pub insert_entry : String → Value → Entries → Entries
insert_entry k v no_entry = entry k v no_entry
insert_entry k v (entry j w m) = if str_eq j k then entry k v m else entry j w (insert_entry k v m)

abbrev pub get_entry : String → Entries → Option Value
get_entry k no_entry = none
get_entry k (entry j w m) = if str_eq j k then some w else get_entry k m

abbrev pub remove_entry : String → Entries → Entries
remove_entry k no_entry = no_entry
remove_entry k (entry j w m) = if str_eq j k then remove_entry k m else entry j w (remove_entry k m)

-- `u64::to_string`, on fuel: the decimal digits before the text.
unfoldable pub decimal : ℕ → ℕ → List ℕ → List ℕ
decimal zero n text = text
decimal (suc fuel) n text =
    let longer = decimal fuel (n / 10) ((48 + n % 10) ∷ text) in
    if ltb n 10 then (48 + n) ∷ text else longer

-- A `u64` has at most twenty digits.
abbrev pub print_u64 : ℕ → List ℕ
print_u64 n = decimal 20 n []

-- The digits of `u64::from_str`, each of them with its checks.
unfoldable pub parse_digits : ℕ → List ℕ → Parsed ℕ
parse_digits n [] = done n
parse_digits n (d ∷ ds) =
    let rest = parse_digits (n * 10 + (d - 48)) ds in
    if leb 48 d && ltb d 58
    then (if ltb (n * 10 + (d - 48)) (2 ^ 64) then rest else failed invalid_integer)
    else failed invalid_integer

-- `u64::from_str`: a plus sign may come first, and one digit at least follows.
unfoldable pub parse_u64 : List ℕ → Parsed ℕ
parse_u64 [] = failed invalid_integer
parse_u64 (d ∷ []) = parse_digits 0 (d ∷ [])
parse_u64 (d ∷ e ∷ ds) = if d == 43 then parse_digits 0 (e ∷ ds) else parse_digits 0 (d ∷ e ∷ ds)
