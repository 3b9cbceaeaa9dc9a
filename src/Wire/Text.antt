-- ===== src/Wire/Text.antt =====
-- The JSON of messages, commands and the persistent state survives as a text (raft/src/rpc.rs,
-- raft/src/serde/mod.rs, raft/src/persistence.rs, json/src/lib.rs).
pub mod Messages
use Prim.Native.Nat.{max}
use miniraft.Prelude.{
  ℕ, suc, ◌+◌, ◌≤◌, ◌<◌, ◌^◌, ◌≡◌, refl, arith, Bool, true, false, Option, none, some, List, [],
  ◌∷◌, String, str_eq, if◌then◌else◌, Bool-cases, inl, inr, ap, ◌∙◌,
}
use miniraft.Prelude.Results.{Result, done, failed}
use miniraft.Json.{
  Value, Entries, Values, string, number, object, array, bool, null, no_entry, entry, no_value,
  item, insert_entry, print_u64,
}
use miniraft.Json.Valid.{
  height, entries_height, items_height, IsValid, EntriesValid, ItemsValid,
  insert_entry-EntriesValid, insert_entry-height,
}
use miniraft.Json.Printer.{print}
use miniraft.Json.Printer.Decimal.{print_u64-IsNumber}
use miniraft.Json.Printer.Layout.{PlainKeys, EntriesPlain, ItemsPlain}
use miniraft.Json.Printer.RoundTrip.{parse-print}
use miniraft.Json.Parser.{ParseResult, parsed}
use miniraft.Json.Parser.Reads.{source, at}
use miniraft.Json.Parser.Values.{parse}
use miniraft.Json.Parser.Strings.Whole.{AllPlain}
use miniraft.Json.Serde.{
  Serde, RoundTrips, whole, AllValid, OptValid, serialize_u64, serialize_items, serialize_list,
  serialize_option,
}
use miniraft.Wire.{inserted, object_of}

-- A value of so many levels that its text gives back.
pub record Spelled (levels : ℕ) (v : Value) : Type 0 where
  pub valid : IsValid v
  pub plain : PlainKeys v
  pub room : height v ≤ levels

pub Spelled-weaken : {m n : ℕ} {v : Value} → m ≤ n → Spelled m v → Spelled n v
Spelled-weaken h s = record { valid = s.valid; plain = s.plain; room = omega (arith, s.room) }

pub Spelled-parse :
    {levels : ℕ} (v : Value)
    → Spelled levels v
    → levels < 256
    → (n : ℕ) × (parse (source (print v) []) ≡ parsed v (at [] n 0))
Spelled-parse v s h = parse-print v s.valid s.plain (omega (arith, s.room))

pub string-Spelled : (s : String) → Spelled 1 (string s)
unfolding IsValid PlainKeys height
string-Spelled s = record { valid = tt; plain = tt; room = omega arith }

pub bool-Spelled : (b : Bool) → Spelled 1 (bool b)
unfolding IsValid PlainKeys height
bool-Spelled b = record { valid = tt; plain = tt; room = omega arith }

pub null-Spelled : Spelled 1 null
unfolding IsValid PlainKeys height
null-Spelled = record { valid = tt; plain = tt; room = omega arith }

pub u64-Spelled : (n : ℕ) → n < 2 ^ 64 → Spelled 1 (serialize_u64 n)
unfolding IsValid PlainKeys height
u64-Spelled n h = record { valid = print_u64-IsNumber n h; plain = tt; room = omega arith }

insert_entry-EntriesPlain :
    (k : String) (v : Value) (m : Entries)
    → AllPlain k
    → PlainKeys v
    → EntriesPlain m
    → EntriesPlain (insert_entry k v m)
unfolding PlainKeys
insert_entry-EntriesPlain k v no_entry hk hv h = (hk, hv, tt)
insert_entry-EntriesPlain k v (entry i w m) hk hv (hi, hw, hm) = elim (Bool-cases (str_eq i k)) [
  | inl same ↦ rw same (hk, hv, hm)
  | inr differs ↦ rw differs (hi, hw, insert_entry-EntriesPlain k v m hk hv hm)
]

-- Fields with plain keys, of so many levels.
pub data FieldsSpelled (levels : ℕ) : List (String × Value) → Type 0 where
  no_field : FieldsSpelled levels []
  field :
      {m : ℕ} {v : Value} {fields : List (String × Value)} (k : String)
      → AllPlain k
      → Spelled m v
      → m ≤ levels
      → FieldsSpelled levels fields
      → FieldsSpelled levels ((k, v) ∷ fields)

inserted-Spelled :
    {levels : ℕ} (m : Entries) {fields : List (String × Value)}
    → Spelled (suc levels) (object m)
    → FieldsSpelled levels fields
    → Spelled (suc levels) (object (inserted m fields))
unfolding IsValid PlainKeys height
inserted-Spelled m s no_field = s
inserted-Spelled m s (field {v} k plain_k one shallow more) =
    inserted-Spelled (insert_entry k v m)
      (record {
        valid = insert_entry-EntriesValid k v m one.valid s.valid;
        plain = insert_entry-EntriesPlain k v m plain_k one.plain s.plain;
        room = omega (arith, insert_entry-height k v m, one.room, s.room, shallow);
      })
      more

pub object_of-Spelled :
    {levels : ℕ} {fields : List (String × Value)}
    → FieldsSpelled levels fields
    → Spelled (suc levels) (object_of fields)
unfolding IsValid PlainKeys height
object_of-Spelled more =
    inserted-Spelled no_entry (record { valid = tt; plain = tt; room = omega arith }) more

-- What serializes to values of so many levels, where `P` holds.
abbrev pub Spells : {A : Type 0} → Serde A → (A → Type 0) → ℕ → Type 0
Spells {A} s P levels = (a : A) → P a → Spelled levels (s.serialize a)

module _ {A : Type 0} {s : Serde A} {kept : A → A} (r : RoundTrips s kept) {levels : ℕ}
    (spells : Spells s r.IsValid levels) where
  items-Spelled :
      (xs : List A)
      → AllValid r xs
      → ItemsValid (serialize_items s xs)
        × ItemsPlain (serialize_items s xs)
        × (items_height (serialize_items s xs) ≤ levels)
  unfolding IsValid PlainKeys height
  items-Spelled [] h = (tt, tt, omega arith)
  items-Spelled (x ∷ xs) (hx, hxs) =
      let one = spells x hx in
      let (valid, plain, room) = items-Spelled xs hxs in
      ((one.valid, valid), (one.plain, plain), omega (arith, one.room, room))

  pub list-Spelled : (xs : List A) → AllValid r xs → Spelled (suc levels) (serialize_list s xs)
  unfolding IsValid PlainKeys height
  list-Spelled xs h =
      let (valid, plain, room) = items-Spelled xs h in
      record { valid = valid; plain = plain; room = omega (arith, room) }

module _ {A : Type 0} {s : Serde A} (r : RoundTrips s whole) {levels : ℕ}
    (spells : Spells s r.IsValid levels) where
  pub option-Spelled :
      (o : Option A) → OptValid r o → 1 ≤ levels → Spelled levels (serialize_option s o)
  option-Spelled none h pos = Spelled-weaken pos null-Spelled
  option-Spelled (some x) h pos = spells x h
