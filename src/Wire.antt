-- ===== src/Wire.antt =====
-- The JSON form of the domain types (raft/src/serde/mod.rs), and what the deserializers of objects
-- share: the fields that they take out of the map, and the error with the fields that are left.
pub mod Domain
pub mod Messages
pub mod Clients
pub mod Commands
pub mod RoundTrip
pub mod Text
use miniraft.Prelude.{ℕ, Option, none, some, List, [], ◌∷◌, String, str_eq, if◌then◌else◌}
use miniraft.Prelude.Results.{Result, done, failed, ◌>>=◌}
use miniraft.Json.{
  Value, string, number, object, array, bool, null, Entries, no_entry, Parsed, invalid_value,
  insert_entry, get_entry, remove_entry,
}

-- A map into which the fields are inserted one after the other.
abbrev pub inserted : Entries → List (String × Value) → Entries
inserted m [] = m
inserted m ((k, v) ∷ fields) = inserted (insert_entry k v m) fields

abbrev pub object_of : List (String × Value) → Value
object_of fields = object (inserted no_entry fields)

abbrev pub refused : {A : Type 0} → Entries → Parsed A
refused m = failed (invalid_value (object m))

module _ {A : Type 0} where
  abbrev pub take_one : String → Entries → (Value → Parsed A) → Parsed A
  take_one j m f = elim (get_entry j m) [ none ↦ refused (remove_entry j m) | some v ↦ f v ]

  abbrev pub take_two : String → String → Entries → (Value → Value → Parsed A) → Parsed A
  take_two j k m f =
      let m' = remove_entry k (remove_entry j m) in
      elim (get_entry j m) [
        | none ↦ refused m'
        | some v ↦ elim (get_entry k m) [ none ↦ refused m' | some w ↦ f v w ]
      ]

  abbrev pub take_three :
      String → String → String → Entries → (Value → Value → Value → Parsed A) → Parsed A
  take_three j k l m f =
      let m' = remove_entry l (remove_entry k (remove_entry j m)) in
      elim (get_entry j m) [
        | none ↦ refused m'
        | some v ↦ elim (get_entry k m) [
          | none ↦ refused m'
          | some w ↦ elim (get_entry l m) [ none ↦ refused m' | some x ↦ f v w x ]
        ]
      ]

  -- The first field and three more.
  abbrev pub take_four :
      String
      → String
      → String
      → String
      → Entries
      → (Value → Value → Value → Value → Parsed A)
      → Parsed A
  take_four i j k l m f =
      let m' = remove_entry l (remove_entry k (remove_entry j (remove_entry i m))) in
      elim (get_entry i m) [
        | none ↦ refused m'
        | some u ↦ elim (get_entry j m) [
          | none ↦ refused m'
          | some v ↦ elim (get_entry k m) [
            | none ↦ refused m'
            | some w ↦ elim (get_entry l m) [ none ↦ refused m' | some x ↦ f u v w x ]
          ]
        ]
      ]

  -- `if let Value::Object(mut body) = value`, and the text of the field that names the kind.
  abbrev pub tagged : String → (String → Entries → Parsed A) → Value → Parsed A
  tagged tag f (object m) = elim (get_entry tag m) [
    | none ↦ refused (remove_entry tag m)
    | some v ↦ elim v [
      | string kind ↦ f kind (remove_entry tag m)
      | number text ↦ refused (remove_entry tag m)
      | object n ↦ refused (remove_entry tag m)
      | array vs ↦ refused (remove_entry tag m)
      | bool b ↦ refused (remove_entry tag m)
      | null ↦ refused (remove_entry tag m)
    ]
  ]
  tagged tag f value = failed (invalid_value value)
