-- ===== src/Json/Serde.antt =====
-- The traits `Serialize` and `Deserialize` and their implementations for the standard types
-- (json/src/serde/mod.rs).
use miniraft.Prelude.{
  ℕ, ◌<◌, ◌^◌, ◌≡◌, ◌≢◌, refl, ◌∙◌, Bool, Option, none, some, List, [], ◌∷◌, map, String,
}
use miniraft.Prelude.Results.{done, failed, ◌>>=◌}
use miniraft.Json.{
  Value, string, number, object, array, bool, null, Values, no_value, item, Parsed, invalid_value,
  print_u64, parse_u64,
}
use miniraft.Json.Numbers.{parse_u64-print_u64}

pub record Serde (A : Type 0) : Type 0 where
  pub serialize : A → Value
  pub deserialize : Value → Parsed A

abbrev pub serialize : {A : Type 0} ⦃s : Serde A⦄ → A → Value
serialize ⦃s⦄ = s.serialize

abbrev pub deserialize : {A : Type 0} ⦃s : Serde A⦄ → Value → Parsed A
deserialize ⦃s⦄ = s.deserialize

-- What is deserialized is what `kept` leaves of what was serialized, for the values that the type of
-- the source has; and nothing but an option is serialized to null.
pub record RoundTrips {A : Type 0} (s : Serde A) (kept : A → A) : Type 1 where
  pub IsValid : A → Type 0
  pub round_trip : (a : A) → IsValid a → s.deserialize (s.serialize a) ≡ done (kept a)
  pub not_null : (a : A) → s.serialize a ≢ null

abbrev pub whole : {A : Type 0} → A → A
whole a = a

abbrev pub serialize_bool : Bool → Value
serialize_bool b = bool b

unfoldable pub deserialize_bool : Value → Parsed Bool
deserialize_bool (bool b) = done b
deserialize_bool value = failed (invalid_value value)

abbrev pub serialize_string : String → Value
serialize_string s = string s

unfoldable pub deserialize_string : Value → Parsed String
deserialize_string (string s) = done s
deserialize_string value = failed (invalid_value value)

abbrev pub serialize_u64 : ℕ → Value
serialize_u64 n = number (print_u64 n)

unfoldable pub deserialize_u64 : Value → Parsed ℕ
deserialize_u64 (number text) = parse_u64 text
deserialize_u64 value = failed (invalid_value value)

module _ {A : Type 0} (s : Serde A) where
  abbrev pub serialize_items : List A → Values
  serialize_items [] = no_value
  serialize_items (x ∷ xs) = item (s.serialize x) (serialize_items xs)

  -- `[T]` and `Vec<T>`.
  abbrev pub serialize_list : List A → Value
  serialize_list xs = array (serialize_items xs)

  -- The `collect` of results: the first error ends it.
  unfoldable pub deserialize_items : Values → Parsed (List A)
  deserialize_items no_value = done []
  deserialize_items (item v vs) =
      s.deserialize v >>= λ x. deserialize_items vs >>= λ xs. done (x ∷ xs)

  unfoldable pub deserialize_list : Value → Parsed (List A)
  deserialize_list (array vs) = deserialize_items vs
  deserialize_list value = failed (invalid_value value)

  abbrev pub serialize_option : Option A → Value
  serialize_option (some x) = s.serialize x
  serialize_option none = null

  unfoldable pub deserialize_option : Value → Parsed (Option A)
  deserialize_option null = done none
  deserialize_option value = s.deserialize value >>= λ x. done (some x)

instance abbrev pub bool_serde : Serde Bool
bool_serde = record { serialize = serialize_bool; deserialize = deserialize_bool }

instance abbrev pub string_serde : Serde String
string_serde = record { serialize = serialize_string; deserialize = deserialize_string }

instance abbrev pub u64_serde : Serde ℕ
u64_serde = record { serialize = serialize_u64; deserialize = deserialize_u64 }

instance abbrev pub list_serde : {A : Type 0} ⦃s : Serde A⦄ → Serde (List A)
list_serde ⦃s⦄ = record { serialize = serialize_list s; deserialize = deserialize_list s }

instance abbrev pub option_serde : {A : Type 0} ⦃s : Serde A⦄ → Serde (Option A)
option_serde ⦃s⦄ = record { serialize = serialize_option s; deserialize = deserialize_option s }

pub null-string : (x : String) → string x ≢ null
null-string x e = cc

pub null-number : (x : List ℕ) → number x ≢ null
null-number x e = cc

pub bool_round_trip : (b : Bool) → deserialize_bool (serialize_bool b) ≡ done b
unfolding deserialize_bool
bool_round_trip b = refl

pub string_round_trip : (s : String) → deserialize_string (serialize_string s) ≡ done s
unfolding deserialize_string
string_round_trip s = refl

pub u64_round_trip : (n : ℕ) → n < 2 ^ 64 → deserialize_u64 (serialize_u64 n) ≡ done n
unfolding deserialize_u64
u64_round_trip n h = parse_u64-print_u64 n h

abbrev pub string_trips : RoundTrips string_serde whole
string_trips = record {
  IsValid = λ s. Unit {0};
  round_trip = λ s h. string_round_trip s;
  not_null = null-string;
}

abbrev pub u64_trips : RoundTrips u64_serde whole
u64_trips = record {
  IsValid = λ n. n < 2 ^ 64;
  round_trip = u64_round_trip;
  not_null = λ n. null-number (print_u64 n);
}

module _ {A : Type 0} {s : Serde A} {kept : A → A} (r : RoundTrips s kept) where
  abbrev pub AllValid : List A → Type 0
  AllValid [] = Unit {0}
  AllValid (x ∷ xs) = r.IsValid x × AllValid xs

  items_round_trip :
      (xs : List A) → AllValid xs → deserialize_items s (serialize_items s xs) ≡ done (map kept xs)
  unfolding deserialize_items
  items_round_trip [] h = refl
  items_round_trip (x ∷ xs) h = rw (r.round_trip x h.0, items_round_trip xs h.1) refl

  -- A list of valid elements is read back.
  pub list_round_trip :
      (xs : List A) → AllValid xs → deserialize_list s (serialize_list s xs) ≡ done (map kept xs)
  unfolding deserialize_list
  list_round_trip xs h = items_round_trip xs h

module _ {A : Type 0} {s : Serde A} (r : RoundTrips s whole) where
  abbrev pub OptValid : Option A → Type 0
  OptValid none = Unit {0}
  OptValid (some x) = r.IsValid x

  option_deserialize :
      (v : Value) → v ≢ null → deserialize_option s v ≡ (s.deserialize v >>= λ x. done (some x))
  unfolding deserialize_option
  option_deserialize null n = absurd (n refl)
  option_deserialize (string x) n = refl
  option_deserialize (number x) n = refl
  option_deserialize (object x) n = refl
  option_deserialize (array x) n = refl
  option_deserialize (bool x) n = refl

  -- An option is read back, since no value of its content is written as null.
  pub option_round_trip :
      (o : Option A) → OptValid o → deserialize_option s (serialize_option s o) ≡ done o
  unfolding deserialize_option
  option_round_trip none h = refl
  option_round_trip (some x) h =
      option_deserialize (s.serialize x) (r.not_null x) ∙ rw (r.round_trip x h) refl
