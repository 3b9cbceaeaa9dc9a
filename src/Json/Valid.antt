-- ===== src/Json/Valid.antt =====
-- The JSON values that a parser may come to: numbers of the grammar, and keys that occur once
-- (json/src/lib.rs, `Value` and `Number`).
use Prim.Native.Nat.{max}
use miniraft.Prelude.{
  ℕ, suc, ◌≤◌, ◌<◌, ◌≡◌, refl, arith, none, some, false, if◌then◌else◌, String, str_eq, eq_iff,
  Bool-cases, inl, inr,
}
use miniraft.Json.{
  Value, Entries, Values, string, number, object, array, bool, null, no_entry, entry, no_value,
  item, get_entry, insert_entry,
}
use miniraft.Json.Grammar.{IsNumber}
use miniraft.Json.Parser.Values.{add_item}

-- How deep values are nested, the value itself included.
unfoldable mutual
  pub height : Value → ℕ
  height (object m) = suc (entries_height m)
  height (array vs) = suc (items_height vs)
  height (string s) = 1
  height (number n) = 1
  height (bool b) = 1
  height null = 1

  pub entries_height : Entries → ℕ
  entries_height no_entry = 0
  entries_height (entry k v m) = max (height v) (entries_height m)

  pub items_height : Values → ℕ
  items_height no_value = 0
  items_height (item v vs) = max (height v) (items_height vs)

pub height_pos : (v : Value) → 0 < height v
unfolding height
height_pos (object m) = omega arith
height_pos _ = omega arith

unfoldable mutual
  pub IsValid : Value → Type 0
  IsValid (object m) = EntriesValid m
  IsValid (array vs) = ItemsValid vs
  IsValid (number n) = IsNumber n
  IsValid (string s) = Unit {0}
  IsValid (bool b) = Unit {0}
  IsValid null = Unit {0}

  pub EntriesValid : Entries → Type 0
  EntriesValid no_entry = Unit {0}
  EntriesValid (entry k v m) = (get_entry k m ≡ none) × IsValid v × EntriesValid m

  pub ItemsValid : Values → Type 0
  ItemsValid no_value = Unit {0}
  ItemsValid (item v vs) = IsValid v × ItemsValid vs

pub get_entry-insert_entry :
    (k j : String) (v : Value) (m : Entries)
    → get_entry j (insert_entry k v m) ≡ (if str_eq k j then some v else get_entry j m)
get_entry-insert_entry k j v no_entry = refl
get_entry-insert_entry k j v (entry i w m) =
    ground (arith, eq_iff k j, eq_iff i k, eq_iff i j, get_entry-insert_entry k j v m)

absent_after :
    (i k : String) (v : Value) (m : Entries)
    → str_eq i k ≡ false
    → get_entry i m ≡ none
    → get_entry i (insert_entry k v m) ≡ none
absent_after i k v m ne h = ground (arith, get_entry-insert_entry k i v m, eq_iff i k, eq_iff k i)

pub insert_entry-EntriesValid :
    (k : String) (v : Value) (m : Entries)
    → IsValid v
    → EntriesValid m
    → EntriesValid (insert_entry k v m)
unfolding IsValid
insert_entry-EntriesValid k v no_entry hv h = (refl, hv, tt)
insert_entry-EntriesValid k v (entry i w m) hv (absent, hw, hm) = elim (Bool-cases (str_eq i k)) [
  | inl same ↦ rw same (rw ((eq_iff i k).0 same) at absent, hv, hm)
  | inr differs ↦
      rw differs (absent_after i k v m differs absent, hw, insert_entry-EntriesValid k v m hv hm)
]

pub insert_entry-height :
    (k : String) (v : Value) (m : Entries)
    → entries_height (insert_entry k v m) ≤ max (height v) (entries_height m)
unfolding height
insert_entry-height k v no_entry = omega arith
insert_entry-height k v (entry i w m) = elim (Bool-cases (str_eq i k)) [
  | inl same ↦ rw same (omega arith)
  | inr differs ↦ rw differs (omega (arith, insert_entry-height k v m))
]

pub add_item-ItemsValid :
    (v : Value) (vs : Values) → IsValid v → ItemsValid vs → ItemsValid (add_item v vs)
unfolding IsValid
add_item-ItemsValid v no_value hv h = (hv, tt)
add_item-ItemsValid v (item w ws) hv (hw, hws) = (hw, add_item-ItemsValid v ws hv hws)

pub add_item-height :
    (v : Value) (vs : Values) → items_height (add_item v vs) ≡ max (height v) (items_height vs)
unfolding height
add_item-height v no_value = omega arith
add_item-height v (item w ws) = omega (arith, add_item-height v ws)
