-- ===== src/Json/Printer/Joined.antt =====
-- Entries and items in the order of their text (json/src/lib.rs, `visit_object` and `visit_array`).
use miniraft.Prelude.{◌≡◌, refl, ap, arith, false, none, String, str_eq, eq_iff}
use miniraft.Json.{Value, Entries, Values, no_entry, entry, no_value, item, get_entry, insert_entry}
use miniraft.Json.Valid.{IsValid, EntriesValid}
use miniraft.Json.Parser.Values.{add_item}

abbrev pub join : Entries → Entries → Entries
join no_entry m = m
join (entry k v l) m = entry k v (join l m)

abbrev pub join_items : Values → Values → Values
join_items no_value vs = vs
join_items (item v us) vs = item v (join_items us vs)

absent_key :
    (j k : String) (v : Value) (l m : Entries)
    → get_entry j (join l (entry k v m)) ≡ none
    → str_eq j k ≡ false
absent_key j k v no_entry m h = ground (arith, eq_iff j k, eq_iff k j)
absent_key j k v (entry i w l) m h = ground (arith, absent_key j k v l m)

-- A key that is new is added at the end.
pub insert_entry-join :
    (k : String) (v : Value) (l m : Entries)
    → EntriesValid (join l (entry k v m))
    → insert_entry k v l ≡ join l (entry k v no_entry)
unfolding IsValid
insert_entry-join k v no_entry m h = refl
insert_entry-join k v (entry j w l) m (absent, valid, others) =
    rw (absent_key j k v l m absent) (ap (entry j w) (insert_entry-join k v l m others))

pub join_assoc :
    (l : Entries) (k : String) (v : Value) (m : Entries)
    → join (join l (entry k v no_entry)) m ≡ join l (entry k v m)
join_assoc no_entry k v m = refl
join_assoc (entry j w l) k v m = ap (entry j w) (join_assoc l k v m)

pub add_item-join_items :
    (us : Values) (v : Value) (vs : Values)
    → join_items (add_item v us) vs ≡ join_items us (item v vs)
add_item-join_items no_value v vs = refl
add_item-join_items (item u us) v vs = ap (item u) (add_item-join_items us v vs)

pub join_items-none : (vs : Values) → join_items vs no_value ≡ vs
join_items-none no_value = refl
join_items-none (item v vs) = ap (item v) (join_items-none vs)
