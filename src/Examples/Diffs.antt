-- ===== src/Examples/Diffs.antt =====
-- Differences of JSON documents (json/src/diff.rs).
use miniraft.Prelude.{ℕ, ◌≡◌, ◌<◌, ◌↔◌, refl, arith, Bool, true, Option, none, List, [], ◌∷◌}
use miniraft.Json.{
  Value, number, object, array, bool, null, no_entry, entry, no_value, item, parse_u64,
  parse_digits,
}
use miniraft.Json.Valid.{height}
use miniraft.Json.Diff.{
  only_left, only_right, differ, diff, diff_values, number_eq, parse_i64, number_text, joined_keys,
  sort_by_loc, insert_sorted, with_index, finding,
}
use miniraft.Json.Diff.Same.{Same, diff-Same}

abbrev no_floats : List ℕ → List ℕ → Option Bool
no_floats a b = none

abbrev naught : Value
naught = number (b'0' ∷ [])

abbrev a_document : Value
a_document =
    object (entry "b" (array (item naught (item null no_value))) (entry "a" (bool true) no_entry))

-- In another order, with another spelling of the number.
abbrev the_same : Value
the_same = object (
    entry "a" (bool true)
      (entry "b" (array (item (number (b'-' ∷ b'0' ∷ [])) (item null no_value))) no_entry))

a_document-height : height a_document < 257
unfolding height
a_document-height = omega arith

diff-Same_example : (diff no_floats a_document the_same ≡ []) ↔ Same no_floats a_document the_same
diff-Same_example = diff-Same no_floats a_document the_same a_document-height

nothing_found : diff no_floats a_document the_same ≡ []
unfolding diff diff_values number_eq parse_u64 parse_digits parse_i64 sort_by_loc with_index
nothing_found = refl

abbrev another : Value
another =
    object (entry "c" null (entry "b" (array (item (number (b'-' ∷ b'7' ∷ [])) no_value)) no_entry))

all_found :
    diff no_floats a_document another
    ≡ finding ("a" ∷ []) (only_left (bool true))
      ∷ finding ("b[0]" ∷ []) (differ naught (number (b'-' ∷ b'7' ∷ [])))
      ∷ finding ("b[1]" ∷ []) (only_left null)
      ∷ finding ("c" ∷ []) (only_right null)
      ∷ []
unfolding diff diff_values number_eq parse_u64 parse_digits parse_i64 sort_by_loc insert_sorted
    with_index number_text joined_keys
all_found = refl
