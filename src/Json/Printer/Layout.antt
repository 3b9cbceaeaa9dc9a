-- ===== src/Json/Printer/Layout.antt =====
-- The text of objects and arrays, entry by entry and item by item (json/src/lib.rs, `Display for
-- Value`).
use mathlib.Core.List.{append_assoc}
use miniraft.Prelude.{ℕ, ◌≡◌, refl, ap, ◌∙◌, false, List, [], ◌∷◌, ◌++◌, String}
use miniraft.Json.{
  Value, Entries, Values, string, number, object, array, bool, null, no_entry, entry, no_value,
  item,
}
use miniraft.Json.Printer.{print, print_entries, print_items, print_key}
use miniraft.Json.Parser.{Read, byte}
use miniraft.Json.Parser.Strings.Whole.{AllPlain}
use miniraft.Json.Parser.Reads.{source, source-append}

-- No key has a character that would have to be escaped.
unfoldable mutual
  pub PlainKeys : Value → Type 0
  PlainKeys (object m) = EntriesPlain m
  PlainKeys (array vs) = ItemsPlain vs
  PlainKeys (string s) = Unit {0}
  PlainKeys (number n) = Unit {0}
  PlainKeys (bool b) = Unit {0}
  PlainKeys null = Unit {0}

  pub EntriesPlain : Entries → Type 0
  EntriesPlain no_entry = Unit {0}
  EntriesPlain (entry k v m) = AllPlain k × PlainKeys v × EntriesPlain m

  pub ItemsPlain : Values → Type 0
  ItemsPlain no_value = Unit {0}
  ItemsPlain (item v vs) = PlainKeys v × ItemsPlain vs

-- What stands after an entry, and after an item.
unfoldable pub entries_left : Entries → List Read → List Read
entries_left no_entry rest = byte b'}' ∷ rest
entries_left (entry k v m) rest =
    byte b',' ∷ byte b' ' ∷ source (print_key k) (source (print v) (entries_left m rest))

unfoldable pub items_left : Values → List Read → List Read
items_left no_value rest = byte b']' ∷ rest
items_left (item v vs) rest = byte b',' ∷ byte b' ' ∷ source (print v) (items_left vs rest)

-- A text of three parts, and one of two.
source-parts :
    (x y z close : List ℕ) (rest : List Read) {left : List Read}
    → source (z ++ close) rest ≡ left
    → source ((x ++ (y ++ z)) ++ close) rest ≡ source x (source y left)
source-parts x y z close rest e =
    ap (λ t. source t rest)
      (append_assoc x (y ++ z) close ∙ ap (λ t. x ++ t) (append_assoc y z close))
    ∙ source-append x (y ++ (z ++ close)) rest
    ∙ ap (source x) (source-append y (z ++ close) rest ∙ ap (source y) e)

print_entries-left :
    (m : Entries) (rest : List Read)
    → source (print_entries false m ++ b'}' ∷ []) rest ≡ entries_left m rest
unfolding print entries_left
print_entries-left no_entry rest = refl
print_entries-left (entry k v m) rest =
    ap (λ s. byte b',' ∷ byte b' ' ∷ s)
      (source-parts (print_key k) (print v) (print_entries false m) (b'}' ∷ []) rest
        (print_entries-left m rest))

print_items-left :
    (vs : Values) (rest : List Read)
    → source (print_items false vs ++ b']' ∷ []) rest ≡ items_left vs rest
unfolding print items_left
print_items-left no_value rest = refl
print_items-left (item v vs) rest =
    ap (λ s. byte b',' ∷ byte b' ' ∷ s)
      (source-parts [] (print v) (print_items false vs) (b']' ∷ []) rest (print_items-left vs rest))

pub print_object-left :
    (k : String) (v : Value) (m : Entries) (rest : List Read)
    → source (print (object (entry k v m))) rest
      ≡ byte b'{' ∷ source (print_key k) (source (print v) (entries_left m rest))
unfolding print
print_object-left k v m rest = ap (◌∷◌ (byte b'{')) (
    source-parts (print_key k) (print v) (print_entries false m) (b'}' ∷ []) rest
      (print_entries-left m rest))

pub print_array-left :
    (v : Value) (vs : Values) (rest : List Read)
    → source (print (array (item v vs))) rest ≡ byte b'[' ∷ source (print v) (items_left vs rest)
unfolding print
print_array-left v vs rest =
    ap (◌∷◌ (byte b'['))
      (source-parts [] (print v) (print_items false vs) (b']' ∷ []) rest (print_items-left vs rest))
