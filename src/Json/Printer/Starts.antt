-- ===== src/Json/Printer/Starts.antt =====
-- How the printed text of a value begins, and what follows it (json/src/lib.rs).
use miniraft.Prelude.{
  ℕ, suc, ◌+◌, ◌*◌, ◌≤◌, ◌<◌, ◌≡◌, refl, ap, arith, Bool, true, false, ◌==◌, List, [], ◌∷◌, length,
  String,
}
use miniraft.Json.{
  Value, Entries, Values, string, number, object, array, bool, null, no_entry, entry, no_value,
  item,
}
use miniraft.Json.Unicode.{encode_text}
use miniraft.Json.Valid.{IsValid}
use miniraft.Json.Printer.{print, print_key}
use miniraft.Json.Printer.Layout.{entries_left, items_left}
use miniraft.Json.Parser.{
  Read, byte, ParseResult, peek_at, is_some_and, is_json_whitespace, skip_whitespace, skip_loop,
}
use miniraft.Json.Parser.Strings.Whole.{AllPlain, visit_string-encode_text}
use miniraft.Json.Parser.Values.{visit_key}
use miniraft.Json.Parser.Values.Reads.{gap, number_at-Comes}
use miniraft.Json.Parser.Reads.{source, source-append, at, Comes, Comes-bind, Stops}

-- A key, with its colon.
pub visit_key-print_key :
    (k : String) (s : List Read) (n d : ℕ)
    → AllPlain k
    → Comes (visit_key (at (source (print_key k) s) n d)) k (byte b' ' ∷ s) d
unfolding visit_key skip_whitespace skip_loop
visit_key-print_key k s n d plain =
    rw (ap (◌∷◌ (byte 34)) (source-append (encode_text k) (34 ∷ b':' ∷ b' ' ∷ []) s)) (
      Comes-bind _ (visit_string-encode_text k (byte b':' ∷ byte b' ' ∷ s) n d plain)
        λ m. (m + 1, refl))

-- What a printed value begins with is no white space and does not end an array.
pub print_head :
    (v : Value) (rest : List Read)
    → IsValid v
    → Stops rest
    → (is_some_and is_json_whitespace (peek_at (source (print v) rest)) ≡ false)
      × (is_some_and (λ b. b == b']') (peek_at (source (print v) rest)) ≡ false)
unfolding print IsValid
print_head (number t) rest valid stop =
    let (solid, no_close, _) =
      number_at-Comes (λ p. ParseResult.panicked) (λ p. ParseResult.panicked) t rest valid stop in
    (solid, no_close)
print_head (string s) rest valid stop = (refl, refl)
print_head (object m) rest valid stop = (refl, refl)
print_head (array vs) rest valid stop = (refl, refl)
print_head (bool true) rest valid stop = (refl, refl)
print_head (bool false) rest valid stop = (refl, refl)
print_head null rest valid stop = (refl, refl)

pub entries_left-Stops : (m : Entries) (rest : List Read) → Stops (entries_left m rest)
unfolding entries_left
entries_left-Stops no_entry rest = refl
entries_left-Stops (entry k v m) rest = refl

pub items_left-Stops : (vs : Values) (rest : List Read) → Stops (items_left vs rest)
unfolding items_left
items_left-Stops no_value rest = refl
items_left-Stops (item v vs) rest = refl

pub shorter :
    (spaced : Bool) (s : List Read) (fuel : ℕ)
    → 2 * length (gap spaced s) < suc fuel
    → 2 * length s < suc fuel
shorter true s fuel h = omega arith
shorter false s fuel h = h

pub length-gap : (spaced : Bool) (s : List Read) → length s ≤ length (gap spaced s)
length-gap true s = omega arith
length-gap false s = omega arith
