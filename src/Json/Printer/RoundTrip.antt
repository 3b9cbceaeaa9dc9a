-- ===== src/Json/Printer/RoundTrip.antt =====
-- Parsing a printed value (json/src/lib.rs).
use miniraft.Prelude.{
  ℕ, zero, suc, ◌+◌, ◌*◌, ◌<◌, ◌≡◌, refl, sym, subst, ap, ◌∙◌, arith, Bool, true, false, List, [],
  ◌∷◌, length, String,
}
use miniraft.Json.{
  Value, Entries, Values, string, number, object, array, bool, null, no_entry, entry, no_value,
  item,
}
use miniraft.Json.Valid.{
  height, height_pos, entries_height, items_height, IsValid, EntriesValid, ItemsValid,
}
use miniraft.Json.Printer.{print, print_key, escape_text}
use miniraft.Json.Printer.Layout.{
  PlainKeys, EntriesPlain, ItemsPlain, entries_left, items_left, print_object-left,
  print_array-left,
}
use miniraft.Json.Printer.Joined.{
  join, join_items, insert_entry-join, join_assoc, add_item-join_items, join_items-none,
}
use miniraft.Json.Parser.{Read, byte, Parse, parsed, peek_at, skip_whitespace, skip_loop}
use miniraft.Json.Parser.Strings.Whole.{visit_string-escape_text}
use miniraft.Json.Parser.Values.{
  scan, visit_bool, visit_null, visit_object, visit_array, value_at, visit_spaced, add_item,
  visit_value, visit_members, visit_elements, parse_with, parse,
}
use miniraft.Json.Parser.Values.Reads.{gap, visit_spaced-Comes, enter-Comes, number_at-Comes}
use miniraft.Json.Parser.Reads.{
  source, source-append, length-source, at, Comes, Comes-bind, Comes-eq, Stops,
  skip_whitespace-Comes, skip_newline-Comes,
}
use miniraft.Json.Printer.Starts.{
  visit_key-print_key, print_head, items_left-Stops, shorter, length-gap,
}

-- With so much fuel the loops read what is left of an object or an array.
abbrev EntriesRead : ℕ → Entries → Type 0
EntriesRead fuel done =
    (k : String) (v : Value) (m : Entries) (rest : List Read) (n d : ℕ)
    → 2 * length (source (print_key k) (source (print v) (entries_left m rest))) + 1 < fuel
    → EntriesValid (join done (entry k v m))
    → EntriesValid (entry k v m)
    → EntriesPlain (entry k v m)
    → d + entries_height (entry k v m) < 256
    → Comes
        (visit_members fuel done
          (at (source (print_key k) (source (print v) (entries_left m rest))) n d))
        (join done (entry k v m)) rest d

abbrev ItemsRead : ℕ → Values → Type 0
ItemsRead fuel done =
    (v : Value) (vs : Values) (spaced : Bool) (rest : List Read) (n d : ℕ)
    → 2 * length (gap spaced (source (print v) (items_left vs rest))) + 1 < fuel
    → ItemsValid (item v vs)
    → ItemsPlain (item v vs)
    → d + items_height (item v vs) < 256
    → Comes (visit_elements fuel done (at (gap spaced (source (print v) (items_left vs rest))) n d))
        (join_items done (item v vs)) rest d

value_at-relaid :
    (members : Parse Entries) (elements : Parse Values) {v : Value} {s t rest : List Read} (n d : ℕ)
    → s ≡ t
    → Comes (value_at members elements (peek_at t) (at t n d)) v rest d
    → Comes (value_at members elements (peek_at s) (at s n d)) v rest d
value_at-relaid members elements {v} {rest = rest} n d e read =
    subst (λ u. Comes (value_at members elements (peek_at u) (at u n d)) v rest d) (sym e) read

at-Comes :
    (fuel : ℕ) (entries-Comes : EntriesRead fuel no_entry) (items-Comes : ItemsRead fuel no_value)
    (v : Value) (rest : List Read) (n d : ℕ)
    → 2 * length (source (print v) rest) < suc fuel
    → IsValid v
    → PlainKeys v
    → d + height v < 257
    → Stops rest
    → Comes
        (value_at
          (visit_members fuel no_entry)
          (visit_elements fuel no_value)
          (peek_at (source (print v) rest))
          (at (source (print v) rest) n d))
        v
        rest
        d
unfolding print visit_object visit_array visit_bool visit_null scan skip_whitespace skip_loop
    IsValid PlainKeys height entries_left items_left
at-Comes fuel entries-Comes items-Comes (string s) rest n d enough valid plain room stop =
    rw (ap (◌∷◌ (byte 34)) (source-append (escape_text s) (34 ∷ []) rest))
      (Comes-bind _ (visit_string-escape_text s rest n d) λ m. (m, refl))
at-Comes fuel entries-Comes items-Comes (number t) rest n d enough valid plain room stop =
    (number_at-Comes _ _ t rest valid stop).2 n d
at-Comes fuel entries-Comes items-Comes (object no_entry) rest n d enough valid plain room stop =
    (n + 1 + 1, refl)
at-Comes fuel entries-Comes items-Comes (object (entry k v m)) rest n d enough valid plain room
      stop =
    value_at-relaid (visit_members fuel no_entry) (visit_elements fuel no_value) n d
      (print_object-left k v m rest)
      (Comes-bind (λ m'. λ q. parsed (object m') q)
        (entries-Comes k v m rest (n + 1) d
          (omega (arith, ap length (print_object-left k v m rest), enough)) valid valid plain
          (omega arith))
        λ l. (l, refl))
at-Comes fuel entries-Comes items-Comes (array no_value) rest n d enough valid plain room stop =
    (n + 1 + 1, refl)
at-Comes fuel entries-Comes items-Comes (array (item v vs)) rest n d enough valid plain room stop =
    let (solid, no_close) = print_head v (items_left vs rest) valid.0 (items_left-Stops vs rest) in
    value_at-relaid (visit_members fuel no_entry) (visit_elements fuel no_value) n d
      (print_array-left v vs rest)
      (rw (solid, no_close)
        (Comes-bind (λ vs'. λ q. parsed (array vs') q)
          (items-Comes v vs false rest (n + 1) d
            (omega (arith, ap length (print_array-left v vs rest), enough)) valid plain
            (omega arith))
          λ l. (l, refl)))
at-Comes fuel entries-Comes items-Comes (bool true) rest n d enough valid plain room stop =
    (n + 1 + 1 + 1 + 1, refl)
at-Comes fuel entries-Comes items-Comes (bool false) rest n d enough valid plain room stop =
    (n + 1 + 1 + 1 + 1 + 1, refl)
at-Comes fuel entries-Comes items-Comes null rest n d enough valid plain room stop =
    (n + 1 + 1 + 1 + 1, refl)

mutual
  unfolding visit_value print visit_object visit_array visit_bool visit_null scan skip_whitespace
      skip_loop IsValid PlainKeys height entries_left items_left

  value-Comes :
      (fuel : ℕ) (v : Value) (spaced : Bool) (rest after : List Read) (n d : ℕ)
      → 2 * length (gap spaced (source (print v) rest)) < fuel
      → IsValid v
      → PlainKeys v
      → d + height v < 256
      → Stops rest
      → ((m : ℕ) → Comes (skip_whitespace (at rest m (d + 1))) tt after (d + 1))
      → Comes (visit_value fuel (at (gap spaced (source (print v) rest)) n d)) v after d
  value-Comes zero v spaced rest after n d enough valid plain room stop skip = absurd (omega arith)
  value-Comes (suc fuel) v spaced rest after n d enough valid plain room stop skip =
      enter-Comes (visit_spaced (visit_members fuel no_entry) (visit_elements fuel no_value))
        (gap spaced (source (print v) rest)) after n d (omega (arith, height_pos v))
        λ m.
          visit_spaced-Comes (visit_members fuel no_entry) (visit_elements fuel no_value) spaced
            (source (print v) rest) rest after m (d + 1) (print_head v rest valid stop).0
            (λ k.
              at-Comes fuel (entries-Comes fuel no_entry) (items-Comes fuel no_value) v rest k
                (d + 1) (shorter spaced (source (print v) rest) fuel enough) valid plain
                (omega arith) stop)
            skip

  entries-Comes : (fuel : ℕ) (done : Entries) → EntriesRead fuel done
  entries-Comes zero done k v m rest n d enough all valid plain room = absurd (omega arith)
  entries-Comes (suc fuel) done k v no_entry rest n d enough all (_, valid, _) (plain_k, plain, _)
        room =
      let left = entries_left no_entry rest in
      Comes-bind _ (visit_key-print_key k (source (print v) left) n d plain_k) λ m₁.
        Comes-bind _
          (value-Comes fuel v true left left m₁ d
            (omega (arith, length-source (print_key k) (source (print v) left))) valid plain
            (omega arith) refl (λ m. (m, refl)))
          λ m₂. Comes-eq (insert_entry-join k v done no_entry all) (m₂ + 1, refl)
  entries-Comes (suc fuel) done k v (entry j w m) rest n d enough all (_, valid, valid_m)
        (plain_k, plain, plain_m) room =
      let left = entries_left (entry j w m) rest in
      Comes-bind _ (visit_key-print_key k (source (print v) left) n d plain_k) λ m₁.
        Comes-bind _
          (value-Comes fuel v true left left m₁ d
            (omega (arith, length-source (print_key k) (source (print v) left))) valid plain
            (omega arith) refl (λ m. (m, refl)))
          λ m₂. rw (insert_entry-join k v done (entry j w m) all) (
            Comes-eq (join_assoc done k v (entry j w m)) (
              entries-Comes fuel (join done (entry k v no_entry)) j w m rest (m₂ + 1 + 1) d
                (omega (
                  arith,
                  length-source (print_key k) (source (print v) left),
                  length-source (print v) left,
                ))
                (subst EntriesValid (sym (join_assoc done k v (entry j w m))) all) valid_m plain_m
                (omega arith)))

  items-Comes : (fuel : ℕ) (done : Values) → ItemsRead fuel done
  items-Comes zero done v vs spaced rest n d enough valid plain room = absurd (omega arith)
  items-Comes (suc fuel) done v no_value spaced rest n d enough (valid, _) (plain, _) room =
      Comes-bind _
        (value-Comes fuel v spaced (items_left no_value rest) (items_left no_value rest) n d
          (omega arith) valid plain (omega arith) refl (λ m. (m, refl)))
        λ m.
          Comes-eq (sym (join_items-none (add_item v done)) ∙ add_item-join_items done v no_value)
            (m + 1, refl)
  items-Comes (suc fuel) done v (item w ws) spaced rest n d enough (valid, valid_ws)
        (plain, plain_ws) room =
      let left = items_left (item w ws) rest in
      Comes-bind _
        (value-Comes fuel v spaced left left n d (omega arith) valid plain (omega arith) refl
          (λ m. (m, refl)))
        λ m. Comes-eq (add_item-join_items done v (item w ws)) (
          items-Comes fuel (add_item v done) w ws true rest (m + 1) d
            (omega (arith, length-gap spaced (source (print v) left), length-source (print v) left))
            valid_ws plain_ws (omega arith))

-- A value is parsed from its printed text if its numbers have the JSON grammar, no object has a
-- key twice, no key has a character to escape, and it has less than 256 levels.
pub parse-print :
    (v : Value)
    → IsValid v
    → PlainKeys v
    → height v < 256
    → (n : ℕ) × (parse (source (print v) []) ≡ parsed v (at [] n 0))
unfolding parse parse_with
parse-print v valid plain room =
    Comes-bind _
      (value-Comes (2 * length (source (print v) []) + 2) v false [] [] 0 0 (omega arith) valid
        plain (omega arith) refl (λ m. skip_whitespace-Comes [] m 1 refl))
      λ n. (n, refl)

-- So with the end of a line behind it.
pub parse-print_line :
    (v : Value)
    → IsValid v
    → PlainKeys v
    → height v < 256
    → (n : ℕ) × (parse (source (print v) (byte 10 ∷ [])) ≡ parsed v (at [] n 0))
unfolding parse parse_with
parse-print_line v valid plain room =
    Comes-bind _
      (value-Comes (2 * length (source (print v) (byte 10 ∷ [])) + 2) v false (byte 10 ∷ []) [] 0 0
        (omega arith) valid plain (omega arith) refl (λ m. skip_newline-Comes m 1))
      λ n. (n, refl)
