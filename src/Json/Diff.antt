-- ===== src/Json/Diff.antt =====
-- The difference of two JSON values (json/src/diff.rs), and the comparison of numbers
-- (json/src/lib.rs, `PartialEq for Number`). How two texts compare as floating-point numbers, if both
-- are such, is an argument. The texts of the report are left out.
pub mod Same
use Prim.Native.Nat.{Ordering}
use Prim.Native.String.{compare}
use text.Mathlib.Text.{is_le}
use miniraft.Prelude.{
  ℕ, zero, suc, ◌+◌, ◌-◌, ◌*◌, ◌/◌, ◌%◌, ◌^◌, Bool, true, false, not, Option, none, some, List, [],
  ◌∷◌, ◌++◌, ltb, leb, ◌==◌, ◌&&◌, if◌then◌else◌, String, str_eq, length,
}
use miniraft.Prelude.Results.{Result, done, failed}
use miniraft.Json.{
  Value, Entries, Values, string, number, object, array, bool, null, no_entry, entry, no_value,
  item, get_entry, parse_u64,
}

-- Digits, at least one of them, as a number of any size.
abbrev pub all_digits : ℕ → List ℕ → Option ℕ
all_digits n [] = some n
all_digits n (d ∷ ds) = if leb 48 d && ltb d 58 then all_digits (n * 10 + (d - 48)) ds else none

abbrev pub magnitude : List ℕ → Option ℕ
magnitude [] = none
magnitude (d ∷ ds) = all_digits 0 (d ∷ ds)

-- An `i64`: whether it is below zero, and how far it is from zero.
abbrev pub in_range : Bool → Option ℕ → Option (Bool × ℕ)
in_range negative none = none
in_range true (some n) =
    if n == 0 then some (false, 0) else if leb n (2 ^ 63) then some (true, n) else none
in_range false (some n) = if ltb n (2 ^ 63) then some (false, n) else none

-- `i64::from_str`.
unfoldable pub parse_i64 : List ℕ → Option (Bool × ℕ)
parse_i64 [] = none
parse_i64 (d ∷ ds) =
    if d == 45
    then in_range true (magnitude ds)
    else if d == 43
    then in_range false (magnitude ds)
    else in_range false (magnitude (d ∷ ds))

abbrev pub bool_eq : Bool → Bool → Bool
bool_eq true b = b
bool_eq false b = not b

abbrev pub text_eq : List ℕ → List ℕ → Bool
text_eq [] [] = true
text_eq (a ∷ s) (b ∷ t) = (a == b) && text_eq s t
text_eq _ _ = false

module _ (float_eq : List ℕ → List ℕ → Option Bool) where
  -- As floating-point numbers, or else as texts.
  abbrev pub compare_floats : List ℕ → List ℕ → Bool
  compare_floats a b = elim (float_eq a b) [ none ↦ text_eq a b | some same ↦ same ]

  abbrev pub compare_signed : List ℕ → List ℕ → Option (Bool × ℕ) → Option (Bool × ℕ) → Bool
  compare_signed a b (some (s, m)) (some (t, n)) = bool_eq s t && (m == n)
  compare_signed a b _ _ = compare_floats a b

  abbrev pub compare_unsigned : {E : Type 0} → List ℕ → List ℕ → Result E ℕ → Result E ℕ → Bool
  compare_unsigned a b (done m) (done n) = m == n
  compare_unsigned a b _ _ = compare_signed a b (parse_i64 a) (parse_i64 b)

  unfoldable pub number_eq : List ℕ → List ℕ → Bool
  number_eq a b = compare_unsigned a b (parse_u64 a) (parse_u64 b)

pub data Verdict : Type 0 where
  only_left : Value → Verdict
  only_right : Value → Verdict
  differ : Value → Value → Verdict

-- `Loc`.
abbrev pub Loc : Type 0
Loc = List String

pub record Finding : Type 0 where
  pub loc : Loc
  pub verdict : Verdict

abbrev pub joined_texts : String → String → String
joined_texts String.[] t = t
joined_texts (String.◌∷◌ c s) t = String.◌∷◌ c (joined_texts s t)

abbrev pub digit_text : ℕ → String
digit_text d =
    if d == 0
    then "0"
    else if d == 1
    then "1"
    else if d == 2
    then "2"
    else if d == 3
    then "3"
    else if d == 4
    then "4"
    else if d == 5
    then "5"
    else if d == 6
    then "6"
    else if d == 7
    then "7"
    else if d == 8
    then "8"
    else "9"

-- `{i}`, on fuel.
unfoldable pub number_text : ℕ → ℕ → String
number_text zero n = ""
number_text (suc fuel) n =
    let front = number_text fuel (n / 10) in
    if ltb n 10 then digit_text n else joined_texts front (digit_text (n % 10))

-- `[{i}]`; an `i32` has at most ten digits.
abbrev pub index_text : ℕ → String
index_text i = joined_texts "[" (joined_texts (number_text 10 i) "]")

abbrev pub with_key : Loc → String → Loc
with_key loc k = loc ++ k ∷ []

-- The index goes to the last part of the location, or is the location at the top.
unfoldable pub with_index : Loc → ℕ → Loc
with_index [] i = index_text i ∷ []
with_index (k ∷ []) i = joined_texts k (index_text i) ∷ []
with_index (k ∷ j ∷ loc) i = k ∷ with_index (j ∷ loc) i

unfoldable pub joined_keys : Loc → String
joined_keys [] = ""
joined_keys (k ∷ []) = k
joined_keys (k ∷ j ∷ loc) = joined_texts k (joined_texts "." (joined_keys (j ∷ loc)))

-- `Loc::to_string`.
abbrev pub loc_text : Loc → String
loc_text loc = joined_texts "$." (joined_keys loc)

abbrev pub finding : Loc → Verdict → Finding
finding loc verdict = record { loc = loc; verdict = verdict }

abbrev pub add_if_absent : Option Value → Finding → List Finding → List Finding
add_if_absent none f fs = f ∷ fs
add_if_absent (some w) f fs = fs

abbrev pub if_found : Option Value → (Value → List Finding) → List Finding
if_found none f = []
if_found (some w) f = f w

-- What is in one of two objects only.
abbrev pub unmatched : (Value → Verdict) → Loc → Entries → Entries → List Finding
unmatched verdict loc no_entry other = []
unmatched verdict loc (entry k v m) other =
    add_if_absent (get_entry k other) (finding (with_key loc k) (verdict v))
      (unmatched verdict loc m other)

-- A location that is too deep is not searched.
abbrev pub not_too_deep : Loc → List Finding → List Finding
not_too_deep loc findings = if ltb 256 (length loc) then [] else findings

module _ (float_eq : List ℕ → List ℕ → Option Bool) where
  abbrev pub unless : Bool → Loc → Value → Value → List Finding
  unless same loc left right = if same then [] else finding loc (differ left right) ∷ []

  unfoldable mutual
    -- `diff_rec`, behind its test of the depth.
    pub diff_values : Loc → Value → Value → List Finding
    diff_values loc (object l) (object r) =
        unmatched only_left loc l r ++ (unmatched only_right loc r l ++ diff_common loc l r)
    diff_values loc (array l) (array r) = diff_items loc 0 l r
    diff_values loc (number l) (number r) =
        unless (number_eq float_eq l r) loc (number l) (number r)
    diff_values loc (string l) (string r) = unless (str_eq l r) loc (string l) (string r)
    diff_values loc (bool l) (bool r) = unless (bool_eq l r) loc (bool l) (bool r)
    diff_values loc null null = []
    diff_values loc left right = finding loc (differ left right) ∷ []

    pub diff_common : Loc → Entries → Entries → List Finding
    diff_common loc no_entry r = []
    diff_common loc (entry k v m) r =
        if_found (get_entry k r)
          (λ w. not_too_deep (with_key loc k) (diff_values (with_key loc k) v w))
        ++ diff_common loc m r

    pub diff_items : Loc → ℕ → Values → Values → List Finding
    diff_items loc i no_value no_value = []
    diff_items loc i (item v vs) no_value =
        finding (with_index loc i) (only_left v) ∷ diff_items loc (suc i) vs no_value
    diff_items loc i no_value (item w ws) =
        finding (with_index loc i) (only_right w) ∷ diff_items loc (suc i) no_value ws
    diff_items loc i (item v vs) (item w ws) =
        not_too_deep (with_index loc i) (diff_values (with_index loc i) v w)
        ++ diff_items loc (suc i) vs ws

  abbrev pub diff_rec : Loc → Value → Value → List Finding
  diff_rec loc left right = not_too_deep loc (diff_values loc left right)

-- `sort_by_key`, by the text of the location; it is stable.
unfoldable pub insert_sorted : Finding → List Finding → List Finding
insert_sorted f [] = f ∷ []
insert_sorted f (g ∷ fs) =
    if is_le (compare (loc_text f.loc) (loc_text g.loc)) then f ∷ g ∷ fs else g ∷ insert_sorted f fs

unfoldable pub sort_by_loc : List Finding → List Finding
sort_by_loc [] = []
sort_by_loc (f ∷ fs) = insert_sorted f (sort_by_loc fs)

unfoldable pub diff : (List ℕ → List ℕ → Option Bool) → Value → Value → List Finding
diff float_eq left right = sort_by_loc (diff_rec float_eq [] left right)
