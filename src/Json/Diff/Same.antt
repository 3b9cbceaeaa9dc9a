-- ===== src/Json/Diff/Same.antt =====
-- A difference finds nothing exactly in documents that are the same (json/src/diff.rs).
use Prim.Native.String.{compare}
use text.Mathlib.Text.{is_le}
use miniraft.Prelude.{
  ℕ, suc, ◌+◌, ◌≤◌, ◌<◌, ◌≡◌, ◌≢◌, ◌↔◌, inl, inr, refl, sym, subst, ◌∙◌, arith, Bool, true, false,
  Option, none, some, List, [], ◌∷◌, ◌++◌, ltb, String, str_eq, eq_iff, length, Bool-cases,
}
use miniraft.Json.{
  Value, Entries, Values, string, number, object, array, bool, null, no_entry, entry, no_value,
  item, get_entry,
}
use miniraft.Json.Valid.{height, height_pos, entries_height, items_height}
use miniraft.Json.Diff.{
  number_eq, bool_eq, Finding, Verdict, only_left, only_right, with_key, with_index, add_if_absent,
  if_found, unmatched, not_too_deep, unless, loc_text, diff_values, diff_common, diff_items,
  insert_sorted, sort_by_loc, diff,
}

-- Every key of the one object is one of the other.
abbrev pub KeysIn : Entries → Entries → Type 0
KeysIn no_entry other = Unit {0}
KeysIn (entry k v m) other = (get_entry k other ≢ none) × KeysIn m other

abbrev pub IfFound : Option Value → (Value → Type 0) → Type 0
IfFound none P = Unit {0}
IfFound (some w) P = P w

module _ (float_eq : List ℕ → List ℕ → Option Bool) where
  unfoldable mutual
    -- Objects are compared as maps.
    pub Same : Value → Value → Type 0
    Same (object l) (object r) = KeysIn l r × (KeysIn r l × SameFields l r)
    Same (array l) (array r) = SameItems l r
    Same (number a) (number b) = number_eq float_eq a b ≡ true
    Same (string s) (string t) = s ≡ t
    Same (bool a) (bool b) = a ≡ b
    Same null null = Unit {0}
    Same left right = ⊥

    -- The values of the keys that both have are the same.
    pub SameFields : Entries → Entries → Type 0
    SameFields no_entry r = Unit {0}
    SameFields (entry k v m) r = IfFound (get_entry k r) (λ w. Same v w) × SameFields m r

    pub SameItems : Values → Values → Type 0
    SameItems no_value no_value = Unit {0}
    SameItems (item v vs) (item w ws) = Same v w × SameItems vs ws
    SameItems _ _ = ⊥

nil-append : {A : Type 0} (xs ys : List A) → xs ++ ys ≡ [] → (xs ≡ []) × (ys ≡ [])
nil-append [] ys e = (refl, e)
nil-append (x ∷ xs) ys e = absurd cc

append-nil_iff :
    {A : Type 0} {P Q : Type 0} (xs ys : List A)
    → (xs ≡ []) ↔ P
    → (ys ≡ []) ↔ Q
    → (xs ++ ys ≡ []) ↔ (P × Q)
append-nil_iff xs ys p q =
    ((λ e. let (a, b) = nil-append xs ys e in (p.0 a, q.0 b)), (λ h. rw (p.1 h.0, q.1 h.1) refl))

cons-nil : {A : Type 0} {x : A} {xs : List A} → x ∷ xs ≡ [] → ⊥
cons-nil e = cc

add_if_absent-nil :
    {Q : Type 0} (o : Option Value) (f : Finding) (fs : List Finding)
    → (fs ≡ []) ↔ Q
    → (add_if_absent o f fs ≡ []) ↔ ((o ≢ none) × Q)
add_if_absent-nil none f fs q = ((λ e. absurd (cons-nil e)), (λ h. absurd (h.0 refl)))
add_if_absent-nil (some w) f fs q = ((λ e. ((λ n. cc), q.0 e)), (λ h. q.1 h.1))

if_found-nil :
    {P : Value → Type 0} (o : Option Value) (f : Value → List Finding)
    → ((w : Value) → (f w ≡ []) ↔ P w)
    → (if_found o f ≡ []) ↔ IfFound o P
if_found-nil none f h = ((λ e. tt), (λ x. refl))
if_found-nil (some w) f h = h w

unmatched-KeysIn :
    (verdict : Value → Verdict) (loc : List String) (m other : Entries)
    → (unmatched verdict loc m other ≡ []) ↔ KeysIn m other
unmatched-KeysIn verdict loc no_entry other = ((λ e. tt), (λ h. refl))
unmatched-KeysIn verdict loc (entry k v m) other =
    add_if_absent-nil (get_entry k other) _ _ (unmatched-KeysIn verdict loc m other)

not_too_deep-shallow :
    (loc : List String) (findings : List Finding)
    → length loc < 257
    → not_too_deep loc findings ≡ findings
not_too_deep-shallow loc findings h =
    let room : ltb 256 (length loc) ≡ false = ground arith in rw room refl

shallow-nil :
    {P : Type 0} (loc : List String) (findings : List Finding)
    → length loc < 257
    → (findings ≡ []) ↔ P
    → (not_too_deep loc findings ≡ []) ↔ P
shallow-nil {P} loc findings h p =
    subst (λ fs. (fs ≡ []) ↔ P) (sym (not_too_deep-shallow loc findings h)) p

length-with_key : (loc : List String) (k : String) → length (with_key loc k) ≡ length loc + 1
length-with_key [] k = refl
length-with_key (j ∷ loc) k = omega (arith, length-with_key loc k)

length-with_index : (loc : List String) (i : ℕ) → length (with_index loc i) ≤ length loc + 1
unfolding with_index
length-with_index [] i = omega arith
length-with_index (k ∷ []) i = omega arith
length-with_index (k ∷ j ∷ loc) i = omega (arith, length-with_index (j ∷ loc) i)

unless-nil :
    (float_eq : List ℕ → List ℕ → Option Bool) (same : Bool) (loc : List String) (l r : Value)
    → (unless float_eq same loc l r ≡ []) ↔ (same ≡ true)
unless-nil float_eq true loc l r = ((λ e. refl), (λ h. refl))
unless-nil float_eq false loc l r = ((λ e. absurd (cons-nil e)), (λ h. absurd (ground arith)))

bool_eq_iff : (a b : Bool) → (bool_eq a b ≡ true) ↔ (a ≡ b)
bool_eq_iff true b = ((λ e. sym e), (λ e. sym e))
bool_eq_iff false true = ((λ e. e), (λ e. e))
bool_eq_iff false false = ((λ e. refl), (λ e. refl))

module _ (float_eq : List ℕ → List ℕ → Option Bool) where
  mutual
    unfolding diff_values Same height

    values-Same :
        (loc : List String) (left right : Value)
        → length loc + height left < 258
        → (diff_values float_eq loc left right ≡ []) ↔ Same float_eq left right
    values-Same loc (object l) (object r) h =
        append-nil_iff _ _ (unmatched-KeysIn only_left loc l r) (
          append-nil_iff _ _ (unmatched-KeysIn only_right loc r l)
            (common-Same loc l r (omega arith)))
    values-Same loc (array l) (array r) h = items-Same loc 0 l r (omega arith)
    values-Same loc (number a) (number b) h = unless-nil float_eq (number_eq float_eq a b) loc _ _
    values-Same loc (string s) (string t) h =
        let (there, back) = unless-nil float_eq (str_eq s t) loc (string s) (string t) in
        ((λ e. (eq_iff s t).0 (there e)), (λ e. back ((eq_iff s t).1 e)))
    values-Same loc (bool a) (bool b) h =
        let (there, back) = unless-nil float_eq (bool_eq a b) loc (bool a) (bool b) in
        ((λ e. (bool_eq_iff a b).0 (there e)), (λ e. back ((bool_eq_iff a b).1 e)))
    values-Same loc null null h = ((λ e. tt), (λ e. refl))
    values-Same loc left right h = ((λ e. absurd (cons-nil e)), (λ e. absurd e))

    common-Same :
        (loc : List String) (l r : Entries)
        → length loc + entries_height l < 257
        → (diff_common float_eq loc l r ≡ []) ↔ SameFields float_eq l r
    common-Same loc no_entry r h = ((λ e. tt), (λ e. refl))
    common-Same loc (entry k v m) r h =
        append-nil_iff _ _
          (if_found-nil (get_entry k r) _ λ w.
            shallow-nil (with_key loc k) _ (omega (arith, length-with_key loc k, height_pos v)) (
              values-Same (with_key loc k) v w
                (omega (arith, length-with_key loc k, height_pos v))))
          (common-Same loc m r (omega arith))

    items-Same :
        (loc : List String) (i : ℕ) (l r : Values)
        → length loc + items_height l < 257
        → (diff_items float_eq loc i l r ≡ []) ↔ SameItems float_eq l r
    items-Same loc i no_value no_value h = ((λ e. tt), (λ e. refl))
    items-Same loc i (item v vs) no_value h = ((λ e. absurd (cons-nil e)), (λ e. absurd e))
    items-Same loc i no_value (item w ws) h = ((λ e. absurd (cons-nil e)), (λ e. absurd e))
    items-Same loc i (item v vs) (item w ws) h =
        append-nil_iff _ _
          (shallow-nil (with_index loc i) _ (omega (arith, length-with_index loc i, height_pos v)) (
            values-Same (with_index loc i) v w
              (omega (arith, length-with_index loc i, height_pos v))))
          (items-Same loc (suc i) vs ws (omega arith))

insert_sorted-cons :
    (f : Finding) (fs : List Finding)
    → (g : Finding) × (gs : List Finding) × (insert_sorted f fs ≡ g ∷ gs)
unfolding insert_sorted
insert_sorted-cons f [] = (f, [], refl)
insert_sorted-cons f (g ∷ fs) =
    elim (Bool-cases (is_le (compare (loc_text f.loc) (loc_text g.loc)))) [
      | inl before ↦ (f, g ∷ fs, rw before refl)
      | inr after ↦ (g, insert_sorted f fs, rw after refl)
    ]

sort_by_loc-nil : (fs : List Finding) → (sort_by_loc fs ≡ []) ↔ (fs ≡ [])
unfolding sort_by_loc
sort_by_loc-nil [] = ((λ e. refl), (λ e. refl))
sort_by_loc-nil (f ∷ fs) =
    let (g, gs, e) = insert_sorted-cons f (sort_by_loc fs) in
    ((λ h. absurd (cons-nil (sym e ∙ h))), (λ h. absurd (cons-nil h)))

-- Two documents have no difference exactly if they are the same: objects have the same keys and
-- the same values under them in whatever order, arrays the same values in order, and numbers
-- compare equal, with any comparison of floating-point numbers. The left document has at most 256
-- levels.
pub diff-Same :
    (float_eq : List ℕ → List ℕ → Option Bool) (left right : Value)
    → height left < 257
    → (diff float_eq left right ≡ []) ↔ Same float_eq left right
unfolding diff
diff-Same float_eq left right h =
    let (there, back) = sort_by_loc-nil (diff_values float_eq [] left right) in
    let (same, nothing) = values-Same float_eq [] left right (omega arith) in
    ((λ e. same (there e)), (λ s. back (nothing s)))
