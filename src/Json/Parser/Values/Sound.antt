-- ===== src/Json/Parser/Values/Sound.antt =====
-- `visit_value` on any bytes (json/src/lib.rs): every assertion holds, the loops end, and what it
-- comes to is a valid value that is nested less deeply than the limit.
use miniraft.Prelude.{ℕ, ◌+◌, ◌<◌, ◌≡◌, arith, true, ◌||◌, ◌==◌, Option, none, some, List, [], ◌∷◌}
use miniraft.Json.{Value, Entries, Values, no_entry, no_value}
use miniraft.Json.Valid.{height, entries_height, items_height, IsValid, EntriesValid, ItemsValid}
use miniraft.Json.Parser.{Parser, Parse, Reason, peek_at, is_some_and}
use miniraft.Json.Parser.Values.{scan, visit_bool, visit_null, visit_object, visit_array, value_at}
use miniraft.Json.Parser.Numbers.{is_digit}
use miniraft.Json.Parser.Numbers.Sound.{visit_number-Ends}
use miniraft.Json.Parser.Strings.Sound.{visit_string-Ends}
use miniraft.Json.Parser.Ends.{
  AllBytes, Advanced, Advanced-trans, Ends, Any, Ends-pure, Ends-err, Ends-bind, Ends-if,
  Ends-advance, Ends-advance_peeked, skip_whitespace-Ends, assert-Ends,
}

scan-Ends :
    (reason : ℕ → ℕ → Reason) (expected : List ℕ) (p : Parser)
    → Ends Any 0 p (scan reason expected p)
unfolding scan
scan-Ends reason [] p = Ends-pure p tt
scan-Ends reason (c ∷ more) p = Ends-bind 0 0 (omega arith) (Ends-advance p) λ got q _ _.
    Ends-if (c == got) (scan reason more) _ (λ _. scan-Ends reason more q) (λ _. Ends-err _ 0 q)

visit_bool-Ends :
    (b : ℕ) (p : Parser)
    → peek_at p.stream ≡ some b
    → (b == b't' || b == b'f') ≡ true
    → Ends Any 1 p (visit_bool p)
unfolding visit_bool
visit_bool-Ends b p peeked starts =
    Ends-bind 0 1 (omega arith) (Ends-advance_peeked b p peeked) λ c q same _.
      Ends-if (c == b't') _ _
        (λ _. Ends-bind 0 0 (omega arith) (scan-Ends _ _ q) (λ _ r _ _. Ends-pure r tt))
        (λ no_t.
          Ends-if (c == b'f') _ _
            (λ _. Ends-bind 0 0 (omega arith) (scan-Ends _ _ q) (λ _ r _ _. Ends-pure r tt))
            (λ no_f. absurd (ground arith)))

scan_first-Ends :
    (reason : ℕ → ℕ → Reason) (c : ℕ) (more : List ℕ) (p : Parser)
    → Ends Any 1 p (scan reason (c ∷ more) p)
unfolding scan
scan_first-Ends reason c more p = Ends-bind 0 1 (omega arith) (Ends-advance p) λ got q _ _.
    Ends-if (c == got) (scan reason more) _ (λ _. scan-Ends reason more q) (λ _. Ends-err _ 0 q)

visit_null-Ends : (p : Parser) → Ends Any 1 p (visit_null p)
unfolding visit_null
visit_null-Ends p = scan_first-Ends _ _ _ p

-- An object or an array up to its loop, or at its end if it is empty.
visit_object-Ends :
    {P : Entries → Type 0} (b : ℕ) (members : Parse Entries) (p : Parser)
    → peek_at p.stream ≡ some b
    → (b == b'{') ≡ true
    → P no_entry
    → ((q : Parser) → Advanced 1 p q → Ends P 0 q (members q))
    → Ends P 1 p (visit_object members p)
unfolding visit_object
visit_object-Ends b members p peeked opens empty loop =
    Ends-bind 0 1 (omega arith) (Ends-advance_peeked b p peeked) λ c q same s₁.
      Ends-bind 0 0 (omega arith) (assert-Ends (c == b'{') q (ground arith)) λ _ r _ s₂.
        Ends-bind 0 0 (omega arith) (skip_whitespace-Ends r) λ _ t _ s₃.
          Ends-if (is_some_and (λ d. d == b'}') (peek_at t.stream)) _ members
            (λ _. Ends-bind 0 0 (omega arith) (Ends-advance t) (λ _ u _ _. Ends-pure u empty))
            (λ _. loop t (Advanced-trans 1 s₁ (Advanced-trans 0 s₂ s₃ (omega arith)) (omega arith)))

visit_array-Ends :
    {P : Values → Type 0} (b : ℕ) (elements : Parse Values) (p : Parser)
    → peek_at p.stream ≡ some b
    → (b == b'[') ≡ true
    → P no_value
    → ((q : Parser) → Advanced 1 p q → Ends P 0 q (elements q))
    → Ends P 1 p (visit_array elements p)
unfolding visit_array
visit_array-Ends b elements p peeked opens empty loop =
    Ends-bind 0 1 (omega arith) (Ends-advance_peeked b p peeked) λ c q same s₁.
      Ends-bind 0 0 (omega arith) (assert-Ends (c == b'[') q (ground arith)) λ _ r _ s₂.
        Ends-bind 0 0 (omega arith) (skip_whitespace-Ends r) λ _ t _ s₃.
          Ends-if (is_some_and (λ d. d == b']') (peek_at t.stream)) _ elements
            (λ _. Ends-bind 0 0 (omega arith) (Ends-advance t) (λ _ u _ _. Ends-pure u empty))
            (λ _. loop t (Advanced-trans 1 s₁ (Advanced-trans 0 s₂ s₃ (omega arith)) (omega arith)))

-- Values that are valid and leave room for `d` levels above them.
pub record Fits (d : ℕ) (v : Value) : Type 0 where
  pub valid : IsValid v
  pub room : d + height v < 256

pub record EntriesFit (d : ℕ) (m : Entries) : Type 0 where
  pub valid : EntriesValid m
  pub room : d + entries_height m < 256

pub record ItemsFit (d : ℕ) (vs : Values) : Type 0 where
  pub valid : ItemsValid vs
  pub room : d + items_height vs < 256

module _ (d : ℕ) {members : Parse Entries} {elements : Parse Values} {p : Parser}
    (here : p.depth ≡ d) (shallow : d < 256) (bytes : AllBytes p.stream)
    (calm : p.pending_high_surrogate ≡ none)
    (members-Ends : (q : Parser) → Advanced 1 p q → Ends (EntriesFit d) 0 q (members q))
    (elements-Ends : (q : Parser) → Advanced 1 p q → Ends (ItemsFit d) 0 q (elements q)) where
  -- The level of the value itself is `d`.
  pub value_at-Ends :
      (o : Option ℕ)
      → peek_at p.stream ≡ o
      → Ends (λ v. IsValid v × (d + height v < 257)) 1 p (value_at members elements o p)
  unfolding IsValid height
  value_at-Ends none peeked = Ends-err _ 1 p
  value_at-Ends (some b) peeked =
      Ends-if (b == 34) _ _
        (λ _.
          Ends-bind 0 1 (omega arith) (visit_string-Ends p bytes calm)
            (λ s q _ _. Ends-pure q (tt, omega arith)))
        λ _.
          Ends-if (b == b'{') _ _
            (λ opens.
              Ends-bind 0 1 (omega arith)
                (visit_object-Ends b members p peeked opens
                  (record { valid = tt; room = omega arith }) members-Ends)
                (λ m q fit _. Ends-pure q (fit.valid, omega (arith, fit.room))))
            λ _.
              Ends-if (b == b'[') _ _
                (λ opens.
                  Ends-bind 0 1 (omega arith)
                    (visit_array-Ends b elements p peeked opens
                      (record { valid = tt; room = omega arith }) elements-Ends)
                    (λ vs q fit _. Ends-pure q (fit.valid, omega (arith, fit.room))))
                λ _.
                  Ends-if (b == b't' || b == b'f') _ _
                    (λ starts.
                      Ends-bind 0 1 (omega arith) (visit_bool-Ends b p peeked starts)
                        (λ value q _ _. Ends-pure q (tt, omega arith)))
                    λ _.
                      Ends-if (b == b'n') _ _
                        (λ _.
                          Ends-bind 0 1 (omega arith) (visit_null-Ends p)
                            (λ _ q _ _. Ends-pure q (tt, omega arith)))
                        λ _.
                          Ends-if (b == b'-' || is_digit b) _ _
                            (λ starts.
                              Ends-bind 0 1 (omega arith) (visit_number-Ends b p peeked starts)
                                (λ n q number_n _. Ends-pure q (number_n, omega arith)))
                            λ _. Ends-err _ 1 p
