-- ===== src/Json/Parser/Values/Around.antt =====
-- What surrounds the values of an object or an array, on any bytes (json/src/lib.rs).
use miniraft.Prelude.{
  ℕ, ◌+◌, ◌<◌, ◌≡◌, refl, ◌∙◌, arith, ◌==◌, leb, none, String, Bool-cases, inl, inr,
}
use miniraft.Json.{Value, Entries, Values, no_entry, no_value, insert_entry}
use miniraft.Json.Valid.{
  height, IsValid, insert_entry-EntriesValid, insert_entry-height, add_item-ItemsValid,
  add_item-height,
}
use miniraft.Json.Parser.{Parser, Parse, ParseResult, bind, peek_at}
use miniraft.Json.Parser.Values.{
  add_item, enter, leave, visit_key, after_entry, after_item, visit_spaced,
}
use miniraft.Json.Parser.Values.Sound.{Fits, EntriesFit, ItemsFit, value_at-Ends}
use miniraft.Json.Parser.Strings.Sound.{visit_string-Ends}
use miniraft.Json.Parser.Ends.{
  AllBytes, Advanced, Advanced-trans, Ends, ended, failed, Any, Ends-pure, Ends-err, Ends-bind,
  Ends-if, Ends-advance, skip_whitespace-Ends,
}

-- What holds of the parser wherever a value may begin.
pub record IsReady (p : Parser) : Type 0 where
  pub bytes : AllBytes p.stream
  pub calm : p.pending_high_surrogate ≡ none

pub Advanced-IsReady : {k : ℕ} {p q : Parser} → IsReady p → Advanced k p q → IsReady q
Advanced-IsReady ready step = record {
  bytes = step.still_bytes ready.bytes;
  calm = step.same_pending ∙ ready.calm;
}

-- Calls from the level of `p` on.
abbrev pub MembersEnd : Parser → Parse Entries → Type 0
MembersEnd p members = (q : Parser) → Advanced 1 p q → Ends (EntriesFit p.depth) 0 q (members q)

abbrev pub ElementsEnd : Parser → Parse Values → Type 0
ElementsEnd p elements = (q : Parser) → Advanced 1 p q → Ends (ItemsFit p.depth) 0 q (elements q)

pub visit_spaced-Ends :
    (members : Parse Entries) (elements : Parse Values) (p : Parser)
    → IsReady p
    → p.depth < 256
    → MembersEnd p members
    → ElementsEnd p elements
    → Ends (λ v. IsValid v × (p.depth + height v < 257)) 1 p (visit_spaced members elements p)
unfolding visit_spaced
visit_spaced-Ends members elements p ready shallow members_end elements_end =
    Ends-bind 1 1 (omega arith) (skip_whitespace-Ends p) λ _ q _ step.
      let ready' = Advanced-IsReady ready step in
      Ends-bind 0 1 (omega arith)
        (value_at-Ends p.depth step.same_depth shallow ready'.bytes ready'.calm
          (λ r more. members_end r (Advanced-trans 1 step more (omega arith)))
          (λ r more. elements_end r (Advanced-trans 1 step more (omega arith))) (peek_at q.stream)
          refl)
        λ v r good _.
          Ends-bind 0 0 (omega arith) (skip_whitespace-Ends r) λ _ t _ _. Ends-pure t good

abbrev pub deeper : Parser → Parser
deeper p = record p { depth = p.depth + 1 }

pub leave-Ends :
    {P : Value → Type 0} {p : Parser} {r : ParseResult Value}
    → Ends P 1 (deeper p) r
    → Ends P 1 p (bind r leave)
leave-Ends {p = p} (ended good step) = ended good (record {
  read = step.read;
  balance = step.balance;
  same_depth = omega (arith, step.same_depth);
  still_bytes = step.still_bytes;
  same_pending = step.same_pending;
})
leave-Ends (failed at) = failed at

pub enter-Ends :
    {P : Value → Type 0} (inner : Parse Value) (p : Parser)
    → (p.depth + 1 < 256 → Ends P 1 (deeper p) (inner (deeper p)))
    → Ends P 1 p (bind (enter p) (λ _ q. bind (inner q) leave))
unfolding enter
enter-Ends inner p ends = elim (Bool-cases (leb 256 (p.depth + 1))) [
  | inl deep ↦ rw deep (failed (omega arith))
  | inr shallow ↦ rw shallow (leave-Ends (ends (ground arith)))
]

pub visit_key-Ends : (p : Parser) → IsReady p → Ends Any 2 p (visit_key p)
unfolding visit_key
visit_key-Ends p ready =
    Ends-bind 1 2 (omega arith) (visit_string-Ends p ready.bytes ready.calm) λ key q _ _.
      Ends-bind 1 1 (omega arith) (skip_whitespace-Ends q) λ _ r _ _.
        Ends-bind 0 1 (omega arith) (Ends-advance r)
          λ b t _ _. Ends-if (b == b':') _ _ (λ _. Ends-pure t tt) (λ _. Ends-err _ 0 t)

pub after_entry-Ends :
    {P : Entries → Type 0} (m : Entries) (more : Parse Entries) (p : Parser)
    → P m
    → ((q : Parser) → Advanced 1 p q → Ends P 0 q (more q))
    → Ends P 0 p (after_entry m more p)
after_entry-Ends m more p good loop = Ends-bind 0 0 (omega arith) (Ends-advance p) λ b q _ step.
    Ends-if (b == b'}') _ _ (λ _. Ends-pure q good)
      λ _.
        Ends-if (b == b',') _ _
          (λ _.
            Ends-bind 0 0 (omega arith) (skip_whitespace-Ends q)
              (λ _ r _ further. loop r (Advanced-trans 1 step further (omega arith))))
          (λ _. Ends-err _ 0 q)

pub after_item-Ends :
    {P : Values → Type 0} (vs : Values) (more : Parse Values) (p : Parser)
    → P vs
    → ((q : Parser) → Advanced 1 p q → Ends P 0 q (more q))
    → Ends P 0 p (after_item vs more p)
after_item-Ends vs more p good loop = Ends-bind 0 0 (omega arith) (Ends-advance p) λ b q _ step.
    Ends-if (b == b']') _ _ (λ _. Ends-pure q good)
      λ _. Ends-if (b == b',') more _ (λ _. loop q step) (λ _. Ends-err _ 0 q)

pub insert_entry-EntriesFit :
    {d : ℕ} (k : String) {v : Value} {m : Entries}
    → Fits d v
    → EntriesFit d m
    → EntriesFit d (insert_entry k v m)
insert_entry-EntriesFit k {v} {m} hv hm = record {
  valid = insert_entry-EntriesValid k v m hv.valid hm.valid;
  room = omega (arith, insert_entry-height k v m, hv.room, hm.room);
}

pub add_item-ItemsFit :
    {d : ℕ} {v : Value} {vs : Values} → Fits d v → ItemsFit d vs → ItemsFit d (add_item v vs)
add_item-ItemsFit {v = v} {vs = vs} hv hvs = record {
  valid = add_item-ItemsValid v vs hv.valid hvs.valid;
  room = omega (arith, add_item-height v vs, hv.room, hvs.room);
}

pub none-EntriesFit : {d : ℕ} → d < 256 → EntriesFit d no_entry
unfolding IsValid height
none-EntriesFit h = record { valid = tt; room = omega arith }

pub none-ItemsFit : {d : ℕ} → d < 256 → ItemsFit d no_value
unfolding IsValid height
none-ItemsFit h = record { valid = tt; room = omega arith }
