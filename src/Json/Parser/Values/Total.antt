-- ===== src/Json/Parser/Values/Total.antt =====
-- The parser on any bytes (json/src/lib.rs, `visit_value`, `visit_object`, `visit_array`, `parse`):
-- the recursion ends, and its level is kept.
use native.Mathlib.Nat.{zero-add}
use miniraft.Prelude.{
  ℕ, zero, suc, ◌+◌, ◌*◌, ◌≤◌, ◌<◌, ◌≡◌, refl, subst, ◌∙◌, arith, List, [], ◌∷◌, length,
}
use miniraft.Json.{Value, Entries, Values, no_entry, no_value, insert_entry}
use miniraft.Json.Valid.{height, IsValid}
use miniraft.Json.Parser
use miniraft.Json.Parser.{
  Parser, Parse, ParseResult, parsed, rejected, bind, peek_at, advance, err, Read, byte, broken,
  ◌>>=◌, ◌>>◌, new,
}
use miniraft.Json.Parser.Values.{
  add_item, visit_spaced, visit_value, visit_members, visit_elements, end, parse,
}
use miniraft.Json.Parser.Values.Sound.{Fits, EntriesFit, ItemsFit}
use miniraft.Json.Parser.Ends.{AllBytes, Ends, ended, failed, Ends-bind, Ends-weaken}
use miniraft.Json.Parser.Values.Around.{
  Advanced-IsReady, visit_spaced-Ends, deeper, enter-Ends, visit_key-Ends, after_entry-Ends,
  after_item-Ends, insert_entry-EntriesFit, add_item-ItemsFit, none-EntriesFit, none-ItemsFit,
  IsReady,
}

mutual
  unfolding visit_value

  visit_value-Ends :
      (fuel : ℕ) (p : Parser)
      → 2 * length p.stream < fuel
      → IsReady p
      → Ends (Fits p.depth) 1 p (visit_value fuel p)
  visit_value-Ends zero p enough ready = absurd (omega arith)
  visit_value-Ends (suc fuel) p enough ready =
      enter-Ends (visit_spaced (visit_members fuel no_entry) (visit_elements fuel no_value)) p
        λ shallow.
          Ends-weaken 1 (omega arith)
            (visit_spaced-Ends (visit_members fuel no_entry) (visit_elements fuel no_value)
              (deeper p) (record { bytes = ready.bytes; calm = ready.calm }) shallow
              (λ q step.
                visit_members-Ends fuel no_entry (p.depth + 1) q (omega (arith, step.read))
                  step.same_depth
                  (Advanced-IsReady {p = deeper p}
                    (record { bytes = ready.bytes; calm = ready.calm }) step)
                  (none-EntriesFit shallow))
              (λ q step.
                visit_elements-Ends fuel no_value (p.depth + 1) q (omega (arith, step.read))
                  step.same_depth
                  (Advanced-IsReady {p = deeper p}
                    (record { bytes = ready.bytes; calm = ready.calm }) step)
                  (none-ItemsFit shallow)))
            (λ v (valid, room). record { valid = valid; room = omega arith })

  visit_members-Ends :
      (fuel : ℕ) (m : Entries) (d : ℕ) (p : Parser)
      → 2 * length p.stream + 1 < fuel
      → p.depth ≡ d
      → IsReady p
      → EntriesFit d m
      → Ends (EntriesFit d) 0 p (visit_members fuel m p)
  visit_members-Ends zero m d p enough level ready fit = absurd (omega arith)
  visit_members-Ends (suc fuel) m d p enough level ready fit =
      Ends-bind 0 0 (omega arith) (visit_key-Ends p ready) λ key q _ s₁.
        Ends-bind 0 0 (omega arith)
          (visit_value-Ends fuel q (omega (arith, s₁.read)) (Advanced-IsReady ready s₁))
          λ v r good s₂.
            let longer =
              insert_entry-EntriesFit key (subst (λ e. Fits e v) (s₁.same_depth ∙ level) good)
                fit in
            after_entry-Ends (insert_entry key v m) (visit_members fuel (insert_entry key v m)) r
              longer
              (λ t s₃.
                visit_members-Ends fuel (insert_entry key v m) d t
                  (omega (arith, s₁.read, s₂.read, s₃.read))
                  (s₃.same_depth ∙ s₂.same_depth ∙ s₁.same_depth ∙ level)
                  (Advanced-IsReady (Advanced-IsReady (Advanced-IsReady ready s₁) s₂) s₃) longer)

  visit_elements-Ends :
      (fuel : ℕ) (vs : Values) (d : ℕ) (p : Parser)
      → 2 * length p.stream + 1 < fuel
      → p.depth ≡ d
      → IsReady p
      → ItemsFit d vs
      → Ends (ItemsFit d) 0 p (visit_elements fuel vs p)
  visit_elements-Ends zero vs d p enough level ready fit = absurd (omega arith)
  visit_elements-Ends (suc fuel) vs d p enough level ready fit =
      Ends-bind 0 0 (omega arith) (visit_value-Ends fuel p (omega arith) ready) λ v r good s₂.
        let longer = add_item-ItemsFit (subst (λ e. Fits e v) level good) fit in
        after_item-Ends (add_item v vs) (visit_elements fuel (add_item v vs)) r longer (λ t s₃.
          visit_elements-Ends fuel (add_item v vs) d t (omega (arith, s₂.read, s₃.read))
            (s₃.same_depth ∙ s₂.same_depth ∙ level)
            (Advanced-IsReady (Advanced-IsReady ready s₂) s₃) longer)

-- What `parse` owes its caller: a valid value, of less than 256 levels, that all of the input makes
-- up, or an error at a position within the input.
pub data Settles (reader : List Read) : ParseResult Value → Type 0 where
  accepted :
      {v : Value} {q : Parser}
      → IsValid v
      → height v < 256
      → q.stream ≡ []
      → q.stream_pos ≡ length reader
      → Settles reader (parsed v q)
  refused : {e : Parser.Error} → e.pos ≤ length reader → Settles reader (rejected e)

end-Settles :
    (reader s : List Read) (v : Value) (q : Parser)
    → Fits 0 v
    → q.stream ≡ s
    → q.stream_pos + length s ≡ length reader
    → Settles reader (end v s q)
end-Settles reader [] v q fit e all = accepted fit.valid (omega (arith, fit.room)) e (omega arith)
end-Settles reader (broken ∷ rest) v q fit e all = refused (omega arith)
end-Settles reader (byte b ∷ rest) v q fit e all = refused (omega arith)

-- Whatever bytes and I/O errors the reader gives, the parser ends with no failed assertion: it
-- comes to a value that all of the input makes up, or to an error at a position within the input.
-- The numbers of the value have the JSON grammar, no object has a key twice, and it has less than
-- 256 levels.
pub parse-Settles : (reader : List Read) → AllBytes reader → Settles reader (parse reader)
unfolding parse
parse-Settles reader bytes = whole (
    visit_value-Ends (2 * length reader + 2) (new reader) (omega arith)
      (record { bytes = bytes; calm = refl }))
  where
    whole :
        {r : ParseResult Value}
        → Ends (Fits 0) 1 (new reader) r
        → Settles reader (bind r (λ v q. end v q.stream q))
    whole (ended {a = v} {q} fit step) =
        end-Settles reader q.stream v q fit refl (step.balance ∙ zero-add _)
    whole (failed at) = refused (omega (arith, at))
