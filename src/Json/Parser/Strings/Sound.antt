-- ===== src/Json/Parser/Strings/Sound.antt =====
-- `visit_string` on any bytes (json/src/lib.rs): its assertions hold, and no surrogate is pending
-- after it.
use miniraft.Prelude.{
  ℕ, zero, suc, ◌+◌, ◌*◌, ◌/◌, ◌%◌, ◌<◌, ◌≡◌, inl, inr, refl, sym, subst, ap, ◌∙◌, arith, true,
  false, ◌&&◌, not, ◌==◌, ltb, leb, Option, none, some, ◌∷◌, length, Bool-cases, String,
}
use miniraft.Json.Unicode.{from_u32, decode_pair, from_utf8}
use miniraft.Json.Unicode.Scalars.{InRange, from_u32-some}
use miniraft.Json.Parser
use miniraft.Json.Parser.{
  Parser, Parse, ParseResult, parsed, rejected, panicked, out_of_fuel, bind, pure, peek_at, advance,
  err, Error,
}
use miniraft.Json.Parser.Strings.{
  push_char, hex_digit, collect_hex, collect_unicode_escape_hex_digits, is_none, pair_pending,
  push_unit, visit_unicode_escape, simple_escape, visit_escape, rest_of_char, visit_plain,
  visit_char, string_loop, visit_string,
}
use miniraft.Json.Parser.Ends.{
  AllBytes, Ends, ended, failed, Any, Ends-pure, Ends-err, Ends-bind, Ends-if, Ends-weaken,
  Ends-advance, or_err-Ends, expect-Ends, assert-Ends,
}
use miniraft.Json.Parser.Strings.Pending.{
  settle, settled, Ends-settled, Ends-bind-settled, Ends-settle-bind, Ends-bind_to_settled,
}

hex_digit-lt : (b d : ℕ) → hex_digit b ≡ some d → d < 16
hex_digit-lt b d h = ground arith

collect_hex-Ends :
    (rounds val : ℕ) (p : Parser)
    → val < 65536
    → Ends (λ v. v < 65536) 0 p (collect_hex rounds val p)
unfolding collect_hex
collect_hex-Ends zero val p h = Ends-pure p h
collect_hex-Ends (suc rounds) val p h = Ends-bind 0 0 (omega arith) (Ends-advance p) λ b q _ _.
    Ends-bind 0 0 (omega arith) (or_err-Ends _ (hex_digit b) q (hex_digit-lt b))
      λ d r small _. collect_hex-Ends rounds (val * 16 % 65536 + d) r (omega arith)

hex_digits-Ends : (p : Parser) → Ends (λ v. v < 65536) 0 p (collect_unicode_escape_hex_digits p)
unfolding collect_unicode_escape_hex_digits
hex_digits-Ends p = collect_hex-Ends 4 0 p (omega arith)

-- A partner is found for the pending surrogate, and none is pending then.
pair_pending-Ends :
    (s : String) (o : Option ℕ) (p : Parser)
    → p.pending_high_surrogate ≡ o
    → Ends Any 0 (settle p) (pair_pending s o p)
unfolding pair_pending
pair_pending-Ends s none p e = ended tt (record {
  read = omega arith;
  balance = refl;
  same_depth = refl;
  still_bytes = λ h. h;
  same_pending = e;
})
pair_pending-Ends s (some high) p e = Ends-settle-bind 0 0 (omega arith) (Ends-advance p) λ b q _ _.
    Ends-settle-bind 0 0 (omega arith) (Ends-advance q) λ u r _ _.
      Ends-if (b == 92 && u == b'u') _ _
        (λ _. Ends-settle-bind 0 0 (omega arith) (hex_digits-Ends r) λ low t _ _.
          Ends-settle-bind {P = Any} 0 0 (omega arith)
            (or_err-Ends _ (decode_pair high low) t (λ _ _. tt))
            (λ c u _ _. Ends-pure (settle u) tt))
        (λ _. Ends-err _ 0 (settle r))

push_unit-Ends :
    (unit : ℕ) (s : String) (p : Parser)
    → unit < 65536
    → p.pending_high_surrogate ≡ none
    → Ends Any 0 p (settled (push_unit unit s p))
unfolding push_unit
push_unit-Ends unit s p small calm = elim (Bool-cases (leb 55296 unit && leb unit 56319)) [
  | inl high ↦
      let nonzero : not (unit == 0) ≡ true = ground arith in
      rw (high, nonzero)
        (ended tt (record {
          read = omega arith;
          balance = refl;
          same_depth = refl;
          still_bytes = λ h. h;
          same_pending = sym calm;
        }))
  | inr no_high ↦ elim (Bool-cases (leb 56320 unit && leb unit 57343)) [
    | inl low ↦ rw (no_high, low) (failed (omega arith))
    | inr no_low ↦
        let (c, found, _) = from_u32-some unit (in_range unit no_high no_low small) in
        rw (no_high, no_low, found) (Ends-settled p calm (Ends-pure p tt))
  ]
]
  where
    in_range :
        (u : ℕ)
        → (leb 55296 u && leb u 56319) ≡ false
        → (leb 56320 u && leb u 57343) ≡ false
        → u < 65536
        → InRange u
    in_range u a b c = ground arith

unicode_escape-Ends :
    (s : String) (p : Parser)
    → p.pending_high_surrogate ≡ none
    → Ends Any 0 p (settled (visit_unicode_escape s p))
unfolding visit_unicode_escape
unicode_escape-Ends s p calm =
    Ends-bind_to_settled 0 0 _ (omega arith) (hex_digits-Ends p) λ unit q small step.
      let still : q.pending_high_surrogate ≡ none = step.same_pending ∙ calm in
      Ends-bind_to_settled 0 0 _ (omega arith)
        (assert-Ends (is_none q.pending_high_surrogate) q (ap is_none still))
        (λ _ r _ further. push_unit-Ends unit s r small (further.same_pending ∙ still))

escaped_found : (b d : ℕ) → simple_escape b ≡ some d → d < 55296
escaped_found b d h = ground arith

push_known-Ends :
    (n : ℕ) (s : String) (p : Parser)
    → n < 55296
    → Ends Any 0 p (Parser.◌>>=◌ (Parser.expect (from_u32 n)) (λ c. pure (push_char c s)) p)
push_known-Ends n s p h =
    let (c, found, _) = from_u32-some n (inl h) in
    Ends-bind {P = Any} 0 0 (omega arith) (expect-Ends p found) (λ c q _ _. Ends-pure q tt)

escape-Ends :
    (b : ℕ) (s : String) (p : Parser)
    → p.pending_high_surrogate ≡ none
    → Ends Any 0 p (settled (visit_escape b s p))
unfolding visit_escape
escape-Ends b s p calm = elim (Bool-cases (b == b'u')) [
  | inl unit ↦ rw unit (unicode_escape-Ends s p calm)
  | inr simple ↦ rw simple (
      Ends-settled p calm (
        Ends-bind 0 0 (omega arith) (or_err-Ends _ (simple_escape b) p (escaped_found b))
          (λ n q small _. push_known-Ends n s q small)))
]

rest_of_char-Ends : (b : ℕ) (p : Parser) → Ends Any 0 p (rest_of_char b p)
unfolding rest_of_char
rest_of_char-Ends b p =
    let one = λ (q : Parser). Ends-advance q in
    Ends-if (b / 32 % 2 == 0) _ _
      (λ _. Ends-bind 0 0 (omega arith) (one p) (λ x q _ _. Ends-pure q tt))
      (λ _.
        Ends-if (b / 16 % 2 == 0) _ _
          (λ _.
            Ends-bind 0 0 (omega arith) (one p)
              (λ x q _ _. Ends-bind 0 0 (omega arith) (one q) (λ y r _ _. Ends-pure r tt)))
          (λ _.
            Ends-if (b / 8 % 2 == 0) _ _
              (λ _. Ends-bind 0 0 (omega arith) (one p) (λ x q _ _.
                Ends-bind 0 0 (omega arith) (one q)
                  (λ y r _ _. Ends-bind 0 0 (omega arith) (one r) (λ z t _ _. Ends-pure t tt))))
              (λ _. Ends-err _ 0 p)))

plain-Ends : (b : ℕ) (s : String) (p : Parser) → b < 256 → Ends Any 0 p (visit_plain b s p)
unfolding visit_plain
plain-Ends b s p h =
    Ends-if (ltb b 32) _ _ (λ _. Ends-err _ 0 p)
      (λ _.
        Ends-if (ltb b 128) _ _ (λ ascii. push_known-Ends b s p (ground arith))
          (λ beyond.
            Ends-bind 0 0 (omega arith) (assert-Ends (not (b / 128 % 2 == 0)) p (ground arith))
              λ _ q _ _. Ends-bind 0 0 (omega arith) (rest_of_char-Ends b q) λ others r _ _.
                Ends-bind {P = Any} 0 0 (omega arith)
                  (or_err-Ends _ (from_utf8 (b ∷ others)) r (λ _ _. tt))
                  (λ c t _ _. Ends-pure t tt)))

char-Ends :
    (b : ℕ) (s : String) (p : Parser)
    → b < 256
    → p.pending_high_surrogate ≡ none
    → Ends Any 0 p (settled (visit_char b s p))
unfolding visit_char
char-Ends b s p h calm = elim (Bool-cases (b == 92)) [
  | inl backslash ↦ rw backslash (
      Ends-bind_to_settled 0 0 _ (omega arith) (Ends-advance p)
        (λ e q _ step. escape-Ends e s q (step.same_pending ∙ calm)))
  | inr plain ↦ rw plain (Ends-settled p calm (plain-Ends b s p h))
]

string_loop-Ends :
    (fuel : ℕ) (s : String) (p : Parser)
    → length p.stream < fuel
    → AllBytes p.stream
    → Ends Any 1 (settle p) (string_loop fuel s p)
unfolding string_loop
string_loop-Ends zero s p h bytes = absurd (omega arith)
string_loop-Ends (suc fuel) s p h bytes =
    Ends-bind 1 1 (omega arith) (pair_pending-Ends s p.pending_high_surrogate p refl) λ t q _ first.
      Ends-bind 0 1 (omega arith) (Ends-advance q) λ b r next second.
        Ends-if (b == 34) _ _ (λ _. Ends-pure r tt)
          (λ _.
            Ends-bind-settled 0 0 (visit_char b t r) (omega arith)
              (char-Ends b t r (next.is_byte (first.still_bytes bytes))
                (second.same_pending ∙ first.same_pending))
              (λ u v _ third.
                Ends-weaken 0 (omega arith)
                  (string_loop-Ends fuel u v (omega (arith, first.read, second.read, third.read))
                    (third.still_bytes (second.still_bytes (first.still_bytes bytes))))
                  (λ _ _. tt)))

-- A string is read, or an error comes.
pub visit_string-Ends :
    (p : Parser)
    → AllBytes p.stream
    → p.pending_high_surrogate ≡ none
    → Ends Any 1 p (visit_string p)
unfolding visit_string
visit_string-Ends p bytes calm = Ends-bind 0 1 (omega arith) (Ends-advance p) λ b q next step.
    Ends-if (b == 34) _ _
      (λ _.
        let settled_already : settle q ≡ q =
          λ i. record q { pending_high_surrogate = (sym (step.same_pending ∙ calm)) i } in
        subst (λ q'. Ends Any 0 q' (string_loop (suc (length q.stream)) String.[] q))
          settled_already
          (Ends-weaken 0 (omega arith)
            (string_loop-Ends (suc (length q.stream)) String.[] q (omega arith)
              (step.still_bytes bytes))
            (λ _ _. tt)))
      (λ _. Ends-err _ 0 q)
