-- ===== src/Json/Parser/Values/Reads.antt =====
-- What surrounds a printed value is passed over (json/src/lib.rs, `visit_value`).
use miniraft.Prelude.{
  ℕ, ◌+◌, ◌-◌, ◌≤◌, ◌<◌, ◌≡◌, refl, sym, subst, ap, arith, Bool, true, false, ◌==◌, ◌||◌, leb, some,
  List, ◌∷◌, ◌++◌,
}
use miniraft.Json.{Value, Entries, Values, number}
use miniraft.Json.Grammar.{IsNatural, naught, positive, natural, negative, IsNumber, parts}
use miniraft.Json.Parser.{
  Read, byte, Parse, parsed, bind, peek_at, is_some_and, is_json_whitespace, skip_whitespace,
  skip_loop,
}
use miniraft.Json.Parser.Numbers.{is_digit}
use miniraft.Json.Parser.Numbers.Reads.{visit_number-Comes}
use miniraft.Json.Parser.Values.{enter, leave, value_at, visit_spaced}
use miniraft.Json.Parser.Reads.{source, at, Comes, Comes-bind, Stops}

-- A space before a value, or none.
abbrev pub gap : Bool → List Read → List Read
gap true s = byte b' ' ∷ s
gap false s = s

skip_gap-Comes :
    (spaced : Bool) (s : List Read) (n d : ℕ)
    → is_some_and is_json_whitespace (peek_at s) ≡ false
    → Comes (skip_whitespace (at (gap spaced s) n d)) tt s d
unfolding skip_whitespace skip_loop
skip_gap-Comes false s n d h = (n, rw h refl)
skip_gap-Comes true s n d h = (n + 1, rw h refl)

pub visit_spaced-Comes :
    (members : Parse Entries) (elements : Parse Values) {v : Value} (spaced : Bool)
    (s rest after : List Read) (n d : ℕ)
    → is_some_and is_json_whitespace (peek_at s) ≡ false
    → ((m : ℕ) → Comes (value_at members elements (peek_at s) (at s m d)) v rest d)
    → ((m : ℕ) → Comes (skip_whitespace (at rest m d)) tt after d)
    → Comes (visit_spaced members elements (at (gap spaced s) n d)) v after d
unfolding visit_spaced
visit_spaced-Comes members elements spaced s rest after n d solid read skip =
    Comes-bind _ (skip_gap-Comes spaced s n d solid)
      λ m. Comes-bind _ (read m) λ k. Comes-bind _ (skip k) λ l. (l, refl)

pub enter-Comes :
    {v : Value} (inner : Parse Value) (s rest : List Read) (n d : ℕ)
    → d + 1 < 256
    → ((m : ℕ) → Comes (inner (at s m (d + 1))) v rest (d + 1))
    → Comes (bind (enter (at s n d)) (λ _ q. bind (inner q) leave)) v rest d
unfolding enter
enter-Comes {v} inner s rest n d shallow read =
    let room : leb 256 (d + 1) ≡ false = ground arith in
    let back : d + 1 - 1 ≡ d = omega arith in
    rw room (Comes-bind leave (read n) λ m. (m, ap (λ e. parsed v (at rest m e)) back))

-- A number begins with a digit or a minus, and no other value does.
record StartsNumber (t : List ℕ) : Type 0 where
  first : ℕ
  more : List ℕ
  form : t ≡ first ∷ more
  low : b'-' ≤ first
  high : first ≤ b'9'
  ok : (first == b'-' || is_digit first) ≡ true

natural-StartsNumber : {t : List ℕ} → IsNatural t → (tail : List ℕ) → StartsNumber (t ++ tail)
natural-StartsNumber naught tail = record {
  first = b'0';
  more = tail;
  form = refl;
  low = omega arith;
  high = omega arith;
  ok = refl;
}
natural-StartsNumber (positive {d} {ds} low high all) tail = record {
  first = d;
  more = ds ++ tail;
  form = refl;
  low = omega arith;
  high = high;
  ok = ground arith;
}

number-StartsNumber : {t : List ℕ} → IsNumber t → StartsNumber t
number-StartsNumber (parts (natural part) _ _ e) =
    subst StartsNumber (sym e) (natural-StartsNumber part _)
number-StartsNumber (parts {f} {e = x} (negative {t} part) _ _ e) =
    subst StartsNumber (sym e) (record {
      first = b'-';
      more = t ++ (f ++ x);
      form = refl;
      low = omega arith;
      high = omega arith;
      ok = refl;
    })

pub number_at-Comes :
    (members : Parse Entries) (elements : Parse Values) (t : List ℕ) (rest : List Read)
    → IsNumber t
    → Stops rest
    → (is_some_and is_json_whitespace (peek_at (source t rest)) ≡ false)
      × (is_some_and (λ b. b == b']') (peek_at (source t rest)) ≡ false)
      × ((n d : ℕ)
          → Comes
              (value_at members elements (peek_at (source t rest)) (at (source t rest) n d))
              (number t)
              rest
              d)
number_at-Comes members elements t rest is_number stop =
    let start = number-StartsNumber is_number in
    let b = start.first in
    let head : peek_at (source t rest) ≡ some b = ap (λ u. peek_at (source u rest)) start.form in
    let solid : is_json_whitespace b ≡ false = no_whitespace b start.low in
    let (no_quote, no_brace, no_bracket, no_word, no_n) = no_other b start.low start.high in
    (
      rw (head, solid) refl,
      rw (head, no_close b start.high) refl,
      λ n d.
          rw (head, no_quote, no_brace, no_bracket, no_word, no_n, start.ok)
            (Comes-bind _ (visit_number-Comes t rest n d is_number stop) λ m. (m, refl)),
    )
  where
    no_whitespace : (b : ℕ) → b'-' ≤ b → is_json_whitespace b ≡ false
    no_whitespace b low = ground arith

    no_close : (b : ℕ) → b ≤ b'9' → (b == b']') ≡ false
    no_close b high = ground arith

    no_other :
        (b : ℕ)
        → b'-' ≤ b
        → b ≤ b'9'
        → ((b == 34) ≡ false)
          × ((b == b'{') ≡ false)
          × ((b == b'[') ≡ false)
          × ((b == b't' || b == b'f') ≡ false)
          × ((b == b'n') ≡ false)
    no_other b low high = (ground arith, ground arith, ground arith, ground arith, ground arith)
