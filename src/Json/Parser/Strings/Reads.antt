-- ===== src/Json/Parser/Strings/Reads.antt =====
-- The characters of a printed text are read one by one (json/src/lib.rs, `visit_string`).
use Prim.Native.Char.{Char, code}
use miniraft.Prelude.{
  ℕ, ◌+◌, ◌*◌, ◌/◌, ◌%◌, ◌≤◌, ◌<◌, ◌≡◌, ◌≢◌, inl, inr, refl, sym, subst, ap, ◌∙◌, arith, Bool, true,
  false, ◌&&◌, not, ◌==◌, ltb, leb, some, List, [], ◌∷◌, if◌then◌else◌, String, ltb→lt,
}
use miniraft.Json.Unicode.{from_u32, from_utf8, encode_char}
use miniraft.Json.Unicode.Scalars.{InRange, from_u32-code, code-InRange}
use miniraft.Json.Unicode.Utf8.{from_utf8_two, from_utf8_three, from_utf8_four}
use miniraft.Json.Printer.{is_control, hex_symbol, hex4, escape}
use miniraft.Json.Parser.{Read, byte, parsed}
use miniraft.Json.Parser.Strings.{
  push_char, hex_digit, collect_hex, collect_unicode_escape_hex_digits, push_unit,
  visit_unicode_escape, simple_escape, visit_escape, rest_of_char, visit_plain, visit_char,
}
use miniraft.Json.Parser.Reads.{source, at, Comes, Comes-bind}

-- The text is read as this character: its first byte does not end a string.
pub record ReadAs (c : Char) (text : List ℕ) : Type 0 where
  pub first : ℕ
  pub more : List ℕ
  pub form : text ≡ first ∷ more
  pub no_quote : (first == 34) ≡ false
  pub reads :
      (s : String) (rest : List Read) (n d : ℕ)
      → Comes (visit_char first s (at (source more rest) n d)) (push_char c s) rest d

ReadAs-if :
    {c : Char} (test : Bool) {x y : List ℕ}
    → (test ≡ true → ReadAs c x)
    → (test ≡ false → ReadAs c y)
    → ReadAs c (if test then x else y)
ReadAs-if true yes_case no_case = yes_case refl
ReadAs-if false yes_case no_case = no_case refl

found_at : (c : Char) (n : ℕ) → code c ≡ n → from_u32 n ≡ some c
found_at c n e = subst (λ k. from_u32 k ≡ some c) e (from_u32-code c)

-- An escape of one letter.
simple-ReadAs :
    (c : Char) (n letter : ℕ)
    → code c ≡ n
    → (letter == b'u') ≡ false
    → simple_escape letter ≡ some n
    → ReadAs c (92 ∷ letter ∷ [])
unfolding visit_char visit_escape
simple-ReadAs c n letter e no_u escapes = record {
  first = 92;
  more = letter ∷ [];
  form = refl;
  no_quote = refl;
  reads = λ s rest k d. (k + 1, rw (no_u, escapes, found_at c n e) refl);
}

hex_digit-hex_symbol : (d : ℕ) → d < 16 → hex_digit (hex_symbol d) ≡ some d
hex_digit-hex_symbol d h = ground arith

collect_hex-hex4 :
    (u : ℕ) (rest : List Read) (n d : ℕ)
    → u < 65536
    → Comes (collect_unicode_escape_hex_digits (at (source (hex4 u) rest) n d)) u rest d
unfolding collect_unicode_escape_hex_digits collect_hex
collect_hex-hex4 u rest n d h =
    let value : (((0 * 16 % 65536 + u / 4096 % 16) * 16 % 65536 + u / 256 % 16) * 16 % 65536
              + u / 16 % 16)
            * 16
            % 65536
          + u % 16
        ≡ u =
      omega arith in
    (
      n + 1 + 1 + 1 + 1,
      rw
          (
            hex_digit-hex_symbol (u / 4096 % 16) (omega arith),
            hex_digit-hex_symbol (u / 256 % 16) (omega arith),
            hex_digit-hex_symbol (u / 16 % 16) (omega arith),
            hex_digit-hex_symbol (u % 16) (omega arith),
          )
          (ap (λ v. parsed v (at rest (n + 1 + 1 + 1 + 1) d)) value),
    )

-- A control character that has no letter.
unicode-ReadAs : (c : Char) → code c < 160 → ReadAs c (92 ∷ b'u' ∷ hex4 (code c))
unfolding visit_char visit_escape visit_unicode_escape push_unit
unicode-ReadAs c h = record {
  first = 92;
  more = b'u' ∷ hex4 (code c);
  form = refl;
  no_quote = refl;
  reads = λ s rest n d.
      Comes-bind _ (collect_hex-hex4 (code c) rest (n + 1) d (omega arith))
        λ m. (m, rw (no_high (code c) h, no_low (code c) h, from_u32-code c) refl);
}
  where
    no_high : (u : ℕ) → u < 160 → (leb 55296 u && leb u 56319) ≡ false
    no_high u h = ground arith

    no_low : (u : ℕ) → u < 160 → (leb 56320 u && leb u 57343) ≡ false
    no_low u h = ground arith

-- A character that is written as it is.
abbrev pub IsPlain : ℕ → Type 0
IsPlain n = (32 ≤ n) × (n ≢ 34) × (n ≢ 92)

ascii-ReadAs : (c : Char) → IsPlain (code c) → code c < 128 → ReadAs c (code c ∷ [])
unfolding visit_char visit_plain
ascii-ReadAs c (low, no_quote, no_backslash) h = record {
  first = code c;
  more = [];
  form = refl;
  no_quote = ground arith;
  reads = λ s rest n d.
      let a : (code c == 92) ≡ false = ground arith in
      let b : ltb (code c) 32 ≡ false = ground arith in
      let ascii : ltb (code c) 128 ≡ true = ground arith in
      (n, rw (a, b, ascii, from_u32-code c) refl);
}

-- A first byte from 128 on, and the others.
beyond-ReadAs :
    (c : Char) (b : ℕ) (others : List ℕ)
    → 128 ≤ b
    → b < 256
    → ((rest : List Read) (n d : ℕ)
        → Comes (rest_of_char b (at (source others rest) n d)) others rest d)
    → from_utf8 (b ∷ others) ≡ some c
    → ReadAs c (b ∷ others)
unfolding visit_char visit_plain
beyond-ReadAs c b others low high collected decoded = record {
  first = b;
  more = others;
  form = refl;
  no_quote = ground arith;
  reads = λ s rest n d.
      let no_backslash : (b == 92) ≡ false = ground arith in
      let no_control : ltb b 32 ≡ false = ground arith in
      let no_ascii : ltb b 128 ≡ false = ground arith in
      let top_bit : not (b / 128 % 2 == 0) ≡ true = ground arith in
      rw (no_backslash, no_control, no_ascii, top_bit)
        (Comes-bind _ (collected rest n d) λ m. (m, rw decoded refl));
}

rest_of_two :
    (q x : ℕ) (rest : List Read) (n d : ℕ)
    → q < 32
    → Comes (rest_of_char (192 + q) (at (byte x ∷ rest) n d)) (x ∷ []) rest d
unfolding rest_of_char
rest_of_two q x rest n d h =
    let two : ((192 + q) / 32 % 2 == 0) ≡ true = ground arith in (n + 1, rw two refl)

rest_of_three :
    (q x y : ℕ) (rest : List Read) (n d : ℕ)
    → q < 16
    → Comes (rest_of_char (224 + q) (at (byte x ∷ byte y ∷ rest) n d)) (x ∷ y ∷ []) rest d
unfolding rest_of_char
rest_of_three q x y rest n d h =
    let more : ((224 + q) / 32 % 2 == 0) ≡ false = ground arith in
    let three : ((224 + q) / 16 % 2 == 0) ≡ true = ground arith in
    (n + 1 + 1, rw (more, three) refl)

rest_of_four :
    (q x y z : ℕ) (rest : List Read) (n d : ℕ)
    → q < 8
    → Comes
        (rest_of_char (240 + q) (at (byte x ∷ byte y ∷ byte z ∷ rest) n d))
        (x ∷ y ∷ z ∷ [])
        rest
        d
unfolding rest_of_char
rest_of_four q x y z rest n d h =
    let more : ((240 + q) / 32 % 2 == 0) ≡ false = ground arith in
    let still_more : ((240 + q) / 16 % 2 == 0) ≡ false = ground arith in
    let four : ((240 + q) / 8 % 2 == 0) ≡ true = ground arith in
    (n + 1 + 1 + 1, rw (more, still_more, four) refl)

InRange-lt : (n : ℕ) → InRange n → n < 1114112
InRange-lt n (inl small) = omega arith
InRange-lt n (inr (above, under)) = under

ltb_false→le : (a b : ℕ) → ltb a b ≡ false → b ≤ a
ltb_false→le a b h = ground arith

encode_number-ReadAs : (c : Char) (n : ℕ) → code c ≡ n → IsPlain n → ReadAs c (encode_char n)
unfolding encode_char
encode_number-ReadAs c n e plain =
    let found = found_at c n e in
    let top : n < 1114112 = subst (λ k. k < 1114112) e (InRange-lt (code c) (code-InRange c)) in
    ReadAs-if (ltb n 128)
      (λ h.
        subst (λ k. ReadAs c (k ∷ [])) e
          (ascii-ReadAs c (subst IsPlain (sym e) plain) (rw e (ltb→lt n 128 h))))
      λ h₁.
        ReadAs-if (ltb n 2048)
          (λ h.
            let low : 128 ≤ n = ltb_false→le n 128 h₁ in
            let high : n < 2048 = ltb→lt n 2048 h in
            beyond-ReadAs c (192 + n / 64) _ (omega arith) (omega arith)
              (λ rest k d. rest_of_two (n / 64) _ rest k d (omega arith))
              (from_utf8_two n low high ∙ found))
          λ h₂.
            ReadAs-if (ltb n 65536)
              (λ h.
                let low : 2048 ≤ n = ltb_false→le n 2048 h₂ in
                let high : n < 65536 = ltb→lt n 65536 h in
                beyond-ReadAs c (224 + n / 4096) _ (omega arith) (omega arith)
                  (λ rest k d. rest_of_three (n / 4096) _ _ rest k d (omega arith))
                  (from_utf8_three n low high ∙ found))
              λ h₃.
                let low : 65536 ≤ n = ltb_false→le n 65536 h₃ in
                beyond-ReadAs c (240 + n / 262144) _ (omega arith) (omega arith)
                  (λ rest k d. rest_of_four (n / 262144) _ _ _ rest k d (omega arith))
                  (from_utf8_four n low top ∙ found)

-- A character of a key, and one of a printed string.
pub encode-ReadAs : (c : Char) → IsPlain (code c) → ReadAs c (encode_char (code c))
encode-ReadAs c plain = encode_number-ReadAs c (code c) refl plain

pub escape-ReadAs : (c : Char) → ReadAs c (escape (code c))
unfolding escape
escape-ReadAs c =
    let n = code c in
    let same = λ (m : ℕ) (h : (code c == m) ≡ true). equal (code c) m h in
    ReadAs-if (n == 34) (λ h. simple-ReadAs c 34 34 (same 34 h) refl refl)
      λ h₁.
        ReadAs-if (n == 92) (λ h. simple-ReadAs c 92 92 (same 92 h) refl refl)
          λ h₂.
            ReadAs-if (n == 10) (λ h. simple-ReadAs c 10 b'n' (same 10 h) refl refl)
              λ _.
                ReadAs-if (n == 9) (λ h. simple-ReadAs c 9 b't' (same 9 h) refl refl)
                  λ _.
                    ReadAs-if (n == 13) (λ h. simple-ReadAs c 13 b'r' (same 13 h) refl refl)
                      λ _.
                        ReadAs-if (n == 8) (λ h. simple-ReadAs c 8 b'b' (same 8 h) refl refl)
                          λ _.
                            ReadAs-if (n == 12) (λ h. simple-ReadAs c 12 b'f' (same 12 h) refl refl)
                              λ _.
                                ReadAs-if (is_control n) (λ h. unicode-ReadAs c (small (code c) h))
                                  λ h₃. encode-ReadAs c (plain (code c) h₁ h₂ h₃)
  where
    equal : (a b : ℕ) → (a == b) ≡ true → a ≡ b
    equal a b h = ground arith

    small : (a : ℕ) → is_control a ≡ true → a < 160
    small a h = ground arith

    plain : (a : ℕ) → (a == 34) ≡ false → (a == 92) ≡ false → is_control a ≡ false → IsPlain a
    plain a h k l = (ground arith, ground arith, ground arith)
