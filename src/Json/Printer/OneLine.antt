-- ===== src/Json/Printer/OneLine.antt =====
-- The printed text of a value stands on one line (json/src/lib.rs, `Display for Value`).
use Prim.Native.Char.{code}
use miniraft.Prelude.{
  ℕ, ◌/◌, ◌%◌, ◌≤◌, inl, inr, sym, subst, arith, Bool, true, false, List, [], ◌∷◌, ◌++◌, ◌==◌,
  if◌then◌else◌, String, Bool-cases,
}
use miniraft.Json.{
  Value, Entries, Values, string, number, object, array, bool, null, no_entry, entry, no_value,
  item,
}
use miniraft.Json.Unicode.{encode_char, encode_text}
use miniraft.Json.Grammar.{
  AllDigits, IsNatural, naught, positive, IsIntegral, natural, negative, IsFraction, whole,
  fraction, IsExponent, no_exponent, unsigned, signed, IsNumber, parts,
}
use miniraft.Json.Valid.{IsValid, EntriesValid, ItemsValid}
use miniraft.Json.Parser.Strings.Whole.{AllPlain}
use miniraft.Json.Printer.{
  is_control, hex_symbol, hex4, escape, escape_text, separator, print_key, print, print_entries,
  print_items,
}
use miniraft.Json.Printer.Layout.{PlainKeys, EntriesPlain, ItemsPlain}

-- No control characters.
abbrev pub AllVisible : List ℕ → Type 0
AllVisible [] = Unit {0}
AllVisible (b ∷ bs) = (32 ≤ b) × AllVisible bs

append-AllVisible : (s t : List ℕ) → AllVisible s → AllVisible t → AllVisible (s ++ t)
append-AllVisible [] t h k = k
append-AllVisible (b ∷ s) t (h, hs) k = (h, append-AllVisible s t hs k)

encode_char-AllVisible : (n : ℕ) → 32 ≤ n → AllVisible (encode_char n)
unfolding encode_char
encode_char-AllVisible n h = ground arith

hex_symbol-IsVisible : (d : ℕ) → 32 ≤ hex_symbol d
hex_symbol-IsVisible d = ground arith

hex4-AllVisible : (n : ℕ) → AllVisible (hex4 n)
hex4-AllVisible n = (
  hex_symbol-IsVisible (n / 4096 % 16),
  (
    hex_symbol-IsVisible (n / 256 % 16),
    (hex_symbol-IsVisible (n / 16 % 16), (hex_symbol-IsVisible (n % 16), tt)),
  ),
)

if-AllVisible :
    (b : Bool) (s t : List ℕ) → AllVisible s → AllVisible t → AllVisible (if b then s else t)
if-AllVisible true s t h k = h
if-AllVisible false s t h k = k

escape-AllVisible : (n : ℕ) → AllVisible (escape n)
unfolding escape
escape-AllVisible n = if-AllVisible (n == 34) _ _ (omega arith) (
    if-AllVisible (n == 92) _ _ (omega arith) (
      if-AllVisible (n == 10) _ _ (omega arith) (
        if-AllVisible (n == 9) _ _ (omega arith) (
          if-AllVisible (n == 13) _ _ (omega arith) (
            if-AllVisible (n == 8) _ _ (omega arith) (
              if-AllVisible (n == 12) _ _ (omega arith) (elim (Bool-cases (is_control n)) [
                | inl control ↦ rw control (omega arith, (omega arith, hex4-AllVisible n))
                | inr other ↦ rw other (encode_char-AllVisible n (ground arith))
              ])))))))

escape_text-AllVisible : (s : String) → AllVisible (escape_text s)
unfolding escape_text
escape_text-AllVisible String.[] = tt
escape_text-AllVisible (String.◌∷◌ c s) =
    append-AllVisible (escape (code c)) (escape_text s) (escape-AllVisible (code c))
      (escape_text-AllVisible s)

encode_text-AllVisible : (s : String) → AllPlain s → AllVisible (encode_text s)
unfolding encode_text AllPlain
encode_text-AllVisible String.[] h = tt
encode_text-AllVisible (String.◌∷◌ c s) (h, hs) =
    append-AllVisible (encode_char (code c)) (encode_text s) (encode_char-AllVisible (code c) h.0)
      (encode_text-AllVisible s hs)

digits-AllVisible : (ds : List ℕ) → AllDigits ds → AllVisible ds
digits-AllVisible [] h = tt
digits-AllVisible (d ∷ ds) ((low, high), hs) = (omega arith, digits-AllVisible ds hs)

natural-AllVisible : {t : List ℕ} → IsNatural t → AllVisible t
natural-AllVisible naught = (omega arith, tt)
natural-AllVisible (positive {ds} low high all) = (omega arith, digits-AllVisible ds all)

integral-AllVisible : {t : List ℕ} → IsIntegral t → AllVisible t
integral-AllVisible (natural h) = natural-AllVisible h
integral-AllVisible (negative h) = (omega arith, natural-AllVisible h)

fraction-AllVisible : {t : List ℕ} → IsFraction t → AllVisible t
fraction-AllVisible whole = tt
fraction-AllVisible (fraction {ds} (low, high) all) =
    (omega arith, (omega arith, digits-AllVisible ds all))

exponent-AllVisible : {t : List ℕ} → IsExponent t → AllVisible t
exponent-AllVisible no_exponent = tt
exponent-AllVisible (unsigned {ds} (low, high) all) =
    (omega arith, (omega arith, digits-AllVisible ds all))
exponent-AllVisible (signed {ds} sign (low, high) all) =
    (omega arith, (ground arith, (omega arith, digits-AllVisible ds all)))

number-AllVisible : {t : List ℕ} → IsNumber t → AllVisible t
number-AllVisible (parts {w} {f} {e} is_w is_f is_e form) = subst AllVisible (sym form) (
    append-AllVisible w (f ++ e) (integral-AllVisible is_w)
      (append-AllVisible f e (fraction-AllVisible is_f) (exponent-AllVisible is_e)))

separator-AllVisible : (first : Bool) → AllVisible (separator first)
separator-AllVisible true = tt
separator-AllVisible false = omega arith

mutual
  unfolding print IsValid PlainKeys

  pub print-AllVisible : (v : Value) → IsValid v → PlainKeys v → AllVisible (print v)
  print-AllVisible (string s) h k = (
    omega arith,
    append-AllVisible (escape_text s) (34 ∷ []) (escape_text-AllVisible s) (omega arith, tt),
  )
  print-AllVisible (number t) h k = number-AllVisible h
  print-AllVisible (object m) h k = (
    omega arith,
    append-AllVisible (print_entries true m) (b'}' ∷ []) (entries-AllVisible true m h k)
        (omega arith, tt),
  )
  print-AllVisible (array vs) h k = (
    omega arith,
    append-AllVisible (print_items true vs) (b']' ∷ []) (items-AllVisible true vs h k)
        (omega arith, tt),
  )
  print-AllVisible (bool true) h k = omega arith
  print-AllVisible (bool false) h k = omega arith
  print-AllVisible null h k = omega arith

  entries-AllVisible :
      (first : Bool) (m : Entries)
      → EntriesValid m
      → EntriesPlain m
      → AllVisible (print_entries first m)
  entries-AllVisible first no_entry h k = tt
  entries-AllVisible first (entry j v m) (_, h, hs) (plain, k, ks) =
      append-AllVisible (separator first) _ (separator-AllVisible first) (
        append-AllVisible (print_key j) _
          (
            omega arith,
            append-AllVisible (encode_text j) _ (encode_text-AllVisible j plain) (omega arith),
          )
          (append-AllVisible (print v) (print_entries false m) (print-AllVisible v h k)
            (entries-AllVisible false m hs ks)))

  items-AllVisible :
      (first : Bool) (vs : Values)
      → ItemsValid vs
      → ItemsPlain vs
      → AllVisible (print_items first vs)
  items-AllVisible first no_value h k = tt
  items-AllVisible first (item v vs) (h, hs) (k, ks) =
      append-AllVisible (separator first) _ (separator-AllVisible first) (
        append-AllVisible (print v) (print_items false vs) (print-AllVisible v h k)
          (items-AllVisible false vs hs ks))
