-- ===== src/Json/Parser/Strings/Whole.antt =====
-- A printed string, or a key of plain characters, is read as a whole (json/src/lib.rs,
-- `visit_string`).
use Prim.Native.Char.{Char, code}
use Prim.Native.String.{◌++◌ as text_append}
use Prim.Native.String.append
use text.Mathlib.TextLemmas
use miniraft.Prelude.{
  ℕ, zero, suc, ◌+◌, ◌<◌, ◌≡◌, refl, sym, ap, ◌∙◌, arith, List, [], ◌∷◌, ◌++◌, length, String,
}
use miniraft.Json.Unicode.{encode_text}
use miniraft.Json.Printer.{escape_text}
use miniraft.Json.Parser.{Read, byte}
use miniraft.Json.Parser.Strings.{push_char, pair_pending, string_loop, visit_string}
use miniraft.Json.Parser.Strings.Reads.{ReadAs, IsPlain, encode-ReadAs, escape-ReadAs}
use miniraft.Json.Parser.Reads.{
  source, source-append, length-source, at, Comes, Comes-bind, Comes-eq,
}

-- The text spells the characters, one after the other.
data Spells : String → List ℕ → Type 0 where
  nothing : Spells String.[] []
  next :
      {c : Char} {s : String} {x t : List ℕ}
      → ReadAs c x
      → Spells s t
      → Spells (String.◌∷◌ c s) (x ++ t)

push_char-append :
    (c : Char) (done s : String)
    → text_append (push_char c done) s ≡ text_append done (String.◌∷◌ c s)
push_char-append c done s =
    TextLemmas.append_assoc done (String.◌∷◌ c String.[]) s
    ∙ ap (text_append done) (append.cons c String.[] s ∙ ap (String.◌∷◌ c) (append.nil s))

string_loop-Comes :
    {s : String} {t : List ℕ} (fuel : ℕ) (done : String) (rest : List Read) (n d : ℕ)
    → Spells s t
    → length (source t (byte 34 ∷ rest)) < fuel
    → Comes (string_loop fuel done (at (source t (byte 34 ∷ rest)) n d)) (text_append done s) rest d
unfolding string_loop pair_pending
string_loop-Comes zero done rest n d spells h = absurd (omega arith)
string_loop-Comes (suc fuel) done rest n d nothing h =
    Comes-eq (sym (TextLemmas.append-nil done)) (n + 1, refl)
string_loop-Comes (suc fuel) done rest n d (next {c} {s} {x} {t} read spells) h =
    let tail = source t (byte 34 ∷ rest) in
    let split : source (x ++ t) (byte 34 ∷ rest) ≡ byte read.first ∷ source read.more tail =
      source-append x t (byte 34 ∷ rest) ∙ ap (λ y. source y tail) read.form in
    let enough : length tail < fuel =
      omega (arith, ap length split, h, length-source read.more tail) in
    rw (split, read.no_quote)
      (Comes-bind _ (read.reads done tail (n + 1) d) λ m.
        Comes-eq (push_char-append c done s)
          (string_loop-Comes fuel (push_char c done) rest m d spells enough))

visit_string-Comes :
    {s : String} {t : List ℕ} (rest : List Read) (n d : ℕ)
    → Spells s t
    → Comes (visit_string (at (byte 34 ∷ source t (byte 34 ∷ rest)) n d)) s rest d
unfolding visit_string
visit_string-Comes {s} {t} rest n d spells = Comes-eq (append.nil s) (
    string_loop-Comes (suc (length (source t (byte 34 ∷ rest)))) String.[] rest (n + 1) d spells
      (omega arith))

escape_text-Spells : (s : String) → Spells s (escape_text s)
unfolding escape_text
escape_text-Spells String.[] = nothing
escape_text-Spells (String.◌∷◌ c s) = next (escape-ReadAs c) (escape_text-Spells s)

-- Every character may be written as it is.
unfoldable pub AllPlain : String → Type 0
AllPlain String.[] = Unit {0}
AllPlain (String.◌∷◌ c s) = IsPlain (code c) × AllPlain s

encode_text-Spells : (s : String) → AllPlain s → Spells s (encode_text s)
unfolding encode_text AllPlain
encode_text-Spells String.[] h = nothing
encode_text-Spells (String.◌∷◌ c s) (plain, all) =
    next (encode-ReadAs c plain) (encode_text-Spells s all)

-- Every string is read back as it was escaped.
pub visit_string-escape_text :
    (s : String) (rest : List Read) (n d : ℕ)
    → Comes (visit_string (at (byte 34 ∷ source (escape_text s) (byte 34 ∷ rest)) n d)) s rest d
visit_string-escape_text s rest n d = visit_string-Comes rest n d (escape_text-Spells s)

pub visit_string-encode_text :
    (s : String) (rest : List Read) (n d : ℕ)
    → AllPlain s
    → Comes (visit_string (at (byte 34 ∷ source (encode_text s) (byte 34 ∷ rest)) n d)) s rest d
visit_string-encode_text s rest n d h = visit_string-Comes rest n d (encode_text-Spells s h)
