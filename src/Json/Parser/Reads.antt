-- ===== src/Json/Parser/Reads.antt =====
-- Reading a known text off the front of the input (json/src/lib.rs, `Parser`).
use miniraft.Prelude.{
  ℕ, ◌+◌, ◌≡◌, refl, subst, ap, arith, Bool, false, none, List, [], ◌∷◌, ◌++◌, ◌==◌, ◌||◌, ◌&&◌,
  leb, length,
}
use miniraft.Json.Parser.{
  Read, byte, Parser, ParseResult, parsed, bind, peek_at, is_some_and, is_json_whitespace,
  skip_whitespace, skip_loop,
}

-- A text, and what follows it.
abbrev pub source : List ℕ → List Read → List Read
source [] rest = rest
source (b ∷ bs) rest = byte b ∷ source bs rest

pub source-append :
    (text more : List ℕ) (rest : List Read)
    → source (text ++ more) rest ≡ source text (source more rest)
source-append [] more rest = refl
source-append (b ∷ text) more rest = ap (◌∷◌ (byte b)) (source-append text more rest)

pub length-source :
    (text : List ℕ) (rest : List Read) → length (source text rest) ≡ length text + length rest
length-source [] rest = omega arith
length-source (b ∷ text) rest = omega (arith, length-source text rest)

-- A parser at some input and position, on some level.
abbrev pub at : List Read → ℕ → ℕ → Parser
at s n d = record { stream = s; stream_pos = n; pending_high_surrogate = none; depth = d }

-- The call comes to the value, and leaves the rest.
abbrev pub Comes : {A : Type 0} → ParseResult A → A → List Read → ℕ → Type 0
Comes r a rest d = (n : ℕ) × (r ≡ parsed a (at rest n d))

pub Comes-bind :
    {A B : Type 0} {r : ParseResult A} {a : A} {b : B} {s t : List Read} {d e : ℕ}
    (f : A → Parser → ParseResult B)
    → Comes r a s d
    → ((n : ℕ) → Comes (f a (at s n d)) b t e)
    → Comes (bind r f) b t e
Comes-bind f (n, h) next = let (m, k) = next n in (m, rw h k)

pub Comes-eq :
    {A : Type 0} {r : ParseResult A} {a b : A} {s : List Read} {d : ℕ}
    → a ≡ b
    → Comes r a s d
    → Comes r b s d
Comes-eq {r = r} {s = s} {d = d} e h = subst (λ c. Comes r c s d) e h

-- What would be taken for more of a number.
abbrev pub continues_value : ℕ → Bool
continues_value b = (leb b'0' b && leb b b'9') || (b == b'.' || (b == b'e' || b == b'E'))

-- What may follow a value.
abbrev pub Stops : List Read → Type 0
Stops rest = is_some_and continues_value (peek_at rest) ≡ false

-- No white space is left to skip.
pub skip_whitespace-Comes :
    (s : List Read) (n d : ℕ)
    → is_some_and is_json_whitespace (peek_at s) ≡ false
    → Comes (skip_whitespace (at s n d)) tt s d
unfolding skip_whitespace skip_loop
skip_whitespace-Comes s n d h = (n, rw h refl)

-- The end of a line is.
pub skip_newline-Comes : (n d : ℕ) → Comes (skip_whitespace (at (byte 10 ∷ []) n d)) tt [] d
unfolding skip_whitespace skip_loop
skip_newline-Comes n d = (n + 1, refl)
