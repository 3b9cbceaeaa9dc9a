-- ===== src/Json/Unicode.antt =====
-- Characters as Rust's standard library encodes them, as far as json/src/lib.rs uses it:
-- `char::from_u32`, `char::decode_utf16` of a pair, UTF-8, and `str::from_utf8` of the bytes of one
-- character.
pub mod Scalars
pub mod Utf8
use Prim.Native.Char.{Char, char, code, IsLt, IsScalar}
use Prim.Native.Nat.{compare, Ordering}
use mathlib.Core.Option
use miniraft.Prelude.{
  ℕ, ◌+◌, ◌-◌, ◌*◌, ◌/◌, ◌%◌, Bool, ◌&&◌, Option, none, some, List, [], ◌∷◌, ltb, leb,
  if◌then◌else◌, String, ◌++◌,
}

-- The clauses of `IsScalar`, on the answers of its three comparisons.
abbrev pub Below : Ordering → Ordering → Type 0
Below Ordering.lt o = IsLt o
Below Ordering.eq o = ⊥
Below Ordering.gt o = ⊥

abbrev pub Scalar : Ordering → Ordering → Ordering → Type 0
Scalar Ordering.lt o p = Unit
Scalar Ordering.eq o p = Below o p
Scalar Ordering.gt o p = Below o p

abbrev pub below? : (o p : Ordering) → Option (Below o p)
below? Ordering.lt Ordering.lt = some tt
below? Ordering.lt Ordering.eq = none
below? Ordering.lt Ordering.gt = none
below? Ordering.eq p = none
below? Ordering.gt p = none

abbrev pub scalar? : (o p q : Ordering) → Option (Scalar o p q)
scalar? Ordering.lt p q = some tt
scalar? Ordering.eq p q = below? p q
scalar? Ordering.gt p q = below? p q

-- `char::from_u32`.
abbrev pub is_scalar : (n : ℕ) → Option (IsScalar n)
is_scalar n = scalar? (compare n 55296) (compare 57343 n) (compare n 1114112)

unfoldable pub from_u32 : ℕ → Option Char
from_u32 n = Option.map (char n) (is_scalar n)

-- `char::decode_utf16` of a high surrogate and another unit: the one character, or an error.
unfoldable pub decode_pair : ℕ → ℕ → Option Char
decode_pair high low =
    if leb 56320 low && ltb low 57344
    then from_u32 (65536 + (high - 55296) * 1024 + (low - 56320))
    else none

unfoldable pub encode_char : ℕ → List ℕ
encode_char n =
    if ltb n 128
    then n ∷ []
    else if ltb n 2048
    then (192 + n / 64) ∷ (128 + n % 64) ∷ []
    else if ltb n 65536
    then (224 + n / 4096) ∷ (128 + n / 64 % 64) ∷ (128 + n % 64) ∷ []
    else (240 + n / 262144) ∷ (128 + n / 4096 % 64) ∷ (128 + n / 64 % 64) ∷ (128 + n % 64) ∷ []

unfoldable pub encode_text : String → List ℕ
encode_text String.[] = []
encode_text (String.◌∷◌ c s) = encode_char (code c) ++ encode_text s

abbrev pub continues : ℕ → Bool
continues b = leb 128 b && ltb b 192

-- `str::from_utf8` of two, three or four bytes of which the first is not ASCII.
unfoldable pub from_utf8 : List ℕ → Option Char
from_utf8 (a ∷ b ∷ []) =
    if leb 194 a && (ltb a 224 && continues b) then from_u32 ((a - 192) * 64 + (b - 128)) else none
from_utf8 (a ∷ b ∷ c ∷ []) =
    let n = (a - 224) * 4096 + (b - 128) * 64 + (c - 128) in
    if leb 224 a && (ltb a 240 && (continues b && (continues c && leb 2048 n)))
    then from_u32 n
    else none
from_utf8 (a ∷ b ∷ c ∷ d ∷ []) =
    let n = (a - 240) * 262144 + (b - 128) * 4096 + (c - 128) * 64 + (d - 128) in
    if leb 240 a && (ltb a 245 && (continues b && (continues c && (continues d && leb 65536 n))))
    then from_u32 n
    else none
from_utf8 bytes = none
