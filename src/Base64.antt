-- ===== src/Base64.antt =====
-- Base64 (base64/src/lib.rs). Bytes are numbers and text is the list of its bytes. A shift to the
-- right is a division; a shift to the left is a multiplication, cut to the width of its type; the
-- operands of each `|` have no bit in common, so it is their sum; `& MASK` is the remainder by 64.
pub mod Bits
pub mod RoundTrip
pub mod Errors
use miniraft.Prelude.{
  ℕ, zero, suc, ◌+◌, ◌-◌, ◌*◌, ◌/◌, ◌%◌, ◌^◌, Bool, true, false, not, ◌&&◌, List, [], ◌∷◌, ltb,
  ◌==◌, if◌then◌else◌, length,
}
use miniraft.Prelude.Results.{Result, done, failed, ◌>>=◌}
use miniraft.Raft.State.{is_empty}

-- The bytes of "ABC…Zabc…z0123456789+/".
unfoldable pub alphabet : ℕ → ℕ
alphabet i =
    if ltb i 26
    then 65 + i
    else if ltb i 52
    then 97 + (i - 26)
    else if ltb i 62
    then 48 + (i - 52)
    else if i == 62
    then 43
    else 47

abbrev pub padding : ℕ
padding = 61

-- `ALPHABET[n & MASK]`.
abbrev pub symbol : ℕ → ℕ
symbol n = alphabet (n % 64)

unfoldable pub encode : List ℕ → List ℕ
encode [] = []
encode (b ∷ []) = symbol (b / 4) ∷ symbol (b * 16 % 2 ^ 8) ∷ padding ∷ padding ∷ []
encode (l ∷ r ∷ []) =
    let datum = l * 256 + r in
    symbol (datum / 1024) ∷ symbol (datum / 16) ∷ symbol (datum * 4 % 2 ^ 16) ∷ padding ∷ []
encode (a ∷ b ∷ c ∷ rest) =
    let datum = a * 65536 + b * 256 + c in
    symbol (datum / 262144)
    ∷ symbol (datum / 4096)
    ∷ symbol (datum / 64)
    ∷ symbol datum
    ∷ encode rest

pub data DecodeError : Type 0 where
  invalid_length : DecodeError
  -- Position, byte.
  invalid_byte : ℕ → ℕ → DecodeError
  invalid_padding : DecodeError

-- `DECODE_MAP` after `n` turns of the loop that fills it, at the byte `b`.
unfoldable pub filled : ℕ → ℕ → ℕ
filled zero b = 255
filled (suc n) b = if alphabet n == b then n else filled n b

abbrev pub decode_map : ℕ → ℕ
decode_map b = filled 64 b

-- `get_byte` of the byte `b` at a position.
abbrev pub get_byte : ℕ → ℕ → Result DecodeError ℕ
get_byte position b =
    let val = decode_map b in if val == 255 then failed (invalid_byte position b) else done val

-- A chunk with both paddings, after its first two values; `last` says whether it is the last one.
abbrev pub end_one : Bool → ℕ → ℕ → Result DecodeError (List ℕ)
end_one last fourth datum =
    if not last
    then failed invalid_padding
    else if not (fourth == padding)
    then failed invalid_padding
    else done (datum / 65536 % 256 ∷ [])

-- A chunk with one padding.
abbrev pub end_two : Bool → ℕ → Result DecodeError (List ℕ)
end_two last datum =
    if not last then failed invalid_padding else done (datum / 65536 % 256 ∷ datum / 256 % 256 ∷ [])

-- The loop over the chunks, from position `at` on.
unfoldable pub decode_chunks : ℕ → List ℕ → Result DecodeError (List ℕ)
decode_chunks at (a ∷ b ∷ c ∷ d ∷ rest) =
    let rest_decoded = decode_chunks (at + 4) rest in
    get_byte at a >>= λ v₀. get_byte (at + 1) b >>= λ v₁.
    let datum = v₀ * 262144 + v₁ * 4096 in
    if c == padding
    then end_one (is_empty rest) d datum
    else (get_byte (at + 2) c >>= λ v₂.
        if d == padding
        then end_two (is_empty rest) (datum + v₂ * 64)
        else (get_byte (at + 3) d >>= λ v₃.
            let full = datum + v₂ * 64 + v₃ in
            rest_decoded >>= λ out.
            done (full / 65536 % 256 ∷ full / 256 % 256 ∷ full % 256 ∷ out)))
decode_chunks at bytes = done []

unfoldable pub decode : List ℕ → Result DecodeError (List ℕ)
decode bytes = if not (length bytes % 4 == 0) then failed invalid_length else decode_chunks 0 bytes
