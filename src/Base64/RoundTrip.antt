-- ===== src/Base64/RoundTrip.antt =====
-- Decoding what was encoded (base64/src/lib.rs).
use miniraft.Prelude.{
  ℕ, ◌+◌, ◌*◌, ◌/◌, ◌%◌, ◌^◌, ◌<◌, ◌≡◌, refl, List, [], ◌∷◌, length, arith, ap₂, ◌∙◌,
}
use miniraft.Prelude.Results.{done}
use miniraft.Base64.{alphabet, padding, encode, decode_chunks, decode}
use miniraft.Base64.Bits.{get_byte-alphabet, alphabet-padding, three_high, two_high, one_high}

abbrev pub IsBytes : List ℕ → Type 0
IsBytes [] = Unit {0}
IsBytes (b ∷ bs) = (b < 256) × IsBytes bs

-- A chunk of four symbols.
decode_chunks_four :
    (at v₀ v₁ v₂ v₃ : ℕ) (rest out : List ℕ)
    → v₀ < 64
    → v₁ < 64
    → v₂ < 64
    → v₃ < 64
    → decode_chunks (at + 4) rest ≡ done out
    → let full = v₀ * 262144 + v₁ * 4096 + v₂ * 64 + v₃ in
      decode_chunks at (alphabet v₀ ∷ alphabet v₁ ∷ alphabet v₂ ∷ alphabet v₃ ∷ rest)
      ≡ done (full / 65536 % 256 ∷ full / 256 % 256 ∷ full % 256 ∷ out)
unfolding decode_chunks
decode_chunks_four at v₀ v₁ v₂ v₃ rest out h₀ h₁ h₂ h₃ e =
    rw
      (
        get_byte-alphabet at v₀ h₀,
        get_byte-alphabet (at + 1) v₁ h₁,
        alphabet-padding v₂ h₂,
        get_byte-alphabet (at + 2) v₂ h₂,
        alphabet-padding v₃ h₃,
        get_byte-alphabet (at + 3) v₃ h₃,
        e,
      )
      refl

decode_chunks_three :
    (at v₀ v₁ v₂ : ℕ)
    → v₀ < 64
    → v₁ < 64
    → v₂ < 64
    → let full = v₀ * 262144 + v₁ * 4096 + v₂ * 64 in
      decode_chunks at (alphabet v₀ ∷ alphabet v₁ ∷ alphabet v₂ ∷ padding ∷ [])
      ≡ done (full / 65536 % 256 ∷ full / 256 % 256 ∷ [])
unfolding decode_chunks
decode_chunks_three at v₀ v₁ v₂ h₀ h₁ h₂ =
    rw
      (
        get_byte-alphabet at v₀ h₀,
        get_byte-alphabet (at + 1) v₁ h₁,
        alphabet-padding v₂ h₂,
        get_byte-alphabet (at + 2) v₂ h₂,
      )
      refl

decode_chunks_two :
    (at v₀ v₁ : ℕ)
    → v₀ < 64
    → v₁ < 64
    → decode_chunks at (alphabet v₀ ∷ alphabet v₁ ∷ padding ∷ padding ∷ [])
      ≡ done ((v₀ * 262144 + v₁ * 4096) / 65536 % 256 ∷ [])
unfolding decode_chunks
decode_chunks_two at v₀ v₁ h₀ h₁ =
    rw (get_byte-alphabet at v₀ h₀, get_byte-alphabet (at + 1) v₁ h₁) refl

decode_chunks-encode :
    (at : ℕ) (bytes : List ℕ) → IsBytes bytes → decode_chunks at (encode bytes) ≡ done bytes
unfolding encode decode_chunks
decode_chunks-encode at [] h = refl
decode_chunks-encode at (b ∷ []) h =
    decode_chunks_two at (b / 4 % 64) (b * 16 % 2 ^ 8 % 64) (omega arith) (omega arith)
    ∙ rw (one_high b h.0) refl
decode_chunks-encode at (l ∷ r ∷ []) h =
    let datum = l * 256 + r in
    let t = two_high l r h.0 h.1.0 in
    decode_chunks_three at (datum / 1024 % 64) (datum / 16 % 64) (datum * 4 % 2 ^ 16 % 64)
      (omega arith) (omega arith) (omega arith)
    ∙ ap₂ (λ x y. done (x ∷ y ∷ [])) t.0 t.1
decode_chunks-encode at (a ∷ b ∷ c ∷ rest) h =
    let datum = a * 65536 + b * 256 + c in
    let (f, ta, tb, tc) = three_high a b c h.0 h.1.0 h.1.1.0 in
    decode_chunks_four at (datum / 262144 % 64) (datum / 4096 % 64) (datum / 64 % 64) (datum % 64)
      (encode rest) rest (omega arith) (omega arith) (omega arith) (omega arith)
      (decode_chunks-encode (at + 4) rest h.1.1.1)
    ∙ rw (f, ta, tb, tc) refl

length-encode : (bytes : List ℕ) → length (encode bytes) ≡ (length bytes + 2) / 3 * 4
unfolding encode
length-encode [] = refl
length-encode (b ∷ []) = refl
length-encode (l ∷ r ∷ []) = refl
length-encode (a ∷ b ∷ c ∷ rest) = let ih = length-encode rest in omega arith

-- Bytes are encoded to four symbols for every three bytes begun, and are decoded to the same
-- bytes.
pub decode-encode :
    (bytes : List ℕ)
    → IsBytes bytes
    → (length (encode bytes) ≡ (length bytes + 2) / 3 * 4) × (decode (encode bytes) ≡ done bytes)
unfolding decode
decode-encode bytes h =
    let l = length-encode bytes in let e = decode_chunks-encode 0 bytes h in (l, ground arith)
