-- ===== src/Examples/Texts.antt =====
-- The theorems on JSON and base64, at concrete messages and bytes (raft/src/rpc.rs,
-- raft/src/persistence.rs, json/src/lib.rs, base64/src/lib.rs).
use miniraft.Prelude.{ℕ, ◌%◌, ◌≡◌, ◌≢◌, ◌↔◌, some, List, [], ◌∷◌, arith, length, get_elem?}
use miniraft.Prelude.Results.{done, failed}
use miniraft.Json.Serde.{string_serde, u64_serde}
use miniraft.Base64.{encode, decode, invalid_byte, invalid_length}
use miniraft.Base64.RoundTrip.{decode-encode}
use miniraft.Base64.Errors.{IsForeign, decode-fault}

decode-encode_example :
    (length (encode (77 ∷ 97 ∷ 110 ∷ 33 ∷ [])) ≡ 8)
    × (decode (encode (77 ∷ 97 ∷ 110 ∷ 33 ∷ [])) ≡ done (77 ∷ 97 ∷ 110 ∷ 33 ∷ []))
decode-encode_example =
    decode-encode (77 ∷ 97 ∷ 110 ∷ 33 ∷ [])
      (omega arith, (omega arith, (omega arith, (omega arith, tt))))

-- The text "TW#u".
abbrev bad_text : List ℕ
bad_text = 84 ∷ 87 ∷ 35 ∷ 117 ∷ []

decode-fault_example :
    ((p b : ℕ)
      → decode bad_text ≡ failed (invalid_byte p b)
      → (get_elem? bad_text p ≡ some b) × IsForeign b)
    × ((decode bad_text ≡ failed invalid_length) ↔ (length bad_text % 4 ≢ 0))
decode-fault_example = decode-fault bad_text
