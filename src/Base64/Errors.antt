-- ===== src/Base64/Errors.antt =====
-- What the decoder's errors report (base64/src/lib.rs).
use Prim.Native.Nat.{zero}
use miniraft.Prelude.{
  ℕ, ◌+◌, ◌-◌, ◌%◌, ◌≤◌, ◌<◌, ◌≡◌, ◌≢◌, ◌↔◌, refl, Bool, false, true, some, List, [], ◌∷◌, length,
  arith, ◌==◌, ==_iff, suc, subst, sym, ◌∙◌, get_elem?, Bool-cases, inl, inr,
}
use miniraft.Prelude.Results.{Result, done, failed, ◌>>=◌}
use miniraft.Base64.{
  DecodeError, invalid_length, invalid_byte, invalid_padding, padding, alphabet, filled, decode_map,
  get_byte, end_one, end_two, decode_chunks, decode,
}

-- Every error of a result has the property.
abbrev pub Fails : {A : Type 0} → (DecodeError → Type 0) → Result DecodeError A → Type 0
Fails Q (done a) = Unit {0}
Fails Q (failed e) = Q e

-- None of the 64 bytes of the alphabet.
abbrev pub IsForeign : ℕ → Type 0
IsForeign b = (i : ℕ) → i < 64 → alphabet i ≢ b

-- A byte for which the table has no entry after `n` turns is none of the first `n` bytes.
filled-foreign : (n b : ℕ) → n ≤ 255 → filled n b ≡ 255 → (i : ℕ) → i < n → alphabet i ≢ b
unfolding filled
filled-foreign zero b small h i lt = absurd (omega arith)
filled-foreign (suc n) b small h i lt = elim (Bool-cases (alphabet n == b)) [
  | inl found ↦ absurd (ground arith)
  | inr other ↦
      let rest : filled n b ≡ 255 = ground arith in
      elim (Bool-cases (i == n)) [
        | inl last ↦
            let at : i ≡ n = (==_iff i n).0 last in
            λ e.
              let found : (alphabet n == b) ≡ true =
                (==_iff (alphabet n) b).1 (subst (λ k. alphabet k ≡ b) at e) in
              absurd cc
        | inr before ↦ filled-foreign n b (omega arith) rest i (ground arith)
      ]
]

-- An invalid byte stands at its position, counted from `at`, and is none of the alphabet's. No chunk
-- has an invalid length.
abbrev pub Explained : ℕ → List ℕ → DecodeError → Type 0
Explained at bytes invalid_length = ⊥
Explained at bytes (invalid_byte p b) = (at ≤ p) × (get_elem? bytes (p - at) ≡ some b) × IsForeign b
Explained at bytes invalid_padding = Unit {0}

Fails->>= :
    {A B : Type 0} (Q : DecodeError → Type 0) (r : Result DecodeError A)
    (f : A → Result DecodeError B)
    → Fails Q r
    → ((a : A) → Fails Q (f a))
    → Fails Q (r >>= f)
Fails->>= Q (done a) f h k = k a
Fails->>= Q (failed e) f h k = h

Fails-map :
    {A : Type 0} (Q R : DecodeError → Type 0) (r : Result DecodeError A)
    → ((e : DecodeError) → Q e → R e)
    → Fails Q r
    → Fails R r
Fails-map Q R (done a) k h = tt
Fails-map Q R (failed e) k h = k e h

get_byte-Fails :
    (at n position : ℕ) (bytes : List ℕ) (b : ℕ)
    → position ≡ at + n
    → get_elem? bytes n ≡ some b
    → Fails (Explained at bytes) (get_byte position b)
get_byte-Fails at n position bytes b p h = elim (Bool-cases (decode_map b == 255)) [
  | inl e ↦
      let e' : decode_map b ≡ 255 = (==_iff (decode_map b) 255).0 e in
      let back : position - at ≡ n = omega arith in
      rw e (omega arith, rw back h, filled-foreign 64 b (omega arith) e')
  | inr e ↦ rw e tt
]

end_one-Fails :
    (Q : DecodeError → Type 0) (last : Bool) (d datum : ℕ)
    → Q invalid_padding
    → Fails Q (end_one last d datum)
end_one-Fails Q false d datum q = q
end_one-Fails Q true d datum q = elim (Bool-cases (d == padding)) [
  | inl e ↦ rw e tt
  | inr e ↦ rw e q
]

end_two-Fails :
    (Q : DecodeError → Type 0) (last : Bool) (datum : ℕ)
    → Q invalid_padding
    → Fails Q (end_two last datum)
end_two-Fails Q false datum q = q
end_two-Fails Q true datum q = tt

Explained-four :
    (at a b c d : ℕ) (rest : List ℕ) (e : DecodeError)
    → Explained (at + 4) rest e
    → Explained at (a ∷ b ∷ c ∷ d ∷ rest) e
Explained-four at a b c d rest invalid_length h = h
Explained-four at a b c d rest (invalid_byte p q) (le, found, out) =
    let k = p - (at + 4) in
    let e : p - at ≡ suc (suc (suc (suc k))) = omega arith in (omega arith, rw e found, out)
Explained-four at a b c d rest invalid_padding h = tt

decode_chunks-Fails :
    (at : ℕ) (bytes : List ℕ) → Fails (Explained at bytes) (decode_chunks at bytes)
unfolding decode_chunks
decode_chunks-Fails at (w ∷ x ∷ y ∷ z ∷ rest) =
    let bytes : List ℕ = w ∷ x ∷ y ∷ z ∷ rest in
    let Q : DecodeError → Type 0 = Explained at bytes in
    let ih =
      Fails-map (Explained (at + 4) rest) Q (decode_chunks (at + 4) rest)
        (Explained-four at w x y z rest) (decode_chunks-Fails (at + 4) rest) in
    Fails->>= Q (get_byte at w) _ (get_byte-Fails at 0 at bytes w (omega arith) refl) λ v₀.
      Fails->>= Q (get_byte (at + 1) x) _ (get_byte-Fails at 1 (at + 1) bytes x refl refl) λ v₁.
        elim (Bool-cases (y == padding)) [
          | inl e ↦ rw e (end_one-Fails Q _ z _ tt)
          | inr e ↦ rw e (
              Fails->>= Q (get_byte (at + 2) y) _ (get_byte-Fails at 2 (at + 2) bytes y refl refl)
                λ v₂. elim (Bool-cases (z == padding)) [
                  | inl e' ↦ rw e' (end_two-Fails Q _ _ tt)
                  | inr e' ↦ rw e' (
                      Fails->>= Q (get_byte (at + 3) z) _
                        (get_byte-Fails at 3 (at + 3) bytes z refl refl)
                        λ v₃. Fails->>= Q (decode_chunks (at + 4) rest) _ ih λ out. tt)
                ])
        ]
decode_chunks-Fails at [] = tt
decode_chunks-Fails at (w ∷ []) = tt
decode_chunks-Fails at (w ∷ x ∷ []) = tt
decode_chunks-Fails at (w ∷ x ∷ y ∷ []) = tt

-- An invalid byte is reported with a position at which it stands and is none of the 64 bytes of
-- the alphabet, and an invalid length exactly if the length is no multiple of four.
pub decode-fault :
    (bytes : List ℕ)
    → ((p b : ℕ)
        → decode bytes ≡ failed (invalid_byte p b)
        → (get_elem? bytes p ≡ some b) × IsForeign b)
      × ((decode bytes ≡ failed invalid_length) ↔ (length bytes % 4 ≢ 0))
unfolding decode
decode-fault bytes = elim (Bool-cases (length bytes % 4 == 0)) [
  | inl e ↦
      let same : decode bytes ≡ decode_chunks 0 bytes = rw (e, decode) refl in
      let q = decode_chunks-Fails 0 bytes in
      let four : length bytes % 4 ≡ 0 = (==_iff (length bytes % 4) 0).0 e in
      (
        (λ p b h.
            let r : Explained 0 bytes (invalid_byte p b) =
              subst (Fails (Explained 0 bytes)) (sym same ∙ h) q in
            (subst (λ n. get_elem? bytes n ≡ some b) (omega arith) r.1, r.2)),
        ((λ h n. subst (Fails (Explained 0 bytes)) (sym same ∙ h) q), λ n. absurd (n four)),
      )
  | inr e ↦ (
    (λ p b h. ground arith),
    ((λ h. ground (arith, ==_iff (length bytes % 4) 0)), λ n. rw (e, decode) refl),
  )
]
