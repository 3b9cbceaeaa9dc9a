-- ===== src/Base64/Bits.antt =====
-- The symbols and the bits of base64 (base64/src/lib.rs).
use miniraft.Prelude.{
  ℕ, zero, suc, ◌+◌, ◌*◌, ◌/◌, ◌%◌, ◌^◌, ◌≤◌, ◌<◌, ◌≡◌, refl, false, arith, ◌==◌, ==_iff, ◌⊎◌, inl,
}
use miniraft.Prelude.Results.{done}
use miniraft.Base64.{alphabet, padding, filled, get_byte}

alphabet-injective : (i j : ℕ) → i < 64 → j < 64 → alphabet i ≡ alphabet j → i ≡ j
unfolding alphabet
alphabet-injective i j hi hj e = ground arith

pub alphabet-padding : (i : ℕ) → i < 64 → alphabet i == padding ≡ false
unfolding alphabet
alphabet-padding i h = ground arith

filled-alphabet : (n i : ℕ) → n ≤ 64 → i < n → filled n (alphabet i) ≡ i
unfolding filled
filled-alphabet zero i u h = omega arith
filled-alphabet (suc n) i u h =
    let ih = filled-alphabet n i (omega arith) in
    let inj = alphabet-injective n i in ground (arith, ==_iff (alphabet n) (alphabet i))

-- The byte of each value is decoded to the value.
pub get_byte-alphabet : (position i : ℕ) → i < 64 → get_byte position (alphabet i) ≡ done i
get_byte-alphabet position i h = let e = filled-alphabet 64 i (omega arith) h in ground arith

pub filled_le : (n b : ℕ) → n ≤ 64 → (filled n b ≡ 255) ⊎ (filled n b < 64)
unfolding filled
filled_le zero b u = inl refl
filled_le (suc n) b u = let ih = filled_le n b (omega arith) in ground arith

pub three_high :
    (a b c : ℕ)
    → a < 256
    → b < 256
    → c < 256
    → let datum = a * 65536 + b * 256 + c in
      let full =
        datum / 262144 % 64 * 262144
        + datum / 4096 % 64 * 4096
        + datum / 64 % 64 * 64
        + datum % 64 in
      (full ≡ datum) × (datum / 65536 % 256 ≡ a) × (datum / 256 % 256 ≡ b) × (datum % 256 ≡ c)
three_high a b c ha hb hc = (omega arith, omega arith, omega arith, omega arith)

pub two_high :
    (l r : ℕ)
    → l < 256
    → r < 256
    → let datum = l * 256 + r in
      let full =
        datum / 1024 % 64 * 262144 + datum / 16 % 64 * 4096 + datum * 4 % 2 ^ 16 % 64 * 64 in
      (full / 65536 % 256 ≡ l) × (full / 256 % 256 ≡ r)
two_high l r hl hr = (omega arith, omega arith)

pub one_high :
    (b : ℕ) → b < 256 → (b / 4 % 64 * 262144 + b * 16 % 2 ^ 8 % 64 * 4096) / 65536 % 256 ≡ b
one_high b h = omega arith
