-- ===== src/Json/Unicode/Utf8.antt =====
-- The UTF-8 of a character beyond ASCII is decoded to it.
use miniraft.Prelude.{
  ℕ, ◌+◌, ◌-◌, ◌*◌, ◌/◌, ◌%◌, ◌≤◌, ◌<◌, ◌≡◌, refl, ap, arith, true, ◌&&◌, [], ◌∷◌, ltb, leb,
}
use miniraft.Json.Unicode.{from_u32, from_utf8, continues}

pub from_utf8_two :
    (n : ℕ) → 128 ≤ n → n < 2048 → from_utf8 ((192 + n / 64) ∷ (128 + n % 64) ∷ []) ≡ from_u32 n
unfolding from_utf8
from_utf8_two n low high =
    let guard : (leb 194 (192 + n / 64) && (ltb (192 + n / 64) 224 && continues (128 + n % 64)))
        ≡ true =
      ground arith in
    rw guard (ap from_u32 (omega arith))

pub from_utf8_three :
    (n : ℕ)
    → 2048 ≤ n
    → n < 65536
    → from_utf8 ((224 + n / 4096) ∷ (128 + n / 64 % 64) ∷ (128 + n % 64) ∷ []) ≡ from_u32 n
unfolding from_utf8
from_utf8_three n low high =
    let whole : (224 + n / 4096 - 224) * 4096
          + (128 + n / 64 % 64 - 128) * 64
          + (128 + n % 64 - 128)
        ≡ n =
      omega arith in
    let guard : (leb 224 (224 + n / 4096)
          && (ltb (224 + n / 4096) 240
              && (continues (128 + n / 64 % 64) && (continues (128 + n % 64) && leb 2048 n))))
        ≡ true =
      ground arith in
    rw (whole, guard) refl

pub from_utf8_four :
    (n : ℕ)
    → 65536 ≤ n
    → n < 1114112
    → from_utf8
        ((240 + n / 262144) ∷ (128 + n / 4096 % 64) ∷ (128 + n / 64 % 64) ∷ (128 + n % 64) ∷ [])
      ≡ from_u32 n
unfolding from_utf8
from_utf8_four n low high =
    let whole : (240 + n / 262144 - 240) * 262144
          + (128 + n / 4096 % 64 - 128) * 4096
          + (128 + n / 64 % 64 - 128) * 64
          + (128 + n % 64 - 128)
        ≡ n =
      omega arith in
    let guard : (leb 240 (240 + n / 262144)
          && (ltb (240 + n / 262144) 245
              && (continues (128 + n / 4096 % 64)
                  && (continues (128 + n / 64 % 64) && (continues (128 + n % 64) && leb 65536 n)))))
        ≡ true =
      ground arith in
    rw (whole, guard) refl
