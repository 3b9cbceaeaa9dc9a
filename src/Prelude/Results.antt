-- ===== src/Prelude/Results.antt =====
-- Rust's `Result`, its error type first.
pub data Result (E A : Type 0) : Type 0 where
  done : A → Result E A
  failed : E → Result E A

infixl 5 ◌>>=◌
abbrev pub ◌>>=◌ : {E A B : Type 0} → Result E A → (A → Result E B) → Result E B
done a >>= f = f a
failed e >>= f = failed e
