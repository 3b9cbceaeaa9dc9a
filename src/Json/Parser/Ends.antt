-- ===== src/Json/Parser/Ends.antt =====
-- What a call of the parser comes to (json/src/lib.rs, `Parser`): a value, at a parser that has read
-- on, or an error at a position within the input. No failed assertion, and no lack of fuel.
use miniraft.Prelude.{
  ℕ, zero, suc, ◌+◌, ◌≤◌, ◌<◌, ◌≡◌, refl, arith, Bool, true, false, Option, none, some, List, [],
  ◌∷◌, if◌then◌else◌, length, subst,
}
use miniraft.Json.Parser.{
  Read, byte, broken, Kind, Error, Parser, ParseResult, parsed, rejected, bind, err, advance,
  advance_over, skip_loop, skip_whitespace, peek_at, is_some_and, is_json_whitespace, or_err,
  expect, assert,
}

abbrev pub AllBytes : List Read → Type 0
AllBytes [] = Unit {0}
AllBytes (broken ∷ rest) = AllBytes rest
AllBytes (byte b ∷ rest) = (b < 256) × AllBytes rest

-- From `p` at least so many reads have led to `q`, and the position counts them.
pub record Advanced (least : ℕ) (p q : Parser) : Type 0 where
  pub read : least + length q.stream ≤ length p.stream
  pub balance : q.stream_pos + length q.stream ≡ p.stream_pos + length p.stream
  pub same_depth : q.depth ≡ p.depth
  pub still_bytes : AllBytes p.stream → AllBytes q.stream
  pub same_pending : q.pending_high_surrogate ≡ p.pending_high_surrogate

pub data Ends {A : Type 0} (P : A → Type 0) (least : ℕ) (p : Parser) : ParseResult A → Type 0 where
  ended : {a : A} {q : Parser} → P a → Advanced least p q → Ends P least p (parsed a q)
  failed : {e : Error} → e.pos ≤ p.stream_pos + length p.stream → Ends P least p (rejected e)

abbrev pub Any : {A : Type 0} → A → Type 0
Any a = Unit {0}

pub Advanced-refl : (p : Parser) → Advanced 0 p p
Advanced-refl p = record {
  read = omega arith;
  balance = refl;
  same_depth = refl;
  still_bytes = λ h. h;
  same_pending = refl;
}

pub Advanced-trans :
    {k l : ℕ} (m : ℕ) {p q r : Parser}
    → Advanced k p q
    → Advanced l q r
    → m ≤ k + l
    → Advanced m p r
Advanced-trans m a b h = record {
  read = omega (arith, a.read, b.read);
  balance = omega (arith, a.balance, b.balance);
  same_depth = cc (a.same_depth, b.same_depth);
  still_bytes = λ h. b.still_bytes (a.still_bytes h);
  same_pending = cc (a.same_pending, b.same_pending);
}

module _ {A : Type 0} {P : A → Type 0} where
  pub Ends-pure : {a : A} (p : Parser) → P a → Ends P 0 p (parsed a p)
  Ends-pure p h = ended h (Advanced-refl p)

  pub Ends-err : (kind : Kind) (k : ℕ) (p : Parser) → Ends P k p (err kind p)
  Ends-err kind k p = failed (omega arith)

  pub Ends-parsed :
      {k : ℕ} {p : Parser} {a : A} {q : Parser} → Ends P k p (parsed a q) → P a × Advanced k p q
  Ends-parsed (ended good step) = (good, step)

  pub Ends-after :
      {k l : ℕ} (m : ℕ) {p q : Parser} {r : ParseResult A}
      → m ≤ k + l
      → Advanced k p q
      → Ends P l q r
      → Ends P m p r
  Ends-after m h step (ended good more) = ended good (Advanced-trans m step more h)
  Ends-after m h step (failed at) = failed (omega (arith, step.balance))

module _ {A : Type 0} {P : A → Type 0} where
  -- What follows a call: it reads the rest of the `m` bytes.
  pub Ends-bind :
      {B : Type 0} {Q : B → Type 0} {k : ℕ} (l m : ℕ) {p : Parser} {r : ParseResult A}
      {f : A → Parser → ParseResult B}
      → m ≤ k + l
      → Ends P k p r
      → ((a : A) (q : Parser) → P a → Advanced k p q → Ends Q l q (f a q))
      → Ends Q m p (bind r f)
  Ends-bind l m h (ended {a} {q} good step) next = Ends-after m h step (next a q good step)
  Ends-bind l m h (failed at) next = failed at

  pub Ends-if :
      (test : Bool) {k : ℕ} {p q : Parser} (x y : Parser → ParseResult A)
      → (test ≡ true → Ends P k p (x q))
      → (test ≡ false → Ends P k p (y q))
      → Ends P k p ((if test then x else y) q)
  Ends-if true x y yes_case no_case = yes_case refl
  Ends-if false x y yes_case no_case = no_case refl

  pub Ends-weaken :
      {Q : A → Type 0} (m : ℕ) {k : ℕ} {p : Parser} {r : ParseResult A}
      → m ≤ k
      → Ends P k p r
      → ((a : A) → P a → Q a)
      → Ends Q m p r
  Ends-weaken m {p = p} h (ended {q = q} good step) weaker =
      ended (weaker _ good) (Advanced-trans m step (Advanced-refl q) (omega arith))
  Ends-weaken m h (failed at) weaker = failed at

-- What is read is a byte, if all of the stream are, and the one that was peeked at.
pub record IsNext (p : Parser) (b : ℕ) : Type 0 where
  pub is_byte : AllBytes p.stream → b < 256
  pub is_peeked : peek_at p.stream ≡ some b

pub Ends-advance : (p : Parser) → Ends (IsNext p) 1 p (advance p)
Ends-advance p = over p.stream p refl
  where
    over : (s : List Read) (p : Parser) → p.stream ≡ s → Ends (IsNext p) 1 p (advance_over s p)
    over [] p e = failed (omega arith)
    over (broken ∷ rest) p e = failed (omega arith)
    over (byte b ∷ rest) p e =
        ended (record { is_byte = λ h. (subst AllBytes e h).0; is_peeked = rw e refl })
          (record {
            read = rw e (omega arith);
            balance = rw e (omega arith);
            same_depth = refl;
            still_bytes = λ h. (subst AllBytes e h).1;
            same_pending = refl;
          })

skip_loop-Ends : (fuel : ℕ) (p : Parser) → length p.stream < fuel → Ends Any 0 p (skip_loop fuel p)
unfolding skip_loop
skip_loop-Ends zero p h = absurd (omega arith)
skip_loop-Ends (suc fuel) p h =
    Ends-if (is_some_and is_json_whitespace (peek_at p.stream)) _ _
      (λ _.
        Ends-bind 0 0 (omega arith) (Ends-advance p)
          (λ b q _ step. skip_loop-Ends fuel q (omega (arith, step.read))))
      (λ _. Ends-pure p tt)

pub skip_whitespace-Ends : (p : Parser) → Ends Any 0 p (skip_whitespace p)
unfolding skip_whitespace
skip_whitespace-Ends p = skip_loop-Ends (suc (length p.stream)) p (omega arith)

pub or_err-Ends :
    {A : Type 0} {P : A → Type 0} (kind : Kind) (o : Option A) (p : Parser)
    → ((a : A) → o ≡ some a → P a)
    → Ends P 0 p (or_err kind o p)
or_err-Ends kind none p good = Ends-err kind 0 p
or_err-Ends kind (some a) p good = Ends-pure p (good a refl)

pub expect-Ends :
    {A : Type 0} {o : Option A} {a : A} (p : Parser) → o ≡ some a → Ends Any 0 p (expect o p)
expect-Ends p e = rw e (Ends-pure p tt)

-- A byte that was peeked at is the one that is read.
pub Ends-advance_peeked :
    (b : ℕ) (p : Parser) → peek_at p.stream ≡ some b → Ends (λ c. c ≡ b) 1 p (advance p)
Ends-advance_peeked b p h =
    Ends-weaken 1 (omega arith) (Ends-advance p) (λ c next. cc (next.is_peeked, h))

pub assert-Ends : (b : Bool) (p : Parser) → b ≡ true → Ends Any 0 p (assert b p)
assert-Ends b p e = rw e (Ends-pure p tt)
