-- ===== src/Raft/Index.antt =====
-- Log indexes and terms (raft/src/state.rs, `LogIndex` and `Term`).
use miniraft.Prelude.{
  ℕ, suc, ◌+◌, ◌-◌, ◌%◌, ◌^◌, ◌≡◌, refl, Bool, true, false, Option, none, some, arith, ltb, leb,
  ◌==◌, if◌then◌else◌, Outcome, ok, panic, ◌>>◌, assert, expect,
}

abbrev pub u64_mod : ℕ
u64_mod = 2 ^ 64

-- `LogIndex(NonZero<u64>)`. A non-zero number is kept as its predecessor, so that the type holds no
-- index 0.
pub record LogIndex : Type 0 where
  pub machine : ℕ

-- `self.0.get()`.
abbrev pub get : LogIndex → ℕ
get i = suc i.machine

-- `NonZero::try_from(v).ok()`.
abbrev pub try_from : ℕ → Option LogIndex
try_from v = if v == 0 then none else some (record { machine = v - 1 })

-- `LogIndex::default()`.
abbrev pub default : LogIndex
default = record { machine = 0 }

-- `unwrap_or_default`.
abbrev pub unwrap_or_default : Option LogIndex → LogIndex
unwrap_or_default none = default
unwrap_or_default (some i) = i

-- `checked_add(1).expect(…)`.
abbrev pub inc : LogIndex → Outcome LogIndex
inc i = if ltb (get i + 1) u64_mod then expect (try_from (get i + 1)) else panic

abbrev pub dec : LogIndex → Option LogIndex
dec i = try_from (get i - 1)

abbrev pub to_machine_index : LogIndex → ℕ
to_machine_index i = get i - 1

abbrev pub from_machine_index : ℕ → LogIndex
from_machine_index idx = record { machine = idx }

-- How many log entries an optional index reaches: `None` reaches none. `Option<LogIndex>` is ordered
-- with `None` first, so its order is that of the reach.
abbrev pub reach : Option LogIndex → ℕ
reach none = 0
reach (some i) = get i

abbrev pub opt_lt : Option LogIndex → Option LogIndex → Bool
opt_lt none none = false
opt_lt none (some j) = true
opt_lt (some i) none = false
opt_lt (some i) (some j) = ltb (get i) (get j)

abbrev pub opt_le : Option LogIndex → Option LogIndex → Bool
opt_le none o = true
opt_le (some i) none = false
opt_le (some i) (some j) = leb (get i) (get j)

-- `cmp::min` and `cmp::max` on optional indexes.
abbrev pub opt_min : Option LogIndex → Option LogIndex → Option LogIndex
opt_min a b = if opt_le a b then a else b

abbrev pub opt_max : Option LogIndex → Option LogIndex → Option LogIndex
opt_max a b = if opt_le a b then b else a

pub opt_lt-reach : (a b : Option LogIndex) → opt_lt a b ≡ ltb (reach a) (reach b)
opt_lt-reach none none = refl
opt_lt-reach none (some j) = ground arith
opt_lt-reach (some i) none = ground arith
opt_lt-reach (some i) (some j) = refl

pub opt_le-reach : (a b : Option LogIndex) → opt_le a b ≡ leb (reach a) (reach b)
opt_le-reach none none = refl
opt_le-reach none (some j) = ground arith
opt_le-reach (some i) none = ground arith
opt_le-reach (some i) (some j) = refl

-- `Term::set`: `assert!(to > *self)`.
abbrev pub set_term : ℕ → ℕ → Outcome ℕ
set_term t to = do assert (ltb t to); ok to

-- `Term::step`. An addition that wraps gives 0, which `set` refuses; with overflow checks on, the
-- addition itself panics.
abbrev pub step_term : ℕ → Outcome ℕ
step_term t = set_term t ((t + 1) % u64_mod)

pub step_term-suc : (t : ℕ) {u : ℕ} → step_term t ≡ ok u → u ≡ t + 1
step_term-suc t h = ground arith
