-- ===== src/Json/Parser/Strings/Pending.antt =====
-- Calls around which a surrogate is pending (json/src/lib.rs, `visit_string`).
use miniraft.Prelude.{ℕ, ◌+◌, ◌≤◌, ◌≡◌, refl, sym, none}
use miniraft.Json.Parser.{Parser, ParseResult, parsed, rejected, panicked, out_of_fuel, bind}
use miniraft.Json.Parser.Ends.{Advanced, Ends, ended, failed, Ends-parsed, Ends-after}

-- The parser with no surrogate pending, and a result at it.
abbrev pub settle : Parser → Parser
settle p = record p { pending_high_surrogate = none }

abbrev pub settled : {A : Type 0} → ParseResult A → ParseResult A
settled (parsed a q) = parsed a (settle q)
settled (rejected e) = rejected e
settled panicked = panicked
settled out_of_fuel = out_of_fuel

module _ {A : Type 0} {P : A → Type 0} where
  pub Ends-settled :
      {k : ℕ} (p : Parser) {r : ParseResult A}
      → p.pending_high_surrogate ≡ none
      → Ends P k p r
      → Ends P k p (settled r)
  Ends-settled p none_pending (ended good step) = ended good (record {
    read = step.read;
    balance = step.balance;
    same_depth = step.same_depth;
    still_bytes = step.still_bytes;
    same_pending = sym none_pending;
  })
  Ends-settled p none_pending (failed at) = failed at

  pub Ends-bind-settled :
      {B : Type 0} {Q : B → Type 0} {k : ℕ} (l m : ℕ) {p : Parser} (r : ParseResult A)
      {f : A → Parser → ParseResult B}
      → m ≤ k + l
      → Ends P k p (settled r)
      → ((a : A) (q : Parser) → P a → Advanced k p (settle q) → Ends Q l (settle q) (f a q))
      → Ends Q m p (bind r f)
  Ends-bind-settled l m (parsed a q) h ends next =
      let (good, step) = Ends-parsed ends in Ends-after m h step (next a q good step)
  Ends-bind-settled l m (rejected e) h (failed at) next = failed at
  Ends-bind-settled l m panicked h ends next = elim ends [ ]
  Ends-bind-settled l m out_of_fuel h ends next = elim ends [ ]

  -- The same where a surrogate is pending at first, and where one may be pending in the end.
  pub Ends-settle-bind :
      {B : Type 0} {Q : B → Type 0} {k : ℕ} (l m : ℕ) {p : Parser} {r : ParseResult A}
      {f : A → Parser → ParseResult B}
      → m ≤ k + l
      → Ends P k p r
      → ((a : A) (q : Parser) → P a → Advanced k p q → Ends Q l (settle q) (f a q))
      → Ends Q m (settle p) (bind r f)
  Ends-settle-bind l m {p = p} h (ended {a} {q} good step) next =
      let settled_step : Advanced _ (settle p) (settle q) = record {
        read = step.read;
        balance = step.balance;
        same_depth = step.same_depth;
        still_bytes = step.still_bytes;
        same_pending = refl;
      } in
      Ends-after m h settled_step (next a q good step)
  Ends-settle-bind l m h (failed at) next = failed at

  pub Ends-bind_to_settled :
      {B : Type 0} {Q : B → Type 0} {k : ℕ} (l m : ℕ) {p : Parser} {r : ParseResult A}
      (f : A → Parser → ParseResult B)
      → m ≤ k + l
      → Ends P k p r
      → ((a : A) (q : Parser) → P a → Advanced k p q → Ends Q l q (settled (f a q)))
      → Ends Q m p (settled (bind r f))
  Ends-bind_to_settled l m f h (ended {a} {q} good step) next =
      Ends-after m h step (next a q good step)
  Ends-bind_to_settled l m f h (failed at) next = failed at
