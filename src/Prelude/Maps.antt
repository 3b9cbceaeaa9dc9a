-- ===== src/Prelude/Maps.antt =====
-- Maps with text keys (`HashMap<String, V>`, `HashSet<String>`) as association lists. The order of
-- the entries stands for the map's own, unspecified order.
use Prim.Native.String.{String}
use mathlib.Core.Path.{◌≡◌, refl}
use mathlib.Core.Logic.{◌≢◌}
use mathlib.Core.Bool.{Bool, true, false}
use mathlib.Core.Option.{Option, none, some}
use mathlib.Core.List.{List, [], ◌∷◌}
use native.Mathlib.Omega.{arith}
use text.Mathlib.Text.{◌==◌ as str_eq}
use text.Mathlib.TextEquality.{eq_iff}
use miniraft.Prelude.Tests.{if◌then◌else◌}

pub str_ne : (a b : String) → a ≢ b → str_eq a b ≡ false
str_ne a b n = ground (arith, eq_iff a b)

module _ {ℓ} {V : Type ℓ} where
  abbrev pub lookup : String → List (String × V) → Option V
  lookup key [] = none
  lookup key ((other, w) ∷ rest) = if str_eq other key then some w else lookup key rest

  abbrev pub insert : String → V → List (String × V) → List (String × V)
  insert key value [] = (key, value) ∷ []
  insert key value ((other, w) ∷ rest) =
      if str_eq other key then (key, value) ∷ rest else (other, w) ∷ insert key value rest

  pub lookup-insert :
      (key sought : String) (value : V) (m : List (String × V))
      → lookup sought (insert key value m)
        ≡ (if str_eq key sought then some value else lookup sought m)
  lookup-insert key sought value [] = refl
  lookup-insert key sought value ((other, w) ∷ rest) = ground (
    arith,
    lookup-insert key sought value rest,
    eq_iff other sought,
    eq_iff other key,
    eq_iff key sought,
  )

abbrev pub contains : List String → String → Bool
contains [] k = false
contains (j ∷ m) k = if str_eq j k then true else contains m k

-- `HashSet::insert`.
abbrev pub set_insert : String → List String → List String
set_insert k m = if contains m k then m else k ∷ m

pub contains-set_insert :
    (k j : String) (m : List String)
    → contains (set_insert k m) j ≡ (if str_eq k j then true else contains m j)
contains-set_insert k j [] = refl
contains-set_insert k j (i ∷ m) =
    ground (arith, eq_iff k j, eq_iff i k, eq_iff i j, contains-set_insert k j m)
