-- ===== src/Prelude/Tables.antt =====
-- std::unordered_map as an association list: `find`, and `emplace`, which keeps an entry that is there.
use mathlib.Core.Path.{◌≡◌, refl}
use mathlib.Core.Option.{Option, none, some}
use mathlib.Core.List.{List, [], ◌∷◌, ◌++◌}
use native.Mathlib.Omega.{arith}
use my_chat.Prelude.Tests.{Comparable, ◌==◌, ==_iff, if◌then◌else◌}
use my_chat.Prelude.Results.{has_value}

-- The value of an Option, or a second choice.
abbrev pub or_else {ℓ} : {V : Type ℓ} → Option V → Option V → Option V
or_else none o = o
or_else (some v) o = some v

module _ {K : Type 0} {V : Type 0} ⦃c : Comparable K⦄ where
  unfoldable pub lookup : K → List (K × V) → Option V
  lookup k [] = none
  lookup k ((j, v) ∷ m) = let rest = lookup k m in if j == k then some v else rest

  unfoldable pub emplace : K → V → List (K × V) → List (K × V)
  emplace k v m = if has_value (lookup k m) then m else m ++ (k, v) ∷ []

  pub lookup-append :
      (j k : K) (v : V) (m : List (K × V))
      → lookup j (m ++ (k, v) ∷ []) ≡ or_else (lookup j m) (if k == j then some v else none)
  unfolding lookup
  lookup-append j k v [] = refl
  lookup-append j k v ((i, w) ∷ m) = ground (arith, lookup-append j k v m)

  pub lookup-emplace :
      (j k : K) (v : V) (m : List (K × V))
      → lookup j (emplace k v m) ≡ or_else (lookup j m) (if k == j then some v else none)
  unfolding emplace
  lookup-emplace j k v m = ground (arith, lookup-append j k v m, ==_iff k j)
