-- ===== src/Base/Map.antt =====
-- `std::map<std::string, V>`: an association list in the order of its keys.
pub mod Order
use mathlib.Core.Path.{◌≡◌, refl}
use mathlib.Core.Bool.{true, false}
use mathlib.Core.List.{List, [], ◌∷◌}
use mathlib.Core.Option.{Option, none, some}
use Prim.Native.Nat.{Ordering}
use native.Mathlib.Omega.{arith}
use tyfirc.Base.Tests.{if◌then◌else◌}
use tyfirc.Base.Text.{Str, compare_str, str_eq}
use tyfirc.Base.Text.Order.{compare_str-eq, compare_str_refl}
use tyfirc.Base.Result.{Result, ok, throw, out_of_range}

abbrev pub Map {ℓ} : Type ℓ → Type ℓ
Map V = List (Str × V)

module _ {ℓ} {V : Type ℓ} where
  -- `m.find(k)`.
  unfoldable pub lookup : Str → Map V → Option V
  lookup k [] = none
  lookup k ((j, v) ∷ m) = if str_eq k j then some v else lookup k m

  -- `m[k] = v`.
  unfoldable pub insert : Str → V → Map V → Map V
  insert k v [] = (k, v) ∷ []
  insert k v ((j, w) ∷ m) = elim (compare_str k j) [
    | Ordering.lt ↦ (k, v) ∷ (j, w) ∷ m
    | Ordering.eq ↦ (k, v) ∷ m
    | Ordering.gt ↦ (j, w) ∷ insert k v m
  ]

  -- `m.at(k)`.
  abbrev pub at_key : Map V → Str → Result V
  at_key m k = elim (lookup k m) [ none ↦ throw out_of_range | some v ↦ ok v ]

  pub lookup-insert :
      (k j : Str) (v : V) (m : Map V)
      → lookup k (insert j v m) ≡ (if str_eq k j then some v else lookup k m)
  unfolding lookup insert
  lookup-insert k j v [] = refl
  lookup-insert k j v ((i, w) ∷ m) = ground (
    arith,
    lookup-insert k j v m,
    compare_str-eq j i,
    compare_str-eq k j,
    compare_str-eq k i,
    compare_str_refl k,
  )
