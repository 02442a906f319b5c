-- ===== src/Base/Sublist.antt =====
-- Lists that keep some of the elements of another, in its order.
use Prim.Native.Nat.{ℕ, zero, suc, ◌≤◌, ◌<◌}
use mathlib.Core.Path.{◌≡◌, refl, ap}
use mathlib.Core.List.{List, [], ◌∷◌, ◌++◌}
use mathlib.Core.Option.{some}
use native.Mathlib.Omega.{arith}
use tyfirc.Base.Lists.{length, take, get_elem?}

pub data Sublist {ℓ} {A : Type ℓ} : List A → List A → Type ℓ where
  nil : Sublist [] []
  skip : {xs ys : List A} (y : A) → Sublist xs ys → Sublist xs (y ∷ ys)
  keep : {xs ys : List A} (y : A) → Sublist xs ys → Sublist (y ∷ xs) (y ∷ ys)

module _ {ℓ} {A : Type ℓ} where
  pub Sublist-nil : (ys : List A) → Sublist [] ys
  Sublist-nil [] = nil
  Sublist-nil (y ∷ ys) = skip y (Sublist-nil ys)

  pub skip_last : {xs ys : List A} (y : A) → Sublist xs ys → Sublist xs (ys ++ y ∷ [])
  skip_last y nil = skip y nil
  skip_last y (skip x h) = skip x (skip_last y h)
  skip_last y (keep x h) = keep x (skip_last y h)

  pub keep_last : {xs ys : List A} (y : A) → Sublist xs ys → Sublist (xs ++ y ∷ []) (ys ++ y ∷ [])
  keep_last y nil = keep y nil
  keep_last y (skip x h) = skip x (keep_last y h)
  keep_last y (keep x h) = keep x (keep_last y h)

  -- The element at an index is the last of those up to it.
  pub take-get_elem? :
      (k : ℕ) (xs : List A) (x : A)
      → get_elem? xs k ≡ some x
      → take (suc k) xs ≡ take k xs ++ x ∷ []
  take-get_elem? k [] x h = cc
  take-get_elem? zero (y ∷ ys) x h = cc
  take-get_elem? (suc k) (y ∷ ys) x h = ap (◌∷◌ y) (take-get_elem? k ys x h)

  pub lt_of_get_elem? : (k : ℕ) (xs : List A) (x : A) → get_elem? xs k ≡ some x → k < length xs
  lt_of_get_elem? k [] x h = cc
  lt_of_get_elem? zero (y ∷ ys) x h = omega arith
  lt_of_get_elem? (suc k) (y ∷ ys) x h = omega (arith, lt_of_get_elem? k ys x h)

  pub take-append_of_le : (k : ℕ) (xs ys : List A) → k ≤ length xs → take k (xs ++ ys) ≡ take k xs
  take-append_of_le zero xs ys h = refl
  take-append_of_le (suc k) [] ys h = absurd (omega arith)
  take-append_of_le (suc k) (x ∷ xs) ys h = ap (◌∷◌ x) (take-append_of_le k xs ys (omega arith))
