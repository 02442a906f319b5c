-- ===== src/Base/Map/Order.antt =====
-- The keys of a map stand in strictly ascending order, and two maps with the same keys and values
-- are the same list.
use mathlib.Core.Path.{◌≡◌, refl, ◌∙◌}
use mathlib.Core.List.{List, [], ◌∷◌, ◌++◌, append_assoc}
use Prim.Native.Nat.{Ordering}
use native.Mathlib.Omega.{arith}
use tyfirc.Base.Text.{Str, compare_str}
use tyfirc.Base.Text.Order.{compare_str-eq, compare_str-gt, compare_str-lt, compare_str_trans}
use tyfirc.Base.Map.{Map, insert}

module _ {ℓ} {V : Type ℓ} where
  -- Every key is above `k`, and the keys ascend.
  abbrev pub Above : Str → Map V → Type 0
  Above k [] = Unit
  Above k ((j, v) ∷ m) = (compare_str k j ≡ Ordering.lt) × Above j m

  abbrev pub IsOrdered : Map V → Type 0
  IsOrdered [] = Unit
  IsOrdered ((k, v) ∷ m) = Above k m

  insert-Above :
      (i k : Str) (v : V) (m : Map V)
      → compare_str i k ≡ Ordering.lt
      → Above i m
      → Above i (insert k v m)
  unfolding insert
  insert-Above i k v [] h a = (h, tt)
  insert-Above i k v ((j, w) ∷ m) h a =
      ground (arith, compare_str-eq k j, compare_str-gt k j, insert-Above j k v m)

  pub insert-IsOrdered : (k : Str) (v : V) (m : Map V) → IsOrdered m → IsOrdered (insert k v m)
  unfolding insert
  insert-IsOrdered k v [] h = tt
  insert-IsOrdered k v ((j, w) ∷ m) h =
      ground (arith, compare_str-eq k j, compare_str-gt k j, insert-Above j k v m)

  -- A key above all others goes to the end.
  abbrev Below : Map V → Str → Type 0
  Below [] k = Unit
  Below ((j, v) ∷ m) k = (compare_str j k ≡ Ordering.lt) × Below m k

  insert-Below : (k : Str) (v : V) (m : Map V) → Below m k → insert k v m ≡ m ++ (k, v) ∷ []
  unfolding insert
  insert-Below k v [] h = refl
  insert-Below k v ((j, w) ∷ m) h = ground (arith, compare_str-lt j k, insert-Below k v m)

  Below-next :
      (m : Map V) (k j : Str) (v : V)
      → Below m k
      → compare_str k j ≡ Ordering.lt
      → Below (m ++ (k, v) ∷ []) j
  Below-next [] k j v h lt = (lt, tt)
  Below-next ((i, w) ∷ m) k j v h lt = (compare_str_trans i k j h.0 lt, Below-next m k j v h.1 lt)

  -- Inserting the entries one by one.
  unfoldable pub insert_all : List (Str × V) → Map V → Map V
  insert_all [] m = m
  insert_all ((k, v) ∷ l) m = insert_all l (insert k v m)

  insert_all-append :
      (k : Str) (v : V) (l m : Map V)
      → Below m k
      → Above k l
      → insert_all ((k, v) ∷ l) m ≡ m ++ (k, v) ∷ l
  unfolding insert_all
  insert_all-append k v [] m b a = insert-Below k v m b
  insert_all-append k v ((j, w) ∷ l) m b a = rw (insert-Below k v m b) (
      insert_all-append j w l (m ++ (k, v) ∷ []) (Below-next m k j v b a.0) a.1
      ∙ append_assoc m ((k, v) ∷ []) ((j, w) ∷ l))

  -- Inserting the entries of a map, in its order, into the empty map gives the map.
  pub insert_all-IsOrdered : (m : Map V) → IsOrdered m → insert_all m [] ≡ m
  insert_all-IsOrdered [] h = unfold insert_all in refl
  insert_all-IsOrdered ((k, v) ∷ m) h = insert_all-append k v m [] tt h

  pub insert_all-keeps_IsOrdered : (l m : Map V) → IsOrdered m → IsOrdered (insert_all l m)
  unfolding insert_all
  insert_all-keeps_IsOrdered [] m h = h
  insert_all-keeps_IsOrdered ((k, v) ∷ l) m h =
      insert_all-keeps_IsOrdered l (insert k v m) (insert-IsOrdered k v m h)
