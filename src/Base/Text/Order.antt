-- ===== src/Base/Text/Order.antt =====
-- `compare_str` is a strict total order on byte strings.
use Prim.Native.Nat.{Ordering}
use mathlib.Core.Path.{◌≡◌, refl}
use mathlib.Core.Logic.{◌≢◌}
use mathlib.Core.Bool.{true, false}
use mathlib.Core.List.{[], ◌∷◌}
use native.Mathlib.Omega.{arith}
use tyfirc.Base.Text.{Str, compare_str, str_eq}

pub compare_str_refl : (a : Str) → compare_str a a ≡ Ordering.eq
unfolding compare_str
compare_str_refl [] = refl
compare_str_refl (x ∷ a) = ground (arith, compare_str_refl a)

pub compare_str-eq : (a b : Str) → compare_str a b ≡ Ordering.eq → a ≡ b
unfolding compare_str
compare_str-eq [] [] h = refl
compare_str-eq [] (y ∷ b) h = cc
compare_str-eq (x ∷ a) [] h = cc
compare_str-eq (x ∷ a) (y ∷ b) h = ground (arith, compare_str-eq a b)

pub compare_str-gt : (a b : Str) → compare_str a b ≡ Ordering.gt → compare_str b a ≡ Ordering.lt
unfolding compare_str
compare_str-gt [] [] h = cc
compare_str-gt [] (y ∷ b) h = cc
compare_str-gt (x ∷ a) [] h = refl
compare_str-gt (x ∷ a) (y ∷ b) h = ground (arith, compare_str-gt a b)

pub compare_str-lt : (a b : Str) → compare_str a b ≡ Ordering.lt → compare_str b a ≡ Ordering.gt
unfolding compare_str
compare_str-lt [] [] h = cc
compare_str-lt [] (y ∷ b) h = refl
compare_str-lt (x ∷ a) [] h = cc
compare_str-lt (x ∷ a) (y ∷ b) h = ground (arith, compare_str-lt a b)

pub compare_str_trans :
    (a b c : Str)
    → compare_str a b ≡ Ordering.lt
    → compare_str b c ≡ Ordering.lt
    → compare_str a c ≡ Ordering.lt
unfolding compare_str
compare_str_trans [] [] c h k = cc
compare_str_trans [] (y ∷ b) [] h k = cc
compare_str_trans [] (y ∷ b) (z ∷ c) h k = refl
compare_str_trans (x ∷ a) [] c h k = cc
compare_str_trans (x ∷ a) (y ∷ b) [] h k = cc
compare_str_trans (x ∷ a) (y ∷ b) (z ∷ c) h k = ground (arith, compare_str_trans a b c)

pub str_eq_refl : (a : Str) → str_eq a a ≡ true
str_eq_refl a = rw (str_eq, compare_str_refl a)

pub str_eq→eq : (a b : Str) → str_eq a b ≡ true → a ≡ b
str_eq→eq a b h = ground (arith, compare_str-eq a b)

pub str_eq_ne : (a b : Str) → a ≢ b → str_eq a b ≡ false
str_eq_ne a b h = ground (arith, compare_str-eq a b)
