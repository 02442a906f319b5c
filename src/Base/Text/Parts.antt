-- ===== src/Base/Text/Parts.antt =====
-- Substrings of a text that is written as a concatenation.
use Prim.Native.Nat.{ℕ, suc, ◌+◌, ◌≤◌}
use mathlib.Core.Path.{◌≡◌, refl, ap, ◌∙◌}
use mathlib.Core.Bool.{false}
use mathlib.Core.List.{[], ◌∷◌, ◌++◌}
use mathlib.Core.Option.{none, some}
use native.Mathlib.Omega.{arith}
use native.Mathlib.Numerals.{add-one}
use mathlib.Core.Logic.{◌⊎◌, inl, inr}
use tyfirc.Base.Tests.{ltb, ◌==◌, ==→eq, ==→ne, Bool-cases}
use tyfirc.Base.Lists.{
  length, take, drop, take-append, drop-append, take_all, length-append, get_or, Lacks,
}
use tyfirc.Base.Text.{Str, substr, find, find_from, find-Lacks, find_absent}
use tyfirc.Base.Result.{ok}

ltb-false : (a b : ℕ) → b ≤ a → ltb a b ≡ false
ltb-false a b h = ground arith

pub take-append_at : (p q : Str) (n : ℕ) → n ≡ length p → take n (p ++ q) ≡ p
take-append_at p q n e = rw e (take-append p q)

pub drop-append_at : (p q : Str) (n : ℕ) → n ≡ length p → drop n (p ++ q) ≡ q
drop-append_at p q n e = rw e (drop-append p q)

-- The part behind `p`.
pub substr_suffix :
    (s p q : Str) (pos n : ℕ) → s ≡ p ++ q → pos ≡ length p → length q ≤ n → substr s pos n ≡ ok q
unfolding substr
substr_suffix s p q pos n e at_p le =
    rw (e, at_p, ltb-false (length (p ++ q)) (length p) (omega (arith, length-append p q)))
      (ap ok (ap (take n) (drop-append p q) ∙ take_all n q le))

-- The part between `p` and `r`.
pub substr_middle :
    (s p q r : Str) (pos n : ℕ)
    → s ≡ p ++ (q ++ r)
    → pos ≡ length p
    → n ≡ length q
    → substr s pos n ≡ ok q
unfolding substr
substr_middle s p q r pos n e at_p len =
    rw
      (
        e,
        at_p,
        len,
        ltb-false (length (p ++ (q ++ r))) (length p) (omega (arith, length-append p (q ++ r))),
      )
      (ap ok (ap (take (length q)) (drop-append p (q ++ r)) ∙ take-append q r))

pub get_or-append_at : (p q : Str) (c : ℕ) (i d : ℕ) → i ≡ length p → get_or (p ++ c ∷ q) i d ≡ c
get_or-append_at p q c i d e = rw e (go p)
  where
    go : (p : Str) → get_or (p ++ c ∷ q) (length p) d ≡ c
    go [] = refl
    go (x ∷ p) = go p

-- Where `find` finds a character, the text splits there; otherwise the text lacks it.
pub find-cases :
    (s : Str) (c : ℕ)
    → ((p q : Str) × (s ≡ p ++ c ∷ q) × Lacks c p × (find s c ≡ some (length p)))
      ⊎ (Lacks c s × (find s c ≡ none))
find-cases [] c = inr (tt, find_absent [] c tt)
find-cases (x ∷ s) c = elim (Bool-cases (x == c)) [
  | inl e ↦ inl ([], s, ap (λ y. y ∷ s) (==→eq x c e), tt, rw (==→eq x c e) (find-Lacks [] s c tt))
  | inr e ↦ elim (find-cases s c) [
    | inl (p, q, split, lacks, _) ↦ inl (
      x ∷ p,
      q,
      ap (◌∷◌ x) split,
      (==→ne x c e, lacks),
      rw split (find-Lacks (x ∷ p) q c (==→ne x c e, lacks)),
    )
    | inr (lacks, _) ↦ inr ((==→ne x c e, lacks), find_absent (x ∷ s) c (==→ne x c e, lacks))
  ]
]

pub get_or-append_next : (p q : Str) (c d : ℕ) → get_or (p ++ c ∷ q) (length p + 1) d ≡ get_or q 0 d
get_or-append_next p q c d = rw (add-one (length p)) (go p)
  where
    go : (p : Str) → get_or (p ++ c ∷ q) (suc (length p)) d ≡ get_or q 0 d
    go [] = refl
    go (x ∷ p) = go p

-- A search behind `p` that passes over `q`.
pub find_from_lem :
    (s p q r : Str) (c pos : ℕ)
    → s ≡ p ++ (q ++ c ∷ r)
    → pos ≡ length p
    → Lacks c q
    → find_from s c pos ≡ some (pos + length q)
unfolding find_from
find_from_lem s p q r c pos e at_p h =
    rw (e, drop-append_at p (q ++ c ∷ r) pos at_p, find-Lacks q r c h, find_from) refl
