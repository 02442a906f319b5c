-- ===== src/MessagePack/Merge.antt =====
-- Sorted lists of messages: merging them, and putting one message into its place.
use mathlib.Core.List.{perm_middle, Perm}
use mathlib.Core.List.Perm
use tyfirc.Base.{
  ℕ, ◌≤◌, ◌<◌, ◌≡◌, refl, ap, List, [], ◌∷◌, ◌++◌, arith, append-nil, ltb, Bool-cases, inl, inr,
  true, false,
}
use tyfirc.MessagePack.{Message, sort, sort_insert, insert_one, merge, last_time}

-- No message is before `t`, and the times ascend.
abbrev pub Ascending : ℕ → List Message → Type 0
Ascending t [] = Unit
Ascending t (m ∷ ms) = (t ≤ m.time) × Ascending m.time ms

abbrev pub IsSorted : List Message → Type 0
IsSorted [] = Unit
IsSorted (m ∷ ms) = Ascending m.time ms

pub Ascending-le : (s t : ℕ) (ms : List Message) → s ≤ t → Ascending t ms → Ascending s ms
Ascending-le s t [] h a = tt
Ascending-le s t (m ∷ ms) h a = (omega arith, a.1)

pub Ascending-IsSorted : (t : ℕ) (ms : List Message) → Ascending t ms → IsSorted ms
Ascending-IsSorted t [] a = tt
Ascending-IsSorted t (m ∷ ms) a = a.1

pub IsSorted-Ascending : (ms : List Message) → IsSorted ms → Ascending 0 ms
IsSorted-Ascending [] a = tt
IsSorted-Ascending (m ∷ ms) a = (omega arith, a)

sort_insert-Ascending :
    (t : ℕ) (m : Message) (ms : List Message)
    → t ≤ m.time
    → Ascending t ms
    → Ascending t (sort_insert m ms)
unfolding sort_insert
sort_insert-Ascending t m [] h a = (h, tt)
sort_insert-Ascending t m (x ∷ xs) h a = ground (arith, sort_insert-Ascending x.time m xs)

pub sort-Ascending : (ms : List Message) → Ascending 0 (sort ms)
unfolding sort
sort-Ascending [] = tt
sort-Ascending (m ∷ ms) = sort_insert-Ascending 0 m (sort ms) (omega arith) (sort-Ascending ms)

sort_insert-perm : (m : Message) (ms : List Message) → Perm (sort_insert m ms) (m ∷ ms)
unfolding sort_insert
sort_insert-perm m [] = Perm.refl _
sort_insert-perm m (x ∷ xs) = elim (Bool-cases (ltb x.time m.time)) [
  | inl e ↦
      rw (e, sort_insert) (Perm.trans (Perm.cons x (sort_insert-perm m xs)) (Perm.swap m x xs))
  | inr e ↦ rw (e, sort_insert) (Perm.refl _)
]

pub sort-perm : (ms : List Message) → Perm (sort ms) ms
unfolding sort
sort-perm [] = Perm.refl _
sort-perm (m ∷ ms) = Perm.trans (sort_insert-perm m (sort ms)) (Perm.cons m (sort-perm ms))

pub merge_left_nil : (ys : List Message) → merge [] ys ≡ ys
unfolding merge
merge_left_nil ys = refl

pub merge-nil : (xs : List Message) → merge xs [] ≡ xs
unfolding merge
merge-nil [] = refl
merge-nil (x ∷ xs) = ap (◌∷◌ x) (merge-nil xs)

pub merge-cons :
    (x y : Message) (xs ys : List Message)
    → merge (x ∷ xs) (y ∷ ys)
      ≡ (elim (ltb y.time x.time) [ true ↦ y ∷ merge (x ∷ xs) ys | false ↦ x ∷ merge xs (y ∷ ys) ])
unfolding merge
merge-cons x y xs ys = refl

-- The merge of two sorted lists is sorted, and has the messages of both.
pub merge-Ascending :
    (t : ℕ) (xs ys : List Message) → Ascending t xs → Ascending t ys → Ascending t (merge xs ys)
merge-Ascending t [] ys a b = unfold merge in b
merge-Ascending t (x ∷ xs) [] a b = rw merge-nil a
merge-Ascending t (x ∷ xs) (y ∷ ys) a b = ground (
  arith,
  merge-cons x y xs ys,
  merge-Ascending y.time (x ∷ xs) ys,
  merge-Ascending x.time xs (y ∷ ys),
)

pub merge-perm : (xs ys : List Message) → Perm (merge xs ys) (xs ++ ys)
merge-perm [] ys = unfold merge in Perm.refl _
merge-perm (x ∷ xs) [] = rw (merge-nil, append-nil) (Perm.refl _)
merge-perm (x ∷ xs) (y ∷ ys) = elim (Bool-cases (ltb y.time x.time)) [
  | inl e ↦
      rw (merge-cons, e)
        (Perm.trans (Perm.cons y (merge-perm (x ∷ xs) ys)) (Perm.symm (perm_middle (x ∷ xs) ys)))
  | inr e ↦ rw (merge-cons, e) (Perm.cons x (merge-perm xs (y ∷ ys)))
]

-- The search for the place of one new message is a merge with a list of one.
pub insert_one-merge : (m : Message) (ms : List Message) → insert_one m ms ≡ merge ms (m ∷ [])
unfolding insert_one
insert_one-merge m [] = unfold merge in refl
insert_one-merge m (x ∷ xs) =
    ground (arith, merge-cons x m xs [], merge-nil (x ∷ xs), insert_one-merge m xs)

pub le-last_time : (m : Message) (ms : List Message) → Ascending m.time ms → m.time ≤ last_time m ms
le-last_time m [] a = omega arith
le-last_time m (n ∷ ms) a = omega (arith, le-last_time n ms a.1)

-- A list that ends before the other begins is merged by putting it in front.
pub merge_after :
    (d n : Message) (ds ns : List Message)
    → Ascending d.time ds
    → last_time d ds ≤ n.time
    → merge (d ∷ ds) (n ∷ ns) ≡ (d ∷ ds) ++ (n ∷ ns)
merge_after d n [] ns a h = ground (arith, merge-cons d n [] ns, merge_left_nil (n ∷ ns))
merge_after d n (e ∷ ds) ns a h =
    ground (arith, merge-cons d n (e ∷ ds) ns, merge_after e n ds ns a.1 h, le-last_time e ds a.1)

pub merge_before :
    (d n : Message) (ds ns : List Message)
    → Ascending n.time ns
    → last_time n ns < d.time
    → merge (d ∷ ds) (n ∷ ns) ≡ (n ∷ ns) ++ (d ∷ ds)
merge_before d n ds [] a h = ground (arith, merge-cons d n ds [], merge-nil (d ∷ ds))
merge_before d n ds (k ∷ ns) a h =
    ground (arith, merge-cons d n ds (k ∷ ns), merge_before d k ds ns a.1 h, le-last_time k ns a.1)
