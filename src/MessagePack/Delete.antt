-- ===== src/MessagePack/Delete.antt =====
-- `Delete` against its description: the message at the index is taken out, and an invalid index
-- changes nothing.
use tyfirc.Base.{
  ℕ, zero, suc, ◌+◌, ◌-◌, ◌%◌, ◌^◌, ◌≤◌, ◌<◌, ◌≡◌, ◌≢◌, refl, ap, List, [], ◌∷◌, ◌++◌, none, some,
  arith, length, take, drop, get_elem?, ltb, ltb→lt, false, true, inl, inr, Bool-cases,
}
use tyfirc.Base.Int.{ℤ, pos, negsuc, to_size_t}
use tyfirc.Base.Result.{ok, ub}
use tyfirc.MessagePack.Merge.{
  Ascending, IsSorted, Ascending-le, Ascending-IsSorted, IsSorted-Ascending,
}
use tyfirc.MessagePack.{
  Message, MessagePack, default_message, delete, element, erase_at, empty_pack,
}

-- What the header promises of `Delete`.
unfoldable pub delete_promise : MessagePack → ℤ → Message × MessagePack
delete_promise p (negsuc n) = (default_message, p)
delete_promise p (pos i) = elim (get_elem? p.messages i) [
  | none ↦ (default_message, p)
  | some m ↦ (m, record { messages = take i p.messages ++ drop (suc i) p.messages })
]

erase_at_lem : (i : ℕ) (ms : List Message) → erase_at i ms ≡ take i ms ++ drop (suc i) ms
unfolding erase_at
erase_at_lem zero [] = refl
erase_at_lem (suc i) [] = refl
erase_at_lem zero (m ∷ ms) = refl
erase_at_lem (suc i) (m ∷ ms) = ap (◌∷◌ m) (erase_at_lem i ms)

get_elem?-none : (ms : List Message) (i : ℕ) → length ms ≤ i → get_elem? ms i ≡ none
get_elem?-none [] i h = refl
get_elem?-none (m ∷ ms) zero h = absurd (omega arith)
get_elem?-none (m ∷ ms) (suc i) h = get_elem?-none ms i (omega arith)

get_elem?-some :
    (ms : List Message) (i : ℕ) → i < length ms → (m : Message) × (get_elem? ms i ≡ some m)
get_elem?-some [] i h = absurd (omega arith)
get_elem?-some (m ∷ ms) zero h = (m, refl)
get_elem?-some (m ∷ ms) (suc i) h = get_elem?-some ms i (omega arith)

bound :
    (n i : ℕ)
    → 0 < n
    → n < 2 ^ 64
    → i < 2 ^ 31
    → n ≤ i
    → ltb ((n + 2 ^ 64 - 1) % 2 ^ 64) (i % 2 ^ 64) ≡ true
bound n i p b h le = ground arith

within :
    (n i : ℕ)
    → n < 2 ^ 64
    → i < 2 ^ 31
    → i < n
    → ltb ((n + 2 ^ 64 - 1) % 2 ^ 64) (i % 2 ^ 64) ≡ false
within n i b h lt = ground arith

small : (i : ℕ) → i < 2 ^ 31 → i % 2 ^ 64 ≡ i
small i h = omega arith

-- The values of an `int`.
abbrev pub IsInt : ℤ → Type 0
IsInt (pos n) = n < 2 ^ 31
IsInt (negsuc n) = n < 2 ^ 31

element_lem :
    (ms : List Message) (i : ℕ) (m : Message) → get_elem? ms i ≡ some m → element ms i ≡ ok m
unfolding element
element_lem ms i m e = rw (e, element)

delete_within :
    (p : MessagePack) (i : ℕ) (m : Message)
    → length p.messages < 2 ^ 64
    → i < 2 ^ 31
    → i < length p.messages
    → get_elem? p.messages i ≡ some m
    → delete p (pos i) ≡ ok (delete_promise p (pos i))
unfolding delete delete_promise
delete_within p i m b h lt e =
    rw
      (
        within (length p.messages) i b h lt,
        small i h,
        element_lem p.messages i m e,
        e,
        delete_promise,
        erase_at_lem i p.messages,
      )
      refl

delete_beyond :
    (p : MessagePack) (i : ℕ)
    → 0 < length p.messages
    → length p.messages < 2 ^ 64
    → i < 2 ^ 31
    → length p.messages ≤ i
    → delete p (pos i) ≡ ok (delete_promise p (pos i))
unfolding delete delete_promise
delete_beyond p i some_message b h le =
    rw
      (
        bound (length p.messages) i some_message b h le,
        get_elem?-none p.messages i le,
        delete_promise,
      )
      refl

-- On a pack that is not empty and of a size that a `size_t` holds, `Delete` does what its header
-- promises, for every index that is an `int`.
pub delete-delete_promise :
    (p : MessagePack) (index : ℤ)
    → p.messages ≢ []
    → length p.messages < 2 ^ 64
    → IsInt index
    → delete p index ≡ ok (delete_promise p index)
delete-delete_promise p (negsuc n) ne b h = unfold delete delete_promise in refl
delete-delete_promise p (pos i) ne b h = elim (Bool-cases (ltb i (length p.messages))) [
  | inl lt ↦
      let (m, e) = get_elem?-some p.messages i (ltb→lt _ _ lt) in
      delete_within p i m b h (ltb→lt _ _ lt) e
  | inr ge ↦ delete_beyond p i (positive p.messages ne) b h (not_lt ge)
]
  where
    positive : (ms : List Message) → ms ≢ [] → 0 < length ms
    positive [] ne = absurd (ne refl)
    positive (m ∷ ms) ne = omega arith

    not_lt : ltb i (length p.messages) ≡ false → length p.messages ≤ i
    not_lt e = ground arith

-- On the empty pack every index but a negative one reads out of bounds, though the header says
-- that an invalid index does nothing.
pub delete-empty_pack : (i : ℕ) → i < 2 ^ 31 → delete empty_pack (pos i) ≡ ub
unfolding delete empty_pack
delete-empty_pack i h =
    let in_range : ltb ((0 + 2 ^ 64 - 1) % 2 ^ 64) (i % 2 ^ 64) ≡ false = ground arith in
    rw (in_range, delete) refl

erase_at-Ascending : (t i : ℕ) (ms : List Message) → Ascending t ms → Ascending t (erase_at i ms)
unfolding erase_at
erase_at-Ascending t i [] a = tt
erase_at-Ascending t zero (m ∷ ms) a = Ascending-le t m.time ms a.0 a.1
erase_at-Ascending t (suc i) (m ∷ ms) a = (a.0, erase_at-Ascending m.time i ms a.1)

erase_at-IsSorted : (i : ℕ) (ms : List Message) → IsSorted ms → IsSorted (erase_at i ms)
erase_at-IsSorted i ms a =
    Ascending-IsSorted 0 (erase_at i ms) (erase_at-Ascending 0 i ms (IsSorted-Ascending ms a))

-- Whatever `Delete` returns, a sorted pack stays sorted.
pub delete-IsSorted :
    (p q : MessagePack) (index : ℤ) (m : Message)
    → IsSorted p.messages
    → delete p index ≡ ok (m, q)
    → IsSorted q.messages
unfolding delete
delete-IsSorted p q index m a h = ground (arith, erase_at-IsSorted (to_size_t index) p.messages a)
