-- ===== src/MessagePack/Keeps.antt =====
-- `Insert` and the constructor keep the order of times, lose nothing and make nothing up.
use mathlib.Core.List.{Perm, perm_append_comm}
use mathlib.Core.List.Perm
use tyfirc.Base.{
  ℕ, ◌<◌, ◌≡◌, ◌≢◌, refl, sym, List, [], ◌∷◌, ◌++◌, arith, append-nil, leb, length, Bool-cases, inl,
  inr, true, leb→le, lt→ltb,
}
use tyfirc.MessagePack.{
  Message, MessagePack, make_pack, sort, insert, insert_messages, insert_many, merge, last_time,
}
use tyfirc.MessagePack.Merge.{
  Ascending, IsSorted, Ascending-IsSorted, IsSorted-Ascending, sort-Ascending, sort-perm,
  merge-Ascending, merge-perm, merge_left_nil, merge-nil, insert_one-merge, merge_after,
  merge_before,
}

-- A pack that is built from any vector is sorted and holds the messages of the vector.
pub make_pack-IsSorted :
    (ms : List Message) → IsSorted (make_pack ms).messages × Perm (make_pack ms).messages ms
unfolding make_pack
make_pack-IsSorted [] = (tt, Perm.refl _)
make_pack-IsSorted (m ∷ []) = (tt, Perm.refl _)
make_pack-IsSorted (m ∷ n ∷ ms) =
    rw (lt→ltb 1 (length (m ∷ n ∷ ms)) (omega arith)) (
      Ascending-IsSorted 0 (sort (m ∷ n ∷ ms)) (sort-Ascending (m ∷ n ∷ ms)),
      sort-perm (m ∷ n ∷ ms),
    )

-- Where the new messages, if they are two or more, end exactly at the time at which the stored
-- ones begin, they are put in front of them; a merge would put them behind.
abbrev pub NoTie : List Message → List Message → Type 0
NoTie (d ∷ ds) (n ∷ k ∷ ns) = last_time k ns ≢ d.time
NoTie _ _ = Unit

le_ne_lt : {a b : ℕ} → leb a b ≡ true → a ≢ b → a < b
le_ne_lt h ne = ground arith

insert_many-merge :
    (d n : Message) (ds ns : List Message)
    → Ascending d.time ds
    → Ascending n.time ns
    → last_time n ns ≢ d.time
    → insert_many d ds n ns ≡ merge (d ∷ ds) (n ∷ ns)
unfolding insert_many
insert_many-merge d n ds ns a b ne = elim (Bool-cases (leb (last_time d ds) n.time)) [
  | inl after ↦ rw after (sym (merge_after d n ds ns a (leb→le _ _ after)))
  | inr e ↦ elim (Bool-cases (leb (last_time n ns) d.time)) [
    | inl before ↦ rw (e, before) (sym (merge_before d n ds ns b (le_ne_lt before ne)))
    | inr f ↦ rw (e, f) refl
  ]
]

-- If both packs are sorted, and unless two or more new messages end exactly at the time at which the
-- stored ones begin, `Insert` gives the stable merge of the stored and the new messages.
pub insert-merge :
    (p new_msgs : MessagePack)
    → IsSorted p.messages
    → IsSorted new_msgs.messages
    → NoTie p.messages new_msgs.messages
    → (insert p new_msgs).messages ≡ merge p.messages new_msgs.messages
unfolding insert
insert-merge p new_msgs a b ne = go p.messages new_msgs.messages a b ne
  where
    go :
        (xs ys : List Message)
        → IsSorted xs
        → IsSorted ys
        → NoTie xs ys
        → insert_messages xs ys ≡ merge xs ys
    go xs [] a b ne = sym (merge-nil xs)
    go [] (n ∷ ns) a b ne = sym (merge_left_nil (n ∷ ns))
    go (d ∷ ds) (n ∷ []) a b ne = insert_one-merge n (d ∷ ds)
    go (d ∷ ds) (n ∷ k ∷ ns) a b ne = insert_many-merge d n ds (k ∷ ns) a b ne

append_ordered :
    (m : Message) (ms ys : List Message)
    → Ascending m.time ms
    → Ascending (last_time m ms) ys
    → Ascending m.time (ms ++ ys)
append_ordered m [] ys a b = b
append_ordered m (n ∷ ms) ys a b = (a.0, append_ordered n ms ys a.1 b)

append_lists :
    (m n : Message) (ms ns : List Message)
    → Ascending m.time ms
    → Ascending n.time ns
    → leb (last_time m ms) n.time ≡ true
    → IsSorted ((m ∷ ms) ++ (n ∷ ns))
append_lists m n ms ns a b h = append_ordered m ms (n ∷ ns) a (leb→le _ _ h, b)

merge-IsSorted : (xs ys : List Message) → IsSorted xs → IsSorted ys → IsSorted (merge xs ys)
merge-IsSorted xs ys a b =
    Ascending-IsSorted 0 (merge xs ys)
      (merge-Ascending 0 xs ys (IsSorted-Ascending xs a) (IsSorted-Ascending ys b))

insert_many_keeps :
    (d n : Message) (ds ns : List Message)
    → Ascending d.time ds
    → Ascending n.time ns
    → IsSorted (insert_many d ds n ns) × Perm (insert_many d ds n ns) ((d ∷ ds) ++ (n ∷ ns))
unfolding insert_many
insert_many_keeps d n ds ns a b = elim (Bool-cases (leb (last_time d ds) n.time)) [
  | inl after ↦ rw after (append_lists d n ds ns a b after, Perm.refl _)
  | inr e ↦ elim (Bool-cases (leb (last_time n ns) d.time)) [
    | inl before ↦
        rw (e, before) (append_lists n d ns ds b a before, perm_append_comm (n ∷ ns) (d ∷ ds))
    | inr f ↦ rw (e, f) (merge-IsSorted (d ∷ ds) (n ∷ ns) a b, merge-perm (d ∷ ds) (n ∷ ns))
  ]
]

insert_messages_keeps :
    (xs ys : List Message)
    → IsSorted xs
    → IsSorted ys
    → IsSorted (insert_messages xs ys) × Perm (insert_messages xs ys) (xs ++ ys)
unfolding insert_messages
insert_messages_keeps xs [] a b = (a, rw append-nil (Perm.refl xs))
insert_messages_keeps [] (n ∷ ns) a b = (b, Perm.refl _)
insert_messages_keeps (d ∷ ds) (n ∷ []) a b =
    rw insert_one-merge (merge-IsSorted (d ∷ ds) (n ∷ []) a b, merge-perm (d ∷ ds) (n ∷ []))
insert_messages_keeps (d ∷ ds) (n ∷ k ∷ ns) a b = insert_many_keeps d n ds (k ∷ ns) a b

-- Inserting a sorted pack into a sorted pack gives a sorted pack with the messages of both.
pub insert-IsSorted :
    (p new_msgs : MessagePack)
    → IsSorted p.messages
    → IsSorted new_msgs.messages
    → IsSorted (insert p new_msgs).messages
      × Perm (insert p new_msgs).messages (p.messages ++ new_msgs.messages)
unfolding insert
insert-IsSorted p new_msgs a b = insert_messages_keeps p.messages new_msgs.messages a b
