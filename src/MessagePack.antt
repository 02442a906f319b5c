-- ===== src/MessagePack.antt =====
-- tyfirc/tyfirc-msgpack.h and tyfirc/tyfirc-msgpack.cpp: `Message`, and the pack of messages in the
-- order of their times.
pub mod Merge
pub mod Keeps
pub mod Delete
use tyfirc.Base.{
  ℕ, zero, suc, ◌+◌, ◌-◌, ◌%◌, ◌^◌, Bool, true, false, ◌||◌, Option, none, some, List, [], ◌∷◌,
  ◌++◌, ltb, leb, ◌==◌, if◌then◌else◌, length, get_elem?,
}
use tyfirc.Base.Int.{ℤ, pos, negsuc, to_size_t, is_negative}
pub use tyfirc.Message.{Message, default_message}
use tyfirc.Base.Result.{Result, ok, ub, ◌>>=◌}

-- `class MessagePack`.
pub record MessagePack : Type 0 where
  pub messages : List Message

-- `std::sort` by time. The order of messages with equal times is not specified; here it is that
-- of the argument.
unfoldable pub sort_insert : Message → List Message → List Message
sort_insert m [] = m ∷ []
sort_insert m (x ∷ xs) = if ltb x.time m.time then x ∷ sort_insert m xs else m ∷ x ∷ xs

unfoldable pub sort : List Message → List Message
sort [] = []
sort (m ∷ ms) = sort_insert m (sort ms)

-- `explicit MessagePack(std::vector<Message>)`.
unfoldable pub make_pack : List Message → MessagePack
make_pack ms = record { messages = if ltb 1 (length ms) then sort ms else ms }

unfoldable pub empty_pack : MessagePack
empty_pack = record { messages = [] }

-- `size()`, as the `int` that it fits.
unfoldable pub size : MessagePack → ℕ
size p = length p.messages

-- `data_[i]`; an index out of range is undefined behaviour.
unfoldable pub element : List Message → ℕ → Result Message
element ms i = elim (get_elem? ms i) [ none ↦ ub | some m ↦ ok m ]

-- `operator[](int)`: no check, and a negative index is converted to `size_t`.
unfoldable pub subscript : MessagePack → ℤ → Result Message
subscript p index = element p.messages (to_size_t index)

-- `data_.erase(data_.begin() + i)`.
unfoldable pub erase_at : ℕ → List Message → List Message
erase_at i [] = []
erase_at zero (x ∷ xs) = xs
erase_at (suc i) (x ∷ xs) = x ∷ erase_at i xs

-- `Delete`: the message and the pack without it. The comparison is unsigned, and `size() - 1`
-- wraps around on an empty pack.
unfoldable pub delete : MessagePack → ℤ → Result (Message × MessagePack)
unfolding element erase_at
delete p index =
    let last = (length p.messages + 2 ^ 64 - 1) % 2 ^ 64 in
    if is_negative index || ltb last (to_size_t index) then ok (default_message, p) else (do
      res ← element p.messages (to_size_t index)
      ok (res, record { messages = erase_at (to_size_t index) p.messages }))

-- The branch for one new message: in front of the first message that is later.
unfoldable pub insert_one : Message → List Message → List Message
insert_one new_msg [] = new_msg ∷ []
insert_one new_msg (cur ∷ rest) =
    if ltb new_msg.time cur.time then new_msg ∷ cur ∷ rest else cur ∷ insert_one new_msg rest

-- `std::merge`: of two messages with equal times the first range's comes first. `merge_into`
-- merges a range that starts with `x`; `rest` merges what stands behind `x`.
unfoldable pub merge_into : Message → (List Message → List Message) → List Message → List Message
merge_into x rest [] = x ∷ rest []
merge_into x rest (y ∷ ys) = elim (ltb y.time x.time) [
  | true ↦ y ∷ merge_into x rest ys
  | false ↦ x ∷ rest (y ∷ ys)
]

unfoldable pub merge : List Message → List Message → List Message
unfolding merge_into
merge [] ys = ys
merge (x ∷ xs) ys = merge_into x (merge xs) ys

-- `(data_.end() - 1)->time` of the vector `m ∷ ms`.
abbrev pub last_time : Message → List Message → ℕ
last_time m [] = m.time
last_time m (n ∷ ms) = last_time n ms

-- The branch of `Insert` for two or more new messages, `n ∷ ns`, and stored ones, `d ∷ ds`.
unfoldable pub insert_many : Message → List Message → Message → List Message → List Message
insert_many d ds n ns =
    if leb (last_time d ds) n.time
    then (d ∷ ds) ++ (n ∷ ns)
    else if leb (last_time n ns) d.time
    then (n ∷ ns) ++ (d ∷ ds)
    else merge (d ∷ ds) (n ∷ ns)

-- The branches of `Insert`, on the stored and the new messages.
unfoldable pub insert_messages : List Message → List Message → List Message
unfolding insert_one insert_many merge
insert_messages stored [] = stored
insert_messages [] (n ∷ ns) = n ∷ ns
insert_messages (d ∷ ds) (n ∷ []) = insert_one n (d ∷ ds)
insert_messages (d ∷ ds) (n ∷ k ∷ ns) = insert_many d ds n (k ∷ ns)

-- `Insert`.
unfoldable pub insert : MessagePack → MessagePack → MessagePack
unfolding insert_messages
insert p new_msgs = record { messages = insert_messages p.messages new_msgs.messages }
