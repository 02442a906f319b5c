-- ===== src/Tests/Packs.antt =====
-- Packs of messages: tyfirc/tyfirc-msgpack.cpp.
use tyfirc.Base.{ℕ, ◌≡◌, refl, [], ◌∷◌, ◌++◌, arith, cons-ne-nil}
use mathlib.Core.List.{Perm}
use tyfirc.Base.Text.{codes}
use tyfirc.Base.Int.{pos}
use tyfirc.Base.Result.{ok, ub}
use tyfirc.Message.{Message}
use tyfirc.MessagePack.{MessagePack, empty_pack, delete, insert, merge}
use tyfirc.MessagePack.Merge.{IsSorted}
use tyfirc.MessagePack.Keeps.{insert-merge, insert-IsSorted}
use tyfirc.MessagePack.Delete.{delete_promise, delete-delete_promise, delete-empty_pack}

abbrev said : ℕ → Message
said time = record { username = codes "ann"; text = codes "hello"; time = time }

abbrev stored : MessagePack
stored = record { messages = said 1 ∷ said 5 ∷ [] }

abbrev arrived : MessagePack
arrived = record { messages = said 3 ∷ said 7 ∷ [] }

insert-merge_example : (insert stored arrived).messages ≡ merge stored.messages arrived.messages
insert-merge_example = insert-merge stored arrived (omega arith, tt) (omega arith, tt) (omega arith)

insert-IsSorted_example :
    IsSorted (insert stored arrived).messages
    × Perm (insert stored arrived).messages (stored.messages ++ arrived.messages)
insert-IsSorted_example = insert-IsSorted stored arrived (omega arith, tt) (omega arith, tt)

delete-delete_promise_example : delete stored (pos 1) ≡ ok (delete_promise stored (pos 1))
delete-delete_promise_example =
    delete-delete_promise stored (pos 1) (cons-ne-nil _ _) (omega arith) (omega arith)

delete-empty_pack_example : delete empty_pack (pos 3) ≡ ub
delete-empty_pack_example = delete-empty_pack 3 (omega arith)

delete-stored : delete stored (pos 0) ≡ ok (said 1, record { messages = said 5 ∷ [] })
unfolding delete
delete-stored = refl
