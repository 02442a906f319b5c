-- ===== src/Server/Writing/Busy.antt =====
-- What a session has under way to write, where a queue and the operations change.
use tyfirc.Base.{
  ℕ, ◌≡◌, ◌≢◌, refl, ap, ◌∙◌, List, [], ◌∷◌, ◌==◌, ne→==, ==→eq, ==→ne, Bool-cases, inl, inr,
}
use tyfirc.Base.Text.{Str}
use tyfirc.ScMessage.{ScMessage}
use tyfirc.Server.{Op, writing, Server, start_op}
use tyfirc.Server.ChatRoom.Deliver.{queue_of}
use tyfirc.Server.ChatRoom.Queue.{with_queue}
use tyfirc.Server.Writing.{writers, HasWriter, same-HasWriter}
use tyfirc.Server.Writing.Taken.{own_writers}

-- One session's queue and writes change: another one has a write under way as before.
pub changed-HasWriter :
    (id : ℕ) (queue : List ScMessage) (ops : List Op) (s : Server)
    → ((j : ℕ) → j ≢ id → writers j ops ≡ writers j s.ops)
    → (j : ℕ) → j ≢ id
    → HasWriter j s
    → HasWriter j (record (with_queue id queue s) { ops = ops })
changed-HasWriter id queue ops s others j ne h =
    same-HasWriter j s (record (with_queue id queue s) { ops = ops })
      (rw (ne→== j id ne, queue_of) refl) (others j ne) h

pub each-HasWriter :
    (id : ℕ) (s t : Server)
    → ((j : ℕ) → j ≢ id → HasWriter j s → HasWriter j t)
    → HasWriter id t
    → (j : ℕ) → HasWriter j s
    → HasWriter j t
each-HasWriter id s t others own j h = elim (Bool-cases (j == id)) [
  | inl e ↦ rw (==→eq j id e) own
  | inr e ↦ others j (==→ne j id e) h
]

pub started-HasWriter :
    (id : ℕ) (bytes : Str) (s : Server)
    → writers id s.ops ≡ []
    → HasWriter id (start_op (writing id bytes) s)
started-HasWriter id bytes s none = inr (bytes, own_writers id bytes s.ops ∙ ap (◌∷◌ bytes) none)
