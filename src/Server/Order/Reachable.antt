-- ===== src/Server/Order/Reachable.antt =====
-- The order of the messages, over the runs of the server.
use tyfirc.Base.{ℕ, false, ◌≡◌, refl, [], ◌==◌, Bool-cases, inl, inr}
use tyfirc.Time.{Clock}
use tyfirc.AuthManager.{FileAuthManager}
use tyfirc.Server.{Server}
use tyfirc.Server.ChatRoom.Deliver.{queue_of}
use tyfirc.Server.App.{initial, start_accept, turn, Reach, here, next}
use tyfirc.Server.Writing.Reachable.{Reach-IsServed}
use tyfirc.Server.Order.{log, written, joined, missed, Ordered, IsOrdered, HasDoor}
use tyfirc.Server.Order.Steps.{outside}
use tyfirc.Server.Order.Turns.{complete-Turned}
use tyfirc.Server.Order.Kept.{turn-HasDoor, turn-IsOrdered}

initial-HasDoor : (a : FileAuthManager) → HasDoor (initial a)
unfolding initial start_accept
initial-HasDoor a = record { door = 0; door_open = refl; door_newest = refl }

at_start : (a : FileAuthManager) (id : ℕ) → queue_of id (initial a) ≡ []
unfolding initial start_accept
at_start a id = elim (Bool-cases (id == 0)) [
  | inl e ↦ rw (e, queue_of) refl
  | inr e ↦ rw (e, queue_of) refl
]

initial-IsOrdered : (a : FileAuthManager) (id : ℕ) → IsOrdered id [] [] false [] (initial a)
unfolding initial start_accept
initial-IsOrdered a id = outside id [] [] (initial a) (rw (at_start a id) refl) refl

pub Reach-HasDoor :
    (c : Clock) (a : FileAuthManager) {s : Server} → Reach c (initial a) s → HasDoor s
Reach-HasDoor c a here = initial-HasDoor a
Reach-HasDoor c a (next {t} {u} r (turn now before op after e at allowed h)) =
    let v = Reach-IsServed c a r in
    turn-HasDoor c now t before after u op e at v
      (complete-Turned c now t before after u op e at h v) (Reach-HasDoor c a r)

pub Reach-IsOrdered :
    (c : Clock) (a : FileAuthManager) (id : ℕ) {s : Server} (r : Reach c (initial a) s)
    → IsOrdered id (log r) (missed id r) (joined id r) (written id r) s
unfolding log missed joined written
Reach-IsOrdered c a id here = initial-IsOrdered a id
Reach-IsOrdered c a id (next {t} {u} r (turn now before op after e at allowed h)) =
    let v = Reach-IsServed c a r in
    turn-IsOrdered c now t before after u id (log r) (missed id r) (joined id r) (written id r) op e
      at v (Reach-HasDoor c a r) (complete-Turned c now t before after u op e at h v)
      (Reach-IsOrdered c a id r)

-- In every run of the server, and for each session, what was said in the room is what was said
-- before the session entered, then what it heard, then what it did not hear any more; while the
-- session is in the room, it has heard all since it entered. The frames of what it heard are the
-- bytes that were written to it from its queue and, behind them, what waits in the queue: every
-- session gets the messages in the order in which the room heard them, each once.
pub Reach-Ordered :
    (c : Clock) (a : FileAuthManager) (id : ℕ) {s : Server} (r : Reach c (initial a) s)
    → Ordered id (log r) (missed id r) (written id r) s
Reach-Ordered c a id r = (Reach-IsOrdered c a id r).ordered
