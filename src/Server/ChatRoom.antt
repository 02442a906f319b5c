-- ===== src/Server/ChatRoom.antt =====
-- tyfirc-server/tyfirc-chatroom.h and tyfirc-server/tyfirc-chatroom.cpp, and the write queue of
-- tyfirc-server/tyfirc-session.cpp that `DeliverScMessage` fills.
pub mod Queue
pub mod Deliver
use tyfirc.Base.{
  ℕ, ◌+◌, Bool, true, false, List, [], ◌∷◌, ◌++◌, ◌==◌, if◌then◌else◌, Ordering, Option, none, some,
}
use Prim.Native.Nat.{compare}
use tyfirc.Base.Text.{Str}
use tyfirc.Base.Result.{Result, ok, ub, ◌>>=◌}
use tyfirc.Misc.{ConnectionState, not_connected}
use tyfirc.ScMessage.{ScMessage, frame}
use tyfirc.Server.{Session, Op, writing, Server, set_session, start_op}

-- `sessions_.insert(session)`: a set, in the order of its elements.
unfoldable pub insert_id : ℕ → List ℕ → List ℕ
insert_id id [] = id ∷ []
insert_id id (j ∷ js) = elim (compare id j) [
  | Ordering.lt ↦ id ∷ j ∷ js
  | Ordering.eq ↦ j ∷ js
  | Ordering.gt ↦ j ∷ insert_id id js
]

-- `sessions_.erase(session)`.
unfoldable pub erase_id : ℕ → List ℕ → List ℕ
erase_id id [] = []
erase_id id (j ∷ js) = if j == id then js else j ∷ erase_id id js

unfoldable pub add_session : ℕ → Server → Server
unfolding insert_id
add_session id s = record s { sessions = insert_id id s.sessions }

unfoldable pub remove_session : ℕ → Server → Server
unfolding erase_id
remove_session id s = record s { sessions = erase_id id s.sessions }

-- What a handler does on an error: the session is not connected and leaves the room.
unfoldable pub disconnect : ℕ → Server → Server
unfolding remove_session
disconnect id s =
    remove_session id (set_session id (record (s.session id) { con_state = not_connected }) s)

-- `msg_queue_.front()`; undefined on an empty queue.
abbrev pub front : List ScMessage → Result ScMessage
front [] = ub
front (m ∷ ms) = ok m

-- `msg_queue_.pop_front()`; undefined on an empty queue.
abbrev pub pop_front : List ScMessage → Result (List ScMessage)
pop_front [] = ub
pop_front (m ∷ ms) = ok ms

abbrev pub is_empty {ℓ} : {A : Type ℓ} → List A → Bool
is_empty [] = true
is_empty (x ∷ xs) = false

-- `WriteScMessageHelper`: starts to write the front of the queue.
unfoldable pub write_helper : ℕ → Server → Result Server
write_helper id s = do m ← front (s.session id).msg_queue; ok (start_op (writing id (frame m)) s)

-- `Session::WriteScMessage`: only the first message of a queue starts a write.
unfoldable pub write_scmessage : ℕ → ScMessage → Server → Result Server
unfolding write_helper
write_scmessage id m s =
    let queue = (s.session id).msg_queue in
    let pushed = set_session id (record (s.session id) { msg_queue = queue ++ m ∷ [] }) s in
    if is_empty queue then write_helper id pushed else ok pushed

-- The handler of a write from the queue.
unfoldable pub handle_written : ℕ → Bool → Server → Result Server
unfolding write_helper disconnect
handle_written id true s = ok (disconnect id s)
handle_written id false s = do
  rest ← pop_front (s.session id).msg_queue
  let popped = set_session id (record (s.session id) { msg_queue = rest }) s
  if is_empty rest then ok popped else write_helper id popped

-- `ChatRoom::DeliverScMessage`: to every session of the room.
unfoldable pub deliver : ScMessage → List ℕ → Server → Result Server
deliver m [] s = ok s
deliver m (id ∷ ids) s = do t ← write_scmessage id m s; deliver m ids t

unfoldable pub deliver_scmessage : ScMessage → Server → Result Server
unfolding deliver
deliver_scmessage m s = deliver m s.sessions s
