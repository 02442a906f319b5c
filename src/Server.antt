-- ===== src/Server.antt =====
-- tyfirc-server: the sessions, the chat room and the application, as one state that the handlers
-- change. A handler runs when an asynchronous operation completes; those under way are `ops`.
pub mod Handlers
pub mod ChatRoom
pub mod App
pub mod Accounts
pub mod Writing
pub mod Main
pub mod Spoken
pub mod Order
pub mod Progress
use tyfirc.Base.{ℕ, suc, ◌+◌, Bool, true, false, List, [], ◌∷◌, ◌++◌, ◌==◌, if◌then◌else◌, Ordering}
use Prim.Native.Nat.{compare}
use tyfirc.Base.Text.{Str}
use tyfirc.Misc.{ConnectionState, not_connected, connected}
use tyfirc.AuthManager.{FileAuthManager}
use tyfirc.ScMessage.{ScMessage}

-- `class Session`. Its member `is_writing_` is never read.
pub record Session : Type 0 where
  pub con_state : ConnectionState
  pub read_buffer : Str
  pub username : Str
  pub msg_queue : List ScMessage

abbrev pub new_session : Session
new_session = record { con_state = not_connected; read_buffer = []; username = []; msg_queue = [] }

-- An asynchronous operation with the handler that it was given, by the number of its session.
pub data Op : Type 0 where
  -- `async_accept`, then `HandleAccept`
  accepting : ℕ → Op
  -- `async_handshake`, then `ReadLoginScMessage`
  handshaking : ℕ → Op
  -- `async_read_until`, then `HandleAuthScMessage` or `HandleScMessage`
  reading_auth reading_message : ℕ → Op
  -- `async_write` of an answer, then `ReadLoginScMessage`, or the handler for a success
  answering_failure answering_success : ℕ → Str → Op
  -- `async_write` of the front of the queue, then the handler in `WriteScMessageHelper`
  writing : ℕ → Str → Op

-- `class IrcServerApp`, with what its parts share. A `shared_ptr` is a number; `next_id` is that
-- of the next session.
pub record Server : Type 0 where
  pub auth_manager : FileAuthManager
  pub sessions : List ℕ
  pub session : ℕ → Session
  pub next_id : ℕ
  pub ops : List Op

abbrev pub update : (ℕ → Session) → ℕ → Session → ℕ → Session
update f id v j = if j == id then v else f j

abbrev pub set_session : ℕ → Session → Server → Server
set_session id v s = record s { session = update s.session id v }

-- Starts an asynchronous operation.
abbrev pub start_op : Op → Server → Server
start_op op s = record s { ops = op ∷ s.ops }
