-- ===== src/Older.antt =====
-- nmake/tyfirc-server: the older server. It has no chat room: a thread of its own writes the
-- messages of one list to the sessions of another, while the handlers of `io_service::run` fill both.
pub mod Ending
pub mod Handlers
pub mod App
use tyfirc.Base.{ℕ, zero, suc, Bool, true, false, List, [], ◌∷◌, ◌++◌, ◌==◌, if◌then◌else◌}
use tyfirc.Base.Text.{Str}
use tyfirc.Misc.{ConnectionState, not_connected, connected, logged_in}
use tyfirc.Message.{Message}
use tyfirc.AuthManager.{FileAuthManager}

-- `class SessionList`, with the place of the writing thread in it: the sessions before the place and
-- those from it on.
pub record SessionList : Type 0 where
  pub before : List ℕ
  pub from : List ℕ

-- `AddSession`: at the end. A place at the end of the list stays there.
unfoldable pub add_session : ℕ → SessionList → SessionList
add_session id l = added l.before l.from
  where
    added : List ℕ → List ℕ → SessionList
    added before [] = record { before = before ++ id ∷ []; from = [] }
    added before (at ∷ ids) = record { before = before; from = at ∷ (ids ++ id ∷ []) }

-- `CleanSession`: without the session at the place; the place is then the next one.
unfoldable pub clean_session : SessionList → SessionList
clean_session l = record l { from = behind l.from }
  where
    behind : List ℕ → List ℕ
    behind [] = []
    behind (id ∷ ids) = ids

-- `cur_session++`.
unfoldable pub advance : SessionList → SessionList
advance l = advanced l.before l.from
  where
    advanced : List ℕ → List ℕ → SessionList
    advanced before [] = record { before = before; from = [] }
    advanced before (id ∷ ids) = record { before = before ++ id ∷ []; from = ids }

-- `cur_session = sessions_.begin()`.
abbrev pub rewind : SessionList → SessionList
rewind l = record { before = []; from = l.before ++ l.from }

-- `class Session`. `is_bound` tells whether `on_message_` has the handler that the list bound.
pub record Session : Type 0 where
  pub con_state : ConnectionState
  pub read_buffer : Str
  pub username : Str
  pub is_bound : Bool

abbrev pub new_session : Session
new_session = record {
  con_state = not_connected;
  read_buffer = [];
  username = [];
  is_bound = false;
}

-- An asynchronous operation with the handler that it was given, by the number of its session.
pub data Op : Type 0 where
  accepting handshaking reading_auth reading_message : ℕ → Op
  answering_failure answering_success : ℕ → Str → Op

-- Where the writing thread stands: it waits for the message of a number, or writes it.
pub data Phase : Type 0 where
  waiting writing : ℕ → Phase

-- `class IrcServerApp`, with what its parts share. `outbox` is what `SyncWriteMessage` wrote to each
-- session.
pub record Server : Type 0 where
  pub auth_manager : FileAuthManager
  pub sessions : SessionList
  pub session : ℕ → Session
  pub next_id : ℕ
  pub ops : List Op
  pub msg_queue : List Message
  pub phase : Phase
  pub outbox : ℕ → List Str

abbrev pub set_session : ℕ → Session → Server → Server
set_session id v s = record s { session = λ j. if j == id then v else s.session j }

abbrev pub start_op : Op → Server → Server
start_op op s = record s { ops = op ∷ s.ops }

-- How the loop over the sessions stands: at its end, with the sessions to which the message was
-- written; ended by an exception; or still running.
pub data Round : Type 0 where
  finished : SessionList → List ℕ → Round
  terminated : Round
  running : Round

-- `for` in `StartWrite`, for one message and at most `fuel` passes, while no state changes. A write
-- that fails throws a `system_error`, which the handler for an `error_code` does not catch.
unfoldable pub write_round : (ℕ → ConnectionState) → (ℕ → Bool) → ℕ → SessionList → List ℕ → Round
write_round state writes zero l written = running
write_round state writes (suc fuel) l written = elim l.from [
  | [] ↦ finished l written
  | id ∷ ids ↦ elim (state id) [
    | not_connected ↦ write_round state writes fuel (clean_session l) written
    | connected ↦ write_round state writes fuel l written
    | logged_in ↦ elim (writes id) [
      | true ↦ write_round state writes fuel (advance l) (written ++ id ∷ [])
      | false ↦ terminated
    ]
  ]
]
