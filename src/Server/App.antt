-- ===== src/Server/App.antt =====
-- tyfirc-server/tyfirc-ircserverapp.cpp: accepting connections, and the steps of `io_service::run`,
-- which calls one handler at a time, for an operation that has completed.
use tyfirc.Base.{ℕ, suc, Bool, true, false, List, [], ◌∷◌, ◌++◌, ◌≡◌, Lacks}
use tyfirc.Base.Text.{Str}
use tyfirc.Base.Result.{Result, ok}
use tyfirc.Time.{Clock}
use tyfirc.AuthManager.{FileAuthManager}
use tyfirc.Server.{
  new_session, Op, accepting, handshaking, reading_auth, reading_message, answering_failure,
  answering_success, writing, Server, set_session, start_op,
}
use tyfirc.Server.ChatRoom.{add_session, handle_written}
use tyfirc.Server.Handlers.{
  start, read_login_scmessage, handle_auth_scmessage, handle_success, handle_scmessage,
}

-- `StartAccept`: a new session, and the wait for its connection.
unfoldable pub start_accept : Server → Server
start_accept s =
    start_op (accepting s.next_id)
      (set_session s.next_id new_session (record s { next_id = suc s.next_id }))

-- `HandleAccept`.
unfoldable pub handle_accept : ℕ → Bool → Server → Server
unfolding start_accept start add_session
handle_accept id true s = start_accept s
handle_accept id false s = start_accept (start id (add_session id s))

-- The server that `main` starts: nobody is connected, and it waits for the first connection.
unfoldable pub initial : FileAuthManager → Server
unfolding start_accept
initial a =
    start_accept (record {
      auth_manager = a;
      sessions = [];
      session = λ id. new_session;
      next_id = 0;
      ops = [];
    })

-- How an operation ends: with an error, or not; a read brings bytes in both cases.
pub data Event : Type 0 where
  failed : Str → Event
  succeeded : Str → Event

abbrev pub is_error : Event → Bool
is_error (failed bytes) = true
is_error (succeeded bytes) = false

abbrev pub bytes_of : Event → Str
bytes_of (failed bytes) = bytes
bytes_of (succeeded bytes) = bytes

-- What `async_read_until` documents: it completes with a zero byte in the buffer, at once if there
-- is one already.
pub data Reads (buffer : Str) : Event → Type 0 where
  at_once : (¬ Lacks 0 buffer) → Reads buffer (succeeded [])
  later :
      (bytes : Str)
      → Lacks 0 buffer
      → (¬ Lacks 0 (buffer ++ bytes))
      → Reads buffer (succeeded bytes)
  read_failed : (bytes : Str) → Lacks 0 buffer → Reads buffer (failed bytes)

abbrev pub Allowed : Server → Op → Event → Type 0
Allowed s (reading_auth id) e = Reads (s.session id).read_buffer e
Allowed s (reading_message id) e = Reads (s.session id).read_buffer e
Allowed s _ e = bytes_of e ≡ []

-- The bytes that a read brings go behind those that are there.
unfoldable pub receive : ℕ → Str → Server → Server
receive id bytes s =
    set_session id (record (s.session id) { read_buffer = (s.session id).read_buffer ++ bytes }) s

-- The handler of an operation, at the time `now`.
unfoldable pub complete : Clock → ℕ → Op → Event → Server → Result Server
unfolding receive
complete c now (accepting id) e s = ok (handle_accept id (is_error e) s)
complete c now (handshaking id) e s = ok (read_login_scmessage id (is_error e) s)
complete c now (reading_auth id) e s =
    handle_auth_scmessage id (is_error e) (receive id (bytes_of e) s)
complete c now (reading_message id) e s =
    handle_scmessage c now id (is_error e) (receive id (bytes_of e) s)
complete c now (answering_failure id bytes) e s = ok (read_login_scmessage id (is_error e) s)
complete c now (answering_success id bytes) e s = ok (handle_success id (is_error e) s)
complete c now (writing id bytes) e s = handle_written id (is_error e) s

-- One turn of the loop in `io_service::run`.
pub data Step (c : Clock) (s t : Server) : Type 0 where
  turn :
      (now : ℕ) (before : List Op) (op : Op) (after : List Op) (e : Event)
      → s.ops ≡ before ++ op ∷ after
      → Allowed s op e
      → complete c now op e (record s { ops = before ++ after }) ≡ ok t
      → Step c s t

pub data Reach (c : Clock) (s : Server) : Server → Type 0 where
  here : Reach c s s
  next : {t u : Server} → Reach c s t → Step c t u → Reach c s u
