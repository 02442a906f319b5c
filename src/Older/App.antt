-- ===== src/Older/App.antt =====
-- nmake/tyfirc-server/tyfirc-ircserverapp.cpp: accepting connections, the steps of
-- `io_service::run`, and those of the writing thread.
pub mod Delivery
use tyfirc.Base.{
  ℕ, suc, ◌+◌, Bool, true, false, Option, none, some, List, [], ◌∷◌, ◌++◌, ◌≡◌, ◌==◌, get_elem?,
  if◌then◌else◌,
}
use tyfirc.Base.Text.{Str}
use tyfirc.Base.Result.{Result, ok, throw, ub, ◌>>=◌}
use tyfirc.Misc.{ConnectionState, not_connected, connected, logged_in}
use tyfirc.Time.{Clock}
use tyfirc.Message.{Message}
use tyfirc.AuthManager.{FileAuthManager}
use tyfirc.ScMessage.{frame}
use tyfirc.ScMessage.Make.{get_message_scmessage}
use tyfirc.Server.App.{Event, is_error, bytes_of, Reads}
use tyfirc.Older.{
  SessionList, add_session, clean_session, advance, rewind, Session, new_session, Op, accepting,
  handshaking, reading_auth, reading_message, answering_failure, answering_success, Phase, waiting,
  writing, Server, set_session, start_op,
}
use tyfirc.Older.Handlers.{
  start, read_login_scmessage, handle_auth_scmessage, handle_success, handle_scmessage,
}

-- `StartAccept`.
unfoldable pub start_accept : Server → Server
start_accept s =
    start_op (accepting s.next_id)
      (set_session s.next_id new_session (record s { next_id = suc s.next_id }))

-- `sessions_.AddSession(new_session, on_message_handler)`.
unfoldable pub enlist : ℕ → Server → Server
unfolding add_session
enlist id s =
    set_session id (record (s.session id) { is_bound = true })
      (record s { sessions = add_session id s.sessions })

-- `HandleAccept`.
unfoldable pub handle_accept : ℕ → Bool → Server → Server
unfolding start_accept start enlist
handle_accept id true s = start_accept s
handle_accept id false s = start_accept (start id (enlist id s))

-- The server that `main` starts; `Run` starts the writing thread, which waits for the first message.
unfoldable pub initial : FileAuthManager → Server
unfolding start_accept
initial a = start_accept (record {
  auth_manager = a;
  sessions = record { before = []; from = [] };
  session = λ id. new_session;
  next_id = 0;
  ops = [];
  msg_queue = [];
  phase = waiting 0;
  outbox = λ id. [];
})

abbrev pub Allowed : Server → Op → Event → Type 0
Allowed s (reading_auth id) e = Reads (s.session id).read_buffer e
Allowed s (reading_message id) e = Reads (s.session id).read_buffer e
Allowed s _ e = bytes_of e ≡ []

unfoldable pub receive : ℕ → Str → Server → Server
receive id bytes s =
    set_session id (record (s.session id) { read_buffer = (s.session id).read_buffer ++ bytes }) s

-- The handler of an operation.
unfoldable pub complete : Clock → Op → Event → Server → Result Server
unfolding receive
complete c (accepting id) e s = ok (handle_accept id (is_error e) s)
complete c (handshaking id) e s = ok (read_login_scmessage id (is_error e) s)
complete c (reading_auth id) e s = handle_auth_scmessage id (is_error e) (receive id (bytes_of e) s)
complete c (reading_message id) e s = handle_scmessage c id (is_error e) (receive id (bytes_of e) s)
complete c (answering_failure id bytes) e s = ok (read_login_scmessage id (is_error e) s)
complete c (answering_success id bytes) e s = ok (handle_success id (is_error e) s)

-- What `SyncWriteMessage` puts on the wire.
unfoldable pub message_bytes : Clock → Message → Result Str
message_bytes c msg = do m ← get_message_scmessage c msg; ok (frame m)

-- The thread's next step: it waits, it has gone on, or it has ended by an exception.
pub data Outcome : Type 0 where
  blocked ended : Outcome
  moved : Server → Outcome

-- `CleanSession` at the place, with the disconnection of its handler.
abbrev pub clean : ℕ → Server → Server
clean id s =
    set_session id (record (s.session id) { is_bound = false })
      (record s { sessions = clean_session s.sessions })

-- `SyncWriteMessage` and `cur_session++`, if the write succeeds.
unfoldable pub write_to : Bool → ℕ → Server → Result Str → Outcome
unfolding advance
write_to true id s (ok bytes) = moved (record s {
  sessions = advance s.sessions;
  outbox = λ j. if j == id then s.outbox id ++ bytes ∷ [] else s.outbox j;
})
write_to _ id s _ = ended

-- The body of the loop over the sessions, at the session of the place.
abbrev pub visit : Clock → Bool → Message → ℕ → ConnectionState → Server → Outcome
visit c writes msg id not_connected s = moved (clean id s)
visit c writes msg id connected s = moved s
visit c writes msg id logged_in s = write_to writes id s (message_bytes c msg)

-- One step of `StartWrite`; the flag tells whether a write would succeed. The thread waits while
-- its message is not there yet.
unfoldable pub write_step : Clock → Bool → Phase → Option Message → List ℕ → Server → Outcome
unfolding clean_session write_to
write_step c writes _ none ids s = blocked
write_step c writes (waiting k) (some msg) ids s =
    moved (record s { phase = writing k; sessions = rewind s.sessions })
write_step c writes (writing k) (some msg) [] s = moved (record s { phase = waiting (suc k) })
write_step c writes (writing k) (some msg) (id ∷ ids) s =
    visit c writes msg id (s.session id).con_state s

abbrev pub number : Phase → ℕ
number (waiting k) = k
number (writing k) = k

abbrev pub step_writer : Clock → Bool → Server → Outcome
step_writer c writes s =
    write_step c writes s.phase (get_elem? s.msg_queue (number s.phase)) s.sessions.from s

-- A step of either thread.
pub data Step (c : Clock) (s t : Server) : Type 0 where
  turn :
      (before : List Op) (op : Op) (after : List Op) (e : Event)
      → s.ops ≡ before ++ op ∷ after
      → Allowed s op e
      → complete c op e (record s { ops = before ++ after }) ≡ ok t
      → Step c s t
  written : (writes : Bool) → step_writer c writes s ≡ moved t → Step c s t

pub data Reach (c : Clock) (s : Server) : Server → Type 0 where
  here : Reach c s s
  next : {t u : Server} → Reach c s t → Step c t u → Reach c s u
