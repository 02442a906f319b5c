-- ===== src/Server/Handlers.antt =====
-- tyfirc-server/tyfirc-session.h and tyfirc-server/tyfirc-session.cpp: the handlers of a session.
-- Each takes whether its operation failed. A result that throws leaves `io_service::run`, since no
-- caller catches it.
pub mod Auth
pub mod Speaking
pub mod Remote
use tyfirc.Base.{ℕ, Bool, true, false, List, [], ◌∷◌, ◌++◌, if◌then◌else◌}
use tyfirc.Base.Text.{Str, codes}
use tyfirc.Base.Result.{
  Result, ok, throw, ub, invalid_argument, out_of_range, connection_fail, system_error, repository,
  Exception, ◌>>=◌,
}
use tyfirc.Misc.{ConnectionState, not_connected, connected, logged_in}
use tyfirc.Time.{Clock}
use tyfirc.Message.{Message}
use tyfirc.Message
use tyfirc.AuthManager
use tyfirc.ScMessage.Types.{
  ScMessageType, login, register, message, login_success, login_failure, register_success,
  register_failure, format_failure, type_to_str,
}
use tyfirc.ScMessage.{ScMessage, deserialize, get_property}
use tyfirc.ScMessage.Make.{get_message_scmessage}
use tyfirc.Server.{
  Session, Op, handshaking, reading_auth, reading_message, answering_failure, answering_success,
  Server, set_session, start_op,
}
use tyfirc.Server.ChatRoom.{disconnect, deliver_scmessage}

-- `Session::Start`.
unfoldable pub start : ℕ → Server → Server
start id s =
    start_op (handshaking id) (set_session id (record (s.session id) { con_state = connected }) s)

-- `ReadLoginScMessage`. The buffer is kept.
unfoldable pub read_login_scmessage : ℕ → Bool → Server → Server
unfolding disconnect
read_login_scmessage id true s = disconnect id s
read_login_scmessage id false s = start_op (reading_auth id) s

-- The bytes of an answer, with the zero behind them.
abbrev pub answer : ScMessageType → Str
answer type = type_to_str type ++ 0 ∷ []

-- The part of `HandleAuthScMessage` that asks the manager: whether it agrees, or nothing for a
-- message of another type.
pub data Verdict : Type 0 where
  accepted refused unknown : Verdict

abbrev pub verdict : Bool → Verdict
verdict true = accepted
verdict false = refused

unfoldable pub ask_manager : ScMessageType → ScMessage → Server → Result (Server × Verdict)
ask_manager login m s = do
  username ← get_property m (codes "username")
  password ← get_property m (codes "password")
  ok (s, verdict (AuthManager.login s.auth_manager username password))
ask_manager register m s = do
  username ← get_property m (codes "username")
  password ← get_property m (codes "password")
  let (auth_manager, registered) = AuthManager.register s.auth_manager username password
  ok (record s { auth_manager = auth_manager }, verdict registered)
ask_manager _ m s = ok (s, unknown)

abbrev pub success_type : ScMessageType → ScMessageType
success_type login = login_success
success_type _ = register_success

abbrev pub failure_type : ScMessageType → ScMessageType
failure_type login = login_failure
failure_type _ = register_failure

-- The part behind it: the answer.
unfoldable pub send_answer : ℕ → ScMessage → Server × Verdict → Result Server
send_answer id m (s, unknown) = ok (start_op (answering_failure id (answer format_failure)) s)
send_answer id m (s, refused) =
    ok (start_op (answering_failure id (answer (failure_type m.msg_type))) s)
send_answer id m (s, accepted) = do
  username ← get_property m (codes "username")
  ok (
      start_op (answering_success id (answer (success_type m.msg_type)))
        (set_session id (record (s.session id) { username = username }) s))

-- `HandleAuthScMessage`.
unfoldable pub handle_auth_scmessage : ℕ → Bool → Server → Result Server
unfolding disconnect ask_manager send_answer
handle_auth_scmessage id true s = ok (disconnect id s)
handle_auth_scmessage id false s = do
  m ← deserialize (s.session id).read_buffer
  asked ← ask_manager m.msg_type m s
  send_answer id m asked

-- `ReadScMessage`.
unfoldable pub read_scmessage : ℕ → Bool → Server → Server
unfolding disconnect
read_scmessage id true s = disconnect id s
read_scmessage id false s =
    start_op (reading_message id) (set_session id (record (s.session id) { read_buffer = [] }) s)

-- The handler behind the answer to a success. It sets the state before it looks at the error.
unfoldable pub handle_success : ℕ → Bool → Server → Server
unfolding read_scmessage
handle_success id error s =
    read_scmessage id error (set_session id (record (s.session id) { con_state = logged_in }) s)

-- The body of the `try` block: the sender's name is forced to the session's, the time to the clock.
unfoldable pub broadcast : Clock → ℕ → ℕ → ScMessage → Server → Result Server
unfolding deliver_scmessage
broadcast c now id m s = do
  text ← get_property m (codes "message[0]")
  msg ← Message.deserialize c text
  scmsg ←
      get_message_scmessage c
        (record { username = (s.session id).username; text = msg.text; time = now })
  deliver_scmessage scmsg s

-- `catch (std::invalid_argument) {}`.
abbrev pub catch_invalid : Server → Result Server → Result Server
catch_invalid s (ok t) = ok t
catch_invalid s (throw invalid_argument) = ok s
catch_invalid s (throw e) = throw e
catch_invalid s ub = ub

-- The `switch` of `HandleScMessage`.
unfoldable pub dispatch : Clock → ℕ → ℕ → ScMessageType → ScMessage → Server → Result Server
unfolding broadcast
dispatch c now id message m s = catch_invalid s (broadcast c now id m s)
dispatch c now id _ m s = ok s

-- `HandleScMessage`.
unfoldable pub handle_scmessage : Clock → ℕ → ℕ → Bool → Server → Result Server
unfolding disconnect dispatch
handle_scmessage c now id true s = ok (disconnect id s)
handle_scmessage c now id false s = do
  m ← deserialize (s.session id).read_buffer
  t ← dispatch c now id m.msg_type m s
  ok (start_op (reading_message id) (set_session id (record (t.session id) { read_buffer = [] }) t))
