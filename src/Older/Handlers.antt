-- ===== src/Older/Handlers.antt =====
-- nmake/tyfirc-server/tyfirc-session.cpp: the handlers of a session of the older server, and the
-- `Register` of nmake/tyfirc-server/tyfirc-authmanager.cpp.
pub mod Requests
use tyfirc.Base.{ℕ, Bool, true, false, Option, none, some, List, [], ◌∷◌, ◌++◌, if◌then◌else◌}
use tyfirc.Base.Text.{Str, codes}
use tyfirc.Base.Map.{lookup}
use tyfirc.Base.Result.{Result, ok, throw, ub, invalid_argument, ◌>>=◌}
use tyfirc.Misc.{not_connected, connected, logged_in}
use tyfirc.Time.{Clock}
use tyfirc.Message.{Message, default_message}
use tyfirc.Message
use tyfirc.AuthManager.{FileAuthManager}
use tyfirc.AuthManager
use tyfirc.ScMessage.Types.{ScMessageType, login, register, message, format_failure}
use tyfirc.ScMessage.{ScMessage, deserialize, get_property}
use tyfirc.Server.Handlers.{
  answer, Verdict, verdict, accepted, refused, unknown, success_type, failure_type,
}
use tyfirc.Older.{
  Session, Op, handshaking, reading_auth, reading_message, answering_failure, answering_success,
  Server, set_session, start_op,
}

-- `Register`. Behind the insertion of a new account there is no `return`.
unfoldable pub register_account : FileAuthManager → Str → Str → Result (FileAuthManager × Bool)
register_account a username password = elim (lookup username a.auth_info) [
  | some stored ↦ ok (a, false)
  | none ↦ ub
]

-- `Start`.
unfoldable pub start : ℕ → Server → Server
start id s =
    start_op (handshaking id) (set_session id (record (s.session id) { con_state = connected }) s)

-- What a handler does on an error.
abbrev pub give_up : ℕ → Server → Server
give_up id s = set_session id (record (s.session id) { con_state = not_connected }) s

-- `ReadLoginScMessage`.
unfoldable pub read_login_scmessage : ℕ → Bool → Server → Server
read_login_scmessage id true s = give_up id s
read_login_scmessage id false s = start_op (reading_auth id) s

-- The part of `HandleAuthScMessage` that asks the manager.
unfoldable pub ask_manager : ScMessageType → ScMessage → Server → Result (Server × Verdict)
unfolding register_account
ask_manager login m s = do
  username ← get_property m (codes "username")
  password ← get_property m (codes "password")
  ok (s, verdict (AuthManager.login s.auth_manager username password))
ask_manager register m s = do
  username ← get_property m (codes "username")
  password ← get_property m (codes "password")
  (auth_manager, registered) ← register_account s.auth_manager username password
  ok (record s { auth_manager = auth_manager }, verdict registered)
ask_manager _ m s = ok (s, unknown)

-- The part behind it: the answer.
unfoldable pub send_answer : ℕ → ScMessage → Server × Verdict → Result Server
send_answer id m (s, unknown) = ok (start_op (answering_failure id (answer format_failure)) s)
send_answer id m (s, refused) =
    ok (start_op (answering_failure id (answer (failure_type m.msg_type))) s)
send_answer id m (s, accepted) = do
  username ← get_property m (codes "username")
  ok (
      start_op (answering_success id (answer (success_type m.msg_type)))
        (set_session id (record (s.session id) { username = username }) s))

-- `HandleAuthScMessage`.
unfoldable pub handle_auth_scmessage : ℕ → Bool → Server → Result Server
unfolding ask_manager send_answer
handle_auth_scmessage id true s = ok (give_up id s)
handle_auth_scmessage id false s = do
  m ← deserialize (s.session id).read_buffer
  asked ← ask_manager m.msg_type m s
  send_answer id m asked

-- `ReadScMessage`.
unfoldable pub read_scmessage : ℕ → Bool → Server → Server
read_scmessage id true s = give_up id s
read_scmessage id false s =
    start_op (reading_message id) (set_session id (record (s.session id) { read_buffer = [] }) s)

-- The handler behind the answer to a success.
unfoldable pub handle_success : ℕ → Bool → Server → Server
unfolding read_scmessage
handle_success id error s =
    read_scmessage id error (set_session id (record (s.session id) { con_state = logged_in }) s)

-- `AddMessage`.
unfoldable pub add_message : Message → Server → Server
add_message msg s = record s { msg_queue = s.msg_queue ++ msg ∷ [] }

-- `on_message_(msg)`.
unfoldable pub on_message : ℕ → Message → Server → Server
unfolding add_message
on_message id msg s = if (s.session id).is_bound then add_message msg s else s

-- `catch (std::invalid_argument) {}`: `msg` is still `Message{}`.
abbrev pub or_default : Result Message → Result Message
or_default (ok msg) = ok msg
or_default (throw invalid_argument) = ok default_message
or_default (throw e) = throw e
or_default ub = ub

-- The body of the `try` block.
abbrev pub sent_message : Clock → ScMessage → Result Message
sent_message c m = do text ← get_property m (codes "message[0]"); Message.deserialize c text

-- The `switch` of `HandleScMessage`.
unfoldable pub dispatch : Clock → ℕ → ScMessageType → ScMessage → Server → Result Server
unfolding on_message
dispatch c id message m s = do msg ← or_default (sent_message c m); ok (on_message id msg s)
dispatch c id _ m s = ok s

-- `HandleScMessage`.
unfoldable pub handle_scmessage : Clock → ℕ → Bool → Server → Result Server
unfolding dispatch
handle_scmessage c id true s = ok (give_up id s)
handle_scmessage c id false s = do
  m ← deserialize (s.session id).read_buffer
  t ← dispatch c id m.msg_type m s
  ok (start_op (reading_message id) (set_session id (record (t.session id) { read_buffer = [] }) t))
