-- ===== src/Server/Handlers/Auth.antt =====
-- What `HandleAuthScMessage` does with the buffer that a client's request is in, and what is left
-- in the buffer behind a refusal.
use tyfirc.Base.{
  ℕ, Bool, true, false, ◌≡◌, refl, ap, ◌∙◌, [], ◌∷◌, Lacks, All-right, append-nil, eq→==,
}
use tyfirc.Base.Text.{Str}
use tyfirc.Base.Result.{ok, ◌>>=◌}
use tyfirc.Time.{Clock}
use tyfirc.AuthManager.{FileAuthManager}
use tyfirc.AuthManager
use tyfirc.ScMessage.Types.{
  ScMessageType, login, register, login_success, login_failure, register_success, register_failure,
}
use tyfirc.ScMessage.{ScMessage, separator, frame, serialize}
use tyfirc.ScMessage.Make.{is_auth}
use tyfirc.ScMessage.Made.{
  auth_message, deserialize-auth_message, username-auth_message, password-auth_message,
}
use tyfirc.Server.{
  answering_success, answering_failure, reading_auth, Server, set_session, start_op,
}
use tyfirc.Server.Handlers.{
  handle_auth_scmessage, ask_manager, send_answer, verdict, answer, success_type, failure_type,
}
use tyfirc.Server.App.{Event, succeeded, Reads, at_once, later, read_failed, receive, complete}

-- The manager's decision on a request, and the manager it leaves.
abbrev pub agrees : ScMessageType → FileAuthManager → Str → Str → Bool
agrees login a username password = AuthManager.login a username password
agrees _ a username password = (AuthManager.register a username password).1

abbrev pub asked_manager : ScMessageType → FileAuthManager → Str → Str → FileAuthManager
asked_manager login a username password = a
asked_manager _ a username password = (AuthManager.register a username password).0

abbrev pub with_manager : FileAuthManager → Server → Server
with_manager a s = record s { auth_manager = a }

-- The type of the answer to a request, by whether the manager agrees.
abbrev pub reply_type : ScMessageType → Bool → ScMessageType
reply_type login true = login_success
reply_type login false = login_failure
reply_type _ true = register_success
reply_type _ false = register_failure

-- The server behind the answer.
abbrev pub replied : Bool → ScMessageType → ℕ → Str → Server → Server
replied true type id username s =
    start_op (answering_success id (answer (reply_type type true)))
      (set_session id (record (s.session id) { username = username }) s)
replied false type id username s =
    start_op (answering_failure id (answer (reply_type type false))) s

success_type-reply_type : (type : ScMessageType) → success_type type ≡ reply_type type true
success_type-reply_type login = refl
success_type-reply_type type = refl

failure_type-reply_type : (type : ScMessageType) → failure_type type ≡ reply_type type false
failure_type-reply_type login = refl
failure_type-reply_type type = refl

ask-auth_message :
    (type : ScMessageType) (username password : Str) (s : Server)
    → is_auth type ≡ true
    → ask_manager type (auth_message type username password) s
      ≡ ok (
        with_manager (asked_manager type s.auth_manager username password) s,
        verdict (agrees type s.auth_manager username password),
      )
unfolding ask_manager
ask-auth_message login username password s h =
    rw
      (username-auth_message login username password, password-auth_message login username password)
      refl
ask-auth_message register username password s h =
    rw
      (
        username-auth_message register username password,
        password-auth_message register username password,
      )
      refl
ask-auth_message type username password s h = cc

send-auth_message :
    (type : ScMessageType) (id : ℕ) (username password : Str) (s : Server) (b : Bool)
    → send_answer id (auth_message type username password) (s, verdict b)
      ≡ ok (replied b type id username s)
unfolding send_answer
send-auth_message type id username password s true =
    rw (username-auth_message type username password, success_type-reply_type type) refl
send-auth_message type id username password s false = rw (failure_type-reply_type type) refl

-- A request that the client's `GetAuthScMessage` made, with a name and a password that have no
-- separator, is answered as the manager decides, by the success or the failure of its kind; a session
-- that it accepts takes the name.
pub handle_auth_scmessage-auth_message :
    (type : ScMessageType) (id : ℕ) (username password : Str) (s : Server)
    → is_auth type ≡ true
    → Lacks separator username
    → Lacks separator password
    → (s.session id).read_buffer ≡ frame (auth_message type username password)
    → handle_auth_scmessage id false s
      ≡ ok (
          replied
            (agrees type s.auth_manager username password)
            type
            id
            username
            (with_manager (asked_manager type s.auth_manager username password) s))
unfolding handle_auth_scmessage
handle_auth_scmessage-auth_message type id username password s h hu hp at =
    rw (at, deserialize-auth_message type username password h hu hp)
      (ap (λ r. r >>= send_answer id (auth_message type username password))
          (ask-auth_message type username password s h)
        ∙ send-auth_message type id username password
            (with_manager (asked_manager type s.auth_manager username password) s)
            (agrees type s.auth_manager username password))

-- What a read gives if the buffer has a zero already: nothing new, and no error.
Reads-at_once : (buffer : Str) (e : Event) → (¬ Lacks 0 buffer) → Reads buffer e → e ≡ succeeded []
Reads-at_once buffer e h (at_once k) = refl
Reads-at_once buffer e h (later bytes k l) = absurd (h k)
Reads-at_once buffer e h (read_failed bytes k) = absurd (h k)

pub frame-has_zero : (m : ScMessage) → ¬ Lacks 0 (frame m)
unfolding frame
frame-has_zero m h = (All-right _ (serialize m) (0 ∷ []) h).0 refl

receive-nothing :
    (id : ℕ) (s : Server) → ((receive id [] s).session id).read_buffer ≡ (s.session id).read_buffer
unfolding receive
receive-nothing id s = rw (eq→== id id refl) (append-nil (s.session id).read_buffer)

manager-receive :
    (id : ℕ) (bytes : Str) (s : Server) → (receive id bytes s).auth_manager ≡ s.auth_manager
unfolding receive
manager-receive id bytes s = refl

ops-receive : (id : ℕ) (bytes : Str) (s : Server) → (receive id bytes s).ops ≡ s.ops
unfolding receive
ops-receive id bytes s = refl

-- The server behind a refusal that the buffer is the cause of.
pub record RefusedAgain (id : ℕ) (bytes : Str) (s t : Server) : Type 0 where
  pub same_buffer : (t.session id).read_buffer ≡ (s.session id).read_buffer
  pub same_manager : t.auth_manager ≡ s.auth_manager
  pub answers : t.ops ≡ answering_failure id bytes ∷ s.ops

-- If the buffer has a login that the manager refuses, with a name and a password that have no
-- separator, then however the next read ends, it brings nothing, the same login is refused again,
-- and it stays in the buffer.
pub refused_login-again :
    (c : Clock) (now id : ℕ) (username password : Str) (e : Event) (s : Server)
    → Lacks separator username
    → Lacks separator password
    → (s.session id).read_buffer ≡ frame (auth_message login username password)
    → AuthManager.login s.auth_manager username password ≡ false
    → Reads (s.session id).read_buffer e
    → (t : Server) × (complete c now (reading_auth id) e s ≡ ok t)
      × RefusedAgain id (answer login_failure) s t
unfolding complete
refused_login-again c now id username password e s hu hp at refuses reads =
    let nothing =
      Reads-at_once (s.session id).read_buffer e
        (rw at (frame-has_zero (auth_message login username password))) reads in
    let same = receive-nothing id s in
    let handled =
      handle_auth_scmessage-auth_message login id username password (receive id [] s) refl hu hp
        (same ∙ at) in
    (
      start_op (answering_failure id (answer login_failure)) (receive id [] s),
      rw nothing (rw (manager-receive id [] s, refuses) at handled),
      record {
        same_buffer = same;
        same_manager = manager-receive id [] s;
        answers =
            ap (λ ops. answering_failure id (answer login_failure) ∷ ops) (ops-receive id [] s);
      },
    )
