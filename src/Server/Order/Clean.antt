-- ===== src/Server/Order/Clean.antt =====
-- The form of the messages that are said in a run.
use tyfirc.Base.{ℕ, Bool, true, false, ◌≡◌, refl, [], ◌++◌, All, All-append, Lacks}
use tyfirc.Base.Text.{Str, codes}
use tyfirc.Base.Result.{Result, ok, throw, ub, invalid_argument, >>=-eq-ok}
use tyfirc.Time.{Clock}
use tyfirc.Message
use tyfirc.AuthManager.{FileAuthManager}
use tyfirc.ScMessage.{ScMessage, separator, deserialize, get_property}
use tyfirc.ScMessage.Types.{ScMessageType, message}
use tyfirc.ScMessage.RoundTrip.{IsWellFormed}
use tyfirc.ScMessage.Clean.{deserialize-IsWellFormed, property-Lacks}
use tyfirc.ScMessage.Chats.{made-IsWellFormed}
use tyfirc.Server.{
  Session, new_session, Op, accepting, handshaking, reading_auth, reading_message,
  answering_failure, answering_success, writing, Server,
}
use tyfirc.Server.Handlers.{handle_scmessage, dispatch, broadcast, catch_invalid}
use tyfirc.Server.App.{
  initial, Event, succeeded, is_error, bytes_of, receive, complete, turn, Reach, here, next,
}
use tyfirc.Server.Accounts.{deliver-SameNames}
use tyfirc.Server.Accounts.Reachable.{broadcast-delivers}
use tyfirc.Server.Order.{rewritten, made, said_by, said_in, said, log}
use tyfirc.Server.Order.Names.{
  IsNamed, KeepsNames, same_end, set_session-KeepsNames, disconnect-KeepsNames, receive-KeepsNames,
  read_login-KeepsNames, success-KeepsNames, start_accept-KeepsNames, accept-KeepsNames,
  written-KeepsNames, auth-KeepsNames,
}

caught-KeepsNames :
    (c : Clock) (now id : ℕ) (m : ScMessage) (s t : Server) (r : Result Server)
    → broadcast c now id m s ≡ r
    → catch_invalid s r ≡ ok t
    → KeepsNames s t
caught-KeepsNames c now id m s t (ok u) e h =
    let (scmsg, d) = broadcast-delivers c now id m s u e in
    same_end s u t h (λ j k. rw ((deliver-SameNames scmsg s.sessions s u d).names j) k)
caught-KeepsNames c now id m s t (throw invalid_argument) e h = same_end s s t h (λ j k. k)
caught-KeepsNames c now id m s t (throw x) e h = cc
caught-KeepsNames c now id m s t ub e h = cc

dispatch-KeepsNames :
    (c : Clock) (now id : ℕ) (type : ScMessageType) (m : ScMessage) (s t : Server)
    → dispatch c now id type m s ≡ ok t
    → KeepsNames s t
unfolding dispatch
dispatch-KeepsNames c now id message m s t h = caught-KeepsNames c now id m s t _ refl h
dispatch-KeepsNames c now id type m s t h = same_end s s t h (λ j k. k)

message-KeepsNames :
    (c : Clock) (now id : ℕ) (error : Bool) (s t : Server)
    → handle_scmessage c now id error s ≡ ok t
    → KeepsNames s t
unfolding handle_scmessage
message-KeepsNames c now id true s t h j k = same_end s _ t h (disconnect-KeepsNames id s) j k
message-KeepsNames c now id false s t h j k =
    let (m, _, h1) = >>=-eq-ok (deserialize (s.session id).read_buffer) _ h in
    let (u, sent, h2) = >>=-eq-ok (dispatch c now id m.msg_type m s) _ h1 in
    same_end u _ t h2
      (set_session-KeepsNames id (record (u.session id) { read_buffer = [] }) u (λ l. l)) j
      (dispatch-KeepsNames c now id m.msg_type m s u sent j k)

complete-KeepsNames :
    (c : Clock) (now : ℕ) (op : Op) (e : Event) (s t : Server)
    → complete c now op e s ≡ ok t
    → KeepsNames s t
unfolding complete
complete-KeepsNames c now (accepting id) e s t h =
    same_end s _ t h (accept-KeepsNames id (is_error e) s)
complete-KeepsNames c now (handshaking id) e s t h =
    same_end s _ t h (read_login-KeepsNames id (is_error e) s)
complete-KeepsNames c now (answering_failure id bytes) e s t h =
    same_end s _ t h (read_login-KeepsNames id (is_error e) s)
complete-KeepsNames c now (answering_success id bytes) e s t h =
    same_end s _ t h (success-KeepsNames id (is_error e) s)
complete-KeepsNames c now (writing id bytes) e s t h = written-KeepsNames id (is_error e) s t h
complete-KeepsNames c now (reading_auth id) e s t h = λ j k.
    auth-KeepsNames id (is_error e) (receive id (bytes_of e) s) t h j
      (receive-KeepsNames id (bytes_of e) s j k)
complete-KeepsNames c now (reading_message id) e s t h = λ j k.
    message-KeepsNames c now id (is_error e) (receive id (bytes_of e) s) t h j
      (receive-KeepsNames id (bytes_of e) s j k)

initial-IsNamed : (a : FileAuthManager) (j : ℕ) → IsNamed j (initial a)
unfolding initial
initial-IsNamed a j =
    let nobody : Server = record {
      auth_manager = a;
      sessions = [];
      session = λ id. new_session;
      next_id = 0;
      ops = [];
    } in
    start_accept-KeepsNames nobody j tt

-- In every state that the server can reach, no name has a separator.
Reach-IsNamed :
    (c : Clock) (a : FileAuthManager) (j : ℕ) {s : Server} → Reach c (initial a) s → IsNamed j s
Reach-IsNamed c a j here = initial-IsNamed a j
Reach-IsNamed c a j (next {t} {u} r (turn now before op after e at allowed h)) =
    complete-KeepsNames c now op e (record t { ops = before ++ after }) u h j
      (Reach-IsNamed c a j r)

rewritten-IsWellFormed :
    (c : Clock) (now : ℕ) (m : ScMessage) (w : Session) (x : ScMessage)
    → rewritten c now m w ≡ ok x
    → IsWellFormed m
    → Lacks separator w.username
    → IsWellFormed x
rewritten-IsWellFormed c now m w x h v named =
    let (text, found, h1) = >>=-eq-ok (get_property m (codes "message[0]")) _ h in
    let (msg, read, h2) = >>=-eq-ok (Message.deserialize c text) _ h1 in
    made-IsWellFormed c text msg w.username now x read
      (property-Lacks m (codes "message[0]") text found v) named h2

said_by-IsWellFormed :
    (c : Clock) (now : ℕ) (type : ScMessageType) (m : ScMessage) (w : Session)
    → IsWellFormed m
    → Lacks separator w.username
    → All IsWellFormed (said_by c now type m w)
said_by-IsWellFormed c now message m w v named = go (rewritten c now m w) refl
  where
    go : (r : Result ScMessage) → rewritten c now m w ≡ r → All IsWellFormed (made r)
    go (ok x) e = (rewritten-IsWellFormed c now m w x e v named, tt)
    go (throw x) e = tt
    go ub e = tt
said_by-IsWellFormed c now type m w v named = tt

said_in-IsWellFormed :
    (c : Clock) (now : ℕ) (r : Result ScMessage) (w : Session) (buffer : Str)
    → deserialize buffer ≡ r
    → Lacks separator w.username
    → All IsWellFormed (said_in c now r w)
said_in-IsWellFormed c now (ok m) w buffer e named =
    said_by-IsWellFormed c now m.msg_type m w (deserialize-IsWellFormed buffer m e) named
said_in-IsWellFormed c now (throw x) w buffer e named = tt
said_in-IsWellFormed c now ub w buffer e named = tt

said-IsWellFormed :
    (c : Clock) (now : ℕ) (op : Op) (e : Event) (s : Server)
    → ((j : ℕ) → IsNamed j s)
    → All IsWellFormed (said c now op e s)
unfolding said
said-IsWellFormed c now (reading_message id) (succeeded bytes) s named =
    said_in-IsWellFormed c now _
      (record (s.session id) { read_buffer = (s.session id).read_buffer ++ bytes }) _ refl
      (named id)
said-IsWellFormed c now op e s named = tt

-- Whatever the room hears in a run is in good form.
pub log-IsWellFormed :
    (c : Clock) (a : FileAuthManager) {s : Server} (r : Reach c (initial a) s)
    → All IsWellFormed (log r)
unfolding log
log-IsWellFormed c a here = tt
log-IsWellFormed c a (next {t} {u} r (turn now before op after e at allowed h)) =
    All-append IsWellFormed (log r) (said c now op e t) (log-IsWellFormed c a r)
      (said-IsWellFormed c now op e t (λ j. Reach-IsNamed c a j r))
