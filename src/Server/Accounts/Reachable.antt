-- ===== src/Server/Accounts/Reachable.antt =====
-- The handlers of received messages keep the invariant, and so does every run of the server.
use tyfirc.Base.{
  ℕ, ◌<◌, Bool, true, false, ◌≡◌, refl, List, [], ◌∷◌, ◌++◌, arith, All, All-imp, All-append,
  All-left, All-right, eq→==,
}
use tyfirc.Base.Text.{Str, codes}
use tyfirc.Base.Result.{Result, ok, throw, ub, invalid_argument, >>=-eq-ok}
use tyfirc.Time.{Clock}
use tyfirc.Message.{Message}
use tyfirc.Message
use tyfirc.AuthManager.{FileAuthManager}
use tyfirc.ScMessage.{ScMessage, deserialize, get_property}
use tyfirc.ScMessage.Types.{ScMessageType, message, format_failure}
use tyfirc.ScMessage.Make.{get_message_scmessage}
use tyfirc.Server.{
  Op, reading_message, answering_success, answering_failure, accepting, handshaking, reading_auth,
  writing, Server, set_session, start_op,
}
use tyfirc.Server.ChatRoom.{disconnect, deliver}
use tyfirc.Server.Handlers.{
  handle_auth_scmessage, ask_manager, send_answer, Verdict, verdict, accepted, refused, unknown,
  answer, success_type, failure_type, handle_scmessage, dispatch, broadcast, catch_invalid,
  read_login_scmessage, handle_success,
}
use tyfirc.Server.App.{
  handle_accept, initial, Event, is_error, bytes_of, receive, complete, Step, turn, Reach, here,
  next,
}
use tyfirc.Server.Accounts.{
  IsAuthorised, Authorised, Authorised-imp, HasAccount, start_op-IsAuthorised,
  set_session-IsAuthorised, quiet-IsAuthorised, disconnect-IsAuthorised, deliver-IsAuthorised,
  deliver-SameNames, SameNames,
}
use tyfirc.Server.Accounts.Kept.{
  read_login-IsAuthorised, handle_success-IsAuthorised, handle_accept-IsAuthorised,
  handle_written-IsAuthorised, start_accept-IsAuthorised,
}
use tyfirc.Server.Accounts.Asking.{AskedName, ask-Asked}

answer-IsAuthorised :
    (id : ℕ) (m : ScMessage) (s t : Server) (v : Verdict)
    → id < s.next_id
    → IsAuthorised s
    → AskedName m s v
    → send_answer id m (s, v) ≡ ok t
    → IsAuthorised t
unfolding send_answer
answer-IsAuthorised id m s t unknown lt v a h =
    let at : start_op (answering_failure id (answer format_failure)) s ≡ t = cc in
    rw (← at) (start_op-IsAuthorised (answering_failure id _) s lt v)
answer-IsAuthorised id m s t refused lt v a h =
    let at : start_op (answering_failure id (answer (failure_type m.msg_type))) s ≡ t = cc in
    rw (← at) (start_op-IsAuthorised (answering_failure id _) s lt v)
answer-IsAuthorised id m s t accepted lt v (u, e, named) h =
    let (u', e', h') = >>=-eq-ok (get_property m (codes "username")) _ h in
    let same : u ≡ u' = cc in
    let w = record (s.session id) { username = u' } in
    let at : start_op (answering_success id (answer (success_type m.msg_type))) (set_session id w s)
        ≡ t =
      cc in
    rw (← at) (
      start_op-IsAuthorised (answering_success id (answer (success_type m.msg_type)))
        (set_session id w s) (lt, rw (eq→== id id refl) (rw same at named))
        (set_session-IsAuthorised id w s (λ _. rw same at named) (λ _. rw same at named) v))

handle_auth-IsAuthorised :
    (id : ℕ) (error : Bool) (s t : Server)
    → id < s.next_id
    → handle_auth_scmessage id error s ≡ ok t
    → IsAuthorised s
    → IsAuthorised t
unfolding handle_auth_scmessage
handle_auth-IsAuthorised id true s t lt h v =
    let at : disconnect id s ≡ t = cc in rw (← at) (disconnect-IsAuthorised id s v)
handle_auth-IsAuthorised id false s t lt h v =
    let (m, _, h1) = >>=-eq-ok (deserialize (s.session id).read_buffer) _ h in
    let ((u, verdict), asked, h2) = >>=-eq-ok (ask_manager m.msg_type m s) _ h1 in
    let a = ask-Asked m.msg_type m s (u, verdict) asked v in
    answer-IsAuthorised id m u t verdict (rw a.same_next lt) a.kept a.agreed h2

pub broadcast-delivers :
    (c : Clock) (now id : ℕ) (m : ScMessage) (s t : Server)
    → broadcast c now id m s ≡ ok t
    → (scmsg : ScMessage) × (deliver scmsg s.sessions s ≡ ok t)
unfolding broadcast
broadcast-delivers c now id m s t h =
    let (text, _, h1) = >>=-eq-ok (get_property m (codes "message[0]")) _ h in
    let (msg, _, h2) = >>=-eq-ok (Message.deserialize c text) _ h1 in
    let (scmsg, _, h3) = >>=-eq-ok (get_message_scmessage c _) _ h2 in (scmsg, h3)

SameNames-refl : (s : Server) → SameNames s s
SameNames-refl s = record { manager = refl; next = refl; names = λ j. refl }

caught :
    (c : Clock) (now id : ℕ) (m : ScMessage) (s t : Server) (r : Result Server)
    → broadcast c now id m s ≡ r
    → catch_invalid s r ≡ ok t
    → IsAuthorised s
    → IsAuthorised t × SameNames s t
caught c now id m s t (ok u) e h v =
    let same : u ≡ t = cc in
    let (scmsg, d) = broadcast-delivers c now id m s u e in
    rw (← same)
      (deliver-IsAuthorised scmsg s.sessions s u d v, deliver-SameNames scmsg s.sessions s u d)
caught c now id m s t (throw invalid_argument) e h v =
    let same : s ≡ t = cc in rw (← same) (v, SameNames-refl s)
caught c now id m s t (throw x) e h v = cc
caught c now id m s t ub e h v = cc

dispatch-IsAuthorised :
    (c : Clock) (now id : ℕ) (type : ScMessageType) (m : ScMessage) (s t : Server)
    → dispatch c now id type m s ≡ ok t
    → IsAuthorised s
    → IsAuthorised t × SameNames s t
unfolding dispatch
dispatch-IsAuthorised c now id message m s t h v = caught c now id m s t _ refl h v
dispatch-IsAuthorised c now id type m s t h v =
    let same : s ≡ t = cc in rw (← same) (v, SameNames-refl s)

handle_sc-IsAuthorised :
    (c : Clock) (now id : ℕ) (error : Bool) (s t : Server)
    → id < s.next_id
    → HasAccount s id
    → handle_scmessage c now id error s ≡ ok t
    → IsAuthorised s
    → IsAuthorised t
unfolding handle_scmessage
handle_sc-IsAuthorised c now id true s t lt a h v =
    let at : disconnect id s ≡ t = cc in rw (← at) (disconnect-IsAuthorised id s v)
handle_sc-IsAuthorised c now id false s t lt a h v =
    let (m, _, h1) = >>=-eq-ok (deserialize (s.session id).read_buffer) _ h in
    let (u, sent, h2) = >>=-eq-ok (dispatch c now id m.msg_type m s) _ h1 in
    let (vu, same) = dispatch-IsAuthorised c now id m.msg_type m s u sent v in
    let w = record (u.session id) { read_buffer = [] } in
    let at : start_op (reading_message id) (set_session id w u) ≡ t = cc in
    rw (← at) (
      start_op-IsAuthorised (reading_message id) (set_session id w u)
        (rw same.next lt, rw (eq→== id id refl, same.manager, same.names id) a)
        (quiet-IsAuthorised id w u refl (λ e. e) vu))

receive-IsAuthorised :
    (id : ℕ) (bytes : Str) (s : Server) → IsAuthorised s → IsAuthorised (receive id bytes s)
unfolding receive
receive-IsAuthorised id bytes s v = quiet-IsAuthorised id _ s refl (λ e. e) v

receive-HasAccount :
    (id : ℕ) (bytes : Str) (s : Server) → HasAccount s id → HasAccount (receive id bytes s) id
unfolding receive
receive-HasAccount id bytes s h = rw (eq→== id id refl) h

next_id-receive : (id : ℕ) (bytes : Str) (s : Server) → (receive id bytes s).next_id ≡ s.next_id
unfolding receive
next_id-receive id bytes s = refl

-- The handler of any operation, however the operation ends.
complete-IsAuthorised :
    (c : Clock) (now : ℕ) (op : Op) (e : Event) (s t : Server)
    → Authorised s op
    → complete c now op e s ≡ ok t
    → IsAuthorised s
    → IsAuthorised t
unfolding complete
complete-IsAuthorised c now (accepting id) e s t a h v =
    let at : handle_accept id (is_error e) s ≡ t = cc in
    rw (← at) (handle_accept-IsAuthorised id (is_error e) s a v)
complete-IsAuthorised c now (handshaking id) e s t a h v =
    let at : read_login_scmessage id (is_error e) s ≡ t = cc in
    rw (← at) (read_login-IsAuthorised id (is_error e) s a v)
complete-IsAuthorised c now (answering_failure id bytes) e s t a h v =
    let at : read_login_scmessage id (is_error e) s ≡ t = cc in
    rw (← at) (read_login-IsAuthorised id (is_error e) s a v)
complete-IsAuthorised c now (answering_success id bytes) e s t a h v =
    let at : handle_success id (is_error e) s ≡ t = cc in
    rw (← at) (handle_success-IsAuthorised id (is_error e) s a.0 a.1 v)
complete-IsAuthorised c now (writing id bytes) e s t a h v =
    handle_written-IsAuthorised id (is_error e) s t h v
complete-IsAuthorised c now (reading_auth id) e s t a h v =
    handle_auth-IsAuthorised id (is_error e) (receive id (bytes_of e) s) t
      (rw (next_id-receive id (bytes_of e) s) a) h (receive-IsAuthorised id (bytes_of e) s v)
complete-IsAuthorised c now (reading_message id) e s t a h v =
    handle_sc-IsAuthorised c now id (is_error e) (receive id (bytes_of e) s) t
      (rw (next_id-receive id (bytes_of e) s) a.0) (receive-HasAccount id (bytes_of e) s a.1) h
      (receive-IsAuthorised id (bytes_of e) s v)

-- The invariant does not depend on which operations are under way, but for their own part.
pub take_op-IsAuthorised :
    (s : Server) (before : List Op) (op : Op) (after : List Op)
    → s.ops ≡ before ++ op ∷ after
    → IsAuthorised s
    → Authorised s op × IsAuthorised (record s { ops = before ++ after })
take_op-IsAuthorised s before op after e v =
    let all : All (Authorised s) (before ++ op ∷ after) = rw e at v.ops_ok in
    let (mine, later) = All-right (Authorised s) before (op ∷ after) all in
    let t = record s { ops = before ++ after } in
    (
      mine,
      record {
        ops_ok =
            All-imp _ _ (before ++ after) (λ o. Authorised-imp s t o (omega arith) (λ j _ h. h))
              (All-append (Authorised s) before after
                (All-left (Authorised s) before (op ∷ after) all) later);
        states_ok = v.states_ok;
      },
    )

-- One turn of the server's loop keeps the invariant.
pub Step-IsAuthorised : (c : Clock) (s t : Server) → Step c s t → IsAuthorised s → IsAuthorised t
Step-IsAuthorised c s t (turn now before op after e at allowed h) v =
    let (a, kept) = take_op-IsAuthorised s before op after at v in
    complete-IsAuthorised c now op e (record s { ops = before ++ after }) t
      (Authorised-imp s (record s { ops = before ++ after }) op (omega arith) (λ j _ k. k) a) h kept

initial-IsAuthorised : (a : FileAuthManager) → IsAuthorised (initial a)
unfolding initial
initial-IsAuthorised a =
    start_accept-IsAuthorised _ (record { ops_ok = tt; states_ok = λ id e. cc })

-- In every state that the server can reach, a session that is logged in has the name of an
-- account, and so has every session whose messages are read as chat messages.
pub Reach-IsAuthorised :
    (c : Clock) (a : FileAuthManager) {s : Server} → Reach c (initial a) s → IsAuthorised s
Reach-IsAuthorised c a here = initial-IsAuthorised a
Reach-IsAuthorised c a (next {t} {u} r st) = Step-IsAuthorised c t u st (Reach-IsAuthorised c a r)
