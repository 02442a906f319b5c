-- ===== src/Server/Writing/Reachable.antt =====
-- Every step of the server keeps the invariant on its writes.
use tyfirc.Base.{
  ℕ, suc, ◌≤◌, ◌<◌, Bool, true, false, ◌≡◌, refl, sym, ap, ◌∙◌, List, [], ◌∷◌, ◌++◌, ◌==◌, ==→eq,
  Bool-cases, inl, inr, arith,
}
use tyfirc.Base.Text.{Str}
use tyfirc.Base.Result.{Result, ok, throw, ub, invalid_argument, >>=-eq-ok}
use tyfirc.Misc.{connected}
use tyfirc.Time.{Clock}
use tyfirc.AuthManager.{FileAuthManager}
use tyfirc.ScMessage.{ScMessage, deserialize}
use tyfirc.ScMessage.Types.{ScMessageType, message}
use tyfirc.Server.{
  new_session, Op, accepting, handshaking, reading_auth, reading_message, answering_failure,
  answering_success, writing, Server, set_session, start_op,
}
use tyfirc.Server.ChatRoom.{disconnect, handle_written, insert_id, add_session}
use tyfirc.Server.ChatRoom.Deliver.{Distinct}
use tyfirc.Server.Handlers.{start, broadcast, catch_invalid, dispatch, handle_scmessage}
use tyfirc.Server.App.{
  start_accept, handle_accept, initial, Event, failed, succeeded, is_error, bytes_of, receive,
  complete, turn, Reach, here, next,
}
use tyfirc.Server.Accounts.{Authorised}
use tyfirc.Server.Accounts.Reachable.{broadcast-delivers, take_op-IsAuthorised, Reach-IsAuthorised}
use tyfirc.Server.Writing.{writers, OneWriter, IsServed}
use tyfirc.Server.Writing.Calm.{
  Calm, Calm-IsServed, chain, returned, start_op-Calm, set_session-Calm, disconnect-Calm,
  read_login-Calm, read_next-Calm, success-Calm, auth-Calm, receive-Calm,
}
use tyfirc.Server.Writing.Rooms.{insert_id-Rising, Rising-suc, Rising-Distinct}
use tyfirc.Server.Writing.Queues.{deliver-Pushed, written-IsServed}
use tyfirc.Server.Writing.Taken.{writer_out, out-IsServed, others_out}

-- What the broadcast of a message leaves, whether it succeeds or not.
caught-IsServed :
    (c : Clock) (now id : ℕ) (m : ScMessage) (s t : Server) (r : Result Server)
    → broadcast c now id m s ≡ r
    → catch_invalid s r ≡ ok t
    → IsServed s
    → IsServed t
caught-IsServed c now id m s t (ok u) e h v =
    let same : u ≡ t = cc in
    let (scmsg, d) = broadcast-delivers c now id m s u e in
    rw (← same) (deliver-Pushed scmsg s.sessions s u d v.room v).served
caught-IsServed c now id m s t (throw invalid_argument) e h v =
    let same : s ≡ t = cc in rw (← same) v
caught-IsServed c now id m s t (throw x) e h v = cc
caught-IsServed c now id m s t ub e h v = cc

dispatch-IsServed :
    (c : Clock) (now id : ℕ) (type : ScMessageType) (m : ScMessage) (s t : Server)
    → dispatch c now id type m s ≡ ok t
    → IsServed s
    → IsServed t
unfolding dispatch
dispatch-IsServed c now id message m s t h v = caught-IsServed c now id m s t _ refl h v
dispatch-IsServed c now id type m s t h v = let same : s ≡ t = cc in rw (← same) v

message-IsServed :
    (c : Clock) (now id : ℕ) (error : Bool) (s t : Server)
    → handle_scmessage c now id error s ≡ ok t
    → IsServed s
    → IsServed t
unfolding handle_scmessage
message-IsServed c now id true s t h v =
    Calm-IsServed s t (returned s _ t h (disconnect-Calm id s)) v
message-IsServed c now id false s t h v =
    let (m, _, h1) = >>=-eq-ok (deserialize (s.session id).read_buffer) _ h in
    let (u, sent, h2) = >>=-eq-ok (dispatch c now id m.msg_type m s) _ h1 in
    Calm-IsServed u t (returned u _ t h2 (read_next-Calm id u))
      (dispatch-IsServed c now id m.msg_type m s u sent v)

-- A write that failed.
pub failed_lem : (id : ℕ) (s : Server) → handle_written id true s ≡ ok (disconnect id s)
unfolding handle_written
failed_lem id s = refl

pub failed_write : (id : ℕ) (s t : Server) → handle_written id true s ≡ ok t → Calm s t
failed_write id s t h =
    returned s (disconnect id s) t (sym (failed_lem id s) ∙ h) (disconnect-Calm id s)

-- A new session.
new-IsServed : (s : Server) → IsServed s → IsServed (start_accept s)
unfolding start_accept
new-IsServed s v = record {
  room = Rising-suc s.next_id s.sessions v.room;
  one = one_each;
  nothing = fresh;
}
  where
    t : Server
    t = set_session s.next_id new_session s

    same : (j : ℕ) → (t.session j).msg_queue ≡ (s.session j).msg_queue
    same j = elim (Bool-cases (j == s.next_id)) [
      | inl e ↦ rw e (sym (v.nothing j (omega (arith, ==→eq j s.next_id e))).1)
      | inr e ↦ rw e refl
    ]

    one_each : (j : ℕ) → OneWriter (writers j s.ops) (t.session j).msg_queue
    one_each j = rw (same j) (v.one j)

    fresh : (j : ℕ) → suc s.next_id ≤ j → (writers j s.ops ≡ []) × ((t.session j).msg_queue ≡ [])
    fresh j le = rw (same j) (v.nothing j (omega arith))

accept-IsServed :
    (id : ℕ) (error : Bool) (s : Server)
    → id < s.next_id
    → IsServed s
    → IsServed (handle_accept id error s)
unfolding handle_accept start add_session
accept-IsServed id true s lt v = new-IsServed s v
accept-IsServed id false s lt v =
    let u = record s { sessions = insert_id id s.sessions } in
    let w = record (s.session id) { con_state = connected } in
    new-IsServed _ (
      Calm-IsServed u (start_op (handshaking id) (set_session id w u))
        (chain u (set_session id w u) _ (set_session-Calm id w u refl)
          (start_op-Calm (handshaking id) (set_session id w u) (λ j. refl) refl))
        (record {
          room = insert_id-Rising s.next_id id s.sessions lt v.room;
          one = v.one;
          nothing = v.nothing;
        }))

-- What is left without an operation that is no write from a queue.
pub calm_out :
    (s : Server) (before after : List Op) (op : Op)
    → s.ops ≡ before ++ op ∷ after
    → ((j : ℕ) → writers j (op ∷ []) ≡ [])
    → IsServed s
    → IsServed (record s { ops = before ++ after })
calm_out s before after op at none v =
    out-IsServed s (before ++ after)
      (λ j. others_out j before after op (none j) ∙ ap (writers j) (sym at)) v

turn-IsServed :
    (c : Clock) (now : ℕ) (s t : Server) (before after : List Op) (op : Op) (e : Event)
    → s.ops ≡ before ++ op ∷ after
    → Authorised s op
    → complete c now op e (record s { ops = before ++ after }) ≡ ok t
    → IsServed s
    → IsServed t
unfolding complete
turn-IsServed c now s t before after (accepting id) e at a h v =
    let u = record s { ops = before ++ after } in
    let left : handle_accept id (is_error e) u ≡ t = cc in
    rw (← left) (
      accept-IsServed id (is_error e) u a (calm_out s before after (accepting id) at (λ j. refl) v))
turn-IsServed c now s t before after (handshaking id) e at a h v =
    let u = record s { ops = before ++ after } in
    Calm-IsServed u t (returned u _ t h (read_login-Calm id (is_error e) u))
      (calm_out s before after (handshaking id) at (λ j. refl) v)
turn-IsServed c now s t before after (answering_failure id bytes) e at a h v =
    let u = record s { ops = before ++ after } in
    Calm-IsServed u t (returned u _ t h (read_login-Calm id (is_error e) u))
      (calm_out s before after (answering_failure id bytes) at (λ j. refl) v)
turn-IsServed c now s t before after (answering_success id bytes) e at a h v =
    let u = record s { ops = before ++ after } in
    Calm-IsServed u t (returned u _ t h (success-Calm id (is_error e) u))
      (calm_out s before after (answering_success id bytes) at (λ j. refl) v)
turn-IsServed c now s t before after (reading_auth id) e at a h v =
    let u = record s { ops = before ++ after } in
    Calm-IsServed u t
      (chain u _ t (receive-Calm id (bytes_of e) u)
        (auth-Calm id (is_error e) (receive id (bytes_of e) u) t h))
      (calm_out s before after (reading_auth id) at (λ j. refl) v)
turn-IsServed c now s t before after (reading_message id) e at a h v =
    let u = record s { ops = before ++ after } in
    message-IsServed c now id (is_error e) (receive id (bytes_of e) u) t h (
      Calm-IsServed u _ (receive-Calm id (bytes_of e) u)
        (calm_out s before after (reading_message id) at (λ j. refl) v))
turn-IsServed c now s t before after (writing id bytes) (succeeded more) at a h v =
    let (u, done, served) = written-IsServed id bytes before after s at v in
    let same : u ≡ t = cc in rw (← same) served
turn-IsServed c now s t before after (writing id bytes) (failed more) at a h v =
    let u = record s { ops = before ++ after } in
    Calm-IsServed u t (failed_write id u t h) (writer_out id bytes before after s at v).served

initial-IsServed : (a : FileAuthManager) → IsServed (initial a)
unfolding initial
initial-IsServed a =
    new-IsServed _ (record { room = tt; one = λ id. tt; nothing = λ id le. (refl, refl) })

-- In every state that the server can reach, each session has at most one write from its queue under
-- way, and its bytes are those of the message at the front; the sessions of the room exist, in the
-- order of the set, and a session that does not exist has nothing to write.
pub Reach-IsServed :
    (c : Clock) (a : FileAuthManager) {s : Server} → Reach c (initial a) s → IsServed s
Reach-IsServed c a here = initial-IsServed a
Reach-IsServed c a (next {t} {u} r (turn now before op after e at allowed h)) =
    turn-IsServed c now t u before after op e at
      (take_op-IsAuthorised t before op after at (Reach-IsAuthorised c a r)).0 h
      (Reach-IsServed c a r)

-- In every state that the server can reach, the handler of a write from a queue returns, however the
-- write ends: it never takes the front of an empty queue.
pub Reach-written :
    (c : Clock) (a : FileAuthManager) (now id : ℕ) (bytes : Str) (before after : List Op)
    (e : Event) {s : Server}
    → Reach c (initial a) s
    → s.ops ≡ before ++ writing id bytes ∷ after
    → (t : Server) × (complete c now (writing id bytes) e (record s { ops = before ++ after })
        ≡ ok t)
unfolding complete
Reach-written c a now id bytes before after (succeeded more) {s} r at =
    let (t, done, _) = written-IsServed id bytes before after s at (Reach-IsServed c a r) in
    (t, done)
Reach-written c a now id bytes before after (failed more) {s} r at = (
  disconnect id (record s { ops = before ++ after }),
  failed_lem id (record s { ops = before ++ after }),
)

-- No session stands twice in the room.
pub Reach-Distinct :
    (c : Clock) (a : FileAuthManager) {s : Server} → Reach c (initial a) s → Distinct s.sessions
Reach-Distinct c a {s} r = Rising-Distinct s.next_id s.sessions (Reach-IsServed c a r).room
