-- ===== src/Tests/Older.antt =====
-- The older server: nmake/tyfirc-server.
use tyfirc.Base.{
  true, false, if◌then◌else◌, ◌==◌, ◌≤◌, length, none, some, ◌⊎◌, inl, ◌≡◌, refl, [], ◌∷◌, arith,
}
use tyfirc.Base.Text.{Str, codes, compare_str}
use tyfirc.Base.Map.{lookup, insert}
use tyfirc.Base.Result.{ok, ub}
use tyfirc.AuthManager.{FileAuthManager}
use tyfirc.AuthManager
use tyfirc.Time.{put_field, strftime, time_point_to_str}
use tyfirc.Message.{Message}
use tyfirc.Message
use tyfirc.ScMessage.Make.{get_message_scmessage}
use tyfirc.ScMessage.Buffers.{chat}
use tyfirc.ScMessage.Types.{ScMessageType, login_success, register_failure}
use tyfirc.ScMessage.{frame, deserialize, get_property, set_property}
use tyfirc.ScMessage.Made.{auth_message, deserialize-auth_message}
use tyfirc.Server.App.{succeeded, Reads, later}
use tyfirc.Server.Handlers.{answer}
use tyfirc.Server.Handlers.Auth.{frame-has_zero}
use tyfirc.Older.{
  Server, accepting, handshaking, reading_auth, reading_message, answering_success, start_op,
  set_session, answering_failure, new_session, writing, rewind, advance,
}
use tyfirc.Older.App.{
  handle_accept, initial, Step, turn, written, Reach, here, next, complete, receive, enlist,
  message_bytes, write_step, write_to,
}
use tyfirc.Older.Handlers.{
  read_login_scmessage, handle_auth_scmessage, ask_manager, send_answer, handle_success,
  handle_scmessage,
}
use tyfirc.Older.Handlers.Requests.{heard, handle_scmessage-chat, handle_auth_scmessage-register}
use tyfirc.Older.App.Delivery.{InOrder}
use tyfirc.Older.App.Delivery.Reachable.{Reach-InOrder}
use tyfirc.Tests.Chat.{manager, clock, said, said-read}

abbrev accepted : Server
accepted = handle_accept 0 false (record (initial manager) { ops = [] })

accepted-Step : Step clock (initial manager) accepted
unfolding initial complete
accepted-Step = turn [] (accepting 0) [] (succeeded []) refl refl refl

abbrev greeted : Server
greeted = read_login_scmessage 0 false (record accepted { ops = accepting 1 ∷ [] })

greeted-Step : Step clock accepted greeted
unfolding initial complete handle_accept
greeted-Step = turn (accepting 1 ∷ []) (handshaking 0) [] (succeeded []) refl refl refl

abbrev request : Str
request = frame (auth_message ScMessageType.login (codes "ann") (codes "secret"))

abbrev asked : Server
asked = replied (receive 0 request (record greeted { ops = accepting 1 ∷ [] }))
  where
    replied : Server → Server
    replied s =
        start_op (answering_success 0 (answer login_success))
          (set_session 0 (record (s.session 0) { username = codes "ann" }) s)

request-Reads : Reads [] (succeeded request)
request-Reads =
    later request tt
      (frame-has_zero (auth_message ScMessageType.login (codes "ann") (codes "secret")))

request-read :
    deserialize request ≡ ok (auth_message ScMessageType.login (codes "ann") (codes "secret"))
request-read =
    deserialize-auth_message ScMessageType.login (codes "ann") (codes "secret") refl (omega arith)
      (omega arith)

asked-Step : Step clock greeted asked
unfolding initial complete handle_accept handle_auth_scmessage ask_manager send_answer get_property
    lookup compare_str AuthManager.login read_login_scmessage
asked-Step =
    turn [] (reading_auth 0) (accepting 1 ∷ []) (succeeded request) refl request-Reads
      (rw request-read refl)

abbrev welcomed : Server
welcomed = handle_success 0 false (record asked { ops = accepting 1 ∷ [] })

welcomed-Step : Step clock asked welcomed
unfolding initial complete handle_accept read_login_scmessage
welcomed-Step =
    turn [] (answering_success 0 (answer login_success)) (accepting 1 ∷ []) (succeeded []) refl refl
      refl

abbrev line : Str
line = codes "eve\n01.01.1970 00:00:00\nhello"

said-bytes : message_bytes clock said ≡ ok (frame (chat line))
unfolding message_bytes get_message_scmessage Message.serialize time_point_to_str strftime
    set_property insert put_field
said-bytes = refl

-- The server with the message of session 0 in its buffer.
abbrev received : Server
received = receive 0 (frame (chat line)) (record welcomed { ops = accepting 1 ∷ [] })

handle_scmessage-chat_example : handle_scmessage clock 0 false received ≡ ok (heard 0 said received)
unfolding initial handle_accept read_login_scmessage handle_success enlist receive
handle_scmessage-chat_example =
    handle_scmessage-chat clock 0 line said received refl (omega arith) refl (inl said-read)

spoken-heard : handle_scmessage clock 0 false received ≡ ok (heard 0 said received)
unfolding initial handle_accept read_login_scmessage handle_success enlist receive
spoken-heard =
    handle_scmessage-chat clock 0 line said received refl (omega arith) refl (inl said-read)

heard-Step : Step clock welcomed (heard 0 said received)
unfolding initial complete handle_accept read_login_scmessage handle_success
heard-Step =
    turn [] (reading_message 0) (accepting 1 ∷ []) (succeeded (frame (chat line))) refl
      (later (frame (chat line)) tt (frame-has_zero (chat line))) spoken-heard

abbrev taken_up : Server
taken_up = record (heard 0 said received) { phase = writing 0; sessions = rewind received.sessions }

taken_up-Step : Step clock (heard 0 said received) taken_up
unfolding write_step initial handle_accept read_login_scmessage handle_success enlist receive
taken_up-Step = written true refl

abbrev sent : Server
sent = record taken_up {
  sessions = advance taken_up.sessions;
  outbox = λ j. if j == 0 then frame (chat line) ∷ [] else [];
}

sent-Step : Step clock taken_up sent
unfolding write_step initial handle_accept read_login_scmessage handle_success enlist receive
    write_to
sent-Step = written true (rw said-bytes refl)

sent-Reach : Reach clock (initial manager) sent
sent-Reach =
    next
      (next
        (next (next (next (next (next here accepted-Step) greeted-Step) asked-Step) welcomed-Step)
          heard-Step)
        taken_up-Step)
      sent-Step

Reach-InOrder_example :
    InOrder clock 1 sent.msg_queue (frame (chat line) ∷ []) × (1 ≤ length sent.msg_queue)
unfolding initial
Reach-InOrder_example = Reach-InOrder clock manager 0 sent-Reach

-- A server in whose first session stands the registration of Bob.
abbrev applied : Server
applied =
    set_session 0
      (record new_session {
        read_buffer = frame (auth_message ScMessageType.register (codes "bob") (codes "x"));
      })
      (initial manager)

handle_auth_scmessage-register_example :
    ((lookup (codes "bob") manager.auth_info ≡ none) × (handle_auth_scmessage 0 false applied ≡ ub))
    ⊎ ((stored : Str) × (lookup (codes "bob") manager.auth_info ≡ some stored)
        × (handle_auth_scmessage 0 false applied
            ≡ ok (start_op (answering_failure 0 (answer register_failure)) applied)))
unfolding initial
handle_auth_scmessage-register_example =
    handle_auth_scmessage-register 0 (codes "bob") (codes "x") applied (omega arith) (omega arith)
      refl
