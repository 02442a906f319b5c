-- ===== src/Tests/Writing.antt =====
-- A run of the server until a message of a session is being written: tyfirc-server/tyfirc-session.cpp.
use tyfirc.Base.{false, ◌≡◌, refl, [], ◌∷◌, arith}
use tyfirc.Base.Text.{Str, codes, compare_str}
use tyfirc.Base.Map.{lookup}
use tyfirc.Base.Result.{ok, ub}
use tyfirc.AuthManager
use tyfirc.ScMessage.Types.{ScMessageType, login_success}
use tyfirc.ScMessage.{frame, deserialize, get_property}
use tyfirc.ScMessage.Made.{auth_message, deserialize-auth_message}
use tyfirc.Server.{
  Server, accepting, handshaking, reading_auth, reading_message, answering_success, writing,
  set_session, start_op,
}
use tyfirc.Server.ChatRoom.{
  deliver_scmessage, deliver, write_scmessage, write_helper, add_session, insert_id,
}
use tyfirc.Server.Handlers.{
  answer, start, read_login_scmessage, handle_auth_scmessage, ask_manager, send_answer,
  handle_success, read_scmessage, handle_scmessage, dispatch, broadcast,
}
use tyfirc.Server.Handlers.Auth.{frame-has_zero}
use tyfirc.Server.Handlers.Remote.{hostile, complete-ub}
use tyfirc.Server.App.{
  handle_accept, initial, succeeded, Reads, later, complete, receive, Step, turn, Reach, here, next,
}
use tyfirc.Server.Writing.{IsServed}
use tyfirc.Server.Writing.Reachable.{Reach-IsServed, Reach-written}
use tyfirc.Server.Spoken.{Reach-Heard}
use tyfirc.Server.Accounts.{HasAccount}
use tyfirc.Server.Handlers.Speaking.{Heard}
use tyfirc.Tests.Chat.{
  said, manager, clock, one_guest, one_guest_step, spoken, heard, spoken-read, spoken-text,
  said-read, heard-made,
}

abbrev greeted : Server
greeted = read_login_scmessage 0 false (record one_guest { ops = accepting 1 ∷ [] })

unfoldable pub greeted_step : Step clock one_guest greeted
unfolding initial complete handle_accept
greeted_step = turn 1 (accepting 1 ∷ []) (handshaking 0) [] (succeeded []) refl refl refl

abbrev request : Str
request = frame (auth_message ScMessageType.login (codes "ann") (codes "secret"))

abbrev asked : Server
asked = replied (receive 0 request (record greeted { ops = accepting 1 ∷ [] }))
  where
    replied : Server → Server
    replied s =
        start_op (answering_success 0 (answer login_success))
          (set_session 0 (record (s.session 0) { username = codes "ann" }) s)

pub request-Reads : Reads [] (succeeded request)
request-Reads =
    later request tt
      (frame-has_zero (auth_message ScMessageType.login (codes "ann") (codes "secret")))

pub request-read :
    deserialize request ≡ ok (auth_message ScMessageType.login (codes "ann") (codes "secret"))
request-read =
    deserialize-auth_message ScMessageType.login (codes "ann") (codes "secret") refl (omega arith)
      (omega arith)

unfoldable pub asked_step : Step clock greeted asked
unfolding initial complete handle_accept handle_auth_scmessage ask_manager send_answer get_property
    lookup compare_str AuthManager.login read_login_scmessage
asked_step =
    turn 2 [] (reading_auth 0) (accepting 1 ∷ []) (succeeded request) refl request-Reads
      (rw request-read refl)

abbrev pub welcomed : Server
welcomed = handle_success 0 false (record asked { ops = accepting 1 ∷ [] })

unfoldable pub welcomed_step : Step clock asked welcomed
unfolding initial complete handle_accept read_login_scmessage
welcomed_step =
    turn 3 [] (answering_success 0 (answer login_success)) (accepting 1 ∷ []) (succeeded []) refl
      refl refl

-- The server that has begun to write the message of session 0 back to it.
abbrev pub speaking : Server
speaking = read_on (told (receive 0 (frame spoken) (record welcomed { ops = accepting 1 ∷ [] })))
  where
    told : Server → Server
    told s =
        start_op (writing 0 (frame heard))
          (set_session 0 (record (s.session 0) { msg_queue = heard ∷ [] }) s)

    read_on : Server → Server
    read_on s =
        start_op (reading_message 0) (set_session 0 (record (s.session 0) { read_buffer = [] }) s)

unfoldable pub speaking_step : Step clock welcomed speaking
unfolding initial complete handle_accept read_login_scmessage handle_success read_scmessage
    handle_scmessage dispatch broadcast deliver_scmessage deliver write_scmessage write_helper start
    add_session insert_id receive
speaking_step =
    turn 7 [] (reading_message 0) (accepting 1 ∷ []) (succeeded (frame spoken)) refl
      (later (frame spoken) tt (frame-has_zero spoken))
      (rw (spoken-read, spoken-text, said-read, heard-made) refl)

unfoldable pub speaking_run : Reach clock (initial manager) speaking
speaking_run =
    next (next (next (next (next here one_guest_step) greeted_step) asked_step) welcomed_step)
      speaking_step

Reach-IsServed_example : IsServed speaking
Reach-IsServed_example = Reach-IsServed clock manager speaking_run

Reach-written_example :
    (t : Server) × (complete clock 8
        (writing 0 (frame heard))
        (succeeded [])
        (record speaking { ops = reading_message 0 ∷ accepting 1 ∷ [] })
      ≡ ok t)
unfolding initial handle_accept read_login_scmessage handle_success receive
Reach-written_example =
    Reach-written clock manager 8 0 (frame heard) (reading_message 0 ∷ []) (accepting 1 ∷ [])
      (succeeded []) speaking_run refl

complete-ub_example :
    Reads (greeted.session 0).read_buffer (succeeded hostile)
    × (complete clock 2 (reading_auth 0) (succeeded hostile) greeted ≡ ub)
    × (complete clock 2 (reading_message 0) (succeeded hostile) greeted ≡ ub)
unfolding initial handle_accept read_login_scmessage
complete-ub_example = complete-ub clock 2 0 greeted tt

Reach-Heard_example :
    HasAccount welcomed 0
    × ((t : Server) × (complete clock 7
            (reading_message 0)
            (succeeded (frame spoken))
            (record welcomed { ops = accepting 1 ∷ [] })
          ≡ ok t)
        × Heard heard welcomed t)
unfolding initial handle_accept read_login_scmessage handle_success read_scmessage receive
Reach-Heard_example =
    Reach-Heard clock manager 7 0 (codes "eve\n01.01.1970 00:00:00\nhello") (frame spoken) said
      heard [] (accepting 1 ∷ [])
      (next (next (next (next here one_guest_step) greeted_step) asked_step) welcomed_step) refl
      refl (omega arith) said-read heard-made
