-- ===== src/Tests/Chat.antt =====
-- Server and client: tyfirc-server/tyfirc-session.cpp and tyfirc-client/tyfirc-chatrw.cpp.
use tyfirc.Base.{true, false, ◌≡◌, refl, [], ◌∷◌, some, arith}
use tyfirc.Base.Text.{Str, codes, compare_str, find, find_from, substr}
use tyfirc.Base.Map.{lookup, insert}
use tyfirc.Base.Result.{ok}
use tyfirc.Misc.{connected}
use tyfirc.Time.{
  Clock, time_point_from_str, time_point_to_str, strftime, put_field, get_time, get_field,
}
use tyfirc.Message.{Message}
use tyfirc.Message
use tyfirc.AuthManager.{FileAuthManager, login}
use tyfirc.ScMessage.Types.{ScMessageType, login_failure}
use tyfirc.ScMessage.{ScMessage, frame, deserialize, get_property, set_property}
use tyfirc.ScMessage.RoundTrip.{deserialize-frame}
use tyfirc.ScMessage.Make.{get_message_scmessage}
use tyfirc.ScMessage.Made.{auth_message}
use tyfirc.Server.{new_session, accepting, reading_auth, Server, set_session}
use tyfirc.Server.Handlers.{handle_auth_scmessage, answer}
use tyfirc.Server.Handlers.Auth.{
  agrees, asked_manager, with_manager, replied, handle_auth_scmessage-auth_message,
  refused_login-again, frame-has_zero, RefusedAgain,
}
use tyfirc.Server.App.{handle_accept, initial, succeeded, at_once, complete, Step, turn, here, next}
use tyfirc.Server.Accounts.{IsAuthorised}
use tyfirc.Server.Accounts.Reachable.{Reach-IsAuthorised}
use tyfirc.Client.{Socket, ChatRw, auth}
use tyfirc.Client.Talk.{auth-served}

abbrev pub manager : FileAuthManager
manager = record {
  auth_filename = codes "passwords";
  is_file_outdated = false;
  auth_info = (codes "ann", codes "secret") ∷ [];
}

abbrev pub clock : Clock
clock = record {
  ticks_per_second = 1;
  localtime =
      λ s. record { sec = 0; min = 0; hour = 0; mday = 1; mon = 0; year = 1970; isdst = false };
  mktime = λ t. 0;
  read_ticks = λ s. some 0;
}

abbrev pub one_guest : Server
one_guest = handle_accept 0 false (record (initial manager) { ops = [] })

unfoldable pub one_guest_step : Step clock (initial manager) one_guest
unfolding initial complete
one_guest_step = turn 0 [] (accepting 0) [] (succeeded []) refl refl refl

Reach-IsAuthorised_example : IsAuthorised one_guest
Reach-IsAuthorised_example = Reach-IsAuthorised clock manager (next here one_guest_step)

abbrev pub room : Server
room = record {
  auth_manager = manager;
  sessions = 0 ∷ 1 ∷ [];
  session = λ id. new_session;
  next_id = 2;
  ops = [];
}

-- A room in which session 0 has sent the login of Ann.
abbrev asking : Str → Server
asking password =
    set_session 0
      (record new_session {
        con_state = connected;
        read_buffer = frame (auth_message ScMessageType.login (codes "ann") password);
      })
      room

handle_auth_scmessage-auth_message_example :
    handle_auth_scmessage 0 false (asking (codes "secret"))
    ≡ ok (
        replied
          (agrees ScMessageType.login manager (codes "ann") (codes "secret"))
          ScMessageType.login
          0
          (codes "ann")
          (with_manager
            (asked_manager ScMessageType.login manager (codes "ann") (codes "secret"))
            (asking (codes "secret"))))
handle_auth_scmessage-auth_message_example =
    handle_auth_scmessage-auth_message ScMessageType.login 0 (codes "ann") (codes "secret")
      (asking (codes "secret")) refl (omega arith) (omega arith) refl

refused : login manager (codes "ann") (codes "wrong") ≡ false
unfolding login compare_str lookup
refused = refl

refused_login-again_example :
    (t : Server) × (complete clock 5 (reading_auth 0) (succeeded []) (asking (codes "wrong"))
      ≡ ok t)
    × RefusedAgain 0 (answer login_failure) (asking (codes "wrong")) t
refused_login-again_example =
    refused_login-again clock 5 0 (codes "ann") (codes "wrong") (succeeded [])
      (asking (codes "wrong")) (omega arith) (omega arith) refl refused
      (at_once (frame-has_zero (auth_message ScMessageType.login (codes "ann") (codes "wrong"))))

-- A stream that writes everything and reads the bytes that it holds.
abbrev pub wire : Socket Str
wire = record {
  connect = λ s. (true, s);
  handshake = λ s. (true, s);
  write = λ bytes s. (true, s);
  read_until = λ s. (some s, []);
}

abbrev client : ChatRw Str
client = record {
  con_state = connected;
  is_read = false;
  socket = answer ScMessageType.login_success;
}

served :
    handle_auth_scmessage 0 false (asking (codes "secret"))
    ≡ ok (replied true ScMessageType.login 0 (codes "ann") (asking (codes "secret")))
unfolding login compare_str lookup
served = handle_auth_scmessage-auth_message_example

auth-served_example :
    (auth wire ScMessageType.login (codes "ann") (codes "secret") client).1
    ≡ ok (agrees ScMessageType.login manager (codes "ann") (codes "secret"))
auth-served_example =
    auth-served wire ScMessageType.login (codes "ann") (codes "secret") client
      (answer ScMessageType.login_success) [] 0 (asking (codes "secret"))
      (replied true ScMessageType.login 0 (codes "ann") (asking (codes "secret")))
      (answer ScMessageType.login_success) refl (omega arith) (omega arith) refl refl refl served
      refl refl

abbrev pub said : Message
said = record { username = codes "eve"; text = codes "hello"; time = 0 }

abbrev pub spoken : ScMessage
spoken = record {
  msg_type = ScMessageType.message;
  properties = (codes "message[0]", codes "eve\n01.01.1970 00:00:00\nhello") ∷ [];
}

abbrev pub heard : ScMessage
heard = record {
  msg_type = ScMessageType.message;
  properties = (codes "message[0]", codes "ann\n01.01.1970 00:00:00\nhello") ∷ [];
}

abbrev speaking : Server
speaking =
    set_session 0
      (record new_session {
        con_state = connected;
        username = codes "ann";
        read_buffer = frame spoken;
      })
      room

pub spoken-read : deserialize (frame spoken) ≡ ok spoken
spoken-read = deserialize-frame spoken (record {
  typed = λ e. cc;
  ordered = tt;
  fields = ((omega arith, omega arith, omega arith), tt);
})

pub spoken-text :
    get_property spoken (codes "message[0]") ≡ ok (codes "eve\n01.01.1970 00:00:00\nhello")
unfolding get_property lookup compare_str
spoken-text = refl

pub said-read : Message.deserialize clock (codes "eve\n01.01.1970 00:00:00\nhello") ≡ ok said
unfolding Message.deserialize find find_from substr time_point_from_str get_time get_field
said-read = refl

pub heard-made :
    get_message_scmessage clock (record { username = codes "ann"; text = codes "hello"; time = 7 })
    ≡ ok heard
unfolding get_message_scmessage Message.serialize time_point_to_str strftime set_property insert
    put_field
heard-made = refl
