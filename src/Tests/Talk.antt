-- ===== src/Tests/Talk.antt =====
-- A message from a client's application to another client's handler: tyfirc-client/tyfirc-chatrw.cpp
-- and tyfirc-server/tyfirc-session.cpp.
use tyfirc.Base.{false, inr, ◌≡◌, refl, [], ◌∷◌, arith}
use tyfirc.Base.Text.{Str, codes}
use tyfirc.Base.Result.{ok, throw, invalid_argument}
use tyfirc.Time.{time_point_from_str, get_time, get_field}
use tyfirc.Time.RoundTrip.{time_format}
use tyfirc.Message.{Message}
use tyfirc.ScMessage.Make.{get_message_scmessage}
use tyfirc.Client.Newlines.{start_read-newline}
use tyfirc.Misc.{connected, logged_in}
use tyfirc.ScMessage.{frame}
use tyfirc.ScMessage.Buffers.{chat}
use tyfirc.Server.{Server, new_session, set_session}
use tyfirc.Server.Handlers.{handle_scmessage}
use tyfirc.Server.Handlers.Speaking.{Heard}
use tyfirc.Client.{ChatRw, on_message, start_read}
use tyfirc.Client.App.{IrcClientApp, write_message}
use tyfirc.Client.Chat.{shown, written_by, told_by, chat-served}
use tyfirc.Tests.Chat.{wire, room}
use tyfirc.Tests.Protocol.{short_years, short_years-IsClock}

-- An application that believes it is Eve.
abbrev app : IrcClientApp Str
app = record {
  chat_rw = record { con_state = connected; is_read = false; socket = [] };
  username = codes "eve";
}

-- The server, which knows the session as Ann's.
abbrev server : Server
server =
    set_session 0
      (record new_session {
        con_state = connected;
        username = codes "ann";
        read_buffer = frame (chat (shown short_years (written_by app 31 (codes "hello"))));
      })
      room

abbrev reader : ChatRw Str
reader = record {
  con_state = logged_in;
  is_read = false;
  socket = frame (chat (shown short_years (told_by 0 server 47 (codes "hello"))));
}

chat-served_example :
    ((write_message wire short_years 31 (codes "hello") app).1 ≡ ok tt)
    × ((t : Server) × (handle_scmessage short_years 47 0 false server ≡ ok t)
        × Heard (chat (shown short_years (told_by 0 server 47 (codes "hello")))) server t)
    × ((start_read wire short_years (false ∷ []) reader).1
        ≡ ok (on_message (record { username = codes "ann"; text = codes "hello"; time = 40 }) ∷ []))
chat-served_example =
    chat-served wire short_years short_years-IsClock (codes "hello") refl app 31 [] 0 47 server
      reader [] ((omega arith, omega arith), (omega arith, omega arith))
      ((omega arith, omega arith, refl), (omega arith, omega arith, refl)) refl refl
      (refl, (refl, tt)) refl refl refl

abbrev split_name : Message
split_name = record { username = codes "ann\nbob\ncarl"; text = codes "hello"; time = 47 }

no_date : time_point_from_str short_years (codes "bob") time_format ≡ throw invalid_argument
unfolding time_point_from_str get_time get_field
no_date = refl

abbrev listener : ChatRw Str
listener = record {
  con_state = logged_in;
  is_read = false;
  socket = frame (chat (shown short_years split_name));
}

start_read-newline_example :
    (get_message_scmessage short_years split_name ≡ ok (chat (shown short_years split_name)))
    × ((start_read wire short_years (false ∷ []) listener).1 ≡ throw invalid_argument)
start_read-newline_example =
    start_read-newline short_years split_name (codes "ann") (codes "bob") (codes "\ncarl") refl
      (omega arith) (omega arith) (inr (codes "carl", refl)) no_date wire listener [] (omega arith)
      (omega arith) (omega arith, omega arith, refl) refl refl
