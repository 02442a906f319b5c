-- ===== src/Tests/Console.antt =====
-- The client's console: tyfirc-client/main.cpp.
use tyfirc.Base.{true, false, ◌≡◌, refl, List, [], ◌∷◌, ◌++◌, map, some, arith}
use tyfirc.Base.Text.{Str, codes}
use tyfirc.Base.Result.{ok}
use tyfirc.Misc.{not_connected, connected}
use tyfirc.ScMessage.Types.{login_failure}
use tyfirc.Server.Handlers.{answer}
use tyfirc.Client.{Socket, connect}
use tyfirc.Client
use tyfirc.Client.App.{IrcClientApp, login}
use tyfirc.Client.Main.{write_lines, connected_app}
use tyfirc.Client.Main.Lines.{console, frame_of, with_log, write_lines-frames}
use tyfirc.Tests.Protocol.{short_years}

-- A stream that keeps what is written; what arrives is always the refusal of a login.
abbrev log : Socket (List Str)
log = record {
  connect = λ s. (true, s);
  handshake = λ s. (true, s);
  write = λ bytes s. (true, s ++ bytes ∷ []);
  read_until = λ s. (some (answer login_failure), s);
}

abbrev refused_app : IrcClientApp (List Str)
refused_app = record {
  chat_rw = record { con_state = not_connected; is_read = false; socket = [] };
  username = [];
}

-- The request of the login has been written.
abbrev asking : IrcClientApp (List Str)
asking = record {
  chat_rw = record {
    con_state = connected;
    is_read = false;
    socket =
        (login log (codes "ann") (codes "wrong")
          (connected_app refused_app (connect log refused_app.chat_rw))).0.chat_rw.socket;
  };
  username = [];
}

abbrev typing : IrcClientApp (List Str)
typing = record {
  chat_rw = record { con_state = connected; is_read = false; socket = [] };
  username = codes "ann";
}

-- The last text has no newline behind it.
write_lines-frames_example :
    write_lines log short_years
      (5 ∷ 15 ∷ 25 ∷ [])
      (codes "127.0.0.1")
      (console (codes "hello" ∷ []) (codes "bye"))
      typing
    ≡ (
      with_log
          (map
            (frame_of short_years (codes "ann"))
            ((5, codes "hello") ∷ (15, codes "bye") ∷ (25, []) ∷ []))
          typing,
      ok tt,
    )
write_lines-frames_example =
    write_lines-frames log (λ bytes s. refl) short_years (5 ∷ 15 ∷ 25 ∷ []) (codes "127.0.0.1")
      (codes "hello" ∷ []) (codes "bye") typing refl
      (
        (omega arith, omega arith, refl),
        ((omega arith, omega arith, refl), ((omega arith, omega arith, refl), tt)),
      )
      (refl, (refl, tt))
