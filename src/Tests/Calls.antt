-- ===== src/Tests/Calls.antt =====
-- The client and the database: tyfirc-client/tyfirc-chatrw.cpp, tyfirc-client/tyfirc-ircclienapp.cpp
-- and tyfirc/db/tyfirc-repository.h.
use tyfirc.Base.{
  ℕ, Bool, true, false, ◌≡◌, ◌≢◌, refl, List, [], ◌∷◌, map, ◌++◌, arith, Option, none, some, ◌==◌,
}
use tyfirc.Base.Text.{Str, codes, c_str, compare_str}
use tyfirc.Base.Result.{Result, ok, throw, system_error}
use tyfirc.Misc.{connected, logged_in, split}
use tyfirc.ScMessage.Types.{ScMessageType, end_type, login_success, type_from_str, type_to_str}
use tyfirc.ScMessage.{make, frame, deserialize, pop_last, parse_lines, parse_properties, set_type}
use tyfirc.ScMessage.RoundTrip.{IsWellFormed}
use tyfirc.ScMessage.Make.{get_auth_scmessage}
use tyfirc.ScMessage.Buffers.{chat}
use tyfirc.Server.Handlers.{answer}
use tyfirc.Client.{
  Socket, ChatRw, connect, auth, start_read, signals, query, asked, answered, read_scmessage,
  write_scmessage, or_discarded, write_text,
}
use tyfirc.Client
use tyfirc.Client.App.{IrcClientApp}
use tyfirc.Client.App
use tyfirc.Client.Reading.{on_messages, reading}
use tyfirc.Client.Stopping.{start_read-stop_read, start_read-connect}
use tyfirc.Tests.Chat.{clock}
use tyfirc.Db.{
  DbUser, Session, Row, Statement, select_all, read_by_id, read_all, read_where, insert,
  update_user_of, delete_by_id_of, delete,
}
use tyfirc.Db.Users.{
  OnlyRepository, matching, row_of, read_where-matching, repository-OnlyRepository,
}

-- A stream of the texts that arrive; everything is written.
abbrev pub frames : Socket (List Str)
frames = record {
  connect = λ s. (true, s);
  handshake = λ s. (true, s);
  write = λ bytes s. (true, s);
  read_until = next_text;
}
  where
    next_text : List Str → Option Str × List Str
    next_text [] = (none, [])
    next_text (text ∷ s) = (some text, s)

abbrev reader : ChatRw (List Str)
reader = record { con_state = logged_in; is_read = false; socket = frame (make login_success) ∷ [] }

good : (type : ScMessageType) → type ≢ end_type → IsWellFormed (make type)
good type ne = record { typed = ne; ordered = tt; fields = tt }

-- `StopRead` is called while the second message is handled; the third is not read.
abbrev two_said : List Str
two_said = codes "ann\n2026-1-2 3:4:5\nhi" ∷ codes "bob\n2026-1-2 3:4:6\nhello" ∷ []

abbrev two_texts : ChatRw (List Str)
two_texts = record {
  con_state = logged_in;
  is_read = false;
  socket = map frame (map chat two_said) ++ frame (make login_success) ∷ [];
}

start_read-stop_read_example :
    (start_read frames clock (false ∷ true ∷ false ∷ false ∷ []) two_texts).1
    ≡ on_messages clock two_said
start_read-stop_read_example =
    start_read-stop_read frames clock (codes "ann\n2026-1-2 3:4:5\nhi" ∷ [])
      (codes "bob\n2026-1-2 3:4:6\nhello") (false ∷ false ∷ []) two_texts refl (omega arith)
      (
        frame (chat (codes "bob\n2026-1-2 3:4:6\nhello")) ∷ frame (make login_success) ∷ [],
        refl,
        (frame (make login_success) ∷ [], refl, tt),
      )

-- The stream fails behind the first message.
start_read-connect_example :
    (start_read frames clock (false ∷ false ∷ []) reader
      ≡ (reading frames logged_in [], throw system_error))
    × (connect frames (start_read frames clock (false ∷ false ∷ []) reader).0
        ≡ (reading frames logged_in [], false))
unfolding signals
start_read-connect_example =
    start_read-connect frames clock (make login_success ∷ []) [] reader [] [] refl
      (good login_success (λ e. cc), tt) ([], refl, refl) refl

abbrev app : IrcClientApp (List Str)
app = record {
  chat_rw = record { con_state = connected; is_read = false; socket = answer login_success ∷ [] };
  username = codes "ann";
}

logged-in : (App.login frames (codes "ann") (codes "secret") app).1 ≡ ok true
unfolding App.login Client.login auth query asked answered read_scmessage write_scmessage
    or_discarded get_auth_scmessage deserialize split pop_last parse_lines type_from_str c_str
    compare_str parse_properties set_type type_to_str
logged-in = refl

abbrev ann : DbUser
ann = record { userid = 1; username = codes "ann"; password = codes "x" }

abbrev bob : DbUser
bob = record { userid = 2; username = codes "bob"; password = codes "y" }

-- A database with two users that can only be read as a whole.
abbrev two_users : Session ℕ
two_users = record { execute = run }
  where
    run : Statement → ℕ → ℕ × Result (Bool × List Row)
    run select_all d = (d, ok (true, map row_of (ann ∷ bob ∷ [])))
    run _ d = (d, throw system_error)

read_where-matching_example :
    read_where two_users (λ u. ok (u.userid == 2)) 0
    ≡ (0, ok (matching (λ u. u.userid == 2) (ann ∷ bob ∷ [])))
read_where-matching_example =
    read_where-matching two_users (λ u. u.userid == 2) 0 0 (ann ∷ bob ∷ []) refl

repository-OnlyRepository_example :
    OnlyRepository (read_by_id two_users 1 0).1
    × OnlyRepository (read_all two_users 0).1
    × OnlyRepository (read_where two_users (λ u. throw system_error) 0).1
    × OnlyRepository (insert two_users ann 0).1
    × OnlyRepository (update_user_of two_users ann 0).1
    × OnlyRepository (delete_by_id_of two_users 1 0).1
    × OnlyRepository (delete two_users ann 0).1
repository-OnlyRepository_example =
    repository-OnlyRepository two_users 1 (λ u. throw system_error) ann 0
