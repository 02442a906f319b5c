-- ===== src/Client/App.antt =====
-- tyfirc-client/tyfirc-irclientapp.h and tyfirc-client/tyfirc-ircclienapp.cpp: the client's
-- application. Its calls of `Connect`, `StartRead` and the binding of handlers go to `ChatRw`.
use tyfirc.Base.{ℕ, Bool, true, false, ◌||◌, [], ◌∷◌, ◌==◌, if◌then◌else◌}
use tyfirc.Base.Text.{Str}
use tyfirc.Base.Result.{Result, ok, throw, invalid_argument}
use tyfirc.Time.{Clock}
use tyfirc.Client.{Socket, ChatRw}
use tyfirc.Client

-- `class IrcClientApp`.
pub record IrcClientApp (S : Type 0) : Type 0 where
  pub chat_rw : ChatRw S
  pub username : Str

-- `find_first_of("\t\n ") != npos`.
abbrev pub has_whitespace : Str → Bool
has_whitespace [] = false
has_whitespace (c ∷ s) = (c == b'\t' || (c == b'\n' || c == b' ')) || has_whitespace s

-- `find('\x1f') != npos`.
abbrev pub has_separator : Str → Bool
has_separator [] = false
has_separator (c ∷ s) = c == 31 || has_separator s

module _ {S : Type 0} (io : Socket S) where
  abbrev pub named : Str → IrcClientApp S → ChatRw S × Result Bool → IrcClientApp S × Result Bool
  named name app (conn, ok true) = (record { chat_rw = conn; username = name }, ok true)
  named name app (conn, r) = (record app { chat_rw = conn }, r)

  unfoldable pub login : Str → Str → IrcClientApp S → IrcClientApp S × Result Bool
  login name password app =
      if has_whitespace name || has_whitespace password
      then (app, throw invalid_argument)
      else named name app (Client.login io name password app.chat_rw)

  unfoldable pub register : Str → Str → IrcClientApp S → IrcClientApp S × Result Bool
  register name password app =
      if has_whitespace name || has_whitespace password
      then (app, throw invalid_argument)
      else named name app (Client.register io name password app.chat_rw)

  abbrev pub written :
      IrcClientApp S → ChatRw S × Result {0} Unit → IrcClientApp S × Result {0} Unit
  written app (conn, r) = (record app { chat_rw = conn }, r)

  unfoldable pub write_message : Clock → ℕ → Str → IrcClientApp S → IrcClientApp S × Result {0} Unit
  write_message c now msg app =
      if has_separator msg
      then (app, throw invalid_argument)
      else written app (
          Client.write_message io c (record { username = app.username; text = msg; time = now })
            app.chat_rw)
