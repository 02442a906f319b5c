-- ===== src/Client/Main/SignIn.antt =====
-- What the client's console makes of an address, a name and a password.
use tyfirc.Base.{Bool, ◌≡◌, if◌then◌else◌}
use tyfirc.Base.Result.{Result, ok, throw, connection_fail}
use tyfirc.Misc.{logged_in}
use tyfirc.ScMessage.{ScMessage}
use tyfirc.Client.{Socket, ChatRw}
use tyfirc.Client
use tyfirc.Client.{write_text}

module _ {S : Type 0} (io : Socket S) where
  -- The state behind a call that returned.
  abbrev StateOf : ChatRw S → ChatRw S × Result Bool → Type 0
  StateOf conn p =
      (b : Bool) → p.1 ≡ ok b → p.0.con_state ≡ (if b then logged_in else conn.con_state)

-- How the process ends where the thread ends it.
abbrev pub ending : Bool → Result {0} Unit
ending b = if b then ok tt else throw connection_fail
