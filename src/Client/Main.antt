-- ===== src/Client/Main.antt =====
-- tyfirc-client/main.cpp: the client's console.
pub mod SignIn
pub mod Lines
use tyfirc.Base.{ℕ, Bool, true, false, not, List, [], ◌∷◌, if◌then◌else◌}
use tyfirc.Base.Text.{Str}
use tyfirc.Base.Result.{Result, ok, throw, ub, connection_fail, system_error}
use tyfirc.Misc.{ConnectionState}
use tyfirc.Time.{Clock}
use tyfirc.Client.{Socket, ChatRw, is_logged_in}
use tyfirc.Client
use tyfirc.Client.App.{IrcClientApp, login, write_message}

-- `std::cin`: the lines that are left, what stands behind the last newline, and whether no flag of
-- the stream is set.
pub record Cin : Type 0 where
  pub lines : List Str
  pub rest : Str
  pub good : Bool

abbrev taken : List Str → Cin → Str × Cin
taken [] cin = (cin.rest, record cin { rest = []; good = false })
taken (line ∷ lines) cin = (line, record cin { lines = lines })

-- `std::getline(std::cin, s)`, by what `s` was. At the end of the input it gives what is left, if
-- only an empty text, and sets a flag; with a flag set it leaves `s` alone.
unfoldable pub next_line : Str → Cin → Str × Cin
next_line s cin = if cin.good then taken cin.lines cin else (s, cin)

-- `std::cin.clear()`.
abbrev pub clear : Cin → Cin
clear cin = record cin { good = true }

module _ {S : Type 0} where
  -- An exception that leaves `main` ends the process.
  abbrev pub unless_ended {ℓ} :
      {V : Type ℓ}
      → IrcClientApp S × Result V
      → (IrcClientApp S → V → IrcClientApp S × Result {0} Unit)
      → IrcClientApp S × Result {0} Unit
  unless_ended (app, ok v) rest = rest app v
  unless_ended (app, throw e) rest = (app, throw e)
  unless_ended (app, ub) rest = (app, ub)

  abbrev pub connected_app : IrcClientApp S → ChatRw S × Bool → IrcClientApp S
  connected_app app (conn, _) = record app { chat_rw = conn }

  -- The reading thread, started in this state: `StartRead` throws there if the client is not logged
  -- in, and nothing catches it, so that the process ends behind the passes that `main` still makes.
  abbrev pub start_thread :
      ConnectionState → IrcClientApp S × Result {0} Unit → IrcClientApp S × Result {0} Unit
  start_thread state (app, ok _) =
      (app, if is_logged_in state then ok tt else throw connection_fail)
  start_thread state (app, r) = (app, r)

module _ {S : Type 0} (io : Socket S) (c : Clock) where
  -- The loop, for as many passes as there are times at which they write.
  unfoldable pub write_lines :
      List ℕ → Str → Cin → IrcClientApp S → IrcClientApp S × Result {0} Unit
  unfolding next_line
  write_lines [] prompt cin app = (app, ok tt)
  write_lines (now ∷ nows) prompt cin app =
      let (prompt, cin) = next_line prompt cin in
      unless_ended (write_message io c now prompt app)
        (λ app _. write_lines nows prompt (clear cin) app)

  -- `main`, over what the console gives. The results of `Connect` and of `Login` are only printed.
  -- `is_address` tells what the library takes as an address; on others `from_string` throws. The
  -- loop makes as many passes as there are times, until the process ends if it does.
  unfoldable pub main :
      (Str → Bool) → List ℕ → Cin → IrcClientApp S → IrcClientApp S × Result {0} Unit
  unfolding write_lines next_line
  main is_address nows cin app =
      let (prompt, cin) = next_line [] cin in
      let (username, cin) = next_line [] cin in
      let (password, cin) = next_line [] cin in
      if not (is_address prompt)
      then (app, throw system_error)
      else unless_ended
          (login io username password (connected_app app (Client.connect io app.chat_rw)))
          (λ app _. start_thread app.chat_rw.con_state (write_lines nows prompt cin app))
