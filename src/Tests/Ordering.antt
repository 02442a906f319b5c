-- ===== src/Tests/Ordering.antt =====
-- A run of the server in which a message is said and written: tyfirc-server/tyfirc-session.cpp.
use tyfirc.Base.{map, ◌⊎◌, ap, false, ◌++◌, List, ◌≡◌, refl, [], ◌∷◌}
use tyfirc.Base.Text.{Str}
use tyfirc.ScMessage.{frame}
use tyfirc.Server.{Server, accepting, reading_message, writing, set_session}
use tyfirc.Server.ChatRoom.{add_session, insert_id, handle_written}
use tyfirc.Server.Handlers.{start, read_login_scmessage, handle_success, read_scmessage}
use tyfirc.Server.App.{
  handle_accept, initial, succeeded, complete, receive, Step, turn, Reach, next,
}
use tyfirc.Server.Order.{wrote, joined, enters, log, written, missed, said, Ordered}
use tyfirc.Server.Order.Agreement.{Shared, sent, Reach-Shared}
use tyfirc.Server.Progress.Drained.{Emptied, Reach-Emptied}
use tyfirc.Server.ChatRoom.Deliver.{queue_of}
use tyfirc.Server.Order.Authors.{Authored, Reach-Authored}
use tyfirc.Server.Order.Reachable.{Reach-Ordered}
use tyfirc.Misc.{logged_in}
use tyfirc.Client.{ChatRw}
use tyfirc.Client.Following.{Followed, Reach-Followed}
use tyfirc.Tests.Calls.{frames}
use tyfirc.Tests.Chat.{
  one_guest_step, manager, clock, spoken, heard, spoken-read, spoken-text, said-read, heard-made,
}
use tyfirc.Tests.Writing.{
  greeted_step, asked_step, welcomed_step, speaking_step, welcomed, speaking, speaking_run,
}

-- The message of session 0 has been written to it.
abbrev told : Server
told =
    set_session 0 (record (speaking.session 0) { msg_queue = [] })
      (record speaking { ops = reading_message 0 ∷ accepting 1 ∷ [] })

unfoldable pub told_step : Step clock speaking told
unfolding initial complete handle_accept read_login_scmessage handle_success read_scmessage start
    add_session insert_id receive handle_written
told_step =
    turn 8 (reading_message 0 ∷ []) (writing 0 (frame heard)) (accepting 1 ∷ []) (succeeded []) refl
      refl refl

abbrev told_run : Reach clock (initial manager) told
told_run = next speaking_run told_step

Reach-Ordered_example : Ordered 0 (log told_run) (missed 0 told_run) (written 0 told_run) told
Reach-Ordered_example = Reach-Ordered clock manager 0 told_run

-- What it makes the room hear.
said_heard : said clock 7 (reading_message 0) (succeeded (frame spoken)) welcomed ≡ heard ∷ []
unfolding said initial handle_accept read_login_scmessage handle_success read_scmessage
said_heard = rw (spoken-read, spoken-text, said-read, heard-made) refl

told_log : log told_run ≡ heard ∷ []
unfolding log said told_step speaking_run speaking_step welcomed_step asked_step greeted_step
    one_guest_step initial handle_accept read_login_scmessage handle_success read_scmessage
told_log = ap (λ l. l ++ []) said_heard

told_written : written 0 told_run ≡ frame heard ∷ []
unfolding written wrote told_step speaking_run speaking_step welcomed_step asked_step greeted_step
    one_guest_step
told_written = refl

told_missed : missed 0 told_run ≡ []
unfolding missed joined enters log said told_step speaking_run speaking_step welcomed_step
    asked_step greeted_step one_guest_step
told_missed = refl

abbrev listener : ChatRw (List Str)
listener = record { con_state = logged_in; is_read = false; socket = frame heard ∷ [] }

Reach-Followed_example :
    Followed frames clock 0 (log told_run) (missed 0 told_run) (written 0 told_run) told listener
Reach-Followed_example =
    Reach-Followed frames clock manager 0 told_run listener refl (rw told_written ([], refl, tt))

-- A second session enters.
abbrev two_guests : Server
two_guests = handle_accept 1 false (record told { ops = reading_message 0 ∷ [] })

two_guests-Step : Step clock told two_guests
unfolding initial complete handle_accept read_login_scmessage handle_success read_scmessage start
    add_session insert_id receive
two_guests-Step = turn 9 (reading_message 0 ∷ []) (accepting 1) [] (succeeded []) refl refl refl

abbrev both : Reach clock (initial manager) two_guests
both = next told_run two_guests-Step

Reach-Shared_example :
    Shared (log both) (missed 0 both) (missed 1 both) (sent 0 both) (sent 1 both)
    ⊎ Shared (log both) (missed 1 both) (missed 0 both) (sent 1 both) (sent 0 both)
unfolding initial handle_accept read_login_scmessage handle_success read_scmessage start add_session
    insert_id receive
Reach-Shared_example = Reach-Shared clock manager 0 1 both refl refl

-- The message of the server that has begun to write can be written.
Reach-Emptied_example : Emptied clock 0 speaking (map frame (queue_of 0 speaking)) []
unfolding initial handle_accept read_login_scmessage handle_success read_scmessage start add_session
    insert_id receive
Reach-Emptied_example = Reach-Emptied clock manager 8 0 speaking_run refl

Reach-Authored_example : Authored clock 0 (written 0 told_run) told
Reach-Authored_example = Reach-Authored clock manager 0 told_run
