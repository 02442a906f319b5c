-- ===== src/ScMessage/Make.antt =====
-- The messages that the program makes: `GetAuthScMessage` and `GetMessageScMessage`.
use tyfirc.Base.{Bool, true, false, if◌then◌else◌}
use tyfirc.Base.Text.{Str, codes}
use tyfirc.Base.Result.{Result, ok, throw, invalid_argument, ◌>>=◌}
use tyfirc.Time.{Clock}
use tyfirc.Message.{Message}
use tyfirc.Message
use tyfirc.ScMessage.Types.{ScMessageType, login, register, message}
use tyfirc.ScMessage.{ScMessage, make, set_property}

abbrev pub is_auth : ScMessageType → Bool
is_auth login = true
is_auth register = true
is_auth _ = false

unfoldable pub get_auth_scmessage : ScMessageType → Str → Str → Result ScMessage
get_auth_scmessage type username password =
    if is_auth type
    then ok (
        set_property (set_property (make type) (codes "username") username) (codes "password")
          password)
    else throw invalid_argument

unfoldable pub get_message_scmessage : Clock → Message → Result ScMessage
get_message_scmessage c msg = do
  text ← Message.serialize c msg
  ok (set_property (make message) (codes "message[0]") text)
