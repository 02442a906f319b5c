-- ===== src/Client.antt =====
-- tyfirc-client/tyfirc-chatrw.h and tyfirc-client/tyfirc-chatrw.cpp: the client's connection, with
-- the templates of tyfirc/tyfirc-scmessage.h that read and write one message. A call gives the
-- connection it leaves and what it returns or throws.
pub mod App
pub mod Talk
pub mod Reading
pub mod Stopping
pub mod Sending
pub mod Chat
pub mod Following
pub mod Newlines
pub mod Main
use tyfirc.Base.{
  ℕ, Bool, true, false, not, ◌&&◌, List, [], ◌∷◌, ◌++◌, Option, none, some, if◌then◌else◌,
}
use tyfirc.Base.Text.{Str, codes}
use tyfirc.Base.Result.{
  Result, ok, throw, ub, invalid_argument, out_of_range, connection_fail, system_error, Exception,
  ◌>>=◌,
}
use tyfirc.Misc.{ConnectionState, not_connected, connected, logged_in}
use tyfirc.Time.{Clock}
use tyfirc.Message.{Message}
use tyfirc.Message
use tyfirc.ScMessage.Types.{
  ScMessageType, message, login_success, register_success, end_type, type_is,
}
use tyfirc.ScMessage.{ScMessage, make, set_type, set_property, get_property, deserialize, frame}
use tyfirc.ScMessage.Make.{is_auth, get_auth_scmessage, get_message_scmessage}

-- The library's stream: each call tells whether it succeeded. `read_until` gives what the stream
-- had up to a zero byte, and may give more.
pub record Socket (S : Type 0) : Type 0 where
  pub connect : S → Bool × S
  pub handshake : S → Bool × S
  pub write : Str → S → Bool × S
  pub read_until : S → Option Str × S

-- `class ChatRw`. Its constructor does not set `con_state_`.
pub record ChatRw (S : Type 0) : Type 0 where
  pub con_state : ConnectionState
  pub is_read : Bool
  pub socket : S

abbrev pub is_connected : ConnectionState → Bool
is_connected not_connected = false
is_connected _ = true

abbrev pub is_logged_in : ConnectionState → Bool
is_logged_in logged_in = true
is_logged_in _ = false

-- A message that `Deserialize` refuses is kept as the data of one with the type `END`. Any other
-- exception goes on.
unfoldable pub or_discarded : Str → Result ScMessage → Result ScMessage
or_discarded buffer (ok m) = ok m
or_discarded buffer (throw invalid_argument) =
    ok (set_property (set_type (make ScMessageType.login) end_type) (codes "data") buffer)
or_discarded buffer (throw e) = throw e
or_discarded buffer ub = ub

-- `success_type` of `Auth`.
abbrev pub success_of : ScMessageType → ScMessageType
success_of ScMessageType.login = login_success
success_of _ = register_success

module _ {S : Type 0} (io : Socket S) where
  -- `ReadScMessage`.
  abbrev pub received : Option Str × S → S × Result ScMessage
  received (none, s) = (s, throw system_error)
  received (some buffer, s) = (s, or_discarded buffer (deserialize buffer))

  unfoldable pub read_scmessage : S → S × Result ScMessage
  read_scmessage s = received (io.read_until s)

  -- `WriteScMessage`.
  abbrev pub sent : Bool × S → S × Result {0} Unit
  sent (true, s) = (s, ok tt)
  sent (false, s) = (s, throw system_error)

  unfoldable pub write_scmessage : ScMessage → S → S × Result {0} Unit
  write_scmessage m s = sent (io.write (frame m) s)

  -- `Connect`, behind the connection and behind the handshake.
  abbrev pub shaken : ChatRw S → Bool × S → ChatRw S × Bool
  shaken conn (true, s) = (record conn { con_state = connected; socket = s }, true)
  shaken conn (false, s) = (record conn { socket = s }, false)

  abbrev pub reached : ChatRw S → Bool × S → ChatRw S × Bool
  reached conn (true, s) = shaken conn (io.handshake s)
  reached conn (false, s) = (record conn { socket = s }, false)

  unfoldable pub connect : ChatRw S → ChatRw S × Bool
  connect conn =
      if is_connected conn.con_state then (conn, false) else reached conn (io.connect conn.socket)

  -- `catch (boost::system::system_error&)` of `Auth`: the connection is given up.
  abbrev pub failed_with : ChatRw S → Exception → ChatRw S × Result Bool
  failed_with conn system_error = (record conn { con_state = not_connected }, throw system_error)
  failed_with conn e = (conn, throw e)

  -- `Auth` behind the answer.
  unfoldable pub answered : ScMessageType → ChatRw S → S × Result ScMessage → ChatRw S × Result Bool
  answered type conn (s, ok m) =
      if type_is m.msg_type (success_of type)
      then (record conn { con_state = logged_in; socket = s }, ok true)
      else (record conn { socket = s }, ok false)
  answered type conn (s, throw e) = failed_with (record conn { socket = s }) e
  answered type conn (s, ub) = (record conn { socket = s }, ub)

  -- `Auth` behind the write.
  unfoldable pub asked : ScMessageType → ChatRw S → S × Result {0} Unit → ChatRw S × Result Bool
  unfolding answered
  asked type conn (s, ok _) = answered type conn (read_scmessage s)
  asked type conn (s, throw e) = failed_with (record conn { socket = s }) e
  asked type conn (s, ub) = (record conn { socket = s }, ub)

  unfoldable pub query : ScMessageType → ChatRw S → Result ScMessage → ChatRw S × Result Bool
  unfolding asked
  query type conn (ok q) = asked type conn (write_scmessage q conn.socket)
  query type conn (throw e) = (conn, throw e)
  query type conn ub = (conn, ub)

  unfoldable pub auth : ScMessageType → Str → Str → ChatRw S → ChatRw S × Result Bool
  unfolding query
  auth type username password conn =
      if not (is_connected conn.con_state)
      then (conn, throw connection_fail)
      else if not (is_auth type)
      then (conn, throw invalid_argument)
      else query type conn (get_auth_scmessage type username password)

  -- `Login` and `Register`.
  unfoldable pub login : Str → Str → ChatRw S → ChatRw S × Result Bool
  unfolding auth
  login username password conn = auth ScMessageType.login username password conn

  unfoldable pub register : Str → Str → ChatRw S → ChatRw S × Result Bool
  unfolding auth
  register username password conn = auth ScMessageType.register username password conn

  -- `WriteMessage`.
  unfoldable pub write_text : ChatRw S → Result ScMessage → ChatRw S × Result {0} Unit
  write_text conn (ok m) =
      let (s, result) = write_scmessage m conn.socket in (record conn { socket = s }, result)
  write_text conn (throw e) = (conn, throw e)
  write_text conn ub = (conn, ub)

  unfoldable pub write_message : Clock → Message → ChatRw S → ChatRw S × Result {0} Unit
  unfolding write_text
  write_message c msg conn =
      if not (is_connected conn.con_state)
      then (conn, throw connection_fail)
      else write_text conn (get_message_scmessage c msg)

-- What the handlers that are bound are called with.
pub data Signal : Type 0 where
  on_message : Message → Signal
  on_discard : Str → Signal

-- The `switch` of `StartRead`.
unfoldable pub signals : Clock → ScMessageType → ScMessage → Result (List Signal)
signals c message m = do
  text ← get_property m (codes "message[0]")
  msg ← Message.deserialize c text
  ok (on_message msg ∷ [])
signals c end_type m = do data_text ← get_property m (codes "data"); ok (on_discard data_text ∷ [])
signals c _ m = ok []

-- `StopRead`.
unfoldable pub stop_read : {S : Type 0} → ChatRw S → ChatRw S
stop_read conn = record conn { is_read = false }

module _ {S : Type 0} (io : Socket S) where
  -- One pass of the loop: what the handlers are called with.
  abbrev pub passed : Clock → ChatRw S → S × Result ScMessage → ChatRw S × Result (List Signal)
  passed c conn (s, r) = (record conn { socket = s }, r >>= (λ m. signals c m.msg_type m))

  unfoldable pub read_pass : Clock → ChatRw S → ChatRw S × Result (List Signal)
  read_pass c conn = passed c conn (read_scmessage io conn.socket)

  -- What the loop does behind a pass: it goes on unless the pass has thrown.
  abbrev looped :
      ChatRw S × Result (List Signal)
      → (ChatRw S → List Signal → ChatRw S × Result (List Signal))
      → ChatRw S × Result (List Signal)
  looped (t, ok new) k = k t new
  looped (t, throw e) k = (t, throw e)
  looped (t, ub) k = (t, ub)

  -- The loop of `StartRead`, for as many passes as the list is long: each entry tells whether
  -- somebody calls `StopRead` during the pass. It ends before if `is_read_` is off, or by throwing.
  unfoldable pub read_loop :
      Clock → List Bool → ChatRw S → List Signal → ChatRw S × Result (List Signal)
  unfolding stop_read
  read_loop c [] conn seen = (conn, ok seen)
  read_loop c (stopped ∷ passes) conn seen =
      if not conn.is_read
      then (conn, ok seen)
      else looped (read_pass c conn)
          (λ t new. read_loop c passes (if stopped then stop_read t else t) (seen ++ new))

  unfoldable pub start_read : Clock → List Bool → ChatRw S → ChatRw S × Result (List Signal)
  unfolding read_loop
  start_read c passes conn =
      if not (is_logged_in conn.con_state)
      then (conn, throw connection_fail)
      else read_loop c passes (record conn { is_read = true }) []
