-- ===== src/Older/Handlers/Requests.antt =====
-- nmake/tyfirc-server/tyfirc-session.cpp: what the handlers of the older server make of a client's
-- requests.
use tyfirc.Base.{
  ℕ, true, false, ◌≡◌, refl, ap, ◌∙◌, none, some, Option-cases, inl, inr, ◌⊎◌, [], ◌∷◌, ◌++◌, Lacks,
}
use tyfirc.Base.Text.{Str, codes, compare_str}
use tyfirc.Base.Map.{lookup}
use tyfirc.Base.Result.{ok, throw, ub, invalid_argument}
use tyfirc.Time.{Clock}
use tyfirc.Message.{Message, default_message}
use tyfirc.Message
use tyfirc.ScMessage.Types.{register, register_failure}
use tyfirc.ScMessage.Buffers.{chat, chat-IsWellFormed}
use tyfirc.ScMessage.RoundTrip.{deserialize-frame}
use tyfirc.ScMessage.{separator, frame, deserialize, get_property}
use tyfirc.ScMessage.Made.{
  auth_message, deserialize-auth_message, username-auth_message, password-auth_message,
}
use tyfirc.Server.Handlers.{answer}
use tyfirc.Older.{reading_message, answering_failure, Server, set_session, start_op}
use tyfirc.Older.Handlers.{
  register_account, ask_manager, send_answer, handle_auth_scmessage, or_default, dispatch,
  on_message, add_message, handle_scmessage,
}

-- If the buffer has a registration, with a name and a password that have no separator, the answer
-- is a refusal where the name is taken, and where it is free the behaviour is undefined: no
-- registration succeeds.
pub handle_auth_scmessage-register :
    (id : ℕ) (username password : Str) (s : Server)
    → Lacks separator username
    → Lacks separator password
    → (s.session id).read_buffer ≡ frame (auth_message register username password)
    → ((lookup username s.auth_manager.auth_info ≡ none) × (handle_auth_scmessage id false s ≡ ub))
      ⊎ ((stored : Str) × (lookup username s.auth_manager.auth_info ≡ some stored)
          × (handle_auth_scmessage id false s
              ≡ ok (start_op (answering_failure id (answer register_failure)) s)))
unfolding handle_auth_scmessage ask_manager send_answer register_account
handle_auth_scmessage-register id username password s hu hp at =
    elim (Option-cases (lookup username s.auth_manager.auth_info)) [
      | inl free ↦ inl (
        free,
        rw
            (
              read,
              username-auth_message register username password,
              password-auth_message register username password,
              free,
              register_account,
            )
            refl,
      )
      | inr (stored, taken) ↦ inr (
        stored,
        taken,
        rw
            (
              read,
              username-auth_message register username password,
              password-auth_message register username password,
              taken,
              register_account,
            )
            refl,
      )
    ]
  where
    read : deserialize (s.session id).read_buffer ≡ ok (auth_message register username password)
    read = ap deserialize at ∙ deserialize-auth_message register username password refl hu hp

-- The server behind a message of a session that was bound when it was accepted.
abbrev pub heard : ℕ → Message → Server → Server
heard id msg s = start_op (reading_message id) (
    set_session id (record (s.session id) { read_buffer = [] })
      (record s { msg_queue = s.msg_queue ++ msg ∷ [] }))

on_message-bound :
    (id : ℕ) (msg : Message) (s : Server)
    → (s.session id).is_bound ≡ true
    → on_message id msg s ≡ record s { msg_queue = s.msg_queue ++ msg ∷ [] }
unfolding on_message add_message
on_message-bound id msg s bound = rw bound refl

-- If the session was bound and its buffer has a chat message, whose text has no separator, then the
-- message that the text says, with the sender's name and the time that the client wrote, goes
-- behind the list; a text that is refused puts a message with no name and no text there.
pub handle_scmessage-chat :
    (c : Clock) (id : ℕ) (text : Str) (msg : Message) (s : Server)
    → (s.session id).is_bound ≡ true
    → Lacks separator text
    → (s.session id).read_buffer ≡ frame (chat text)
    → (Message.deserialize c text ≡ ok msg)
      ⊎ ((Message.deserialize c text ≡ throw invalid_argument) × (msg ≡ default_message))
    → handle_scmessage c id false s ≡ ok (heard id msg s)
unfolding handle_scmessage dispatch
handle_scmessage-chat c id text msg s bound h at said =
    rw
      (
        ap deserialize at ∙ deserialize-frame (chat text) (chat-IsWellFormed text h),
        property,
        message_said said,
        on_message-bound id msg s bound,
      )
      refl
  where
    property : get_property (chat text) (codes "message[0]") ≡ ok text
    property = unfold get_property lookup compare_str in refl

    message_said :
        (Message.deserialize c text ≡ ok msg)
          ⊎ ((Message.deserialize c text ≡ throw invalid_argument) × (msg ≡ default_message))
        → or_default (Message.deserialize c text) ≡ ok msg
    message_said (inl e) = rw e refl
    message_said (inr (e, is)) = rw (e, is) refl
