-- ===== src/Client/Talk.antt =====
-- A client's request, from `ChatRw::Auth` through `HandleAuthScMessage` and back.
use tyfirc.Base.{
  ℕ, Bool, true, false, ◌≡◌, ◌≢◌, refl, List, ◌∷◌, Lacks, Option, none, some, Bool-cases, inl, inr,
}
use tyfirc.Base.Text.{Str}
use tyfirc.Base.Result.{ok}
use tyfirc.ScMessage.Types.{ScMessageType, login, end_type, type_is, to_index}
use tyfirc.ScMessage.{separator, make, frame}
use tyfirc.ScMessage.Make.{is_auth}
use tyfirc.ScMessage.Made.{auth_message, get_auth-auth_message, deserialize-answer}
use tyfirc.Server.{Op, answering_success, answering_failure, Server}
use tyfirc.Server.Handlers.{handle_auth_scmessage, answer}
use tyfirc.Server.Handlers.Auth.{
  agrees, asked_manager, with_manager, reply_type, replied, handle_auth_scmessage-auth_message,
}
use tyfirc.Client.{
  Socket, ChatRw, is_connected, or_discarded, read_scmessage, write_scmessage, asked, query, auth,
  success_of,
}

reply-is_success :
    (type : ScMessageType) (b : Bool) → type_is (reply_type type b) (success_of type) ≡ b
unfolding to_index
reply-is_success login true = refl
reply-is_success login false = refl
reply-is_success type true = refl
reply-is_success type false = refl

reply-ne-end : (type : ScMessageType) (b : Bool) → reply_type type b ≢ end_type
reply-ne-end login true e = cc
reply-ne-end login false e = cc
reply-ne-end type true e = cc
reply-ne-end type false e = cc

-- The bytes that the newest operation of the server writes, if it writes an answer.
abbrev pub newest_answer : List Op → Option Str
newest_answer (answering_success id bytes ∷ ops) = some bytes
newest_answer (answering_failure id bytes ∷ ops) = some bytes
newest_answer _ = none

newest-replied :
    (b : Bool) (type : ScMessageType) (id : ℕ) (username : Str) (s : Server)
    → newest_answer (replied b type id username s).ops ≡ some (answer (reply_type type b))
newest-replied true type id username s = refl
newest-replied false type id username s = refl

module _ {S : Type 0} (io : Socket S) where
  read-answer :
      (type : ScMessageType) (s t : S)
      → type ≢ end_type
      → io.read_until s ≡ (some (answer type), t)
      → read_scmessage io s ≡ (t, ok (make type))
  unfolding read_scmessage or_discarded
  read-answer type s t ne h = rw (h, deserialize-answer type ne) refl

  -- The client's call, if the write succeeds and the read gives a reply.
  auth-reply :
      (type : ScMessageType) (username password : Str) (conn : ChatRw S) (s t : S) (b : Bool)
      → is_auth type ≡ true
      → is_connected conn.con_state ≡ true
      → io.write (frame (auth_message type username password)) conn.socket ≡ (true, s)
      → io.read_until s ≡ (some (answer (reply_type type b)), t)
      → (auth io type username password conn).1 ≡ ok b
  unfolding auth query asked write_scmessage
  auth-reply type username password conn s t b h on wrote reads =
      rw
        (
          on,
          h,
          get_auth-auth_message type username password h,
          wrote,
          read-answer (reply_type type b) s t (reply-ne-end type b) reads,
          reply-is_success type b,
        )
        (elim (Bool-cases b) [ inl e ↦ rw e refl | inr e ↦ rw e refl ])

  -- A client that is connected asks with a name and a password that have no separator; its bytes
  -- are what the server has in the session's buffer, and the answer of the server is what the
  -- client reads. Then the call returns whether the manager agrees, and the session has the name
  -- if it does.
  pub auth-served :
      (type : ScMessageType) (username password : Str) (conn : ChatRw S) (s t : S) (id : ℕ)
      (server after : Server) (bytes : Str)
      → is_auth type ≡ true
      → Lacks separator username
      → Lacks separator password
      → is_connected conn.con_state ≡ true
      → io.write (frame (auth_message type username password)) conn.socket ≡ (true, s)
      → (server.session id).read_buffer ≡ frame (auth_message type username password)
      → handle_auth_scmessage id false server ≡ ok after
      → newest_answer after.ops ≡ some bytes
      → io.read_until s ≡ (some bytes, t)
      → (auth io type username password conn).1
        ≡ ok (agrees type server.auth_manager username password)
  auth-served type username password conn s t id server after bytes h hu hp on wrote at handled sent
        reads =
      let b = agrees type server.auth_manager username password in
      let same : replied b type id username
            (with_manager (asked_manager type server.auth_manager username password) server)
          ≡ after =
        cc (handle_auth_scmessage-auth_message type id username password server h hu hp at) in
      let e =
        newest-replied b type id username
          (with_manager (asked_manager type server.auth_manager username password) server) in
      let told : bytes ≡ answer (reply_type type b) = cc in
      auth-reply type username password conn s t b h on wrote (rw told at reads)
