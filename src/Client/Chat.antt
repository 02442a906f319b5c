-- ===== src/Client/Chat.antt =====
-- A chat message on its way from the client that writes it, through the server, to a client that
-- reads.
use tyfirc.Base.{
  ℕ, ◌*◌, ◌/◌, ◌≤◌, ◌<◌, true, false, ◌≡◌, refl, sym, ap, ◌∙◌, [], ◌∷◌, arith, Lacks, All-append,
  some,
}
use tyfirc.Base.Text.{Str, compare_str}
use tyfirc.Base.Map.{insert, lookup}
use tyfirc.Base.Result.{ok, ◌>>=◌}
use tyfirc.Misc.{logged_in}
use tyfirc.Time.{Clock, IsClock, Tm}
use tyfirc.Time.RoundTrip.{time_text, broken_down}
use tyfirc.Message.{Message}
use tyfirc.Message
use tyfirc.Message.Parts.{message_text}
use tyfirc.Message.RoundTrip.{shown_name, serialize_lem, deserialize-serialize}
use tyfirc.ScMessage.Types.{message}
use tyfirc.ScMessage.{separator, frame, deserialize, get_property, set_property}
use tyfirc.ScMessage.RoundTrip.{deserialize-frame}
use tyfirc.ScMessage.Make.{get_message_scmessage}
use tyfirc.ScMessage.Buffers.{chat, chat-IsWellFormed}
use tyfirc.Server.{Server}
use tyfirc.Server.ChatRoom.Deliver.{Distinct}
use tyfirc.Server.Handlers.{handle_scmessage}
use tyfirc.Server.Handlers.Speaking.{Heard, handle_scmessage-Heard}
use tyfirc.Client.{
  Socket, ChatRw, is_connected, write_text, write_scmessage, Signal, on_message, signals,
  start_read,
}
use tyfirc.Client
use tyfirc.Client.App.{IrcClientApp, has_separator, write_message}
use tyfirc.Client.Sending.{no_separator}
use tyfirc.Client.Reading.{start_read-frames}

-- A name that the text form of a message can carry.
abbrev pub IsName : Str → Type 0
IsName name = Lacks b'\n' name × Lacks separator name

-- A time whose year has four digits and at which daylight saving is not in force.
abbrev pub IsShown : Clock → ℕ → Type 0
IsShown c time =
    1000 ≤ (broken_down c time).year
    × (broken_down c time).year < 10000
    × ((broken_down c time).isdst ≡ false)

-- The text form, and the message that is read from it.
abbrev pub shown : Clock → Message → Str
shown c msg = message_text (shown_name msg.username) (time_text (broken_down c msg.time)) msg.text

abbrev pub cut : Clock → Message → Message
cut c msg = record {
  username = shown_name msg.username;
  text = msg.text;
  time = msg.time / c.ticks_per_second * c.ticks_per_second;
}

time_text-Lacks-separator : (t : Tm) → Lacks separator (time_text t)
time_text-Lacks-separator t = omega arith

shown_name-Lacks : (name : Str) → Lacks separator name → Lacks separator (shown_name name)
shown_name-Lacks [] h = omega arith
shown_name-Lacks (c ∷ name) h = ground arith

module _ (c : Clock) (msg : Message) where
  serialize-shown : IsShown c msg.time → Message.serialize c msg ≡ ok (shown c msg)
  serialize-shown t = serialize_lem c msg t.0 t.1

  pub get_message-chat : IsShown c msg.time → get_message_scmessage c msg ≡ ok (chat (shown c msg))
  unfolding get_message_scmessage set_property insert
  get_message-chat t = rw (serialize-shown t) refl

  pub shown-Lacks :
      Lacks separator msg.username → Lacks separator msg.text → Lacks separator (shown c msg)
  shown-Lacks n h = All-append _ (shown_name msg.username) _ (shown_name-Lacks msg.username n) (
    omega arith,
    All-append _ (time_text (broken_down c msg.time)) (b'\n' ∷ msg.text)
        (time_text-Lacks-separator (broken_down c msg.time)) (omega arith, h),
  )

  deserialize-shown :
      IsClock c
      → IsName msg.username
      → IsShown c msg.time
      → Message.deserialize c (shown c msg) ≡ ok (cut c msg)
  deserialize-shown v n t =
      ap (λ r. r >>= Message.deserialize c) (sym (serialize-shown t))
      ∙ deserialize-serialize c msg v n.0 t.0 t.1 t.2

-- What the client's application sends, and what the server's session says at the time it gets it.
abbrev pub written_by : {S : Type 0} → IrcClientApp S → ℕ → Str → Message
written_by app now text = record { username = app.username; text = text; time = now }

abbrev pub told_by : ℕ → Server → ℕ → Str → Message
told_by id server now text = record {
  username = (server.session id).username;
  text = text;
  time = now;
}

module _ {S : Type 0} (io : Socket S) (c : Clock) (v : IsClock c) (text : Str)
    (clean : has_separator text ≡ false) where
  -- The application writes the frame of the message.
  write_message-frame :
      (app : IrcClientApp S) (now : ℕ) (s : S)
      → IsShown c now
      → is_connected app.chat_rw.con_state ≡ true
      → io.write (frame (chat (shown c (written_by app now text)))) app.chat_rw.socket ≡ (true, s)
      → (write_message io c now text app).1 ≡ ok tt
  unfolding write_message Client.write_message write_text write_scmessage
  write_message-frame app now s t on wrote =
      rw (clean, on, get_message-chat c (written_by app now text) t, wrote) refl

  signals-shown :
      (msg : Message)
      → IsName msg.username
      → IsShown c msg.time
      → signals c message (chat (shown c msg)) ≡ ok (on_message (cut c msg) ∷ [])
  unfolding signals get_property lookup compare_str
  signals-shown msg n t = rw (deserialize-shown c msg v n t) refl

  -- A reader that is logged in and gets the frame calls its handler with the message.
  start_read-chat :
      (msg : Message) (reader : ChatRw S) (s : S)
      → IsName msg.username
      → IsShown c msg.time
      → msg.text ≡ text
      → reader.con_state ≡ logged_in
      → io.read_until reader.socket ≡ (some (frame (chat (shown c msg))), s)
      → (start_read io c (false ∷ []) reader).1 ≡ ok (on_message (cut c msg) ∷ [])
  start_read-chat msg reader s n t same on reads =
      start_read-frames io c (chat (shown c msg) ∷ []) reader on
        (
          chat-IsWellFormed (shown c msg)
              (shown-Lacks c msg n.1 (rw same (no_separator text clean))),
          tt,
        )
        (s, reads, tt)
      ∙ rw (signals-shown msg n t) refl

  chat-Heard :
      (said : Message) (id later : ℕ) (server : Server)
      → IsName said.username
      → IsShown c said.time
      → said.text ≡ text
      → IsName (server.session id).username
      → IsShown c later
      → Distinct server.sessions
      → (server.session id).read_buffer ≡ frame (chat (shown c said))
      → (t : Server) × (handle_scmessage c later id false server ≡ ok t)
        × Heard (chat (shown c (told_by id server later text))) server t
  chat-Heard said id later server n t same n' t' d at =
      let (after, done, heard, _) =
        handle_scmessage-Heard c later id (chat (shown c said))
          (chat (shown c (told_by id server later text))) (shown c said) (cut c said) server d
          (ap deserialize at
            ∙ deserialize-frame (chat (shown c said)) (
                chat-IsWellFormed (shown c said)
                  (shown-Lacks c said n.1 (rw same (no_separator text clean)))))
          refl (unfold get_property lookup compare_str in refl) (deserialize-shown c said v n t)
          (rw same (get_message-chat c (told_by id server later text) t')) in
      (after, done, heard)

  -- A client that is connected writes a text with no separator; its bytes are what the server has in
  -- the buffer of the session, and no session stands twice in the room. Then `WriteMessage` returns,
  -- every session of the room gets one message, and a client that is logged in and reads the bytes
  -- of that message calls its handler with the text, with the name that the server knows the
  -- session by (a dash for an empty one) and with the server's time, cut to the second. The clock
  -- is as the C library documents, the names have no newline and no separator, and the years have
  -- four digits and no daylight saving.
  pub chat-served :
      (app : IrcClientApp S) (now : ℕ) (s : S) (id later : ℕ) (server : Server) (reader : ChatRw S)
      (r : S)
      → IsName app.username × IsName (server.session id).username
      → IsShown c now × IsShown c later
      → is_connected app.chat_rw.con_state ≡ true
      → io.write (frame (chat (shown c (written_by app now text)))) app.chat_rw.socket ≡ (true, s)
      → Distinct server.sessions
      → (server.session id).read_buffer ≡ frame (chat (shown c (written_by app now text)))
      → reader.con_state ≡ logged_in
      → io.read_until reader.socket
        ≡ (some (frame (chat (shown c (told_by id server later text)))), r)
      → ((write_message io c now text app).1 ≡ ok tt)
        × ((t : Server) × (handle_scmessage c later id false server ≡ ok t)
            × Heard (chat (shown c (told_by id server later text))) server t)
        × ((start_read io c (false ∷ []) reader).1
            ≡ ok (on_message (cut c (told_by id server later text)) ∷ []))
  chat-served app now s id later server reader r (n, n') (t, t') on wrote d at on' reads = (
    write_message-frame app now s t on wrote,
    chat-Heard (written_by app now text) id later server n t refl n' t' d at,
    start_read-chat (told_by id server later text) reader r n' t' refl on' reads,
  )
