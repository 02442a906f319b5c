-- ===== src/Server/Handlers/Speaking.antt =====
-- `HandleScMessage`: what a session that speaks makes the room hear.
use tyfirc.Base.{
  ℕ, false, ◌≡◌, refl, sym, ap, ◌∙◌, ==→eq, [], ◌∷◌, ◌++◌, if◌then◌else◌, eq→==, Bool-cases, inl,
  inr, ◌==◌,
}
use tyfirc.Base.Text.{Str, codes}
use tyfirc.Base.Result.{ok}
use tyfirc.Time.{Clock}
use tyfirc.Message.{Message}
use tyfirc.Message
use tyfirc.ScMessage.Types.{ScMessageType, message}
use tyfirc.ScMessage.{ScMessage, get_property, deserialize}
use tyfirc.ScMessage.Make.{get_message_scmessage}
use tyfirc.Server.{reading_message, Server, set_session, start_op}
use tyfirc.Server.ChatRoom.{deliver_scmessage}
use tyfirc.Server.ChatRoom.Deliver.{occurs, Distinct, queue_of, deliver-queues}
use tyfirc.Server.Handlers.{broadcast, dispatch, catch_invalid, handle_scmessage}

-- The queues behind a message that every session of the room gets.
abbrev pub Heard : ScMessage → Server → Server → Type 0
Heard scmsg s t =
    (j : ℕ)
    → queue_of j t ≡ (if occurs j s.sessions then queue_of j s ++ scmsg ∷ [] else queue_of j s)

broadcast-Heard :
    (c : Clock) (now id : ℕ) (m scmsg : ScMessage) (text : Str) (msg : Message) (s : Server)
    → Distinct s.sessions
    → get_property m (codes "message[0]") ≡ ok text
    → Message.deserialize c text ≡ ok msg
    → get_message_scmessage c
        (record { username = (s.session id).username; text = msg.text; time = now })
      ≡ ok scmsg
    → (t : Server) × (broadcast c now id m s ≡ ok t) × Heard scmsg s t
unfolding broadcast deliver_scmessage
broadcast-Heard c now id m scmsg text msg s d e₁ e₂ e₃ =
    let (t, done, heard) = deliver-queues scmsg s.sessions s d in (t, rw (e₁, e₂, e₃) done, heard)

dispatch-message :
    (c : Clock) (now id : ℕ) (type : ScMessageType) (m : ScMessage) (s : Server)
    → type ≡ message
    → dispatch c now id type m s ≡ catch_invalid s (broadcast c now id m s)
unfolding dispatch
dispatch-message c now id type m s h = rw h refl

keeps_queue :
    (id j : ℕ) (t : Server)
    → ((set_session id (record (t.session id) { read_buffer = [] }) t).session j).msg_queue
      ≡ (t.session j).msg_queue
keeps_queue id j t = elim (Bool-cases (j == id)) [
  | inl e ↦ rw e (ap (λ k. (t.session k).msg_queue) (sym (==→eq j id e)))
  | inr e ↦ rw e refl
]

-- If no session stands twice in the room, a session whose buffer has a chat message whose contents can
-- be read makes every session of the room, itself and those that
-- are not logged in too, get one message, behind what it waits for already: with the text that was
-- sent, but with the name of the session and the time of the server, whatever name and time were
-- sent. Then it reads on, with an empty buffer.
pub handle_scmessage-Heard :
    (c : Clock) (now id : ℕ) (m scmsg : ScMessage) (text : Str) (msg : Message) (s : Server)
    → Distinct s.sessions
    → deserialize (s.session id).read_buffer ≡ ok m
    → m.msg_type ≡ message
    → get_property m (codes "message[0]") ≡ ok text
    → Message.deserialize c text ≡ ok msg
    → get_message_scmessage c
        (record { username = (s.session id).username; text = msg.text; time = now })
      ≡ ok scmsg
    → (t : Server) × (handle_scmessage c now id false s ≡ ok t)
      × Heard scmsg s t
      × ((t.session id).read_buffer ≡ [])
unfolding handle_scmessage
handle_scmessage-Heard c now id m scmsg text msg s d e e₀ e₁ e₂ e₃ =
    let (u, done, heard) = broadcast-Heard c now id m scmsg text msg s d e₁ e₂ e₃ in
    let w = record (u.session id) { read_buffer = [] } in
    (
      start_op (reading_message id) (set_session id w u),
      rw (e, dispatch-message c now id m.msg_type m s e₀, done) refl,
      λ j. keeps_queue id j u ∙ heard j,
      rw (eq→== id id refl) refl,
    )
