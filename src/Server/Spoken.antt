-- ===== src/Server/Spoken.antt =====
-- The chat messages of the states that the server can reach: tyfirc-server/tyfirc-session.cpp.
use tyfirc.Base.{
  ℕ, ◌≡◌, refl, sym, ap, ◌∙◌, ==→eq, eq→==, Bool-cases, inl, inr, List, [], ◌∷◌, ◌++◌, ◌==◌,
  if◌then◌else◌, Lacks,
}
use tyfirc.Base.Text.{Str, compare_str}
use tyfirc.Base.Map.{lookup}
use tyfirc.Base.Result.{ok}
use tyfirc.Time.{Clock}
use tyfirc.Message.{Message}
use tyfirc.Message
use tyfirc.AuthManager.{FileAuthManager}
use tyfirc.ScMessage.{ScMessage, separator, frame, deserialize, get_property}
use tyfirc.ScMessage.RoundTrip.{deserialize-frame}
use tyfirc.ScMessage.Make.{get_message_scmessage}
use tyfirc.ScMessage.Buffers.{chat, chat-IsWellFormed}
use tyfirc.Server.{Op, reading_message, Server}
use tyfirc.Server.ChatRoom.Deliver.{occurs, queue_of}
use tyfirc.Server.Handlers.Speaking.{Heard, handle_scmessage-Heard}
use tyfirc.Server.App.{Reach, initial, succeeded, receive, complete}
use tyfirc.Server.Accounts.{HasAccount}
use tyfirc.Server.Accounts.Reachable.{Reach-IsAuthorised, take_op-IsAuthorised}
use tyfirc.Server.Writing.Reachable.{Reach-Distinct}

module _ (id : ℕ) (bytes : Str) (s : Server) where
  buffer-receive :
      ((receive id bytes s).session id).read_buffer ≡ (s.session id).read_buffer ++ bytes
  unfolding receive
  buffer-receive = rw (eq→== id id refl) refl

  username-receive : ((receive id bytes s).session id).username ≡ (s.session id).username
  unfolding receive
  username-receive = rw (eq→== id id refl) refl

  queue-receive : (j : ℕ) → queue_of j (receive id bytes s) ≡ queue_of j s
  unfolding receive
  queue-receive j = elim (Bool-cases (j == id)) [
    | inl e ↦ rw (e, queue_of) (ap (λ k. queue_of k s) (sym (==→eq j id e)))
    | inr e ↦ rw (e, queue_of) refl
  ]

  sessions-receive : (receive id bytes s).sessions ≡ s.sessions
  unfolding receive
  sessions-receive = refl

-- In every state that the server can reach, where a session's read of a chat message ends with a
-- message whose text, which has no separator, can be read, and the message that is made of it can be
-- written, the session's name is that of an account, the handler returns, and every session of the
-- room gets one message, under that name and with the text that was sent and the server's time.
pub Reach-Heard :
    (c : Clock) (a : FileAuthManager) (now id : ℕ) (text bytes : Str) (msg : Message)
    (scmsg : ScMessage) (before after : List Op) {s : Server}
    → Reach c (initial a) s
    → s.ops ≡ before ++ reading_message id ∷ after
    → (s.session id).read_buffer ++ bytes ≡ frame (chat text)
    → Lacks separator text
    → Message.deserialize c text ≡ ok msg
    → get_message_scmessage c
        (record { username = (s.session id).username; text = msg.text; time = now })
      ≡ ok scmsg
    → HasAccount s id
      × ((t : Server) × (complete c now
              (reading_message id)
              (succeeded bytes)
              (record s { ops = before ++ after })
            ≡ ok t)
          × Heard scmsg s t)
unfolding complete
Reach-Heard c a now id text bytes msg scmsg before after {s} r at arrived clean said made =
    let u = record s { ops = before ++ after } in
    let (mine, _) =
      take_op-IsAuthorised s before (reading_message id) after at (Reach-IsAuthorised c a r) in
    let (t, done, heard, _) =
      handle_scmessage-Heard c now id (chat text) scmsg text msg (receive id bytes u)
        (rw (sessions-receive id bytes u) (Reach-Distinct c a r))
        (ap deserialize (buffer-receive id bytes u ∙ arrived)
          ∙ deserialize-frame (chat text) (chat-IsWellFormed text clean))
        refl (unfold get_property lookup compare_str in refl) said
        (rw (username-receive id bytes u) made) in
    (
      mine.1,
      (
        t,
        done,
        λ j.
            heard j
            ∙ ap (λ q. if occurs j s.sessions then q ++ scmsg ∷ [] else q)
                (queue-receive id bytes u j),
      ),
    )
