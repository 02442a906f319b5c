-- ===== src/Client/Newlines.antt =====
-- A name with a newline: the server takes it, and the clients that hear it cannot read its messages.
use tyfirc.Base.{
  false, ◌⊎◌, inl, inr, ◌≡◌, refl, ap, ◌∙◌, [], ◌∷◌, ◌++◌, append_assoc, Lacks, some, arith,
}
use tyfirc.Base.Text.{Str, compare_str}
use tyfirc.Base.Map.{lookup}
use tyfirc.Base.Result.{ok, throw, invalid_argument}
use tyfirc.Misc.{logged_in}
use tyfirc.Time.{Clock, time_point_from_str}
use tyfirc.Time.RoundTrip.{time_format, time_text, broken_down}
use tyfirc.Message.{Message}
use tyfirc.Message
use tyfirc.Message.Parts.{message_text, deserialize-refused}
use tyfirc.Message.RoundTrip.{shown_name}
use tyfirc.ScMessage.Types.{message}
use tyfirc.ScMessage.{separator, frame, get_property}
use tyfirc.ScMessage.RoundTrip.{deserialize-frame}
use tyfirc.ScMessage.Make.{get_message_scmessage}
use tyfirc.ScMessage.Buffers.{chat, chat-IsWellFormed}
use tyfirc.Client.{
  Socket, ChatRw, signals, read_pass, read_loop, read_scmessage, or_discarded, start_read,
}
use tyfirc.Client.Chat.{IsShown, shown, get_message-chat, shown-Lacks}

shown_name-append : (p q : Str) → shown_name (p ++ b'\n' ∷ q) ≡ p ++ b'\n' ∷ q
shown_name-append [] q = ground arith
shown_name-append (x ∷ p) q = ground arith

-- Nothing, or a further newline and what follows it.
abbrev pub FromNewline : Str → Type 0
FromNewline tail = (tail ≡ []) ⊎ ((r : Str) × (tail ≡ b'\n' ∷ r))

module _ (c : Clock) (msg : Message) (p q tail : Str)
    (name : msg.username ≡ p ++ b'\n' ∷ (q ++ tail)) (hp : Lacks b'\n' p) (hq : Lacks b'\n' q)
    (ends : FromNewline tail)
    (no_date : time_point_from_str c q time_format ≡ throw invalid_argument) where
  abbrev behind : Str
  behind = time_text (broken_down c msg.time) ++ (b'\n' ∷ msg.text)

  named : shown c msg ≡ p ++ (b'\n' ∷ (q ++ (tail ++ (b'\n' ∷ behind))))
  named =
      rw (name, shown_name-append p (q ++ tail))
        (append_assoc p (b'\n' ∷ (q ++ tail)) _
          ∙ ap (λ x. p ++ (b'\n' ∷ x)) (append_assoc q tail (b'\n' ∷ behind)))

  -- What follows the newline stands where the date is looked for.
  shown-parts : (text : Str) × (shown c msg ≡ message_text p q text)
  shown-parts = elim ends [
    | inl none ↦ (behind, named ∙ ap (λ t. p ++ (b'\n' ∷ (q ++ (t ++ (b'\n' ∷ behind))))) none)
    | inr (r, more) ↦ (
      r ++ (b'\n' ∷ behind),
      named ∙ ap (λ t. p ++ (b'\n' ∷ (q ++ (t ++ (b'\n' ∷ behind))))) more,
    )
  ]

  deserialize-newline : Message.deserialize c (shown c msg) ≡ throw invalid_argument
  deserialize-newline =
      let (text, same) = shown-parts in
      ap (Message.deserialize c) same ∙ deserialize-refused p q text hp hq c no_date

  signals-newline : signals c message (chat (shown c msg)) ≡ throw invalid_argument
  unfolding signals get_property lookup compare_str
  signals-newline = rw deserialize-newline refl

  -- The server's message with a name that has a newline, where what follows the first newline, up to
  -- a further one or to the end of the name, is no date, is made without an error; a client that is
  -- logged in and reads its bytes ends its loop with `invalid_argument`. The name and the text have
  -- no separator, and the year has four digits and no daylight saving.
  pub start_read-newline :
      {S : Type 0} (io : Socket S) (reader : ChatRw S) (s : S)
      → Lacks separator msg.username
      → Lacks separator msg.text
      → IsShown c msg.time
      → reader.con_state ≡ logged_in
      → io.read_until reader.socket ≡ (some (frame (chat (shown c msg))), s)
      → (get_message_scmessage c msg ≡ ok (chat (shown c msg)))
        × ((start_read io c (false ∷ []) reader).1 ≡ throw invalid_argument)
  unfolding start_read read_loop read_pass read_scmessage or_discarded
  start_read-newline io reader s hn ht t on reads = (
    get_message-chat c msg t,
    rw
        (
          on,
          reads,
          deserialize-frame (chat (shown c msg))
              (chat-IsWellFormed (shown c msg) (shown-Lacks c msg hn ht)),
          signals-newline,
        )
        refl,
  )
