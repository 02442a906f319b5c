-- ===== src/Server/Order.antt =====
-- The order of the messages in a run of the server: what is said in the room, and what has been
-- written to a session.
mod Steps
pub mod Handled
pub mod Turns
pub mod Entering
mod Kept
mod Names
pub mod Clean
pub mod Growing
pub mod Authors
pub mod Agreement
pub mod Reachable
use tyfirc.Base.{
  ℕ, suc, ◌<◌, Bool, true, false, ◌||◌, ◌≡◌, ◌⊎◌, List, [], ◌∷◌, ◌++◌, map, ◌==◌, if◌then◌else◌,
}
use tyfirc.Base.Text.{Str, codes}
use tyfirc.Base.Result.{Result, ok, throw, ub, ◌>>=◌}
use tyfirc.Time.{Clock}
use tyfirc.Message.{Message}
use tyfirc.Message
use tyfirc.ScMessage.{ScMessage, frame, deserialize, get_property}
use tyfirc.ScMessage.Types.{ScMessageType, message}
use tyfirc.ScMessage.Make.{get_message_scmessage}
use tyfirc.Server.{
  Session, Op, accepting, handshaking, reading_auth, reading_message, answering_failure,
  answering_success, writing, Server,
}
use tyfirc.Server.ChatRoom.Deliver.{occurs, queue_of}
use tyfirc.Server.App.{Event, failed, succeeded, Reach, here, next, turn}
use tyfirc.Server.Writing.{accepts}

-- The message that a session's chat message becomes: with the session's name and the server's time.
abbrev pub rewritten : Clock → ℕ → ScMessage → Session → Result ScMessage
rewritten c now m w = do
  text ← get_property m (codes "message[0]")
  msg ← Message.deserialize c text
  get_message_scmessage c (record { username = w.username; text = msg.text; time = now })

abbrev pub made : Result ScMessage → List ScMessage
made (ok m) = m ∷ []
made _ = []

-- What a message of a type makes the room hear.
abbrev pub said_by : Clock → ℕ → ScMessageType → ScMessage → Session → List ScMessage
said_by c now message m w = made (rewritten c now m w)
said_by c now _ m w = []

-- What the message in a session's buffer makes the room hear, if there is one.
abbrev pub said_in : Clock → ℕ → Result ScMessage → Session → List ScMessage
said_in c now (ok m) w = said_by c now m.msg_type m w
said_in c now _ w = []

abbrev pub said_buffer : Clock → ℕ → Session → List ScMessage
said_buffer c now w = said_in c now (deserialize w.read_buffer) w

-- What an operation that completes makes the room hear.
unfoldable pub said : Clock → ℕ → Op → Event → Server → List ScMessage
said c now (reading_message id) (succeeded bytes) s =
    said_buffer c now (record (s.session id) { read_buffer = (s.session id).read_buffer ++ bytes })
said c now _ e s = []

-- What it has written to a session from its queue.
unfoldable pub wrote : ℕ → Op → Event → List Str
wrote id (writing j bytes) (succeeded more) = if j == id then bytes ∷ [] else []
wrote id _ e = []

-- Whether a session enters the room.
unfoldable pub enters : ℕ → Op → Event → Bool
enters id (accepting j) (succeeded bytes) = j == id
enters id _ e = false

-- All that has been said in a run, in its order.
unfoldable pub log : {c : Clock} {s t : Server} → Reach c s t → List ScMessage
unfolding said
log here = []
log {c = c} (next {t} r (turn now before op after e at allowed h)) = log r ++ said c now op e t

-- All that was written to a session from its queue.
unfoldable pub written : {c : Clock} {s t : Server} → ℕ → Reach c s t → List Str
unfolding wrote
written id here = []
written id (next r (turn now before op after e at allowed h)) = written id r ++ wrote id op e

unfoldable pub joined : {c : Clock} {s t : Server} → ℕ → Reach c s t → Bool
unfolding enters
joined id here = false
joined id (next r (turn now before op after e at allowed h)) = joined id r || enters id op e

-- What had been said before a session entered; all, if it has not yet.
unfoldable pub missed : {c : Clock} {s t : Server} → ℕ → Reach c s t → List ScMessage
unfolding log joined
missed id here = []
missed id (next r (turn now before op after e at allowed h)) =
    if joined id r then missed id r else log (next r (turn now before op after e at allowed h))

-- Behind what a session missed, the room said what the session heard, and then what it did not hear
-- any more; a session that is in the room heard all. What it heard was written to it or waits in its
-- queue, in that order.
pub record Ordered (id : ℕ) (log missed : List ScMessage) (written : List Str) (s : Server)
    : Type 0 where
  pub heard : List ScMessage
  pub unheard : List ScMessage
  pub all : log ≡ missed ++ (heard ++ unheard)
  pub in_order : map frame heard ≡ written ++ map frame (queue_of id s)
  pub latest : (occurs id s.sessions ≡ false) ⊎ (unheard ≡ [])

-- The invariant: a session enters the room once.
pub record IsOrdered (id : ℕ) (log missed : List ScMessage) (joined : Bool) (written : List Str)
    (s : Server) : Type 0 where
  pub ordered : Ordered id log missed written s
  pub before :
      joined ≡ false → (missed ≡ log) × (ordered.heard ≡ []) × (occurs id s.sessions ≡ false)
  pub once : joined ≡ true → (occurs id (accepts s.ops) ≡ false) × (id < s.next_id)

-- One session waits for its connection, the newest.
pub record HasDoor (s : Server) : Type 0 where
  pub door : ℕ
  pub door_open : accepts s.ops ≡ door ∷ []
  pub door_newest : s.next_id ≡ suc door
