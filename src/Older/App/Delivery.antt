-- ===== src/Older/App/Delivery.antt =====
-- What the writing thread has written: to each session some of the messages, each once and in the
-- order of the list, whatever the handlers do meanwhile.
mod Kept
mod Thread
mod Handled
pub mod Reachable
use tyfirc.Base.{
  ℕ, zero, suc, ◌≤◌, ◌<◌, Bool, true, false, ◌≡◌, ◌≢◌, refl, sym, ap, ◌∙◌, List, [], ◌∷◌, ◌++◌, map,
  All, Option, none, some, length, take, get_elem?, arith,
}
use tyfirc.Base.Text.{Str}
use tyfirc.Base.Sublist.{Sublist, Sublist-nil}
use tyfirc.Base.Result.{Result, ok}
use tyfirc.Time.{Clock}
use tyfirc.Message.{Message}
use tyfirc.AuthManager.{FileAuthManager}
use tyfirc.Server.ChatRoom.Deliver.{Distinct, occurs}
use tyfirc.Older.{
  SessionList, Op, accepting, handshaking, reading_auth, reading_message, answering_failure,
  answering_success, Phase, waiting, writing, Server,
}
use tyfirc.Older.App.{message_bytes, Step, Reach, here, next, initial}

-- The bytes of the first `n` messages.
abbrev pub frames : Clock → ℕ → List Message → List (Result Str)
frames c n msgs = map (message_bytes c) (take n msgs)

-- To a session were written some of the first `n` messages, each once and in their order.
abbrev pub InOrder : Clock → ℕ → List Message → List Str → Type 0
InOrder c n msgs bytes = Sublist (map ok bytes) (frames c n msgs)

-- How many messages the thread has taken up.
abbrev pub taken : Phase → ℕ
taken (waiting k) = k
taken (writing k) = suc k

-- The message that is being written has not gone to the sessions from the place on.
abbrev pub Ahead : Clock → Phase → List Message → (ℕ → List Str) → List ℕ → Type 0
Ahead c (waiting k) msgs outbox ids = Unit
Ahead c (writing k) msgs outbox ids = All (λ id. InOrder c k msgs (outbox id)) ids

-- The sessions that wait for their connection.
abbrev pub accepts : List Op → List ℕ
accepts [] = []
accepts (accepting id ∷ ops) = id ∷ accepts ops
accepts (_ ∷ ops) = accepts ops

-- The invariant, of the parts of the server that it is about. One session waits for its connection;
-- it is the newest, and not in the list yet.
pub record IsDelivered (c : Clock) (phase : Phase) (msgs : List Message) (outbox : ℕ → List Str)
    (list : SessionList) (next_id : ℕ) (doors : List ℕ) : Type 0 where
  pub door : ℕ
  pub door_open : doors ≡ door ∷ []
  pub door_newest : next_id ≡ suc door
  pub members : All (λ id. id < door) (list.before ++ list.from)
  pub distinct : Distinct (list.before ++ list.from)
  pub untouched : (id : ℕ) → door ≤ id → outbox id ≡ []
  pub taken_le : taken phase ≤ length msgs
  pub in_order : (id : ℕ) → InOrder c (taken phase) msgs (outbox id)
  pub ahead : Ahead c phase msgs outbox list.from

abbrev pub Delivered : Clock → Server → Type 0
Delivered c s = IsDelivered c s.phase s.msg_queue s.outbox s.sessions s.next_id (accepts s.ops)
