-- ===== src/Server/Writing.antt =====
-- The writes from the queues: in every state that the server can reach, a session has at most one
-- under way, of the message at the front of its queue.
pub mod Calm
pub mod Taken
pub mod Busy
pub mod Queues
pub mod Rooms
pub mod Reachable
use tyfirc.Base.{
  ℕ, suc, ◌+◌, ◌≤◌, ◌<◌, Bool, true, false, ◌≡◌, ◌⊎◌, inl, inr, ◌∙◌, List, [], ◌∷◌, ◌++◌, All, ◌==◌,
  if◌then◌else◌,
}
use tyfirc.Base.Text.{Str}
use tyfirc.ScMessage.{ScMessage, frame}
use tyfirc.Server.{
  Session, Op, accepting, handshaking, reading_auth, reading_message, answering_failure,
  answering_success, writing, Server,
}
use tyfirc.Server.ChatRoom.Deliver.{queue_of}

-- The writes from the queue of a session that are under way.
abbrev pub writers : ℕ → List Op → List Str
writers id [] = []
writers id (writing j bytes ∷ ops) = if j == id then bytes ∷ writers id ops else writers id ops
writers id (accepting j ∷ ops) = writers id ops
writers id (handshaking j ∷ ops) = writers id ops
writers id (reading_auth j ∷ ops) = writers id ops
writers id (reading_message j ∷ ops) = writers id ops
writers id (answering_failure j bytes ∷ ops) = writers id ops
writers id (answering_success j bytes ∷ ops) = writers id ops

-- The sessions that wait for their connection.
abbrev pub accepts : List Op → List ℕ
accepts [] = []
accepts (accepting j ∷ ops) = j ∷ accepts ops
accepts (_ ∷ ops) = accepts ops

-- None, or one, of the bytes of the front.
abbrev pub OneWriter : List Str → List ScMessage → Type 0
OneWriter [] queue = Unit
OneWriter (bytes ∷ []) [] = ⊥
OneWriter (bytes ∷ []) (m ∷ queue) = bytes ≡ frame m
OneWriter (bytes ∷ other ∷ more) queue = ⊥

-- Nothing is left to write, or a write is under way.
abbrev pub HasWriter : ℕ → Server → Type 0
HasWriter id s = (queue_of id s ≡ []) ⊎ ((bytes : Str) × (writers id s.ops ≡ bytes ∷ []))

-- The elements of a set in their order, below a bound.
abbrev pub Rising : ℕ → List ℕ → Type 0
Rising n [] = Unit
Rising n (id ∷ ids) = (id < n) × All (λ j. id < j) ids × Rising n ids

-- The room is a set of sessions that exist; one that does not exist has nothing to write.
pub record IsServed (s : Server) : Type 0 where
  pub room : Rising s.next_id s.sessions
  pub one : (id : ℕ) → OneWriter (writers id s.ops) (queue_of id s)
  pub nothing : (id : ℕ) → s.next_id ≤ id → (writers id s.ops ≡ []) × (queue_of id s ≡ [])

pub same-HasWriter :
    (j : ℕ) (s t : Server)
    → queue_of j t ≡ queue_of j s
    → writers j t.ops ≡ writers j s.ops
    → HasWriter j s
    → HasWriter j t
same-HasWriter j s t queue ops (inl empty) = inl (queue ∙ empty)
same-HasWriter j s t queue ops (inr (bytes, under_way)) = inr (bytes, ops ∙ under_way)
