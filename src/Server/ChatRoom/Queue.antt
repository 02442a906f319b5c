-- ===== src/Server/ChatRoom/Queue.antt =====
-- The write queue of a session: messages go out one at a time, in the order in which they came.
use tyfirc.Base.{
  ℕ, false, ◌≡◌, refl, sym, ap, ◌∙◌, List, [], ◌∷◌, ◌++◌, map, arith, append_assoc, append-nil,
  ◌==◌, if◌then◌else◌, eq→==,
}
use mathlib.Core.List.{map-append}
use tyfirc.Base.Text.{Str}
use tyfirc.Base.Result.{Result, ok, ub, ◌>>=◌}
use tyfirc.ScMessage.{ScMessage, frame}
use tyfirc.Server.{Session, Op, writing, Server, set_session, update, start_op}
use tyfirc.Server.ChatRoom.{write_scmessage, handle_written}

-- What happens to the queue of a session: a message is put behind it, or a write has ended.
pub data QueueEvent : Type 0 where
  pushed : ScMessage → QueueEvent
  wrote : QueueEvent

abbrev pub run_event : ℕ → QueueEvent → Server → Result Server
run_event id (pushed m) s = write_scmessage id m s
run_event id wrote s = handle_written id false s

abbrev pub run_events : ℕ → List QueueEvent → Server → Result Server
run_events id [] s = ok s
run_events id (e ∷ es) s = do t ← run_event id e s; run_events id es t

-- The messages that were put behind the queue, in their order.
abbrev pub messages : List QueueEvent → List ScMessage
messages [] = []
messages (pushed m ∷ es) = m ∷ messages es
messages (wrote ∷ es) = messages es

-- The bytes that were handed to the socket from the queue, in their order; `ops` has the newest
-- operation in front.
abbrev pub started : ℕ → List Op → List Str
started id [] = []
started id (writing j bytes ∷ ops) =
    if j == id then started id ops ++ bytes ∷ [] else started id ops
started id (op ∷ ops) = started id ops

abbrev pub behind_front : List ScMessage → List ScMessage
behind_front [] = []
behind_front (m ∷ ms) = ms

-- What was handed over, and what waits behind the message that is under way.
abbrev pub outgoing : ℕ → Server → List Str
outgoing id s = started id s.ops ++ map frame (behind_front (s.session id).msg_queue)

pub update_self : (f : ℕ → Session) (id : ℕ) (v : Session) → update f id v id ≡ v
update_self f id v = rw (update, eq→== id id refl) refl

-- The queue of a session, changed.
abbrev pub with_queue : ℕ → List ScMessage → Server → Server
with_queue id queue s = set_session id (record (s.session id) { msg_queue = queue }) s

-- What the two handlers of a queue do, by the queue that they find.
pub write_scmessage-nil :
    (id : ℕ) (m : ScMessage) (s : Server)
    → (s.session id).msg_queue ≡ []
    → write_scmessage id m s ≡ ok (start_op (writing id (frame m)) (with_queue id (m ∷ []) s))
unfolding write_scmessage
write_scmessage-nil id m s e = ground (arith, append-nil (m ∷ []))

pub write_scmessage-cons :
    (id : ℕ) (m q : ScMessage) (ms : List ScMessage) (s : Server)
    → (s.session id).msg_queue ≡ q ∷ ms
    → write_scmessage id m s ≡ ok (with_queue id (q ∷ ms ++ m ∷ []) s)
unfolding write_scmessage
write_scmessage-cons id m q ms s e = rw e refl

pub handle_written-last :
    (id : ℕ) (q : ScMessage) (s : Server)
    → (s.session id).msg_queue ≡ q ∷ []
    → handle_written id false s ≡ ok (with_queue id [] s)
unfolding handle_written
handle_written-last id q s e = rw e refl

pub handle_written-next :
    (id : ℕ) (q r : ScMessage) (ms : List ScMessage) (s : Server)
    → (s.session id).msg_queue ≡ q ∷ r ∷ ms
    → handle_written id false s ≡ ok (start_op (writing id (frame r)) (with_queue id (r ∷ ms) s))
unfolding handle_written
handle_written-next id q r ms s e = ground arith

pub handle_written-nil :
    (id : ℕ) (s : Server) → (s.session id).msg_queue ≡ [] → handle_written id false s ≡ ub
unfolding handle_written
handle_written-nil id s e = rw e refl

push_event :
    (id : ℕ) (m : ScMessage) (s : Server) (queue : List ScMessage)
    → (s.session id).msg_queue ≡ queue
    → (t : Server) × (write_scmessage id m s ≡ ok t)
      × ((t.session id).msg_queue ≡ queue ++ m ∷ [])
      × (outgoing id t ≡ outgoing id s ++ frame m ∷ [])
push_event id m s [] e = (
  start_op (writing id (frame m)) (with_queue id (m ∷ []) s),
  write_scmessage-nil id m s e,
  rw (eq→== id id refl) refl,
  rw (eq→== id id refl, e) (simp append-nil),
)
push_event id m s (q ∷ queue) e = (
  with_queue id (q ∷ queue ++ m ∷ []) s,
  write_scmessage-cons id m q queue s e,
  rw (eq→== id id refl) refl,
  rw (eq→== id id refl, e) (simp (map-append, append_assoc)),
)

wrote_event :
    (id : ℕ) (s : Server) (q : ScMessage) (queue : List ScMessage)
    → (s.session id).msg_queue ≡ q ∷ queue
    → (t : Server) × (handle_written id false s ≡ ok t)
      × ((t.session id).msg_queue ≡ queue)
      × (outgoing id t ≡ outgoing id s)
wrote_event id s q [] e = (
  with_queue id [] s,
  handle_written-last id q s e,
  rw (eq→== id id refl) refl,
  rw (eq→== id id refl, e) refl,
)
wrote_event id s q (r ∷ queue) e = (
  start_op (writing id (frame r)) (with_queue id (r ∷ queue) s),
  handle_written-next id q r queue s e,
  rw (eq→== id id refl) refl,
  rw (eq→== id id refl, e) (simp append_assoc),
)

-- A write ends only if one was started: the queue is not empty then.
abbrev pub IsSchedule : List ScMessage → List QueueEvent → Type 0
IsSchedule queue [] = Unit
IsSchedule queue (pushed m ∷ es) = IsSchedule (queue ++ m ∷ []) es
IsSchedule [] (wrote ∷ es) = ⊥
IsSchedule (q ∷ queue) (wrote ∷ es) = IsSchedule queue es

run_events_fifo :
    (id : ℕ) (es : List QueueEvent) (s : Server) (queue : List ScMessage)
    → (s.session id).msg_queue ≡ queue
    → IsSchedule queue es
    → (t : Server) × (run_events id es s ≡ ok t)
      × (outgoing id t ≡ outgoing id s ++ map frame (messages es))
run_events_fifo id [] s queue e h = (s, refl, sym (append-nil _))
run_events_fifo id (pushed m ∷ es) s queue e h =
    let (t, ran, queued, out) = push_event id m s queue e in
    let (u, rest, out') = run_events_fifo id es t (queue ++ m ∷ []) queued h in
    (
      u,
      rw ran rest,
      out' ∙ ap (λ x. x ++ map frame (messages es)) out ∙ append_assoc _ (frame m ∷ []) _,
    )
run_events_fifo id (wrote ∷ es) s [] e h = absurd h
run_events_fifo id (wrote ∷ es) s (q ∷ queue) e h =
    let (t, ran, queued, out) = wrote_event id s q queue e in
    let (u, rest, out') = run_events_fifo id es t queue queued h in
    (u, rw ran rest, out' ∙ ap (λ x. x ++ map frame (messages es)) out)

-- However pushes and ended writes follow one another, as long as a write ends only when one was
-- started, no handler fails, and the frames handed to
-- the socket, with those still waiting behind the front, are the frames of the messages in the
-- order in which they came: none is lost, doubled or overtaken.
pub run_events-outgoing :
    (id : ℕ) (es : List QueueEvent) (s : Server)
    → IsSchedule (s.session id).msg_queue es
    → (t : Server) × (run_events id es s ≡ ok t)
      × (outgoing id t ≡ outgoing id s ++ map frame (messages es))
run_events-outgoing id es s h = run_events_fifo id es s (s.session id).msg_queue refl h
