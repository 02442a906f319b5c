-- ===== src/Server/Progress/Busy.antt =====
-- The sessions of the room that have something to write, over the steps of the server.
use tyfirc.Base.{
  ℕ, Bool, true, false, ◌≡◌, ◌≢◌, inl, inr, refl, sym, ap, ◌∙◌, List, [], ◌∷◌, ◌++◌, map, ◌==◌,
  eq→==, ne→==, ==→eq, ==→ne, if◌then◌else◌, Bool-cases, arith,
}
use tyfirc.Base.Text.{Str}
use tyfirc.Base.Result.{ok}
use tyfirc.Time.{Clock}
use tyfirc.AuthManager.{FileAuthManager}
use tyfirc.ScMessage.{ScMessage, frame}
use tyfirc.Server.{
  Op, accepting, handshaking, reading_auth, reading_message, answering_failure, answering_success,
  writing, Server,
}
use tyfirc.Server.ChatRoom.{disconnect, remove_session, erase_id, insert_id}
use tyfirc.Server.ChatRoom.Deliver.{Distinct, occurs, queue_of}
use tyfirc.Server.App.{
  Event, failed, succeeded, is_error, complete, initial, turn, Reach, here, next,
}
use tyfirc.Server.Writing.{writers, accepts, HasWriter, same-HasWriter, IsServed}
use tyfirc.Server.Writing.Calm.{Calm, Calm-HasWriter}
use tyfirc.Server.Writing.Rooms.{Rising-Distinct}
use tyfirc.Server.Writing.Taken.{WriterOut, writer_out, others_out}
use tyfirc.Server.Writing.Queues.{Popped, written-Popped}
use tyfirc.Server.Writing.Reachable.{Reach-IsServed, failed_lem, failed_write}
use tyfirc.Server.Order.{log, missed, joined, written, IsOrdered, HasDoor}
use tyfirc.Server.Order.Turns.{Turned, spoke, ended, opened, complete-Turned}
use tyfirc.Server.Order.Entering.{Opened, insert_id-occurs, handle_accept-Opened, one_door}
use tyfirc.Server.Order.Reachable.{Reach-IsOrdered, Reach-HasDoor}

abbrev pub IsBusy : Server → Type 0
IsBusy s = (id : ℕ) → occurs id s.sessions ≡ true → HasWriter id s

erase_id-gone : (id : ℕ) (ids : List ℕ) → Distinct ids → occurs id (erase_id id ids) ≡ false
unfolding erase_id
erase_id-gone id [] d = refl
erase_id-gone id (j ∷ js) (absent, d) = elim (Bool-cases (j == id)) [
  | inl e ↦ rw (e, erase_id) (rw (==→eq j id e) at absent)
  | inr e ↦
      rw (e, erase_id) (rw (ne→== id j (λ k. ==→ne j id e (sym k)), erase_id-gone id js d) refl)
]

gone : (id : ℕ) (s : Server) → Distinct s.sessions → occurs id (disconnect id s).sessions ≡ false
unfolding disconnect remove_session
gone id s d = erase_id-gone id s.sessions d

-- The session that waits for its connection has nothing to write.
door_queue :
    (id : ℕ) (lg ms : List ScMessage) (inside : Bool) (ws : List Str) (s : Server)
    → accepts s.ops ≡ id ∷ []
    → IsOrdered id lg ms inside ws s
    → queue_of id s ≡ []
door_queue id lg ms true ws s door v =
    let shut = rw (door, eq→== id id refl) at (v.once refl).0 in cc
door_queue id lg ms false ws s door v =
    let (_, none, _) = v.before refl in
    empty ws (queue_of id s) (ap (map frame) (sym none) ∙ v.ordered.in_order)
  where
    empty : (ws : List Str) (queue : List ScMessage) → [] ≡ ws ++ map frame queue → queue ≡ []
    empty [] [] e = refl
    empty [] (m ∷ queue) e = cc
    empty (w ∷ ws) queue e = cc

module _ (c : Clock) (now : ℕ) (s : Server) (before after : List Op) (t : Server) (v : IsServed s)
    (busy : IsBusy s) where
  abbrev u : Server
  u = record s { ops = before ++ after }

  out-HasWriter :
      (op : Op) (j : ℕ)
      → s.ops ≡ before ++ op ∷ after
      → writers j (op ∷ []) ≡ []
      → HasWriter j s
      → HasWriter j u
  out-HasWriter op j at none h =
      same-HasWriter j s u refl (others_out j before after op none ∙ ap (writers j) (sym at)) h

  other-HasWriter :
      (id : ℕ) (bytes : Str) (j : ℕ)
      → WriterOut id bytes s u
      → j ≢ id
      → HasWriter j s
      → HasWriter j u
  other-HasWriter id bytes j out ne h = same-HasWriter j s u refl (out.same_others j ne) h

  Popped-IsBusy :
      (id : ℕ) (bytes : Str) (out : WriterOut id bytes s u) → Popped id out.rest u t → IsBusy t
  Popped-IsBusy id bytes out p j inside = elim (Bool-cases (j == id)) [
    | inl e ↦ rw (==→eq j id e) p.own_writer
    | inr e ↦
        let ne = ==→ne j id e in
        p.other_writers_kept j ne
          (other-HasWriter id bytes j out ne (busy j (rw p.same_room at inside)))
  ]

  failed-IsBusy :
      (id : ℕ) (bytes : Str)
      → WriterOut id bytes s u
      → Calm u t
      → occurs id t.sessions ≡ false
      → IsBusy t
  failed-IsBusy id bytes out l left j inside =
      let ne : j ≢ id = λ e. cc in
      Calm-HasWriter j u t l (other-HasWriter id bytes j out ne (busy j (l.stayed j inside)))

  Opened-IsBusy :
      (id : ℕ) (e : Event)
      → s.ops ≡ before ++ accepting id ∷ after
      → Opened (if is_error e then s.sessions else insert_id id s.sessions) u t
      → queue_of id s ≡ []
      → IsBusy t
  Opened-IsBusy id e at o empty j inside = elim (Bool-cases (j == id)) [
    | inl k ↦ inl (rw (==→eq j id k) (o.queues id ∙ empty))
    | inr k ↦ same-HasWriter j u t (o.queues j) (o.same_writers j) (
        out-HasWriter (accepting id) j at refl
          (busy j (entered_before e (==→ne j id k) (rw o.in_room at inside))))
  ]
    where
      entered_before :
          (e : Event)
          → j ≢ id
          → occurs j (if is_error e then s.sessions else insert_id id s.sessions) ≡ true
          → occurs j s.sessions ≡ true
      entered_before (failed bytes) ne h = h
      entered_before (succeeded bytes) ne h = insert_id-occurs j id s.sessions ne h

  -- Every operation but a write from a queue.
  turn-IsBusy :
      (op : Op) (e : Event)
      → s.ops ≡ before ++ op ∷ after
      → ((j : ℕ) → writers j (op ∷ []) ≡ [])
      → ((id : ℕ) → accepts s.ops ≡ id ∷ [] → queue_of id s ≡ [])
      → HasDoor s
      → Turned c now s u t op e
      → IsBusy t
  turn-IsBusy op e at quiet empty d (spoke doors none out p) j inside =
      p.busy j (out-HasWriter op j at (quiet j) (busy j (p.stayed j inside)))
  turn-IsBusy _ _ at quiet empty d (ended {id} {bytes} {more} out p) j inside =
      let none = rw (eq→== id id refl) at (quiet id) in cc
  turn-IsBusy _ _ at quiet empty d (opened {id} {e} left) j inside =
      let (_, _, door) = one_door s before after id at d in
      Opened-IsBusy id e at
        (rw (← left) (handle_accept-Opened id (is_error e) u (v.nothing s.next_id (omega arith)).1))
        (empty id door) j inside

  complete-IsBusy :
      (op : Op) (e : Event)
      → s.ops ≡ before ++ op ∷ after
      → complete c now op e u ≡ ok t
      → ((id : ℕ) → accepts s.ops ≡ id ∷ [] → queue_of id s ≡ [])
      → HasDoor s
      → IsBusy t
  unfolding complete
  complete-IsBusy (writing id bytes) (failed more) at h empty d =
      let left : disconnect id u ≡ t = cc (failed_lem id u) in
      failed-IsBusy id bytes (writer_out id bytes before after s at v) (failed_write id u t h)
        (rw (← left) (gone id u (Rising-Distinct s.next_id s.sessions v.room)))
  complete-IsBusy (writing id bytes) (succeeded more) at h empty d =
      let out = writer_out id bytes before after s at v in
      let (w, done, p) = written-Popped id bytes before after s out in
      let same : w ≡ t = cc in Popped-IsBusy id bytes out (rw same at p)
  complete-IsBusy (accepting id) e at h empty d =
      turn-IsBusy (accepting id) e at (λ j. refl) empty d
        (complete-Turned c now s before after t (accepting id) e at h v)
  complete-IsBusy (handshaking id) e at h empty d =
      turn-IsBusy (handshaking id) e at (λ j. refl) empty d
        (complete-Turned c now s before after t (handshaking id) e at h v)
  complete-IsBusy (reading_auth id) e at h empty d =
      turn-IsBusy (reading_auth id) e at (λ j. refl) empty d
        (complete-Turned c now s before after t (reading_auth id) e at h v)
  complete-IsBusy (reading_message id) e at h empty d =
      turn-IsBusy (reading_message id) e at (λ j. refl) empty d
        (complete-Turned c now s before after t (reading_message id) e at h v)
  complete-IsBusy (answering_failure id bytes) e at h empty d =
      turn-IsBusy (answering_failure id bytes) e at (λ j. refl) empty d
        (complete-Turned c now s before after t (answering_failure id bytes) e at h v)
  complete-IsBusy (answering_success id bytes) e at h empty d =
      turn-IsBusy (answering_success id bytes) e at (λ j. refl) empty d
        (complete-Turned c now s before after t (answering_success id bytes) e at h v)

initial-IsBusy : (a : FileAuthManager) → IsBusy (initial a)
unfolding initial
initial-IsBusy a id inside = cc

-- In every state that the server can reach, a session of the room has nothing left to write, or a
-- write from its queue is under way.
pub Reach-IsBusy : (c : Clock) (a : FileAuthManager) {s : Server} → Reach c (initial a) s → IsBusy s
Reach-IsBusy c a here = initial-IsBusy a
Reach-IsBusy c a (next {t} {u} r (turn now before op after e at allowed h)) =
    complete-IsBusy c now t before after u (Reach-IsServed c a r) (Reach-IsBusy c a r) op e at h
      (λ id door.
        door_queue id (log r) (missed id r) (joined id r) (written id r) t door
          (Reach-IsOrdered c a id r))
      (Reach-HasDoor c a r)
