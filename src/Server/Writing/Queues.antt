-- ===== src/Server/Writing/Queues.antt =====
-- The handlers that push to the queues, start writes and take their end.
use tyfirc.Base.{
  ℕ, ◌≤◌, ◌<◌, false, ◌≡◌, ◌≢◌, refl, ◌∙◌, List, [], ◌∷◌, ◌++◌, ◌==◌, eq→==, ne→==, ==→eq, ==→ne,
  Bool-cases, inl, inr, arith,
}
use tyfirc.Base.Text.{Str}
use tyfirc.Base.Result.{ok, >>=-eq-ok}
use tyfirc.ScMessage.{ScMessage, frame}
use tyfirc.Server.{Op, writing, Server, start_op}
use tyfirc.Server.ChatRoom.{write_scmessage, handle_written, deliver}
use tyfirc.Server.ChatRoom.Deliver.{queue_of}
use tyfirc.Server.ChatRoom.Queue.{
  with_queue, write_scmessage-nil, write_scmessage-cons, handle_written-last, handle_written-next,
}
use tyfirc.Server.Writing.{writers, accepts, OneWriter, Rising, HasWriter, same-HasWriter, IsServed}
use tyfirc.Server.Writing.Busy.{changed-HasWriter, each-HasWriter, started-HasWriter}
use tyfirc.Server.Writing.Taken.{WriterOut, other_writers, own_writers, writer_out}

no_writer : (ws : List Str) → OneWriter ws [] → ws ≡ []
no_writer [] h = refl
no_writer (w ∷ []) h = absurd h
no_writer (w ∷ x ∷ ws) h = absurd h

more_queue :
    (ws : List Str) (q m : ScMessage) (queue : List ScMessage)
    → OneWriter ws (q ∷ queue)
    → OneWriter ws (q ∷ queue ++ m ∷ [])
more_queue [] q m queue h = tt
more_queue (w ∷ []) q m queue h = h
more_queue (w ∷ x ∷ ws) q m queue h = h

-- One session's queue and writes change.
changed-IsServed :
    (id : ℕ) (queue : List ScMessage) (ops : List Op) (s : Server)
    → id < s.next_id
    → ((j : ℕ) → j ≢ id → writers j ops ≡ writers j s.ops)
    → OneWriter (writers id ops) queue
    → IsServed s
    → IsServed (record (with_queue id queue s) { ops = ops })
changed-IsServed id queue ops s lt others h v = record {
  room = v.room;
  one = one_each;
  nothing = fresh;
}
  where
    t : Server
    t = record (with_queue id queue s) { ops = ops }

    one_each : (j : ℕ) → OneWriter (writers j ops) (t.session j).msg_queue
    one_each j = elim (Bool-cases (j == id)) [
      | inl e ↦ rw e (rw (==→eq j id e) h)
      | inr e ↦ rw (e, others j (==→ne j id e)) (v.one j)
    ]

    fresh : (j : ℕ) → s.next_id ≤ j → (writers j ops ≡ []) × ((t.session j).msg_queue ≡ [])
    fresh j le =
        let ne : j ≢ id = λ e. absurd (omega arith) in
        rw (ne→== j id ne, others j ne) (v.nothing j le)

-- A write of the front is started, if none is under way.
started-IsServed :
    (id : ℕ) (m : ScMessage) (queue : List ScMessage) (s : Server)
    → id < s.next_id
    → writers id s.ops ≡ []
    → IsServed s
    → IsServed (start_op (writing id (frame m)) (with_queue id (m ∷ queue) s))
started-IsServed id m queue s lt none v =
    changed-IsServed id (m ∷ queue) (writing id (frame m) ∷ s.ops) s lt
      (λ j. other_writers id j (frame m) s.ops) (rw (own_writers id (frame m) s.ops, none) refl) v

-- What a push or a delivery leaves.
pub record Pushed (s t : Server) : Type 0 where
  pub served : IsServed t
  pub next : t.next_id ≡ s.next_id
  pub same_room : t.sessions ≡ s.sessions
  pub same_doors : accepts t.ops ≡ accepts s.ops
  pub busy : (j : ℕ) → HasWriter j s → HasWriter j t

write-Pushed :
    (id : ℕ) (m : ScMessage) (s t : Server) (queue : List ScMessage)
    → queue_of id s ≡ queue
    → write_scmessage id m s ≡ ok t
    → id < s.next_id
    → IsServed s
    → Pushed s t
write-Pushed id m s t [] e h lt v =
    let at : start_op (writing id (frame m)) (with_queue id (m ∷ []) s) ≡ t =
      cc (write_scmessage-nil id m s e) in
    let none = no_writer (writers id s.ops) (rw e at (v.one id)) in
    rw (← at) (record {
      served = started-IsServed id m [] s lt none v;
      busy =
          each-HasWriter id s (start_op (writing id (frame m)) (with_queue id (m ∷ []) s))
            (changed-HasWriter id (m ∷ []) (writing id (frame m) ∷ s.ops) s
              (λ j. other_writers id j (frame m) s.ops))
            (started-HasWriter id (frame m) (with_queue id (m ∷ []) s) none);
      next = refl;
      same_room = refl;
      same_doors = refl;
    })
write-Pushed id m s t (q ∷ queue) e h lt v =
    let at : with_queue id (q ∷ queue ++ m ∷ []) s ≡ t =
      cc (write_scmessage-cons id m q queue s e) in
    rw (← at) (record {
      served =
          changed-IsServed id (q ∷ queue ++ m ∷ []) s.ops s lt (λ j ne. refl)
            (more_queue (writers id s.ops) q m queue (rw e at (v.one id))) v;
      busy = kept;
      next = refl;
      same_room = refl;
      same_doors = refl;
    })
  where
    still_writing : HasWriter id s → HasWriter id (with_queue id (q ∷ queue ++ m ∷ []) s)
    still_writing (inl empty) = cc
    still_writing (inr under_way) = inr under_way

    kept : (j : ℕ) → HasWriter j s → HasWriter j (with_queue id (q ∷ queue ++ m ∷ []) s)
    kept j h = elim (Bool-cases (j == id)) [
      | inl at ↦ rw (==→eq j id at) (still_writing (rw (==→eq j id at) at h))
      | inr at ↦
          same-HasWriter j s (with_queue id (q ∷ queue ++ m ∷ []) s) (rw (at, queue_of) refl) refl h
    ]

pub deliver-Pushed :
    (m : ScMessage) (ids : List ℕ) (s t : Server)
    → deliver m ids s ≡ ok t
    → Rising s.next_id ids
    → IsServed s
    → Pushed s t
unfolding deliver
deliver-Pushed m [] s t h r v =
    let e : s ≡ t = cc in
    rw (← e)
      (record { served = v; next = refl; same_room = refl; same_doors = refl; busy = λ j h. h })
deliver-Pushed m (id ∷ ids) s t h (lt, above, r) v =
    let (u, wrote, rest) = >>=-eq-ok (write_scmessage id m s) (λ u. deliver m ids u) h in
    let first = write-Pushed id m s u (queue_of id s) refl wrote lt v in
    let others = deliver-Pushed m ids u t rest (rw first.next r) first.served in
    record {
      served = others.served;
      next = others.next ∙ first.next;
      same_room = others.same_room ∙ first.same_room;
      same_doors = others.same_doors ∙ first.same_doors;
      busy = λ j h. others.busy j (first.busy j h);
    }

-- What the end of a write leaves, with the queue behind the message that was written.
pub record Popped (id : ℕ) (queue : List ScMessage) (s t : Server) : Type 0 where
  pub served : IsServed t
  pub rest : queue_of id t ≡ queue
  pub others : (j : ℕ) → j ≢ id → queue_of j t ≡ queue_of j s
  pub next : t.next_id ≡ s.next_id
  pub same_room : t.sessions ≡ s.sessions
  pub same_doors : accepts t.ops ≡ accepts s.ops
  pub own_writer : HasWriter id t
  pub other_writers_kept : (j : ℕ) → j ≢ id → HasWriter j s → HasWriter j t

popped :
    (id : ℕ) (queue : List ScMessage) (ops : List Op) (s : Server)
    → IsServed (record (with_queue id queue s) { ops = ops })
    → accepts ops ≡ accepts s.ops
    → HasWriter id (record (with_queue id queue s) { ops = ops })
    → ((j : ℕ) → j ≢ id → writers j ops ≡ writers j s.ops)
    → Popped id queue s (record (with_queue id queue s) { ops = ops })
popped id queue ops s v doors own kept = record {
  served = v;
  rest = rw (eq→== id id refl, queue_of) refl;
  others = λ j ne. rw (ne→== j id ne, queue_of) refl;
  next = refl;
  same_room = refl;
  same_doors = doors;
  own_writer = own;
  other_writers_kept = changed-HasWriter id queue ops s kept;
}

-- A write from a queue that is not empty has ended, and no other is under way: the next is started.
written_from :
    (id : ℕ) (q : ScMessage) (queue : List ScMessage) (s : Server)
    → queue_of id s ≡ q ∷ queue
    → id < s.next_id
    → writers id s.ops ≡ []
    → IsServed s
    → (t : Server) × (handle_written id false s ≡ ok t) × Popped id queue s t
written_from id q [] s e lt none v = (
  with_queue id [] s,
  handle_written-last id q s e,
  popped id [] s.ops s (changed-IsServed id [] s.ops s lt (λ j ne. refl) (rw none tt) v) refl
      (inl (rw (eq→== id id refl, queue_of) refl)) (λ j ne. refl),
)
written_from id q (r ∷ queue) s e lt none v = (
  start_op (writing id (frame r)) (with_queue id (r ∷ queue) s),
  handle_written-next id q r queue s e,
  popped id (r ∷ queue) (writing id (frame r) ∷ s.ops) s (started-IsServed id r queue s lt none v)
      refl (started-HasWriter id (frame r) (with_queue id (r ∷ queue) s) none)
      (λ j. other_writers id j (frame r) s.ops),
)

-- The end of a write from a queue, without an error: the handler returns.
pub written-Popped :
    (id : ℕ) (bytes : Str) (before after : List Op) (s : Server)
    → (out : WriterOut id bytes s (record s { ops = before ++ after }))
    → (t : Server) × (handle_written id false (record s { ops = before ++ after }) ≡ ok t)
      × Popped id out.rest (record s { ops = before ++ after }) t
written-Popped id bytes before after s out =
    written_from id out.front out.rest (record s { ops = before ++ after }) out.queued out.exists
      out.gone out.served

pub written-IsServed :
    (id : ℕ) (bytes : Str) (before after : List Op) (s : Server)
    → s.ops ≡ before ++ writing id bytes ∷ after
    → IsServed s
    → (t : Server) × (handle_written id false (record s { ops = before ++ after }) ≡ ok t)
      × IsServed t
written-IsServed id bytes before after s at v =
    let (t, done, p) =
      written-Popped id bytes before after s (writer_out id bytes before after s at v) in
    (t, done, p.served)
