-- ===== src/Server/Order/Entering.antt =====
-- What `HandleAccept` does to the room and to the sessions that wait for their connection.
use tyfirc.Base.{
  only_one, ℕ, suc, Bool, true, false, ◌≡◌, ◌≢◌, refl, sym, ap, ◌∙◌, List, [], ◌∷◌, ◌++◌, ◌==◌,
  ne→==, ==→eq, if◌then◌else◌, Bool-cases, inl, inr, arith, Ordering,
}
use Prim.Native.Nat.{compare}
use tyfirc.Misc.{connected}
use tyfirc.Server.{new_session, Op, accepting, handshaking, Server, set_session, start_op}
use tyfirc.Server.ChatRoom.{insert_id, add_session}
use tyfirc.Server.ChatRoom.Deliver.{occurs, queue_of}
use tyfirc.Server.Handlers.{start}
use tyfirc.Server.App.{start_accept, handle_accept}
use tyfirc.Server.Writing.{writers, accepts}
use tyfirc.Server.Writing.Rooms.{placed, insert_id-placed}
use tyfirc.Server.Writing.Calm.{Calm, chain, start_op-Calm, set_session-Calm}
use tyfirc.Server.Writing.Taken.{accepts-append}
use tyfirc.Server.Order.{HasDoor}

placed-occurs :
    (j id k : ℕ) (ks rest : List ℕ) (o : Ordering)
    → j ≢ id
    → (occurs j rest ≡ true → occurs j ks ≡ true)
    → occurs j (placed id k ks rest o) ≡ true
    → occurs j (k ∷ ks) ≡ true
placed-occurs j id k ks rest Ordering.lt ne f h = rw (ne→== j id ne) at h
placed-occurs j id k ks rest Ordering.eq ne f h = h
placed-occurs j id k ks rest Ordering.gt ne f h = ground (arith, h, f)

-- Only the session that enters is new in the room.
pub insert_id-occurs :
    (j id : ℕ) (ids : List ℕ) → j ≢ id → occurs j (insert_id id ids) ≡ true → occurs j ids ≡ true
unfolding insert_id
insert_id-occurs j id [] ne h = rw (ne→== j id ne) at h
insert_id-occurs j id (k ∷ ks) ne h =
    placed-occurs j id k ks (insert_id id ks) (compare id k) ne (insert_id-occurs j id ks ne)
      (rw (insert_id-placed id k ks (compare id k) refl) at h)

-- What is left of the doors when one has been used, or has failed.
pub record Opened (room : List ℕ) (u t : Server) : Type 0 where
  pub queues : (k : ℕ) → queue_of k t ≡ queue_of k u
  pub in_room : t.sessions ≡ room
  pub doors : accepts t.ops ≡ u.next_id ∷ accepts u.ops
  pub next : t.next_id ≡ suc u.next_id
  pub same_writers : (k : ℕ) → writers k t.ops ≡ writers k u.ops

start_accept-Opened :
    (u : Server) → queue_of u.next_id u ≡ [] → Opened u.sessions u (start_accept u)
unfolding start_accept
start_accept-Opened u empty = record {
  queues = same;
  in_room = refl;
  doors = refl;
  next = refl;
  same_writers = λ k. refl;
}
  where
    same : (k : ℕ) → ((set_session u.next_id new_session u).session k).msg_queue ≡ queue_of k u
    same k = elim (Bool-cases (k == u.next_id)) [
      | inl e ↦ rw e (sym empty ∙ ap (λ i. queue_of i u) (sym (==→eq k u.next_id e)))
      | inr e ↦ rw e refl
    ]

pub handle_accept-Opened :
    (id : ℕ) (error : Bool) (u : Server)
    → queue_of u.next_id u ≡ []
    → Opened (if error then u.sessions else insert_id id u.sessions) u (handle_accept id error u)
unfolding handle_accept start add_session
handle_accept-Opened id true u empty = start_accept-Opened u empty
handle_accept-Opened id false u empty =
    let e = record u { sessions = insert_id id u.sessions } in
    let w = record (u.session id) { con_state = connected } in
    let l : Calm e (start_op (handshaking id) (set_session id w e)) =
      chain e (set_session id w e) _ (set_session-Calm id w e refl)
        (start_op-Calm (handshaking id) (set_session id w e) (λ j. refl) refl) in
    let o =
      start_accept-Opened (start_op (handshaking id) (set_session id w e))
        (l.queues u.next_id ∙ empty) in
    record {
      queues = λ k. o.queues k ∙ l.queues k;
      in_room = o.in_room;
      doors = o.doors;
      next = o.next;
      same_writers = λ k. o.same_writers k ∙ l.same_writers k;
    }

-- The door that is used is the only one.
pub one_door :
    (s : Server) (before after : List Op) (id : ℕ)
    → s.ops ≡ before ++ accepting id ∷ after
    → HasDoor s
    → (s.next_id ≡ suc id) × (accepts (before ++ after) ≡ []) × (accepts s.ops ≡ id ∷ [])
one_door s before after id at v =
    let (none_before, same, none_after) =
      only_one (accepts before) (accepts after) id v.door
        (sym (accepts-append before (accepting id ∷ after)) ∙ sym (ap accepts at) ∙ v.door_open) in
    (
      v.door_newest ∙ ap suc (sym same),
      accepts-append before after ∙ rw (none_before, none_after) refl,
      v.door_open ∙ ap (λ d. d ∷ []) (sym same),
    )
