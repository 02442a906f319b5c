-- ===== src/Older/App/Delivery/Reachable.antt =====
-- Every step of either thread keeps the invariant, and so it holds whenever the server runs.
use tyfirc.Base.{
  only_one, ℕ, suc, ◌≤◌, Bool, true, false, ◌≡◌, refl, sym, ap, ◌∙◌, List, [], ◌∷◌, ◌++◌, All-imp,
  All-append, arith, append_assoc, append-nil, length,
}
use tyfirc.Base.Text.{Str}
use tyfirc.Base.Sublist.{Sublist-nil}
use tyfirc.Base.Result.{ok}
use tyfirc.Time.{Clock}
use tyfirc.Message.{Message}
use tyfirc.AuthManager.{FileAuthManager}
use tyfirc.Server.App.{Event, is_error}
use tyfirc.Older.{
  SessionList, add_session, Op, accepting, handshaking, reading_auth, reading_message,
  answering_failure, answering_success, Phase, waiting, writing, Server,
}
use tyfirc.Older.Handlers.{start}
use tyfirc.Older.App.{
  start_accept, enlist, handle_accept, complete, initial, Step, turn, written, Reach, here, next,
}
use tyfirc.Older.App.Delivery.{IsDelivered, Ahead, accepts, Delivered, InOrder, taken, frames}
use tyfirc.Older.App.Delivery.Kept.{Distinct-last}
use tyfirc.Older.App.Delivery.Thread.{step_writer-Delivered}
use tyfirc.Older.App.Delivery.Handled.{
  Leaves-Delivered, complete-Leaves, AcceptsNobody, accepts-append, taken_out,
}

-- The newest session has its connection, and the next one waits for its.
module _ (c : Clock) (phase : Phase) (msgs : List Message) (outbox : ℕ → List Str)
    (list : SessionList) (next_id : ℕ) where
  untouched-Ahead :
      (id : ℕ) (ids : List ℕ) (p : Phase)
      → outbox id ≡ []
      → Ahead c p msgs outbox ids
      → Ahead c p msgs outbox (ids ++ id ∷ [])
  untouched-Ahead id ids (waiting k) e h = tt
  untouched-Ahead id ids (writing k) e h =
      All-append _ ids (id ∷ []) h (rw e (Sublist-nil (frames c k msgs)), tt)

  refused-IsDelivered :
      (door : ℕ)
      → IsDelivered c phase msgs outbox list next_id (door ∷ [])
      → IsDelivered c phase msgs outbox list (suc next_id) (next_id ∷ [])
  refused-IsDelivered door v =
      let same : door ≡ v.door = cc v.door_open in
      record {
        door = next_id;
        door_open = refl;
        door_newest = refl;
        members =
            All-imp _ _ (list.before ++ list.from) (λ id lt. omega (arith, v.door_newest))
              v.members;
        distinct = v.distinct;
        untouched = λ id le. v.untouched id (omega (arith, v.door_newest));
        taken_le = v.taken_le;
        in_order = v.in_order;
        ahead = v.ahead;
      }

  listed-IsDelivered :
      (door : ℕ) (l : SessionList)
      → l.before ++ l.from ≡ (list.before ++ list.from) ++ door ∷ []
      → (outbox door ≡ [] → Ahead c phase msgs outbox l.from)
      → IsDelivered c phase msgs outbox list next_id (door ∷ [])
      → IsDelivered c phase msgs outbox l (suc next_id) (next_id ∷ [])
  listed-IsDelivered door l all ahead v =
      let same : door ≡ v.door = cc v.door_open in
      record {
        door = next_id;
        door_open = refl;
        door_newest = refl;
        members = rw all (
            All-append _ (list.before ++ list.from) (door ∷ [])
              (All-imp _ _ (list.before ++ list.from) (λ id lt. omega (arith, v.door_newest))
                v.members)
              (omega (arith, v.door_newest, same), tt));
        distinct =
            rw all (Distinct-last door (list.before ++ list.from) (rw same v.members) v.distinct);
        untouched = λ id le. v.untouched id (omega (arith, v.door_newest));
        taken_le = v.taken_le;
        in_order = v.in_order;
        ahead = ahead (v.untouched door (omega (arith, same)));
      }

-- The new session stands at the end of the list, behind the place if that is not the end.
accepted-IsDelivered :
    (c : Clock) (phase : Phase) (msgs : List Message) (outbox : ℕ → List Str) (before from : List ℕ)
    (next_id door : ℕ)
    → IsDelivered c phase msgs outbox (record { before = before; from = from }) next_id (door ∷ [])
    → IsDelivered c phase msgs outbox
        (add_session door (record { before = before; from = from }))
        (suc next_id)
        (next_id ∷ [])
unfolding add_session
accepted-IsDelivered c phase msgs outbox before [] next_id door v =
    listed-IsDelivered c phase msgs outbox (record { before = before; from = [] }) next_id door
      (record { before = before ++ door ∷ []; from = [] })
      (append-nil (before ++ door ∷ []) ∙ ap (λ l. l ++ door ∷ []) (sym (append-nil before)))
      (λ none. v.ahead) v
accepted-IsDelivered c phase msgs outbox before (at ∷ ids) next_id door v =
    listed-IsDelivered c phase msgs outbox (record { before = before; from = at ∷ ids }) next_id
      door (record { before = before; from = at ∷ (ids ++ door ∷ []) })
      (sym (append_assoc before (at ∷ ids) (door ∷ [])))
      (λ none.
        untouched-Ahead c phase msgs outbox (record { before = before; from = at ∷ ids }) next_id
          door (at ∷ ids) phase none v.ahead)
      v

-- One element is all there is.
accept-Delivered :
    (c : Clock) (id : ℕ) (error : Bool) (s : Server)
    → accepts s.ops ≡ []
    → IsDelivered c s.phase s.msg_queue s.outbox s.sessions s.next_id (id ∷ [])
    → Delivered c (handle_accept id error s)
unfolding handle_accept start_accept start enlist
accept-Delivered c id true s none v =
    rw none (refused-IsDelivered c s.phase s.msg_queue s.outbox s.sessions s.next_id id v)
accept-Delivered c id false s none v = rw none (
    accepted-IsDelivered c s.phase s.msg_queue s.outbox s.sessions.before s.sessions.from s.next_id
      id v)

-- Without the operation that has ended.
nobody_out :
    (c : Clock) (s : Server) (before after : List Op) (op : Op)
    → AcceptsNobody op
    → s.ops ≡ before ++ op ∷ after
    → Delivered c s
    → Delivered c (record s { ops = before ++ after })
nobody_out c s before after op none at v =
    let same : accepts s.ops ≡ accepts (before ++ after) =
      ap accepts at ∙ taken_out before after op ∙ rw none (sym (accepts-append before after)) in
    rw (← same) v

other_turn :
    (c : Clock) (s t : Server) (before after : List Op) (op : Op) (e : Event)
    → AcceptsNobody op
    → s.ops ≡ before ++ op ∷ after
    → complete c op e (record s { ops = before ++ after }) ≡ ok t
    → Delivered c s
    → Delivered c t
other_turn c s t before after op e none at h v =
    let u = record s { ops = before ++ after } in
    Leaves-Delivered c u t (complete-Leaves c op e u t none h)
      (nobody_out c s before after op none at v)

turn-Delivered :
    (c : Clock) (s t : Server) (before after : List Op) (op : Op) (e : Event)
    → s.ops ≡ before ++ op ∷ after
    → complete c op e (record s { ops = before ++ after }) ≡ ok t
    → Delivered c s
    → Delivered c t
unfolding complete
turn-Delivered c s t before after (accepting id) e at h v =
    let (none, same, none') =
      only_one (accepts before) (accepts after) id v.door
        (sym (taken_out before after (accepting id)) ∙ ap accepts (sym at) ∙ v.door_open) in
    let u = record s { ops = before ++ after } in
    let left : handle_accept id (is_error e) u ≡ t = cc in
    rw (← left) (
      accept-Delivered c id (is_error e) u (accepts-append before after ∙ rw (none, none') refl)
        (rw (v.door_open ∙ ap (λ d. d ∷ []) (sym same)) at v))
turn-Delivered c s t before after (handshaking id) e at h v =
    other_turn c s t before after (handshaking id) e refl at h v
turn-Delivered c s t before after (reading_auth id) e at h v =
    other_turn c s t before after (reading_auth id) e refl at h v
turn-Delivered c s t before after (reading_message id) e at h v =
    other_turn c s t before after (reading_message id) e refl at h v
turn-Delivered c s t before after (answering_failure id bytes) e at h v =
    other_turn c s t before after (answering_failure id bytes) e refl at h v
turn-Delivered c s t before after (answering_success id bytes) e at h v =
    other_turn c s t before after (answering_success id bytes) e refl at h v

Step-Delivered : (c : Clock) (s t : Server) → Step c s t → Delivered c s → Delivered c t
Step-Delivered c s t (turn before op after e at allowed h) v =
    turn-Delivered c s t before after op e at h v
Step-Delivered c s t (written writes h) v = step_writer-Delivered c writes s t h v

initial-Delivered : (c : Clock) (a : FileAuthManager) → Delivered c (initial a)
unfolding initial start_accept
initial-Delivered c a = record {
  door = 0;
  door_open = refl;
  door_newest = refl;
  members = tt;
  distinct = tt;
  untouched = λ id le. refl;
  taken_le = omega arith;
  in_order = λ id. Sublist-nil [];
  ahead = tt;
}

pub Reach-Delivered :
    (c : Clock) (a : FileAuthManager) {s : Server} → Reach c (initial a) s → Delivered c s
Reach-Delivered c a here = initial-Delivered c a
Reach-Delivered c a (next {t} {u} r st) = Step-Delivered c t u st (Reach-Delivered c a r)

-- Whenever the older server runs, what `SyncWriteMessage` has written to a session are the bytes of
-- some of the messages that the writing thread has taken up, each once and in the order of the list,
-- however the two threads take turns.
pub Reach-InOrder :
    (c : Clock) (a : FileAuthManager) {s : Server} (id : ℕ)
    → Reach c (initial a) s
    → InOrder c (taken s.phase) s.msg_queue (s.outbox id) × (taken s.phase ≤ length s.msg_queue)
Reach-InOrder c a id r = let v = Reach-Delivered c a r in (v.in_order id, v.taken_le)
