-- ===== src/Older/App/Delivery/Thread.antt =====
-- Each step of the writing thread keeps the invariant.
use tyfirc.Base.{
  ℕ, suc, ◌≤◌, ◌<◌, Bool, true, false, ◌≡◌, refl, List, [], ◌∷◌, ◌++◌, All, All-append, All-left,
  All-right, Option, none, some, get_elem?, arith, ◌==◌, ne→==, Bool-cases, inl, inr, append_assoc,
  if◌then◌else◌,
}
use tyfirc.Base.Text.{Str}
use tyfirc.Base.Sublist.{lt_of_get_elem?}
use tyfirc.Base.Result.{Result, ok, throw, ub}
use tyfirc.Misc.{ConnectionState, not_connected, connected, logged_in}
use tyfirc.Time.{Clock}
use tyfirc.Message.{Message}
use tyfirc.Server.ChatRoom.Deliver.{occurs}
use tyfirc.Older.{SessionList, clean_session, advance, rewind, Phase, waiting, writing, Server}
use tyfirc.Older.App.{message_bytes, moved, write_to, visit, write_step, step_writer, number, clean}
use tyfirc.Older.App.Delivery.{InOrder, IsDelivered, accepts, Delivered}
use tyfirc.Older.App.Delivery.Kept.{Distinct-drop, Distinct-right, InOrder-next, InOrder-write}

module _ (c : Clock) (k : ℕ) (msgs : List Message) (outbox : ℕ → List Str) (next_id : ℕ)
    (doors : List ℕ) where
  start-IsDelivered :
      (msg : Message) (before from : List ℕ)
      → get_elem? msgs k ≡ some msg
      → IsDelivered c
          (waiting k)
          msgs
          outbox
          (record { before = before; from = from })
          next_id
          doors
      → IsDelivered c
          (writing k)
          msgs
          outbox
          (record { before = []; from = before ++ from })
          next_id
          doors
  start-IsDelivered msg before from there v = record {
    door = v.door;
    door_open = v.door_open;
    door_newest = v.door_newest;
    members = v.members;
    distinct = v.distinct;
    untouched = v.untouched;
    taken_le = omega (arith, lt_of_get_elem? k msgs msg there);
    in_order = λ id. InOrder-next c k msgs msg (outbox id) there (v.in_order id);
    ahead = everywhere (before ++ from);
  }
    where
      everywhere : (ids : List ℕ) → All (λ id. InOrder c k msgs (outbox id)) ids
      everywhere [] = tt
      everywhere (id ∷ ids) = (v.in_order id, everywhere ids)

  finish-IsDelivered :
      (list : SessionList)
      → IsDelivered c (writing k) msgs outbox list next_id doors
      → IsDelivered c (waiting (suc k)) msgs outbox list next_id doors
  finish-IsDelivered list v = record {
    door = v.door;
    door_open = v.door_open;
    door_newest = v.door_newest;
    members = v.members;
    distinct = v.distinct;
    untouched = v.untouched;
    taken_le = v.taken_le;
    in_order = v.in_order;
    ahead = tt;
  }

  clean-IsDelivered :
      (id : ℕ) (before ids : List ℕ)
      → IsDelivered c
          (writing k)
          msgs
          outbox
          (record { before = before; from = id ∷ ids })
          next_id
          doors
      → IsDelivered c (writing k) msgs outbox (record { before = before; from = ids }) next_id doors
  clean-IsDelivered id before ids v = record {
    door = v.door;
    door_open = v.door_open;
    door_newest = v.door_newest;
    members =
        All-append _ before ids (All-left _ before (id ∷ ids) v.members)
          (All-right _ before (id ∷ ids) v.members).1;
    distinct = Distinct-drop before id ids v.distinct;
    untouched = v.untouched;
    taken_le = v.taken_le;
    in_order = v.in_order;
    ahead = v.ahead.1;
  }

  -- What was written, with the message at one session more.
  abbrev with_bytes : ℕ → Str → ℕ → List Str
  with_bytes id new j = if j == id then outbox id ++ new ∷ [] else outbox j

  others_kept :
      (id : ℕ) (new : Str) (ids : List ℕ)
      → occurs id ids ≡ false
      → All (λ j. InOrder c k msgs (outbox j)) ids
      → All (λ j. InOrder c k msgs (with_bytes id new j)) ids
  others_kept id new [] fresh h = tt
  others_kept id new (j ∷ ids) fresh (s, h) =
      let other : (j == id) ≡ false = ground (arith, fresh) in
      (rw other s, others_kept id new ids (ground (arith, fresh)) h)

  write-IsDelivered :
      (msg : Message) (id : ℕ) (new : Str) (before ids : List ℕ)
      → get_elem? msgs k ≡ some msg
      → message_bytes c msg ≡ ok new
      → IsDelivered c
          (writing k)
          msgs
          outbox
          (record { before = before; from = id ∷ ids })
          next_id
          doors
      → IsDelivered c
          (writing k)
          msgs
          (with_bytes id new)
          (record { before = before ++ id ∷ []; from = ids })
          next_id
          doors
  write-IsDelivered msg id new before ids there e v = record {
    door = v.door;
    door_open = v.door_open;
    door_newest = v.door_newest;
    members = rw (append_assoc before (id ∷ []) ids) v.members;
    distinct = rw (append_assoc before (id ∷ []) ids) v.distinct;
    untouched = quiet;
    taken_le = v.taken_le;
    in_order = ordered;
    ahead = others_kept id new ids (Distinct-right before (id ∷ ids) v.distinct).0 v.ahead.1;
  }
    where
      member : id < v.door
      member = (All-right (λ j. j < v.door) before (id ∷ ids) v.members).0

      quiet : (j : ℕ) → v.door ≤ j → with_bytes id new j ≡ []
      quiet j le = rw (ne→== j id (λ e. absurd (omega (arith, member)))) (v.untouched j le)

      ordered : (j : ℕ) → InOrder c (suc k) msgs (with_bytes id new j)
      ordered j = elim (Bool-cases (j == id)) [
        | inl at ↦ rw at (InOrder-write c k msgs msg (outbox id) new there e v.ahead.0)
        | inr at ↦ rw at (v.in_order j)
      ]

visit-Delivered :
    (c : Clock) (writes : Bool) (k : ℕ) (msg : Message) (id : ℕ) (ids : List ℕ)
    (state : ConnectionState) (s t : Server) (bytes : Result Str)
    → s.phase ≡ writing k
    → s.sessions.from ≡ id ∷ ids
    → get_elem? s.msg_queue k ≡ some msg
    → message_bytes c msg ≡ bytes
    → visit c writes msg id state s ≡ moved t
    → IsDelivered c
        (writing k)
        s.msg_queue
        s.outbox
        (record { before = s.sessions.before; from = id ∷ ids })
        s.next_id
        (accepts s.ops)
    → Delivered c t
unfolding clean_session write_to advance
visit-Delivered c writes k msg id ids not_connected s t bytes at list there e h v =
    let same : clean id s ≡ t = cc in
    rw (← same) (
      rw (at, list)
        (clean-IsDelivered c k s.msg_queue s.outbox s.next_id (accepts s.ops) id s.sessions.before
          ids v))
visit-Delivered c writes k msg id ids connected s t bytes at list there e h v =
    let same : s ≡ t = cc in rw (← same) (rw at (rw (← list) at v))
visit-Delivered c true k msg id ids logged_in s t (ok new) at list there e h v =
    let same : moved (record s {
      sessions = advance s.sessions;
      outbox = λ j. if j == id then s.outbox id ++ new ∷ [] else s.outbox j;
    })
        ≡ moved t =
      rw e at h in
    let same' : record s {
      sessions = advance s.sessions;
      outbox = λ j. if j == id then s.outbox id ++ new ∷ [] else s.outbox j;
    }
        ≡ t =
      cc in
    rw (← same') (
      rw (at, list)
        (write-IsDelivered c k s.msg_queue s.outbox s.next_id (accepts s.ops) msg id new
          s.sessions.before ids there e v))
visit-Delivered c true k msg id ids logged_in s t (throw x) at list there e h v = cc (rw e at h)
visit-Delivered c true k msg id ids logged_in s t ub at list there e h v = cc (rw e at h)
visit-Delivered c false k msg id ids logged_in s t bytes at list there e h v = cc

-- A step of the writing thread, by where it stands.
write_step-Delivered :
    (c : Clock) (writes : Bool) (phase : Phase) (msg : Option Message) (ids : List ℕ) (s t : Server)
    → s.phase ≡ phase
    → s.sessions.from ≡ ids
    → get_elem? s.msg_queue (number phase) ≡ msg
    → write_step c writes phase msg ids s ≡ moved t
    → IsDelivered c phase s.msg_queue s.outbox
        (record { before = s.sessions.before; from = ids })
        s.next_id
        (accepts s.ops)
    → Delivered c t
unfolding write_step
write_step-Delivered c writes phase none ids s t at list there h v = cc
write_step-Delivered c writes (waiting k) (some msg) ids s t at list there h v =
    let same : record s { phase = writing k; sessions = rewind s.sessions } ≡ t = cc in
    rw (← same) (
      rw list (
        start-IsDelivered c k s.msg_queue s.outbox s.next_id (accepts s.ops) msg s.sessions.before
          ids there v))
write_step-Delivered c writes (writing k) (some msg) [] s t at list there h v =
    let same : record s { phase = waiting (suc k) } ≡ t = cc in
    rw (← same) (
      finish-IsDelivered c k s.msg_queue s.outbox s.next_id (accepts s.ops) s.sessions
        (rw (← list) at v))
write_step-Delivered c writes (writing k) (some msg) (id ∷ ids) s t at list there h v =
    visit-Delivered c writes k msg id ids (s.session id).con_state s t (message_bytes c msg) at list
      there refl h v

pub step_writer-Delivered :
    (c : Clock) (writes : Bool) (s t : Server)
    → step_writer c writes s ≡ moved t
    → Delivered c s
    → Delivered c t
step_writer-Delivered c writes s t h v =
    write_step-Delivered c writes s.phase (get_elem? s.msg_queue (number s.phase)) s.sessions.from s
      t refl refl refl h v
