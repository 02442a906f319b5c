-- ===== src/Older/App/Delivery/Kept.antt =====
-- The steps of the writing thread, and what the handlers do to the lists, keep the invariant.
use tyfirc.Base.{
  ℕ, suc, ◌≤◌, ◌<◌, false, ◌||◌, ◌≡◌, refl, ap, ◌∙◌, List, [], ◌∷◌, ◌++◌, map, All, All-imp, some,
  length, take, get_elem?, arith, ne→==, length-append,
}
use mathlib.Core.List.{map-append}
use tyfirc.Base.Text.{Str}
use tyfirc.Base.Sublist.{skip_last, keep_last, take-get_elem?, take-append_of_le}
use tyfirc.Base.Result.{ok}
use tyfirc.Time.{Clock}
use tyfirc.Message.{Message}
use tyfirc.Server.ChatRoom.Deliver.{Distinct, occurs}
use tyfirc.Older.{SessionList, Phase, waiting, writing}
use tyfirc.Older.App.{message_bytes}
use tyfirc.Older.App.Delivery.{frames, InOrder, taken, Ahead, IsDelivered}

-- Lists of distinct numbers.
pub occurs-append :
    (id : ℕ) (xs ys : List ℕ) → occurs id (xs ++ ys) ≡ (occurs id xs || occurs id ys)
occurs-append id [] ys = refl
occurs-append id (x ∷ xs) ys = ground (arith, occurs-append id xs ys)

pub Distinct-drop :
    (xs : List ℕ) (id : ℕ) (ys : List ℕ) → Distinct (xs ++ id ∷ ys) → Distinct (xs ++ ys)
Distinct-drop [] id ys d = d.1
Distinct-drop (x ∷ xs) id ys (fresh, d) = (
  ground (arith, occurs-append x xs (id ∷ ys), occurs-append x xs ys, fresh),
  Distinct-drop xs id ys d,
)

pub Distinct-right : (xs ys : List ℕ) → Distinct (xs ++ ys) → Distinct ys
Distinct-right [] ys d = d
Distinct-right (x ∷ xs) ys (fresh, d) = Distinct-right xs ys d

below-fresh : (id : ℕ) (xs : List ℕ) → All (λ j. j < id) xs → occurs id xs ≡ false
below-fresh id [] h = refl
below-fresh id (x ∷ xs) (lt, h) =
    rw (ne→== id x (λ e. absurd (omega arith)), below-fresh id xs h) refl

pub Distinct-last :
    (id : ℕ) (xs : List ℕ) → All (λ j. j < id) xs → Distinct xs → Distinct (xs ++ id ∷ [])
Distinct-last id [] h d = (refl, tt)
Distinct-last id (x ∷ xs) (lt, h) (fresh, d) = (
  rw (occurs-append x xs (id ∷ []), fresh, ne→== x id (λ e. absurd (omega arith))) refl,
  Distinct-last id xs h d,
)

-- The bytes of the messages up to one.
frames-next :
    (c : Clock) (k : ℕ) (msgs : List Message) (msg : Message)
    → get_elem? msgs k ≡ some msg
    → frames c (suc k) msgs ≡ frames c k msgs ++ message_bytes c msg ∷ []
frames-next c k msgs msg h =
    ap (map (message_bytes c)) (take-get_elem? k msgs msg h) ∙ map-append _ (take k msgs) (msg ∷ [])

pub InOrder-next :
    (c : Clock) (k : ℕ) (msgs : List Message) (msg : Message) (bytes : List Str)
    → get_elem? msgs k ≡ some msg
    → InOrder c k msgs bytes
    → InOrder c (suc k) msgs bytes
InOrder-next c k msgs msg bytes h s =
    rw (frames-next c k msgs msg h) (skip_last (message_bytes c msg) s)

pub InOrder-write :
    (c : Clock) (k : ℕ) (msgs : List Message) (msg : Message) (bytes : List Str) (new : Str)
    → get_elem? msgs k ≡ some msg
    → message_bytes c msg ≡ ok new
    → InOrder c k msgs bytes
    → InOrder c (suc k) msgs (bytes ++ new ∷ [])
InOrder-write c k msgs msg bytes new h e s =
    rw (frames-next c k msgs msg h, map-append ok bytes (new ∷ []), e) (keep_last (ok new) s)

InOrder-more :
    (c : Clock) (k : ℕ) (msgs extra : List Message) (bytes : List Str)
    → k ≤ length msgs
    → InOrder c k msgs bytes
    → InOrder c k (msgs ++ extra) bytes
InOrder-more c k msgs extra bytes le s = rw (take-append_of_le k msgs extra le) s

Ahead-more :
    (c : Clock) (phase : Phase) (msgs extra : List Message) (outbox : ℕ → List Str) (ids : List ℕ)
    → taken phase ≤ length msgs
    → Ahead c phase msgs outbox ids
    → Ahead c phase (msgs ++ extra) outbox ids
Ahead-more c (waiting k) msgs extra outbox ids le h = tt
Ahead-more c (writing k) msgs extra outbox ids le h =
    All-imp _ _ ids (λ id s. InOrder-more c k msgs extra (outbox id) (omega arith) s) h

-- More messages.
pub more-IsDelivered :
    (c : Clock) (phase : Phase) (msgs extra : List Message) (outbox : ℕ → List Str)
    (list : SessionList) (next_id : ℕ) (doors : List ℕ)
    → IsDelivered c phase msgs outbox list next_id doors
    → IsDelivered c phase (msgs ++ extra) outbox list next_id doors
more-IsDelivered c phase msgs extra outbox list next_id doors v = record {
  door = v.door;
  door_open = v.door_open;
  door_newest = v.door_newest;
  members = v.members;
  distinct = v.distinct;
  untouched = v.untouched;
  taken_le = omega (arith, v.taken_le, length-append msgs extra);
  in_order = λ id. InOrder-more c (taken phase) msgs extra (outbox id) v.taken_le (v.in_order id);
  ahead = Ahead-more c phase msgs extra outbox list.from v.taken_le v.ahead;
}
