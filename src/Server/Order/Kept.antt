-- ===== src/Server/Order/Kept.antt =====
-- The steps of the server, by what they do to the one door and to the order of the messages.
use tyfirc.Base.{
  ℕ, ◌<◌, Bool, true, false, ◌||◌, ◌≡◌, refl, sym, ap, ◌∙◌, List, [], ◌∷◌, ◌++◌, map, append-nil,
  ◌==◌, eq→==, ne→==, ==→eq, ==→ne, if◌then◌else◌, Bool-cases, inl, inr, arith,
}
use mathlib.Core.List.{map-append}
use tyfirc.Base.Text.{Str}
use tyfirc.Time.{Clock}
use tyfirc.ScMessage.{ScMessage, frame}
use tyfirc.Server.{Op, accepting, writing, Server}
use tyfirc.Server.ChatRoom.{insert_id}
use tyfirc.Server.ChatRoom.Deliver.{occurs, queue_of}
use tyfirc.Server.App.{Event, failed, succeeded, is_error}
use tyfirc.Server.Writing.{accepts, IsServed}
use tyfirc.Server.Writing.Taken.{WriterOut, doors_out}
use tyfirc.Server.Writing.Queues.{Popped}
use tyfirc.Server.Order.{said, wrote, enters, IsOrdered, HasDoor}
use tyfirc.Server.Order.Steps.{reaching, passed, entered}
use tyfirc.Server.Order.Handled.{Spoke, reaching-nil}
use tyfirc.Server.Order.Turns.{Turned, spoke, ended, opened}
use tyfirc.Server.Order.Entering.{Opened, insert_id-occurs, handle_accept-Opened, one_door}

or_false : (b : Bool) → b || false ≡ b
or_false true = refl
or_false false = refl

or_true : (b : Bool) → b || true ≡ true
or_true true = refl
or_true false = refl

-- A queue that does not change, and of which nothing is written.
at_rest :
    (id : ℕ) (s t : Server)
    → queue_of id t ≡ queue_of id s
    → map frame (queue_of id t)
      ≡ map frame (queue_of id s) ++ map frame (reaching (occurs id s.sessions) [])
at_rest id s t same =
    ap (map frame) same
    ∙ rw (reaching-nil (occurs id s.sessions)) (sym (append-nil (map frame (queue_of id s))))

module _ (c : Clock) (now : ℕ) (s : Server) (before after : List Op) (t : Server) where
  abbrev u : Server
  u = record s { ops = before ++ after }

  doors_kept :
      (op : Op)
      → s.ops ≡ before ++ op ∷ after
      → accepts (op ∷ []) ≡ []
      → accepts t.ops ≡ accepts u.ops
      → accepts t.ops ≡ accepts s.ops
  doors_kept op at none same = same ∙ doors_out before after op none ∙ sym (ap accepts at)

  pub turn-HasDoor :
      (op : Op) (e : Event)
      → s.ops ≡ before ++ op ∷ after
      → IsServed s
      → Turned c now s u t op e
      → HasDoor s
      → HasDoor t
  turn-HasDoor op e at v (spoke doors none out p) d = record {
    door = d.door;
    door_open = doors_kept op at doors p.same_doors ∙ d.door_open;
    door_newest = p.same_next ∙ d.door_newest;
  }
  turn-HasDoor _ _ at v (ended {id} {bytes} {more} out p) d = record {
    door = d.door;
    door_open = doors_kept (writing id bytes) at refl p.same_doors ∙ d.door_open;
    door_newest = p.next ∙ d.door_newest;
  }
  turn-HasDoor _ _ at v (opened {id} {e} left) d =
      let (_, none, _) = one_door s before after id at d in
      let o = handle_accept-Opened id (is_error e) u (v.nothing s.next_id (omega arith)).1 in
      record {
        door = s.next_id;
        door_open = ap (λ x. accepts x.ops) (sym left) ∙ o.doors ∙ ap (◌∷◌ s.next_id) none;
        door_newest = ap (λ x. x.next_id) (sym left) ∙ o.next;
      }

  module _ (id : ℕ) (lg ms : List ScMessage) (inside : Bool) (ws : List Str) where
    abbrev After : Op → Event → Type 0
    After op e =
        IsOrdered id (lg ++ said c now op e s) (if inside then ms else lg ++ said c now op e s)
          (inside || enters id op e) (ws ++ wrote id op e) t

    Spoke-IsOrdered :
        (op : Op) (e : Event)
        → s.ops ≡ before ++ op ∷ after
        → accepts (op ∷ []) ≡ []
        → wrote id op e ≡ []
        → enters id op e ≡ false
        → Spoke (said c now op e s) u t
        → IsOrdered id lg ms inside ws s
        → After op e
    Spoke-IsOrdered op e at doors none out p v =
        rw (none, out, or_false inside)
          (passed id lg ms (said c now op e s) inside ws [] s t
            (ap (map frame) (p.queues id)
              ∙ map-append frame (queue_of id s)
                  (reaching (occurs id s.sessions) (said c now op e s)))
            (p.stayed id) (λ i. rw (doors_kept op at doors p.same_doors, p.same_next) (v.once i)) v)

    ended-IsOrdered :
        (j : ℕ) (bytes more : Str)
        → s.ops ≡ before ++ writing j bytes ∷ after
        → (out : WriterOut j bytes s u) → Popped j out.rest u t
        → IsOrdered id lg ms inside ws s
        → After (writing j bytes) (succeeded more)
    unfolding said wrote enters
    ended-IsOrdered j bytes more at out p v = rw (or_false inside) (
        passed id lg ms [] inside ws (if j == id then bytes ∷ [] else []) s t flow
          (λ h. rw p.same_room at h)
          (λ i. rw (doors_kept (writing j bytes) at refl p.same_doors, p.next) (v.once i)) v)
      where
        flow :
            (if j == id then bytes ∷ [] else []) ++ map frame (queue_of id t)
            ≡ map frame (queue_of id s) ++ map frame (reaching (occurs id s.sessions) [])
        flow =
            rw (reaching-nil (occurs id s.sessions), append-nil (map frame (queue_of id s)))
              (elim (Bool-cases (j == id)) [
                | inl e ↦ rw (e, out.sent, ← ==→eq j id e, p.rest, out.queued) refl
                | inr e ↦ rw (e, p.others id (λ i. ==→ne j id e (sym i))) refl
              ])

    -- The new session is another one.
    other_door :
        (j : ℕ) (room : List ℕ)
        → s.ops ≡ before ++ accepting j ∷ after
        → Opened room u t
        → HasDoor s
        → id < s.next_id
        → (occurs id (accepts t.ops) ≡ false) × (id < t.next_id)
    other_door j room at o d lt =
        let (_, none, _) = one_door s before after j at d in
        (
          rw (o.doors, none, ne→== id s.next_id (λ e. absurd (omega arith))) refl,
          rw o.next (omega arith),
        )

    stays-IsOrdered :
        (j : ℕ) (e : Event) (room : List ℕ)
        → s.ops ≡ before ++ accepting j ∷ after
        → Opened room u t
        → HasDoor s
        → enters id (accepting j) e ≡ false
        → (occurs id room ≡ true → occurs id s.sessions ≡ true)
        → IsOrdered id lg ms inside ws s
        → After (accepting j) e
    unfolding said wrote
    stays-IsOrdered j e room at o d out away v =
        rw (out, or_false inside)
          (passed id lg ms [] inside ws [] s t (at_rest id s t (o.queues id))
            (λ h. away (rw o.in_room at h)) (λ i. other_door j room at o d (v.once i).1) v)

    enters-IsOrdered :
        (e : Str) (room : List ℕ)
        → s.ops ≡ before ++ accepting id ∷ after
        → Opened room u t
        → HasDoor s
        → IsOrdered id lg ms inside ws s
        → After (accepting id) (succeeded e)
    unfolding said wrote enters
    enters-IsOrdered e room at o d v =
        let (newest, _, at_door) = one_door s before after id at d in
        let waits : inside ≡ false = elim (Bool-cases inside) [
          | inl i ↦ let shut = rw (at_door, eq→== id id refl) at (v.once i).0 in cc
          | inr i ↦ i
        ] in
        rw (append-nil lg, append-nil ws, eq→== id id refl, or_true inside)
          (entered id lg ms inside ws s t (o.queues id) waits
            (other_door id room at o d (omega (arith, newest))) v)

    Opened-IsOrdered :
        (j : ℕ) (e : Event)
        → s.ops ≡ before ++ accepting j ∷ after
        → Opened (if is_error e then s.sessions else insert_id j s.sessions) u t
        → HasDoor s
        → IsOrdered id lg ms inside ws s
        → After (accepting j) e
    unfolding enters
    Opened-IsOrdered j (failed e) at o d v =
        stays-IsOrdered j (failed e) s.sessions at o d refl (λ h. h) v
    Opened-IsOrdered j (succeeded e) at o d v = elim (Bool-cases (j == id)) [
      | inl k ↦
          let same = ==→eq j id k in
          rw same (enters-IsOrdered e (insert_id id s.sessions) (rw same at at) (rw same at o) d v)
      | inr k ↦
          stays-IsOrdered j (succeeded e) (insert_id j s.sessions) at o d k
            (insert_id-occurs id j s.sessions (λ i. ==→ne j id k (sym i))) v
    ]

    pub turn-IsOrdered :
        (op : Op) (e : Event)
        → s.ops ≡ before ++ op ∷ after
        → IsServed s
        → HasDoor s
        → Turned c now s u t op e
        → IsOrdered id lg ms inside ws s
        → After op e
    turn-IsOrdered op e at served d (spoke doors none out p) v =
        Spoke-IsOrdered op e at doors (none id) (out id) p v
    turn-IsOrdered _ _ at served d (ended {id = j} {bytes} {more} out p) v =
        ended-IsOrdered j bytes more at out p v
    turn-IsOrdered _ _ at served d (opened {id = j} {e} left) v =
        Opened-IsOrdered j e at
          (rw (← left)
            (handle_accept-Opened j (is_error e) u (served.nothing s.next_id (omega arith)).1))
          d v
