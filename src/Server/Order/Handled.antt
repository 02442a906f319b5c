-- ===== src/Server/Order/Handled.antt =====
-- What the handlers do to the queues, as far as the order of the messages goes.
use tyfirc.Base.{
  ℕ, Bool, true, false, ◌≡◌, refl, sym, ap, ◌∙◌, List, [], ◌∷◌, ◌++◌, append-nil, if◌then◌else◌,
}
use tyfirc.Base.Text.{codes}
use tyfirc.Base.Result.{
  Result, ok, throw, ub, invalid_argument, ◌>>=◌, >>=-eq-ok, >>=-assoc, >>=-cong,
}
use tyfirc.Time.{Clock}
use tyfirc.Message
use tyfirc.ScMessage.{ScMessage, deserialize, get_property}
use tyfirc.ScMessage.Types.{ScMessageType, message}
use tyfirc.Server.{Server}
use tyfirc.Server.ChatRoom.{deliver, deliver_scmessage}
use tyfirc.Server.ChatRoom.Deliver.{occurs, queue_of, deliver-queues}
use tyfirc.Server.Handlers.{broadcast, catch_invalid, dispatch, handle_scmessage}
use tyfirc.Server.Writing.{accepts, HasWriter, IsServed}
use tyfirc.Server.Writing.Calm.{Calm, Calm-HasWriter, still, returned, read_next-Calm}
use tyfirc.Server.Writing.Queues.{deliver-Pushed}
use tyfirc.Server.Writing.Rooms.{Rising-Distinct}
use tyfirc.Server.Order.{rewritten, made, said_by, said_buffer}
use tyfirc.Server.Order.Steps.{reaching}

-- Messages are said: they go behind the queue of each session of the room.
pub record Spoke (ms : List ScMessage) (s t : Server) : Type 0 where
  pub queues : (j : ℕ) → queue_of j t ≡ queue_of j s ++ reaching (occurs j s.sessions) ms
  pub stayed : (j : ℕ) → occurs j t.sessions ≡ true → occurs j s.sessions ≡ true
  pub same_doors : accepts t.ops ≡ accepts s.ops
  pub same_next : t.next_id ≡ s.next_id
  pub busy : (j : ℕ) → HasWriter j s → HasWriter j t

pub reaching-nil : (b : Bool) → reaching b [] ≡ []
reaching-nil true = refl
reaching-nil false = refl

pub Calm-Spoke : (s t : Server) → Calm s t → Spoke [] s t
Calm-Spoke s t l = record {
  queues =
      λ j. l.queues j ∙ rw (reaching-nil (occurs j s.sessions)) (sym (append-nil (queue_of j s)));
  stayed = l.stayed;
  same_doors = l.same_doors;
  same_next = l.same_next;
  busy = λ j. Calm-HasWriter j s t l;
}

pub spoken_then : (ms : List ScMessage) (s t u : Server) → Spoke ms s t → Calm t u → Spoke ms s u
spoken_then ms s t u p l = record {
  queues = λ j. l.queues j ∙ p.queues j;
  stayed = λ j h. p.stayed j (l.stayed j h);
  same_doors = l.same_doors ∙ p.same_doors;
  same_next = l.same_next ∙ p.same_next;
  busy = λ j h. Calm-HasWriter j t u l (p.busy j h);
}

pub then_spoken :
    (ms : List ScMessage) (s t u : Server)
    → Calm s t
    → t.sessions ≡ s.sessions
    → Spoke ms t u
    → Spoke ms s u
then_spoken ms s t u l room p = record {
  queues = λ j. rw (← room, ← l.queues j) (p.queues j);
  stayed = λ j h. l.stayed j (p.stayed j h);
  same_doors = p.same_doors ∙ l.same_doors;
  same_next = p.same_next ∙ l.same_next;
  busy = λ j h. p.busy j (Calm-HasWriter j s t l h);
}

-- A broadcast delivers the rewritten message, if there is one.
broadcast-rewritten :
    (c : Clock) (now id : ℕ) (m : ScMessage) (s : Server)
    → broadcast c now id m s
      ≡ (rewritten c now m (s.session id) >>= λ scmsg. deliver_scmessage scmsg s)
unfolding broadcast
broadcast-rewritten c now id m s = sym (
    >>=-assoc (get_property m (codes "message[0]")) _ _
    ∙ >>=-cong (get_property m (codes "message[0]")) _ _
        (λ text. >>=-assoc (Message.deserialize c text) _ _))

if-reaching :
    (b : Bool) (m : ScMessage) (queue : List ScMessage)
    → (if b then queue ++ m ∷ [] else queue) ≡ queue ++ reaching b (m ∷ [])
if-reaching true m queue = refl
if-reaching false m queue = sym (append-nil queue)

deliver-Spoke :
    (m : ScMessage) (s t : Server) → IsServed s → deliver m s.sessions s ≡ ok t → Spoke (m ∷ []) s t
deliver-Spoke m s t v h =
    let (u, done, queues) =
      deliver-queues m s.sessions s (Rising-Distinct s.next_id s.sessions v.room) in
    let same : u ≡ t = cc in
    let p = deliver-Pushed m s.sessions s t h v.room v in
    record {
      queues = λ j.
          ap (queue_of j) (sym same)
          ∙ queues j
          ∙ if-reaching (occurs j s.sessions) m (queue_of j s);
      stayed = λ j h. rw p.same_room at h;
      same_doors = p.same_doors;
      same_next = p.next;
      busy = p.busy;
    }

caught-Spoke :
    (c : Clock) (now id : ℕ) (m : ScMessage) (s t : Server) (r : Result ScMessage)
    → IsServed s
    → catch_invalid s (r >>= λ scmsg. deliver_scmessage scmsg s) ≡ ok t
    → Spoke (made r) s t
unfolding deliver_scmessage
caught-Spoke c now id m s t (ok scmsg) v h =
    let (u, done, _) =
      deliver-queues scmsg s.sessions s (Rising-Distinct s.next_id s.sessions v.room) in
    deliver-Spoke scmsg s t v (done ∙ (rw done at h))
caught-Spoke c now id m s t (throw invalid_argument) v h =
    Calm-Spoke s t (returned s s t h (still s))
caught-Spoke c now id m s t (throw e) v h = cc
caught-Spoke c now id m s t ub v h = cc

dispatch-Spoke :
    (c : Clock) (now id : ℕ) (type : ScMessageType) (m : ScMessage) (s t : Server)
    → IsServed s
    → dispatch c now id type m s ≡ ok t
    → Spoke (said_by c now type m (s.session id)) s t
unfolding dispatch
dispatch-Spoke c now id message m s t v h =
    caught-Spoke c now id m s t (rewritten c now m (s.session id)) v
      (ap (catch_invalid s) (sym (broadcast-rewritten c now id m s)) ∙ h)
dispatch-Spoke c now id type m s t v h = Calm-Spoke s t (returned s s t h (still s))

-- `HandleScMessage` makes the room hear what is said in the buffer.
pub handle_scmessage-Spoke :
    (c : Clock) (now id : ℕ) (s t : Server)
    → IsServed s
    → handle_scmessage c now id false s ≡ ok t
    → Spoke (said_buffer c now (s.session id)) s t
unfolding handle_scmessage
handle_scmessage-Spoke c now id s t v h =
    let (m, read, h1) = >>=-eq-ok (deserialize (s.session id).read_buffer) _ h in
    let (u, sent, h2) = >>=-eq-ok (dispatch c now id m.msg_type m s) _ h1 in
    rw read (
      spoken_then _ s u t (dispatch-Spoke c now id m.msg_type m s u v sent)
        (returned u _ t h2 (read_next-Calm id u)))
