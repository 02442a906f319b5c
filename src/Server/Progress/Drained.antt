-- ===== src/Server/Progress/Drained.antt =====
-- Runs that write what waits in a queue: `WriteScMessageHelper` of tyfirc-server/tyfirc-session.cpp
-- and its handler.
use tyfirc.Base.{
  ℕ, true, ◌≡◌, inl, inr, refl, sym, ap, ◌∙◌, List, [], ◌∷◌, ◌++◌, map, ◌==◌, eq→==, ==→eq,
  append_assoc, append-nil, Bool-cases,
}
use tyfirc.Base.Text.{Str}
use tyfirc.Time.{Clock}
use tyfirc.AuthManager.{FileAuthManager}
use tyfirc.ScMessage.{ScMessage, frame}
use tyfirc.Server.{
  Op, accepting, handshaking, reading_auth, reading_message, answering_failure, answering_success,
  writing, Server,
}
use tyfirc.Server.ChatRoom.Deliver.{occurs, queue_of}
use tyfirc.Server.App.{succeeded, complete, initial, Step, turn, Reach, here, next}
use tyfirc.Server.Writing.{writers, HasWriter, IsServed}
use tyfirc.Server.Writing.Taken.{writer_out}
use tyfirc.Server.Writing.Queues.{written-Popped}
use tyfirc.Server.Writing.Reachable.{Reach-IsServed}
use tyfirc.Server.Order.{log, said, written, wrote}
use tyfirc.Server.Progress.Busy.{Reach-IsBusy}

-- Where the write of a session stands among the operations under way.
record Stands (id : ℕ) (bytes : Str) (ops : List Op) : Type 0 where
  before : List Op
  after : List Op
  at : ops ≡ before ++ writing id bytes ∷ after

behind :
    (id : ℕ) (bytes : Str) (op : Op) (ops : List Op)
    → Stands id bytes ops
    → Stands id bytes (op ∷ ops)
behind id bytes op ops p = record { before = op ∷ p.before; after = p.after; at = ap (◌∷◌ op) p.at }

stands : (id : ℕ) (bytes : Str) (ops : List Op) → writers id ops ≡ bytes ∷ [] → Stands id bytes ops
stands id bytes [] e = cc
stands id bytes (writing j other ∷ ops) e = elim (Bool-cases (j == id)) [
  | inl same ↦
      let sent : other ≡ bytes = cc (rw same at e) in
      record { before = []; after = ops; at = rw (==→eq j id same, sent) refl }
  | inr ne ↦ behind id bytes (writing j other) ops (stands id bytes ops (rw ne at e))
]
stands id bytes (accepting j ∷ ops) e = behind id bytes (accepting j) ops (stands id bytes ops e)
stands id bytes (handshaking j ∷ ops) e =
    behind id bytes (handshaking j) ops (stands id bytes ops e)
stands id bytes (reading_auth j ∷ ops) e =
    behind id bytes (reading_auth j) ops (stands id bytes ops e)
stands id bytes (reading_message j ∷ ops) e =
    behind id bytes (reading_message j) ops (stands id bytes ops e)
stands id bytes (answering_failure j other ∷ ops) e =
    behind id bytes (answering_failure j other) ops (stands id bytes ops e)
stands id bytes (answering_success j other ∷ ops) e =
    behind id bytes (answering_success j other) ops (stands id bytes ops e)

-- The front of the queue is written.
record Advanced (c : Clock) (id : ℕ) (m : ScMessage) (rest : List ScMessage) (s : Server)
    : Type 0 where
  end : Server
  step : Step c s end
  left : queue_of id end ≡ rest
  inside : occurs id end.sessions ≡ true
  bytes : Str
  sent : bytes ≡ frame m
  -- written by the step, and nothing is said
  grows :
      {t : Server} (r : Reach c t s)
      → (written id (next r step) ≡ written id r ++ bytes ∷ []) × (log (next r step) ≡ log r)

write_front :
    (c : Clock) (now id : ℕ) (m : ScMessage) (rest : List ScMessage) (s : Server)
    → IsServed s
    → HasWriter id s
    → queue_of id s ≡ m ∷ rest
    → occurs id s.sessions ≡ true
    → Advanced c id m rest s
unfolding complete written wrote log said
write_front c now id m rest s v (inl empty) e inside = cc
write_front c now id m rest s v (inr (bytes, under_way)) e inside =
    let p = stands id bytes s.ops under_way in
    let out = writer_out id bytes p.before p.after s p.at v in
    let (t, done, q) = written-Popped id bytes p.before p.after s out in
    let same_rest : out.rest ≡ rest = cc out.queued in
    let same_front : out.front ≡ m = cc out.queued in
    record {
      end = t;
      step = turn now p.before (writing id bytes) p.after (succeeded []) p.at refl done;
      left = q.rest ∙ same_rest;
      inside = rw q.same_room inside;
      bytes = bytes;
      sent = out.sent ∙ ap frame same_front;
      grows = λ r. (rw (eq→== id id refl) refl, append-nil (log r));
    }

-- A run from a state at the end of which the queue of a session of the room is empty, with what it
-- writes to the session and what the room hears.
pub record Emptied (c : Clock) (id : ℕ) (s : Server) (bytes : List Str) (heard : List ScMessage)
    : Type 0 where
  pub end : Server
  pub run : Reach c s end
  pub empty : queue_of id end ≡ []
  pub stays : occurs id end.sessions ≡ true
  pub delivered : written id run ≡ bytes
  pub hears : log run ≡ heard

module _ (c : Clock) (a : FileAuthManager) (now id : ℕ) {s : Server} where
  drain :
      (queue : List ScMessage) {t : Server} (r : Reach c (initial a) t) (more : Reach c s t)
      → queue_of id t ≡ queue
      → occurs id t.sessions ≡ true
      → Emptied c id s (written id more ++ map frame queue) (log more)
  drain [] {t} r more e inside = record {
    end = t;
    run = more;
    empty = e;
    stays = inside;
    delivered = sym (append-nil (written id more));
    hears = refl;
  }
  drain (m ∷ rest) {t} r more e inside =
      let p =
        write_front c now id m rest t (Reach-IsServed c a r) (Reach-IsBusy c a r id inside) e
          inside in
      let (grown, same) = p.grows more in
      let all : written id (next more p.step) ++ map frame rest
          ≡ written id more ++ map frame (m ∷ rest) =
        ap (λ w. w ++ map frame rest) (grown ∙ ap (λ b. written id more ++ b ∷ []) p.sent)
        ∙ append_assoc (written id more) (frame m ∷ []) (map frame rest) in
      let q = drain rest (next r p.step) (next more p.step) p.left p.inside in
      record {
        end = q.end;
        run = q.run;
        empty = q.empty;
        stays = q.stays;
        delivered = q.delivered ∙ all;
        hears = q.hears ∙ same;
      }

  -- From every state that the server can reach, and for a session of the room, there is a run of the
  -- server at the end of which nothing waits for the session: it has been written the frames of all
  -- that waited, in their order, it is in the room still, and the room has heard nothing new.
  pub Reach-Emptied :
      (r : Reach c (initial a) s)
      → occurs id s.sessions ≡ true
      → Emptied c id s (map frame (queue_of id s)) []
  unfolding written log
  Reach-Emptied r inside = drain (queue_of id s) r here refl inside
