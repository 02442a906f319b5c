-- ===== src/Server/ChatRoom/Deliver.antt =====
-- `ChatRoom::DeliverScMessage`: what it puts behind the queues of the sessions.
use tyfirc.Base.{
  ℕ, Bool, false, ◌||◌, ◌≡◌, refl, sym, ap, ◌∙◌, List, [], ◌∷◌, ◌++◌, ◌==◌, ==→eq, if◌then◌else◌,
  Bool-cases, inl, inr,
}
use tyfirc.Base.Result.{ok}
use tyfirc.ScMessage.{ScMessage, frame}
use tyfirc.Server.{writing, Server, start_op}
use tyfirc.Server.ChatRoom.{write_scmessage, deliver}
use tyfirc.Server.ChatRoom.Queue.{with_queue, write_scmessage-nil, write_scmessage-cons}

-- Is the session in the room?
abbrev pub occurs : ℕ → List ℕ → Bool
occurs j [] = false
occurs j (id ∷ ids) = j == id || occurs j ids

-- A set has no element twice.
abbrev pub Distinct : List ℕ → Type 0
Distinct [] = Unit
Distinct (id ∷ ids) = (occurs id ids ≡ false) × Distinct ids

abbrev pub queue_of : ℕ → Server → List ScMessage
queue_of j s = (s.session j).msg_queue

with_queue-queue :
    (id j : ℕ) (queue : List ScMessage) (s : Server)
    → ((with_queue id queue s).session j).msg_queue
      ≡ (if j == id then queue else (s.session j).msg_queue)
with_queue-queue id j queue s = elim (Bool-cases (j == id)) [
  | inl e ↦ rw e refl
  | inr e ↦ rw e refl
]

same_at :
    (id j : ℕ) (m : ScMessage) (queue : List ScMessage) (s : Server)
    → queue_of id s ≡ queue
    → (if j == id then queue ++ m ∷ [] else queue_of j s)
      ≡ (if j == id then queue_of j s ++ m ∷ [] else queue_of j s)
same_at id j m queue s e = elim (Bool-cases (j == id)) [
  | inl at ↦ rw at (ap (λ q. q ++ m ∷ []) (sym e ∙ ap (λ k. queue_of k s) (sym (==→eq j id at))))
  | inr at ↦ rw at refl
]

write-queues :
    (id : ℕ) (m : ScMessage) (s : Server) (queue : List ScMessage)
    → queue_of id s ≡ queue
    → (t : Server) × (write_scmessage id m s ≡ ok t)
      × ((j : ℕ) → queue_of j t ≡ (if j == id then queue_of j s ++ m ∷ [] else queue_of j s))
write-queues id m s [] e = (
  start_op (writing id (frame m)) (with_queue id (m ∷ []) s),
  write_scmessage-nil id m s e,
  λ j. with_queue-queue id j (m ∷ []) s ∙ same_at id j m [] s e,
)
write-queues id m s (q ∷ queue) e = (
  with_queue id (q ∷ queue ++ m ∷ []) s,
  write_scmessage-cons id m q queue s e,
  λ j. with_queue-queue id j (q ∷ queue ++ m ∷ []) s ∙ same_at id j m (q ∷ queue) s e,
)

-- Delivering to a room in which no session stands twice never fails, and puts the message once
-- behind the queue of each session of the room, and behind no other.
pub deliver-queues :
    (m : ScMessage) (ids : List ℕ) (s : Server)
    → Distinct ids
    → (t : Server) × (deliver m ids s ≡ ok t)
      × ((j : ℕ) → queue_of j t ≡ (if occurs j ids then queue_of j s ++ m ∷ [] else queue_of j s))
unfolding deliver
deliver-queues m [] s d = (s, refl, λ j. refl)
deliver-queues m (id ∷ ids) s (fresh, d) =
    let (u, wrote, first) = write-queues id m s (queue_of id s) refl in
    let (t, rest, others) = deliver-queues m ids u d in
    (t, rw wrote rest, λ j. others j ∙ both j u (first j))
  where
    both :
        (j : ℕ) (u : Server)
        → queue_of j u ≡ (if j == id then queue_of j s ++ m ∷ [] else queue_of j s)
        → (if occurs j ids then queue_of j u ++ m ∷ [] else queue_of j u)
          ≡ (if j == id || occurs j ids then queue_of j s ++ m ∷ [] else queue_of j s)
    both j u h = elim (Bool-cases (j == id)) [
      | inl at ↦ let out : occurs j ids ≡ false = rw (==→eq j id at) fresh in rw (out, h, at) refl
      | inr at ↦ rw (h, at) refl
    ]
