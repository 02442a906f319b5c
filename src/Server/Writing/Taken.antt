-- ===== src/Server/Writing/Taken.antt =====
-- The operations that have ended, taken out of those that are under way.
use tyfirc.Base.{
  ℕ, ◌≤◌, ◌<◌, ◌≡◌, ◌≢◌, refl, sym, ap, ◌∙◌, List, [], ◌∷◌, ◌++◌, ◌==◌, eq→==, ne→==, ==→eq, ==→ne,
  ltb, ltb→lt, Bool-cases, inl, inr, arith,
}
use tyfirc.Base.Text.{Str}
use tyfirc.ScMessage.{ScMessage, frame}
use tyfirc.Server.{
  Op, accepting, handshaking, reading_auth, reading_message, answering_failure, answering_success,
  writing, Server,
}
use tyfirc.Server.ChatRoom.Deliver.{queue_of}
use tyfirc.Server.Writing.{writers, accepts, OneWriter, IsServed}

pub other_writers :
    (id j : ℕ) (bytes : Str) (ops : List Op)
    → j ≢ id
    → writers j (writing id bytes ∷ ops) ≡ writers j ops
other_writers id j bytes ops ne = rw (ne→== id j (λ e. ne (sym e))) refl

pub own_writers :
    (id : ℕ) (bytes : Str) (ops : List Op)
    → writers id (writing id bytes ∷ ops) ≡ bytes ∷ writers id ops
own_writers id bytes ops = rw (eq→== id id refl) refl

-- An operation that has ended is no longer under way.
writers-append : (j : ℕ) (xs ys : List Op) → writers j (xs ++ ys) ≡ writers j xs ++ writers j ys
writers-append j [] ys = refl
writers-append j (writing id bytes ∷ xs) ys = elim (Bool-cases (id == j)) [
  | inl e ↦ rw e (ap (◌∷◌ bytes) (writers-append j xs ys))
  | inr e ↦ rw e (writers-append j xs ys)
]
writers-append j (accepting id ∷ xs) ys = writers-append j xs ys
writers-append j (handshaking id ∷ xs) ys = writers-append j xs ys
writers-append j (reading_auth id ∷ xs) ys = writers-append j xs ys
writers-append j (reading_message id ∷ xs) ys = writers-append j xs ys
writers-append j (answering_failure id bytes ∷ xs) ys = writers-append j xs ys
writers-append j (answering_success id bytes ∷ xs) ys = writers-append j xs ys

pub accepts-append : (xs ys : List Op) → accepts (xs ++ ys) ≡ accepts xs ++ accepts ys
accepts-append [] ys = refl
accepts-append (accepting id ∷ xs) ys = ap (◌∷◌ id) (accepts-append xs ys)
accepts-append (_ ∷ xs) ys = accepts-append xs ys

pub doors_out :
    (before after : List Op) (op : Op)
    → accepts (op ∷ []) ≡ []
    → accepts (before ++ after) ≡ accepts (before ++ op ∷ after)
doors_out before after op none =
    accepts-append before after
    ∙ ap (λ ds. accepts before ++ ds)
        (ap (λ ds. ds ++ accepts after) (sym none) ∙ sym (accepts-append (op ∷ []) after))
    ∙ sym (accepts-append before (op ∷ after))

pub out-IsServed :
    (s : Server) (ops : List Op)
    → ((j : ℕ) → writers j ops ≡ writers j s.ops)
    → IsServed s
    → IsServed (record s { ops = ops })
out-IsServed s ops same v = record {
  room = v.room;
  one = λ id. rw (same id) (v.one id);
  nothing = λ id le. rw (same id) (v.nothing id le);
}

pub others_out :
    (j : ℕ) (before after : List Op) (op : Op)
    → writers j (op ∷ []) ≡ []
    → writers j (before ++ after) ≡ writers j (before ++ op ∷ after)
others_out j before after op none =
    writers-append j before after
    ∙ ap (λ ws. writers j before ++ ws)
        (ap (λ ws. ws ++ writers j after) (sym none) ∙ sym (writers-append j (op ∷ []) after))
    ∙ sym (writers-append j before (op ∷ after))

only_writer :
    (xs ys : List Str) (bytes : Str) (queue : List ScMessage)
    → OneWriter (xs ++ bytes ∷ ys) queue
    → (xs ≡ [])
      × (ys ≡ [])
      × (m : ScMessage) × (ms : List ScMessage) × (queue ≡ m ∷ ms)
      × (bytes ≡ frame m)
only_writer [] [] bytes (m ∷ ms) h = (refl, refl, m, ms, refl, h)
only_writer [] [] bytes [] h = absurd h
only_writer [] (y ∷ ys) bytes queue h = absurd h
only_writer (x ∷ []) ys bytes queue h = absurd h
only_writer (x ∷ y ∷ xs) ys bytes queue h = absurd h

-- Without the only write from a session's queue.
pub record WriterOut (id : ℕ) (bytes : Str) (s u : Server) : Type 0 where
  pub served : IsServed u
  pub gone : writers id u.ops ≡ []
  pub exists : id < s.next_id
  pub front : ScMessage
  pub rest : List ScMessage
  pub queued : queue_of id s ≡ front ∷ rest
  pub sent : bytes ≡ frame front
  pub same_doors : accepts u.ops ≡ accepts s.ops
  pub same_others : (j : ℕ) → j ≢ id → writers j u.ops ≡ writers j s.ops

no_bytes : (xs ys : List Str) (bytes : Str) → xs ++ bytes ∷ ys ≢ []
no_bytes [] ys bytes e = cc
no_bytes (x ∷ xs) ys bytes e = cc

pub writer_out :
    (id : ℕ) (bytes : Str) (before after : List Op) (s : Server)
    → s.ops ≡ before ++ writing id bytes ∷ after
    → IsServed s
    → WriterOut id bytes s (record s { ops = before ++ after })
writer_out id bytes before after s at v = record {
  served = record { room = v.room; one = one_each; nothing = fresh };
  gone = none;
  exists = member;
  front = shape.2;
  rest = shape.3;
  queued = shape.4;
  sent = shape.5;
  same_doors = doors_out before after (writing id bytes) refl ∙ ap accepts (sym at);
  same_others = others;
}
  where
    had : writers id s.ops ≡ writers id before ++ bytes ∷ writers id after
    had =
        ap (writers id) at
        ∙ writers-append id before (writing id bytes ∷ after)
        ∙ ap (λ ws. writers id before ++ ws) (own_writers id bytes after)

    shape :
        (writers id before ≡ [])
        × (writers id after ≡ [])
        × (m : ScMessage) × (ms : List ScMessage) × (queue_of id s ≡ m ∷ ms)
        × (bytes ≡ frame m)
    shape =
        only_writer (writers id before) (writers id after) bytes (queue_of id s)
          (rw had at (v.one id))

    none : writers id (before ++ after) ≡ []
    none = writers-append id before after ∙ rw (shape.0, shape.1) refl

    others : (j : ℕ) → j ≢ id → writers j (before ++ after) ≡ writers j s.ops
    others j ne =
        others_out j before after (writing id bytes) (other_writers id j bytes [] ne)
        ∙ ap (writers j) (sym at)

    one_each : (j : ℕ) → OneWriter (writers j (before ++ after)) (queue_of j s)
    one_each j = elim (Bool-cases (j == id)) [
      | inl e ↦ rw (==→eq j id e, none) tt
      | inr e ↦ rw (others j (==→ne j id e)) (v.one j)
    ]

    fresh : (j : ℕ) → s.next_id ≤ j → (writers j (before ++ after) ≡ []) × (queue_of j s ≡ [])
    fresh j le = elim (Bool-cases (j == id)) [
      | inl e ↦ (ap (λ k. writers k (before ++ after)) (==→eq j id e) ∙ none, (v.nothing j le).1)
      | inr e ↦ rw (others j (==→ne j id e)) (v.nothing j le)
    ]

    member : id < s.next_id
    member = elim (Bool-cases (ltb id s.next_id)) [
      | inl lt ↦ ltb→lt id s.next_id lt
      | inr ge ↦ absurd (
          no_bytes (writers id before) (writers id after) bytes
            (sym had ∙ (v.nothing id (ground arith)).0))
    ]
