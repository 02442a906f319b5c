-- ===== src/Server/Writing/Calm.antt =====
-- The handlers that leave queues and writes alone.
use tyfirc.Base.{
  ℕ, ◌<◌, Bool, true, false, ◌≡◌, refl, sym, ap, ◌∙◌, List, [], ◌∷◌, All, ◌==◌, arith, ==→eq,
  Bool-cases, inl, inr,
}
use tyfirc.Base.Text.{Str, codes}
use tyfirc.Base.Result.{Result, ok, >>=-eq-ok}
use tyfirc.Misc.{not_connected, logged_in}
use tyfirc.AuthManager.{FileAuthManager}
use tyfirc.AuthManager
use tyfirc.ScMessage.{ScMessage, deserialize, get_property}
use tyfirc.ScMessage.Types.{ScMessageType, login, register}
use tyfirc.Server.{Session, Op, reading_auth, reading_message, Server, set_session, start_op}
use tyfirc.Server.ChatRoom.{disconnect, remove_session, erase_id}
use tyfirc.Server.ChatRoom.Deliver.{occurs, queue_of}
use tyfirc.Server.Handlers.{
  read_login_scmessage, ask_manager, send_answer, Verdict, accepted, refused, unknown,
  handle_auth_scmessage, read_scmessage, handle_success,
}
use tyfirc.Server.App.{receive}
use tyfirc.Server.Writing.{writers, accepts, HasWriter, same-HasWriter, Rising, IsServed}

-- What such a handler leaves.
pub record Calm (s t : Server) : Type 0 where
  pub queues : (j : ℕ) → queue_of j t ≡ queue_of j s
  pub same_writers : (j : ℕ) → writers j t.ops ≡ writers j s.ops
  pub same_next : t.next_id ≡ s.next_id
  pub rooms : Rising s.next_id s.sessions → Rising s.next_id t.sessions
  pub same_doors : accepts t.ops ≡ accepts s.ops
  pub stayed : (j : ℕ) → occurs j t.sessions ≡ true → occurs j s.sessions ≡ true

pub Calm-IsServed : (s t : Server) → Calm s t → IsServed s → IsServed t
Calm-IsServed s t l v = record {
  room = rw l.same_next (l.rooms v.room);
  one = λ id. rw (l.queues id, l.same_writers id) (v.one id);
  nothing = λ id le. rw (l.queues id, l.same_writers id) (v.nothing id (rw l.same_next at le));
}

pub Calm-HasWriter : (j : ℕ) (s t : Server) → Calm s t → HasWriter j s → HasWriter j t
Calm-HasWriter j s t l h = same-HasWriter j s t (l.queues j) (l.same_writers j) h

pub chain : (s t u : Server) → Calm s t → Calm t u → Calm s u
chain s t u l k = record {
  queues = λ j. k.queues j ∙ l.queues j;
  same_writers = λ j. k.same_writers j ∙ l.same_writers j;
  same_next = k.same_next ∙ l.same_next;
  rooms = λ r. rw l.same_next at (k.rooms (rw l.same_next (l.rooms r)));
  same_doors = k.same_doors ∙ l.same_doors;
  stayed = λ j h. l.stayed j (k.stayed j h);
}

pub returned : (s u t : Server) → ◌≡◌ {A = Result Server} (ok u) (ok t) → Calm s u → Calm s t
returned s u t h l = let same : u ≡ t = cc in rw (← same) l

pub still : (s : Server) → Calm s s
still s = record {
  queues = λ j. refl;
  same_writers = λ j. refl;
  same_next = refl;
  rooms = λ r. r;
  same_doors = refl;
  stayed = λ j h. h;
}

pub start_op-Calm :
    (op : Op) (s : Server)
    → ((j : ℕ) → writers j (op ∷ s.ops) ≡ writers j s.ops)
    → accepts (op ∷ s.ops) ≡ accepts s.ops
    → Calm s (start_op op s)
start_op-Calm op s h k = record {
  queues = λ j. refl;
  same_writers = h;
  same_next = refl;
  rooms = λ r. r;
  same_doors = k;
  stayed = λ j m. m;
}

-- A session changes, but for its queue.
pub set_session-Calm :
    (id : ℕ) (w : Session) (s : Server) → w.msg_queue ≡ queue_of id s → Calm s (set_session id w s)
set_session-Calm id w s same = record {
  queues = kept;
  same_writers = λ j. refl;
  same_next = refl;
  rooms = λ r. r;
  same_doors = refl;
  stayed = λ j m. m;
}
  where
    kept : (j : ℕ) → ((set_session id w s).session j).msg_queue ≡ (s.session j).msg_queue
    kept j = elim (Bool-cases (j == id)) [
      | inl e ↦ rw e (same ∙ ap (λ k. (s.session k).msg_queue) (sym (==→eq j id e)))
      | inr e ↦ rw e refl
    ]

erase_id-All : (P : ℕ → Type 0) (id : ℕ) (ids : List ℕ) → All P ids → All P (erase_id id ids)
unfolding erase_id
erase_id-All P id [] h = tt
erase_id-All P id (j ∷ js) (p, h) = elim (Bool-cases (j == id)) [
  | inl e ↦ rw (e, erase_id) h
  | inr e ↦ rw (e, erase_id) (p, erase_id-All P id js h)
]

erase_id-Rising : (n id : ℕ) (ids : List ℕ) → Rising n ids → Rising n (erase_id id ids)
unfolding erase_id
erase_id-Rising n id [] r = tt
erase_id-Rising n id (j ∷ js) (lt, above, r) = elim (Bool-cases (j == id)) [
  | inl e ↦ rw (e, erase_id) r
  | inr e ↦ rw (e, erase_id) (lt, erase_id-All (λ k. j < k) id js above, erase_id-Rising n id js r)
]

erase_id-stayed :
    (j id : ℕ) (ids : List ℕ) → occurs j (erase_id id ids) ≡ true → occurs j ids ≡ true
unfolding erase_id
erase_id-stayed j id [] h = h
erase_id-stayed j id (k ∷ ks) h = elim (Bool-cases (k == id)) [
  | inl e ↦ ground (arith, rw (e, erase_id) at h)
  | inr e ↦ ground (arith, rw (e, erase_id) at h, erase_id-stayed j id ks)
]

pub disconnect-Calm : (id : ℕ) (s : Server) → Calm s (disconnect id s)
unfolding disconnect remove_session
disconnect-Calm id s =
    let w = record (s.session id) { con_state = not_connected } in
    let u = set_session id w s in
    chain s u (record u { sessions = erase_id id s.sessions }) (set_session-Calm id w s refl)
      (record {
        queues = λ j. refl;
        same_writers = λ j. refl;
        same_next = refl;
        rooms = erase_id-Rising s.next_id id s.sessions;
        same_doors = refl;
        stayed = λ j. erase_id-stayed j id s.sessions;
      })

pub read_login-Calm :
    (id : ℕ) (error : Bool) (s : Server) → Calm s (read_login_scmessage id error s)
unfolding read_login_scmessage
read_login-Calm id true s = disconnect-Calm id s
read_login-Calm id false s = start_op-Calm (reading_auth id) s (λ j. refl) refl

pub read_next-Calm :
    (id : ℕ) (s : Server)
    → Calm s (
        start_op
          (reading_message id)
          (set_session id (record (s.session id) { read_buffer = [] }) s))
read_next-Calm id s =
    let u = set_session id (record (s.session id) { read_buffer = [] }) s in
    chain s u (start_op (reading_message id) u)
      (set_session-Calm id (record (s.session id) { read_buffer = [] }) s refl)
      (start_op-Calm (reading_message id) u (λ j. refl) refl)

pub success-Calm : (id : ℕ) (error : Bool) (s : Server) → Calm s (handle_success id error s)
unfolding handle_success read_scmessage
success-Calm id true s =
    let w = record (s.session id) { con_state = logged_in } in
    chain s (set_session id w s) _ (set_session-Calm id w s refl)
      (disconnect-Calm id (set_session id w s))
success-Calm id false s =
    let w = record (s.session id) { con_state = logged_in } in
    chain s (set_session id w s) _ (set_session-Calm id w s refl)
      (read_next-Calm id (set_session id w s))

account-Calm : (a : FileAuthManager) (s : Server) → Calm s (record s { auth_manager = a })
account-Calm a s = record {
  queues = λ j. refl;
  same_writers = λ j. refl;
  same_next = refl;
  rooms = λ r. r;
  same_doors = refl;
  stayed = λ j m. m;
}

ask-Calm :
    (type : ScMessageType) (m : ScMessage) (s : Server) (r : Server × Verdict)
    → ask_manager type m s ≡ ok r
    → Calm s r.0
unfolding ask_manager
ask-Calm login m s r h =
    let (u, e, h1) = >>=-eq-ok (get_property m (codes "username")) _ h in
    let (p, e', h2) = >>=-eq-ok (get_property m (codes "password")) _ h1 in
    let same : s ≡ r.0 = cc in rw (← same) (still s)
ask-Calm register m s r h =
    let (u, e, h1) = >>=-eq-ok (get_property m (codes "username")) _ h in
    let (p, e', h2) = >>=-eq-ok (get_property m (codes "password")) _ h1 in
    let (a, registered) = AuthManager.register s.auth_manager u p in
    let same : record s { auth_manager = a } ≡ r.0 = cc in rw (← same) (account-Calm a s)
ask-Calm type m s r h = let same : s ≡ r.0 = cc in rw (← same) (still s)

answer-Calm :
    (id : ℕ) (m : ScMessage) (s t : Server) (v : Verdict)
    → send_answer id m (s, v) ≡ ok t
    → Calm s t
unfolding send_answer
answer-Calm id m s t unknown h = returned s _ t h (start_op-Calm _ s (λ j. refl) refl)
answer-Calm id m s t refused h = returned s _ t h (start_op-Calm _ s (λ j. refl) refl)
answer-Calm id m s t accepted h =
    let (u, e, h') = >>=-eq-ok (get_property m (codes "username")) _ h in
    let w = record (s.session id) { username = u } in
    returned s _ t h' (
      chain s (set_session id w s) _ (set_session-Calm id w s refl)
        (start_op-Calm _ (set_session id w s) (λ j. refl) refl))

pub auth-Calm :
    (id : ℕ) (error : Bool) (s t : Server) → handle_auth_scmessage id error s ≡ ok t → Calm s t
unfolding handle_auth_scmessage
auth-Calm id true s t h = returned s _ t h (disconnect-Calm id s)
auth-Calm id false s t h =
    let (m, _, h1) = >>=-eq-ok (deserialize (s.session id).read_buffer) _ h in
    let ((u, verdict), asked, h2) = >>=-eq-ok (ask_manager m.msg_type m s) _ h1 in
    chain s u t (ask-Calm m.msg_type m s (u, verdict) asked) (answer-Calm id m u t verdict h2)

pub receive-Calm : (id : ℕ) (bytes : Str) (s : Server) → Calm s (receive id bytes s)
unfolding receive
receive-Calm id bytes s = set_session-Calm id _ s refl
