-- ===== src/Older/App/Delivery/Handled.antt =====
-- The handlers keep the invariant: all but `HandleAccept` leave what the writing thread works on,
-- but for new messages at the end of the list.
use tyfirc.Base.{
  ℕ, Bool, true, false, ◌≡◌, refl, sym, ap, ◌∙◌, List, [], ◌∷◌, ◌++◌, append_assoc, append-nil,
  Bool-cases, inl, inr,
}
use tyfirc.Base.Text.{Str, codes}
use tyfirc.Base.Result.{Result, ok, >>=-eq-ok}
use tyfirc.Time.{Clock}
use tyfirc.Message.{Message}
use tyfirc.AuthManager.{FileAuthManager}
use tyfirc.ScMessage.{ScMessage, deserialize, get_property}
use tyfirc.ScMessage.Types.{ScMessageType, login, register, message}
use tyfirc.Server.Handlers.{Verdict, accepted, refused, unknown}
use tyfirc.Server.App.{Event, is_error, bytes_of}
use tyfirc.Older.{
  Op, accepting, handshaking, reading_auth, reading_message, answering_failure, answering_success,
  Server,
}
use tyfirc.Older.Handlers.{
  register_account, read_login_scmessage, ask_manager, send_answer, handle_auth_scmessage,
  read_scmessage, handle_success, add_message, on_message, or_default, sent_message, dispatch,
  handle_scmessage,
}
use tyfirc.Older.App.{receive, complete}
use tyfirc.Older.App.Delivery.{accepts, Delivered}
use tyfirc.Older.App.Delivery.Kept.{more-IsDelivered}

-- What a handler leaves.
pub record Leaves (s t : Server) : Type 0 where
  pub extra : List Message
  pub same_phase : t.phase ≡ s.phase
  pub more : t.msg_queue ≡ s.msg_queue ++ extra
  pub same_outbox : t.outbox ≡ s.outbox
  pub same_sessions : t.sessions ≡ s.sessions
  pub same_next : t.next_id ≡ s.next_id
  pub same_doors : accepts t.ops ≡ accepts s.ops

pub Leaves-Delivered : (c : Clock) (s t : Server) → Leaves s t → Delivered c s → Delivered c t
Leaves-Delivered c s t l v =
    rw (l.same_phase, l.more, l.same_outbox, l.same_sessions, l.same_next, l.same_doors)
      (more-IsDelivered c s.phase s.msg_queue l.extra s.outbox s.sessions s.next_id (accepts s.ops)
        v)

-- A handler that changes only sessions, operations that accept nobody, and the accounts.
quiet :
    (s t : Server)
    → t.phase ≡ s.phase
    → t.msg_queue ≡ s.msg_queue
    → t.outbox ≡ s.outbox
    → t.sessions ≡ s.sessions
    → t.next_id ≡ s.next_id
    → accepts t.ops ≡ accepts s.ops
    → Leaves s t
quiet s t p m o l n d = record {
  extra = [];
  same_phase = p;
  more = m ∙ sym (append-nil s.msg_queue);
  same_outbox = o;
  same_sessions = l;
  same_next = n;
  same_doors = d;
}

read_login-Leaves :
    (id : ℕ) (error : Bool) (s : Server) → Leaves s (read_login_scmessage id error s)
unfolding read_login_scmessage
read_login-Leaves id true s = quiet s _ refl refl refl refl refl refl
read_login-Leaves id false s = quiet s _ refl refl refl refl refl refl

success-Leaves : (id : ℕ) (error : Bool) (s : Server) → Leaves s (handle_success id error s)
unfolding handle_success read_scmessage
success-Leaves id true s = quiet s _ refl refl refl refl refl refl
success-Leaves id false s = quiet s _ refl refl refl refl refl refl

account-Leaves : (a : FileAuthManager) (s : Server) → Leaves s (record s { auth_manager = a })
account-Leaves a s = quiet s _ refl refl refl refl refl refl

-- What is returned is what was left.
returned : (s u t : Server) → ◌≡◌ {A = Result Server} (ok u) (ok t) → Leaves s u → Leaves s t
returned s u t h l = let same : u ≡ t = cc in rw (← same) l

chain : (s t u : Server) → Leaves s t → Leaves t u → Leaves s u
chain s t u l k = record {
  extra = l.extra ++ k.extra;
  same_phase = k.same_phase ∙ l.same_phase;
  more = k.more ∙ ap (λ x. x ++ k.extra) l.more ∙ append_assoc s.msg_queue l.extra k.extra;
  same_outbox = k.same_outbox ∙ l.same_outbox;
  same_sessions = k.same_sessions ∙ l.same_sessions;
  same_next = k.same_next ∙ l.same_next;
  same_doors = k.same_doors ∙ l.same_doors;
}

ask-Leaves :
    (type : ScMessageType) (m : ScMessage) (s : Server) (r : Server × Verdict)
    → ask_manager type m s ≡ ok r
    → Leaves s r.0
unfolding ask_manager
ask-Leaves login m s r h =
    let (u, e, h1) = >>=-eq-ok (get_property m (codes "username")) _ h in
    let (p, e', h2) = >>=-eq-ok (get_property m (codes "password")) _ h1 in
    let same : s ≡ r.0 = cc in rw (← same) (quiet s s refl refl refl refl refl refl)
ask-Leaves register m s r h =
    let (u, e, h1) = >>=-eq-ok (get_property m (codes "username")) _ h in
    let (p, e', h2) = >>=-eq-ok (get_property m (codes "password")) _ h1 in
    let ((a, registered), e'', h3) = >>=-eq-ok (register_account s.auth_manager u p) _ h2 in
    let same : record s { auth_manager = a } ≡ r.0 = cc in rw (← same) (account-Leaves a s)
ask-Leaves type m s r h =
    let same : s ≡ r.0 = cc in rw (← same) (quiet s s refl refl refl refl refl refl)

answer-Leaves :
    (id : ℕ) (m : ScMessage) (s t : Server) (v : Verdict)
    → send_answer id m (s, v) ≡ ok t
    → Leaves s t
unfolding send_answer
answer-Leaves id m s t unknown h = returned s _ t h (quiet s _ refl refl refl refl refl refl)
answer-Leaves id m s t refused h = returned s _ t h (quiet s _ refl refl refl refl refl refl)
answer-Leaves id m s t accepted h =
    let (u, e, h') = >>=-eq-ok (get_property m (codes "username")) _ h in
    returned s _ t h' (quiet s _ refl refl refl refl refl refl)

auth-Leaves :
    (id : ℕ) (error : Bool) (s t : Server) → handle_auth_scmessage id error s ≡ ok t → Leaves s t
unfolding handle_auth_scmessage
auth-Leaves id true s t h = returned s _ t h (quiet s _ refl refl refl refl refl refl)
auth-Leaves id false s t h =
    let (m, _, h1) = >>=-eq-ok (deserialize (s.session id).read_buffer) _ h in
    let ((u, verdict), asked, h2) = >>=-eq-ok (ask_manager m.msg_type m s) _ h1 in
    chain s u t (ask-Leaves m.msg_type m s (u, verdict) asked) (answer-Leaves id m u t verdict h2)

on_message-Leaves : (id : ℕ) (msg : Message) (s : Server) → Leaves s (on_message id msg s)
unfolding on_message add_message
on_message-Leaves id msg s = elim (Bool-cases (s.session id).is_bound) [
  | inl e ↦ rw e (record {
    extra = msg ∷ [];
    same_phase = refl;
    more = refl;
    same_outbox = refl;
    same_sessions = refl;
    same_next = refl;
    same_doors = refl;
  })
  | inr e ↦ rw e (quiet s s refl refl refl refl refl refl)
]

dispatch-Leaves :
    (c : Clock) (id : ℕ) (type : ScMessageType) (m : ScMessage) (s t : Server)
    → dispatch c id type m s ≡ ok t
    → Leaves s t
unfolding dispatch
dispatch-Leaves c id message m s t h =
    let (msg, _, h1) = >>=-eq-ok (or_default (sent_message c m)) _ h in
    returned s (on_message id msg s) t h1 (on_message-Leaves id msg s)
dispatch-Leaves c id type m s t h = returned s s t h (quiet s s refl refl refl refl refl refl)

message-Leaves :
    (c : Clock) (id : ℕ) (error : Bool) (s t : Server)
    → handle_scmessage c id error s ≡ ok t
    → Leaves s t
unfolding handle_scmessage
message-Leaves c id true s t h = returned s _ t h (quiet s _ refl refl refl refl refl refl)
message-Leaves c id false s t h =
    let (m, _, h1) = >>=-eq-ok (deserialize (s.session id).read_buffer) _ h in
    let (u, sent, h2) = >>=-eq-ok (dispatch c id m.msg_type m s) _ h1 in
    chain s u t (dispatch-Leaves c id m.msg_type m s u sent)
      (returned u _ t h2 (quiet u _ refl refl refl refl refl refl))

receive-Leaves : (id : ℕ) (bytes : Str) (s : Server) → Leaves s (receive id bytes s)
unfolding receive
receive-Leaves id bytes s = quiet s _ refl refl refl refl refl refl

-- The operations that accept nobody.
abbrev pub AcceptsNobody : Op → Type 0
AcceptsNobody op = accepts (op ∷ []) ≡ []

pub complete-Leaves :
    (c : Clock) (op : Op) (e : Event) (s t : Server)
    → AcceptsNobody op
    → complete c op e s ≡ ok t
    → Leaves s t
unfolding complete
complete-Leaves c (accepting id) e s t none h = cc
complete-Leaves c (handshaking id) e s t none h =
    returned s _ t h (read_login-Leaves id (is_error e) s)
complete-Leaves c (answering_failure id bytes) e s t none h =
    returned s _ t h (read_login-Leaves id (is_error e) s)
complete-Leaves c (answering_success id bytes) e s t none h =
    returned s _ t h (success-Leaves id (is_error e) s)
complete-Leaves c (reading_auth id) e s t none h =
    chain s _ t (receive-Leaves id (bytes_of e) s)
      (auth-Leaves id (is_error e) (receive id (bytes_of e) s) t h)
complete-Leaves c (reading_message id) e s t none h =
    chain s _ t (receive-Leaves id (bytes_of e) s)
      (message-Leaves c id (is_error e) (receive id (bytes_of e) s) t h)

-- Taking an operation out of those under way.
pub accepts-append : (xs ys : List Op) → accepts (xs ++ ys) ≡ accepts xs ++ accepts ys
accepts-append [] ys = refl
accepts-append (accepting id ∷ xs) ys = ap (◌∷◌ id) (accepts-append xs ys)
accepts-append (handshaking id ∷ xs) ys = accepts-append xs ys
accepts-append (reading_auth id ∷ xs) ys = accepts-append xs ys
accepts-append (reading_message id ∷ xs) ys = accepts-append xs ys
accepts-append (answering_failure id bytes ∷ xs) ys = accepts-append xs ys
accepts-append (answering_success id bytes ∷ xs) ys = accepts-append xs ys

pub taken_out :
    (before after : List Op) (op : Op)
    → accepts (before ++ op ∷ after) ≡ accepts before ++ (accepts (op ∷ []) ++ accepts after)
taken_out before after op =
    accepts-append before (op ∷ after)
    ∙ ap (λ ids. accepts before ++ ids) (accepts-append (op ∷ []) after)
