-- ===== src/Server/Accounts.antt =====
-- Who is logged in: in every state that the server can reach, a session that is logged in, that
-- reads chat messages or that is being told of its success has the name of an account.
mod Kept
mod Asking
pub mod Reachable
use tyfirc.Base.{
  ℕ, ◌≤◌, ◌<◌, Bool, true, false, not, ◌&&◌, ◌≡◌, ◌≢◌, ◌⊎◌, inl, inr, refl, sym, ap, ◌∙◌, Option,
  none, some, List, [], ◌∷◌, ◌++◌, arith, All, All-imp, ◌==◌, ==→eq, Bool-cases, if◌then◌else◌,
  Option-cases,
}
use tyfirc.Base.Text.{Str, str_eq}
use tyfirc.Base.Result.{Result, ok, ◌>>=◌, >>=-eq-ok}
use tyfirc.Misc.{ConnectionState, not_connected, connected, logged_in}
use tyfirc.AuthManager.{FileAuthManager, register}
use tyfirc.AuthManager.Accounts.{account, is_some, account-register}
use tyfirc.ScMessage.{ScMessage, frame}
use tyfirc.Server.{
  Session, Op, reading_message, answering_success, answering_failure, accepting, handshaking,
  reading_auth, writing, Server, update, set_session, start_op,
}
use tyfirc.Server.ChatRoom.{disconnect, write_scmessage, deliver}
use tyfirc.Server.ChatRoom.Queue.{write_scmessage-nil, write_scmessage-cons, with_queue}

-- Somebody registered the name.
abbrev pub Registered : Server → Str → Type 0
Registered s name = is_some (account s.auth_manager name) ≡ true

abbrev pub HasAccount : Server → ℕ → Type 0
HasAccount s id = Registered s (s.session id).username

-- The session of the operation exists; where it reads chat messages, or is being told of its
-- success, it has an account.
abbrev pub Authorised : Server → Op → Type 0
Authorised s (reading_message id) = (id < s.next_id) × HasAccount s id
Authorised s (answering_success id bytes) = (id < s.next_id) × HasAccount s id
Authorised s (accepting id) = id < s.next_id
Authorised s (handshaking id) = id < s.next_id
Authorised s (reading_auth id) = id < s.next_id
Authorised s (answering_failure id bytes) = id < s.next_id
Authorised s (writing id bytes) = Unit

pub record IsAuthorised (s : Server) : Type 0 where
  pub ops_ok : All (Authorised s) s.ops
  pub states_ok : (id : ℕ) → (s.session id).con_state ≡ logged_in → HasAccount s id

pub Authorised-imp :
    (s t : Server) (op : Op)
    → s.next_id ≤ t.next_id
    → ((id : ℕ) → id < s.next_id → HasAccount s id → HasAccount t id)
    → Authorised s op
    → Authorised t op
Authorised-imp s t (reading_message id) le f h = (omega arith, f id h.0 h.1)
Authorised-imp s t (answering_success id bytes) le f h = (omega arith, f id h.0 h.1)
Authorised-imp s t (accepting id) le f h = omega arith
Authorised-imp s t (handshaking id) le f h = omega arith
Authorised-imp s t (reading_auth id) le f h = omega arith
Authorised-imp s t (answering_failure id bytes) le f h = omega arith
Authorised-imp s t (writing id bytes) le f h = tt

pub start_op-IsAuthorised :
    (op : Op) (s : Server) → Authorised s op → IsAuthorised s → IsAuthorised (start_op op s)
start_op-IsAuthorised op s h v = record {
  ops_ok = (
    Authorised-imp s (start_op op s) op (omega arith) (λ id _ k. k) h,
    All-imp _ _ s.ops (λ o. Authorised-imp s (start_op op s) o (omega arith) (λ id _ k. k))
        v.ops_ok,
  );
  states_ok = v.states_ok;
}

-- A session may change if its name keeps its account, and has one if the session is logged in.
pub set_session-IsAuthorised :
    (id : ℕ) (w : Session) (s : Server)
    → (HasAccount s id → Registered s w.username)
    → (w.con_state ≡ logged_in → Registered s w.username)
    → IsAuthorised s
    → IsAuthorised (set_session id w s)
set_session-IsAuthorised id w s keeps enters v = record {
  ops_ok =
      All-imp _ _ s.ops (λ o. Authorised-imp s (set_session id w s) o (omega arith) (λ j _. kept j))
        v.ops_ok;
  states_ok = entered;
}
  where
    kept : (j : ℕ) → HasAccount s j → HasAccount (set_session id w s) j
    kept j h = elim (Bool-cases (j == id)) [
      | inl e ↦ rw e (keeps (rw (==→eq j id e) at h))
      | inr e ↦ rw e h
    ]

    entered :
        (j : ℕ)
        → ((set_session id w s).session j).con_state ≡ logged_in
        → HasAccount (set_session id w s) j
    entered j = elim (Bool-cases (j == id)) [ inl e ↦ rw e enters | inr e ↦ rw e (v.states_ok j) ]

pub set_manager-IsAuthorised :
    (a : FileAuthManager) (s : Server)
    → ((name : Str) → Registered s name → is_some (account a name) ≡ true)
    → IsAuthorised s
    → IsAuthorised (record s { auth_manager = a })
set_manager-IsAuthorised a s grows v = record {
  ops_ok =
      All-imp _ _ s.ops
        (λ o.
          Authorised-imp s (record s { auth_manager = a }) o (omega arith)
            (λ j _. grows (s.session j).username))
        v.ops_ok;
  states_ok = λ id e. grows (s.session id).username (v.states_ok id e);
}

-- No account goes away.
pub register_grows :
    (a : FileAuthManager) (username password name : Str)
    → is_some (account a name) ≡ true
    → is_some (account (register a username password).0 name) ≡ true
register_grows a username password name h =
    rw ((account-register a username password name).0)
      (grown ((register a username password).1 && str_eq name username))
  where
    grown : (b : Bool) → is_some (if b then some password else account a name) ≡ true
    grown true = refl
    grown false = h

pub set_room-IsAuthorised :
    (room : List ℕ) (s : Server) → IsAuthorised s → IsAuthorised (record s { sessions = room })
set_room-IsAuthorised room s v = record {
  ops_ok =
      All-imp _ _ s.ops
        (λ o. Authorised-imp s (record s { sessions = room }) o (omega arith) (λ j _ h. h))
        v.ops_ok;
  states_ok = v.states_ok;
}

-- A change that keeps the name and logs nobody in.
pub quiet-IsAuthorised :
    (id : ℕ) (w : Session) (s : Server)
    → w.username ≡ (s.session id).username
    → (w.con_state ≡ logged_in → (s.session id).con_state ≡ logged_in)
    → IsAuthorised s
    → IsAuthorised (set_session id w s)
quiet-IsAuthorised id w s same quiet v =
    set_session-IsAuthorised id w s (λ h. rw same h) (λ e. rw same (v.states_ok id (quiet e))) v

pub disconnect-IsAuthorised :
    (id : ℕ) (s : Server) → IsAuthorised s → IsAuthorised (disconnect id s)
unfolding disconnect
disconnect-IsAuthorised id s v =
    set_room-IsAuthorised _ _ (
      quiet-IsAuthorised id (record (s.session id) { con_state = not_connected }) s refl (λ e. cc)
        v)

write-IsAuthorised :
    (id : ℕ) (m : ScMessage) (s t : Server) (queue : List ScMessage)
    → (s.session id).msg_queue ≡ queue
    → write_scmessage id m s ≡ ok t
    → IsAuthorised s
    → IsAuthorised t
write-IsAuthorised id m s t [] e h v =
    let at : start_op (writing id (frame m)) (with_queue id (m ∷ []) s) ≡ t =
      cc (write_scmessage-nil id m s e) in
    rw (← at) (
      start_op-IsAuthorised (writing id (frame m)) (with_queue id (m ∷ []) s) tt
        (quiet-IsAuthorised id _ s refl (λ k. k) v))
write-IsAuthorised id m s t (q ∷ queue) e h v =
    let at : with_queue id (q ∷ queue ++ m ∷ []) s ≡ t =
      cc (write_scmessage-cons id m q queue s e) in
    rw (← at) (quiet-IsAuthorised id _ s refl (λ k. k) v)

pub deliver-IsAuthorised :
    (m : ScMessage) (ids : List ℕ) (s t : Server)
    → deliver m ids s ≡ ok t
    → IsAuthorised s
    → IsAuthorised t
unfolding deliver
deliver-IsAuthorised m [] s t h v = let e : s ≡ t = cc in rw (← e) v
deliver-IsAuthorised m (id ∷ ids) s t h v =
    let (u, wrote, rest) = >>=-eq-ok (write_scmessage id m s) (λ u. deliver m ids u) h in
    deliver-IsAuthorised m ids u t rest
      (write-IsAuthorised id m s u (s.session id).msg_queue refl wrote v)

-- What writing to sessions leaves as it was.
pub record SameNames (s t : Server) : Type 0 where
  pub manager : t.auth_manager ≡ s.auth_manager
  pub next : t.next_id ≡ s.next_id
  pub names : (j : ℕ) → (t.session j).username ≡ (s.session j).username

with_queue-names :
    (id : ℕ) (queue : List ScMessage) (s : Server) (j : ℕ)
    → ((with_queue id queue s).session j).username ≡ (s.session j).username
with_queue-names id queue s j = elim (Bool-cases (j == id)) [
  | inl e ↦ rw e (ap (λ k. (s.session k).username) (sym (==→eq j id e)))
  | inr e ↦ rw e refl
]

write-SameNames :
    (id : ℕ) (m : ScMessage) (s t : Server) (queue : List ScMessage)
    → (s.session id).msg_queue ≡ queue
    → write_scmessage id m s ≡ ok t
    → SameNames s t
write-SameNames id m s t [] e h =
    let at : start_op (writing id (frame m)) (with_queue id (m ∷ []) s) ≡ t =
      cc (write_scmessage-nil id m s e) in
    rw (← at) (record { manager = refl; next = refl; names = with_queue-names id (m ∷ []) s })
write-SameNames id m s t (q ∷ queue) e h =
    let at : with_queue id (q ∷ queue ++ m ∷ []) s ≡ t =
      cc (write_scmessage-cons id m q queue s e) in
    rw (← at)
      (record { manager = refl; next = refl; names = with_queue-names id (q ∷ queue ++ m ∷ []) s })

pub deliver-SameNames :
    (m : ScMessage) (ids : List ℕ) (s t : Server) → deliver m ids s ≡ ok t → SameNames s t
unfolding deliver
deliver-SameNames m [] s t h =
    let e : s ≡ t = cc in rw (← e) (record { manager = refl; next = refl; names = λ j. refl })
deliver-SameNames m (id ∷ ids) s t h =
    let (u, wrote, rest) = >>=-eq-ok (write_scmessage id m s) (λ u. deliver m ids u) h in
    let first = write-SameNames id m s u (s.session id).msg_queue refl wrote in
    let others = deliver-SameNames m ids u t rest in
    record {
      manager = others.manager ∙ first.manager;
      next = others.next ∙ first.next;
      names = λ j. others.names j ∙ first.names j;
    }
