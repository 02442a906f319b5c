-- ===== src/Server/Accounts/Kept.antt =====
-- The handlers that only move a session along keep the invariant.
use tyfirc.Base.{
  ℕ, ◌<◌, Bool, true, false, ◌≡◌, refl, Bool-cases, inl, inr, ◌==◌, eq→==, ne→==, List, [], ◌∷◌,
  arith, All-imp,
}
use tyfirc.Base.Result.{ok}
use tyfirc.Misc.{connected, logged_in}
use tyfirc.ScMessage.{ScMessage, frame}
use tyfirc.Server.{
  reading_message, handshaking, reading_auth, writing, Server, set_session, start_op,
}
use tyfirc.Server.ChatRoom.{disconnect, handle_written, add_session}
use tyfirc.Server.ChatRoom.{insert_id}
use tyfirc.Server.ChatRoom.Queue.{
  with_queue, handle_written-nil, handle_written-last, handle_written-next,
}
use tyfirc.Server.Handlers.{read_login_scmessage, handle_success, read_scmessage}
use tyfirc.Server.App.{start_accept, handle_accept}
use tyfirc.Server.Accounts.{
  IsAuthorised, Authorised-imp, HasAccount, start_op-IsAuthorised, set_session-IsAuthorised,
  quiet-IsAuthorised, set_room-IsAuthorised, disconnect-IsAuthorised,
}

pub read_login-IsAuthorised :
    (id : ℕ) (error : Bool) (s : Server)
    → id < s.next_id
    → IsAuthorised s
    → IsAuthorised (read_login_scmessage id error s)
unfolding read_login_scmessage
read_login-IsAuthorised id true s lt v = disconnect-IsAuthorised id s v
read_login-IsAuthorised id false s lt v = start_op-IsAuthorised (reading_auth id) s lt v

-- A session that nobody has taken yet replaces no other.
read_scmessage-IsAuthorised :
    (id : ℕ) (error : Bool) (s : Server)
    → id < s.next_id
    → HasAccount s id
    → IsAuthorised s
    → IsAuthorised (read_scmessage id error s)
unfolding read_scmessage
read_scmessage-IsAuthorised id true s lt h v = disconnect-IsAuthorised id s v
read_scmessage-IsAuthorised id false s lt h v =
    start_op-IsAuthorised (reading_message id)
      (set_session id (record (s.session id) { read_buffer = [] }) s) (lt, rw (eq→== id id refl) h)
      (quiet-IsAuthorised id (record (s.session id) { read_buffer = [] }) s refl (λ e. e) v)

pub start_accept-IsAuthorised : (s : Server) → IsAuthorised s → IsAuthorised (start_accept s)
unfolding start_accept
start_accept-IsAuthorised s v = record {
  ops_ok = (
    omega arith,
    All-imp _ _ s.ops (λ o. Authorised-imp s (start_accept s) o (omega arith) kept) v.ops_ok,
  );
  states_ok = entered;
}
  where
    kept : (j : ℕ) → j < s.next_id → HasAccount s j → HasAccount (start_accept s) j
    kept j lt h = rw (ne→== j s.next_id (λ e. absurd (omega arith))) h

    entered :
        (j : ℕ) → ((start_accept s).session j).con_state ≡ logged_in → HasAccount (start_accept s) j
    entered j = elim (Bool-cases (j == s.next_id)) [
      | inl e ↦ rw e (λ h. cc)
      | inr e ↦ rw e (v.states_ok j)
    ]

pub handle_success-IsAuthorised :
    (id : ℕ) (error : Bool) (s : Server)
    → id < s.next_id
    → HasAccount s id
    → IsAuthorised s
    → IsAuthorised (handle_success id error s)
unfolding handle_success
handle_success-IsAuthorised id error s lt h v =
    read_scmessage-IsAuthorised id error _ lt (rw (eq→== id id refl) h) (
      set_session-IsAuthorised id (record (s.session id) { con_state = logged_in }) s (λ k. k)
        (λ _. h) v)

pub handle_accept-IsAuthorised :
    (id : ℕ) (error : Bool) (s : Server)
    → id < s.next_id
    → IsAuthorised s
    → IsAuthorised (handle_accept id error s)
unfolding handle_accept
handle_accept-IsAuthorised id true s lt v = start_accept-IsAuthorised s v
handle_accept-IsAuthorised id false s lt v =
    let w = record (s.session id) { con_state = connected } in
    let room = set_room-IsAuthorised (insert_id id s.sessions) s v in
    start_accept-IsAuthorised _ (
      start_op-IsAuthorised (handshaking id) (set_session id w (add_session id s)) lt
        (quiet-IsAuthorised id w (add_session id s) refl (λ e. cc) room))

handle_written-cases :
    (id : ℕ) (s t : Server) (queue : List ScMessage)
    → (s.session id).msg_queue ≡ queue
    → handle_written id false s ≡ ok t
    → IsAuthorised s
    → IsAuthorised t
handle_written-cases id s t [] e h v = cc (handle_written-nil id s e)
handle_written-cases id s t (q ∷ []) e h v =
    let at : with_queue id [] s ≡ t = cc (handle_written-last id q s e) in
    rw (← at) (quiet-IsAuthorised id _ s refl (λ k. k) v)
handle_written-cases id s t (q ∷ r ∷ queue) e h v =
    let at : start_op (writing id (frame r)) (with_queue id (r ∷ queue) s) ≡ t =
      cc (handle_written-next id q r queue s e) in
    rw (← at) (
      start_op-IsAuthorised (writing id (frame r)) (with_queue id (r ∷ queue) s) tt
        (quiet-IsAuthorised id _ s refl (λ k. k) v))

pub handle_written-IsAuthorised :
    (id : ℕ) (error : Bool) (s t : Server)
    → handle_written id error s ≡ ok t
    → IsAuthorised s
    → IsAuthorised t
handle_written-IsAuthorised id true s t h v =
    let e : disconnect id s ≡ t = unfold handle_written in cc h in
    rw (← e) (disconnect-IsAuthorised id s v)
handle_written-IsAuthorised id false s t h v =
    handle_written-cases id s t (s.session id).msg_queue refl h v
