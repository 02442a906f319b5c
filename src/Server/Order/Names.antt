-- ===== src/Server/Order/Names.antt =====
-- The names of the sessions, over the handlers of tyfirc-server/tyfirc-session.cpp.
use tyfirc.Base.{
  ℕ, Bool, true, false, ◌≡◌, refl, sym, ◌∙◌, List, [], ◌∷◌, ◌==◌, ==→eq, Bool-cases, inl, inr,
  Lacks,
}
use tyfirc.Base.Text.{Str, codes}
use tyfirc.Base.Result.{Result, ok, >>=-eq-ok}
use tyfirc.Misc.{connected, not_connected, logged_in}
use tyfirc.AuthManager.{FileAuthManager}
use tyfirc.AuthManager
use tyfirc.ScMessage.{ScMessage, separator, deserialize, get_property}
use tyfirc.ScMessage.Types.{ScMessageType, login, register}
use tyfirc.ScMessage.RoundTrip.{IsWellFormed}
use tyfirc.ScMessage.Clean.{deserialize-IsWellFormed, property-Lacks}
use tyfirc.Server.{Session, new_session, Server, set_session}
use tyfirc.Server.ChatRoom.{disconnect, remove_session, add_session, handle_written}
use tyfirc.Server.ChatRoom.Queue.{
  with_queue, handle_written-nil, handle_written-last, handle_written-next,
}
use tyfirc.Server.Handlers.{
  start, read_login_scmessage, ask_manager, send_answer, Verdict, accepted, refused, unknown,
  handle_auth_scmessage, read_scmessage, handle_success,
}
use tyfirc.Server.App.{start_accept, handle_accept, receive}

-- A session's name can stand in a message.
abbrev pub IsNamed : ℕ → Server → Type 0
IsNamed j s = Lacks separator (s.session j).username

-- The names keep that.
abbrev pub KeepsNames : Server → Server → Type 0
KeepsNames s t = (j : ℕ) → IsNamed j s → IsNamed j t

pub set_session-KeepsNames :
    (id : ℕ) (w : Session) (s : Server)
    → (IsNamed id s → Lacks separator w.username)
    → KeepsNames s (set_session id w s)
set_session-KeepsNames id w s f j h = elim (Bool-cases (j == id)) [
  | inl e ↦ rw e (f (rw (==→eq j id e) at h))
  | inr e ↦ rw e h
]

pub same_end :
    (s u t : Server) → ◌≡◌ {A = Result Server} (ok u) (ok t) → KeepsNames s u → KeepsNames s t
same_end s u t h k = let same : u ≡ t = cc in rw (← same) k

pub disconnect-KeepsNames : (id : ℕ) (s : Server) → KeepsNames s (disconnect id s)
unfolding disconnect remove_session
disconnect-KeepsNames id s =
    set_session-KeepsNames id (record (s.session id) { con_state = not_connected }) s (λ h. h)

pub receive-KeepsNames : (id : ℕ) (bytes : Str) (s : Server) → KeepsNames s (receive id bytes s)
unfolding receive
receive-KeepsNames id bytes s = set_session-KeepsNames id _ s (λ h. h)

pub read_login-KeepsNames :
    (id : ℕ) (error : Bool) (s : Server) → KeepsNames s (read_login_scmessage id error s)
unfolding read_login_scmessage
read_login-KeepsNames id true s = disconnect-KeepsNames id s
read_login-KeepsNames id false s = λ j h. h

pub success-KeepsNames :
    (id : ℕ) (error : Bool) (s : Server) → KeepsNames s (handle_success id error s)
unfolding handle_success read_scmessage
success-KeepsNames id true s j h =
    let u = set_session id (record (s.session id) { con_state = logged_in }) s in
    disconnect-KeepsNames id u j (set_session-KeepsNames id _ s (λ k. k) j h)
success-KeepsNames id false s j h =
    let u = set_session id (record (s.session id) { con_state = logged_in }) s in
    set_session-KeepsNames id (record (u.session id) { read_buffer = [] }) u (λ k. k) j
      (set_session-KeepsNames id _ s (λ k. k) j h)

pub start_accept-KeepsNames : (s : Server) → KeepsNames s (start_accept s)
unfolding start_accept
start_accept-KeepsNames s = set_session-KeepsNames s.next_id new_session s (λ h. tt)

pub accept-KeepsNames :
    (id : ℕ) (error : Bool) (s : Server) → KeepsNames s (handle_accept id error s)
unfolding handle_accept start add_session
accept-KeepsNames id true s j h = start_accept-KeepsNames s j h
accept-KeepsNames id false s j h =
    start_accept-KeepsNames (start id (add_session id s)) j
      (set_session-KeepsNames id (record (s.session id) { con_state = connected }) s (λ k. k) j h)

written_from-KeepsNames :
    (id : ℕ) (s t : Server) (queue : List ScMessage)
    → (s.session id).msg_queue ≡ queue
    → handle_written id false s ≡ ok t
    → KeepsNames s t
written_from-KeepsNames id s t [] e h = cc (handle_written-nil id s e)
written_from-KeepsNames id s t (q ∷ []) e h =
    same_end s (with_queue id [] s) t (sym (handle_written-last id q s e) ∙ h)
      (set_session-KeepsNames id _ s (λ k. k))
written_from-KeepsNames id s t (q ∷ r ∷ queue) e h =
    same_end s _ t (sym (handle_written-next id q r queue s e) ∙ h)
      (set_session-KeepsNames id (record (s.session id) { msg_queue = r ∷ queue }) s (λ k. k))

pub written-KeepsNames :
    (id : ℕ) (error : Bool) (s t : Server) → handle_written id error s ≡ ok t → KeepsNames s t
unfolding handle_written
written-KeepsNames id true s t h = same_end s _ t h (disconnect-KeepsNames id s)
written-KeepsNames id false s t h = written_from-KeepsNames id s t _ refl h

-- Whoever is asked, the name of the session is one that was read.
ask-KeepsNames :
    (type : ScMessageType) (m : ScMessage) (s : Server) (r : Server × Verdict)
    → ask_manager type m s ≡ ok r
    → KeepsNames s r.0
unfolding ask_manager
ask-KeepsNames login m s r h =
    let (u, e, h1) = >>=-eq-ok (get_property m (codes "username")) _ h in
    let (p, e', h2) = >>=-eq-ok (get_property m (codes "password")) _ h1 in
    let same : s ≡ r.0 = cc in rw (← same) (λ j h. h)
ask-KeepsNames register m s r h =
    let (u, e, h1) = >>=-eq-ok (get_property m (codes "username")) _ h in
    let (p, e', h2) = >>=-eq-ok (get_property m (codes "password")) _ h1 in
    let (a, registered) = AuthManager.register s.auth_manager u p in
    let same : record s { auth_manager = a } ≡ r.0 = cc in rw (← same) (λ j h. h)
ask-KeepsNames type m s r h = let same : s ≡ r.0 = cc in rw (← same) (λ j h. h)

answer-KeepsNames :
    (id : ℕ) (m : ScMessage) (s t : Server) (v : Verdict)
    → IsWellFormed m
    → send_answer id m (s, v) ≡ ok t
    → KeepsNames s t
unfolding send_answer
answer-KeepsNames id m s t unknown w h = same_end s _ t h (λ j k. k)
answer-KeepsNames id m s t refused w h = same_end s _ t h (λ j k. k)
answer-KeepsNames id m s t accepted w h =
    let (u, e, h') = >>=-eq-ok (get_property m (codes "username")) _ h in
    same_end s _ t h' (
      set_session-KeepsNames id (record (s.session id) { username = u }) s
        (λ _. property-Lacks m (codes "username") u e w))

pub auth-KeepsNames :
    (id : ℕ) (error : Bool) (s t : Server)
    → handle_auth_scmessage id error s ≡ ok t
    → KeepsNames s t
unfolding handle_auth_scmessage
auth-KeepsNames id true s t h j k = same_end s _ t h (disconnect-KeepsNames id s) j k
auth-KeepsNames id false s t h j k =
    let (m, read, h1) = >>=-eq-ok (deserialize (s.session id).read_buffer) _ h in
    let ((u, verdict), asked, h2) = >>=-eq-ok (ask_manager m.msg_type m s) _ h1 in
    answer-KeepsNames id m u t verdict (deserialize-IsWellFormed _ m read) h2 j
      (ask-KeepsNames m.msg_type m s (u, verdict) asked j k)
