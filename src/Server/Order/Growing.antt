-- ===== src/Server/Order/Growing.antt =====
-- The accounts, over the handlers of tyfirc-server/tyfirc-session.cpp.
use tyfirc.Base.{
  ℕ, Bool, true, false, ◌≡◌, refl, sym, ◌∙◌, List, [], ◌∷◌, some, not, ap, if◌then◌else◌, ◌&&◌,
}
use tyfirc.Base.Text.{Str, codes, str_eq}
use tyfirc.AuthManager.Accounts.{account, is_some, account-register}
use tyfirc.Base.Text.Order.{str_eq→eq}
use tyfirc.Base.Result.{Result, ok, throw, ub, invalid_argument, >>=-eq-ok}
use tyfirc.Time.{Clock}
use tyfirc.AuthManager.{FileAuthManager}
use tyfirc.AuthManager
use tyfirc.ScMessage.{ScMessage, deserialize, get_property}
use tyfirc.ScMessage.Types.{ScMessageType, message, login, register}
use tyfirc.Server.{
  Op, accepting, handshaking, reading_auth, reading_message, answering_failure, answering_success,
  writing, Server,
}
use tyfirc.Server.ChatRoom.{disconnect, remove_session, add_session, handle_written}
use tyfirc.Server.ChatRoom.Queue.{handle_written-nil, handle_written-last, handle_written-next}
use tyfirc.Server.Handlers.{
  start, read_login_scmessage, ask_manager, send_answer, Verdict, accepted, refused, unknown,
  handle_auth_scmessage, read_scmessage, handle_success, handle_scmessage, dispatch, broadcast,
  catch_invalid,
}
use tyfirc.Server.App.{start_accept, handle_accept, Event, is_error, bytes_of, receive, complete}
use tyfirc.Server.Accounts.{deliver-SameNames}
use tyfirc.Server.Accounts.Reachable.{broadcast-delivers}

-- No account goes away, nor changes its password.
abbrev pub KeepsAccounts : Server → Server → Type 0
KeepsAccounts s t =
    (name word : Str)
    → account s.auth_manager name ≡ some word
    → account t.auth_manager name ≡ some word

register_keeps :
    (a : FileAuthManager) (u p name word : Str)
    → account a name ≡ some word
    → account (AuthManager.register a u p).0 name ≡ some word
register_keeps a u p name word k =
    let (entered, is_new) = account-register a u p name in
    rw entered (
      kept (AuthManager.register a u p).1 (str_eq name u)
        (λ e. is_new ∙ ap (λ o. not (is_some o)) (ap (account a) (sym (str_eq→eq name u e)) ∙ k)))
  where
    kept :
        (r q : Bool)
        → (q ≡ true → r ≡ false)
        → (if r && q then some p else account a name) ≡ some word
    kept false q h = k
    kept true false h = k
    kept true true h = cc (h refl)

same_manager :
    (s u t : Server)
    → ◌≡◌ {A = Result Server} (ok u) (ok t)
    → u.auth_manager ≡ s.auth_manager
    → KeepsAccounts s t
same_manager s u t h e name word k = let same : u ≡ t = cc in rw (← same, e) k

-- The handlers that return, by what they leave.
read_login-manager :
    (id : ℕ) (error : Bool) (s : Server)
    → (read_login_scmessage id error s).auth_manager ≡ s.auth_manager
unfolding read_login_scmessage disconnect remove_session
read_login-manager id true s = refl
read_login-manager id false s = refl

success-manager :
    (id : ℕ) (error : Bool) (s : Server) → (handle_success id error s).auth_manager ≡ s.auth_manager
unfolding handle_success read_scmessage disconnect remove_session
success-manager id true s = refl
success-manager id false s = refl

accept-manager :
    (id : ℕ) (error : Bool) (s : Server) → (handle_accept id error s).auth_manager ≡ s.auth_manager
unfolding handle_accept start_accept start add_session
accept-manager id true s = refl
accept-manager id false s = refl

disconnect-manager : (id : ℕ) (s : Server) → (disconnect id s).auth_manager ≡ s.auth_manager
unfolding disconnect remove_session
disconnect-manager id s = refl

written-KeepsAccounts :
    (id : ℕ) (error : Bool) (s t : Server) (queue : List ScMessage)
    → (s.session id).msg_queue ≡ queue
    → handle_written id error s ≡ ok t
    → KeepsAccounts s t
unfolding handle_written
written-KeepsAccounts id true s t queue e h = same_manager s _ t h (disconnect-manager id s)
written-KeepsAccounts id false s t [] e h = cc (handle_written-nil id s e)
written-KeepsAccounts id false s t (q ∷ []) e h =
    same_manager s _ t (sym (handle_written-last id q s e) ∙ h) refl
written-KeepsAccounts id false s t (q ∷ r ∷ queue) e h =
    same_manager s _ t (sym (handle_written-next id q r queue s e) ∙ h) refl

ask-KeepsAccounts :
    (type : ScMessageType) (m : ScMessage) (s : Server) (r : Server × Verdict)
    → ask_manager type m s ≡ ok r
    → KeepsAccounts s r.0
unfolding ask_manager
ask-KeepsAccounts login m s r h name word k =
    let (u, e, h1) = >>=-eq-ok (get_property m (codes "username")) _ h in
    let (p, e', h2) = >>=-eq-ok (get_property m (codes "password")) _ h1 in
    let same : s ≡ r.0 = cc in rw (← same) k
ask-KeepsAccounts register m s r h name word k =
    let (u, e, h1) = >>=-eq-ok (get_property m (codes "username")) _ h in
    let (p, e', h2) = >>=-eq-ok (get_property m (codes "password")) _ h1 in
    let same : record s { auth_manager = (AuthManager.register s.auth_manager u p).0 } ≡ r.0 = cc in
    rw (← same) (register_keeps s.auth_manager u p name word k)
ask-KeepsAccounts type m s r h name word k = let same : s ≡ r.0 = cc in rw (← same) k

answer-KeepsAccounts :
    (id : ℕ) (m : ScMessage) (s t : Server) (v : Verdict)
    → send_answer id m (s, v) ≡ ok t
    → KeepsAccounts s t
unfolding send_answer
answer-KeepsAccounts id m s t unknown h = same_manager s _ t h refl
answer-KeepsAccounts id m s t refused h = same_manager s _ t h refl
answer-KeepsAccounts id m s t accepted h =
    let (u, e, h') = >>=-eq-ok (get_property m (codes "username")) _ h in same_manager s _ t h' refl

auth-KeepsAccounts :
    (id : ℕ) (error : Bool) (s t : Server)
    → handle_auth_scmessage id error s ≡ ok t
    → KeepsAccounts s t
unfolding handle_auth_scmessage
auth-KeepsAccounts id true s t h name word k =
    same_manager s _ t h (disconnect-manager id s) name word k
auth-KeepsAccounts id false s t h name word k =
    let (m, read, h1) = >>=-eq-ok (deserialize (s.session id).read_buffer) _ h in
    let ((u, verdict), asked, h2) = >>=-eq-ok (ask_manager m.msg_type m s) _ h1 in
    answer-KeepsAccounts id m u t verdict h2 name word
      (ask-KeepsAccounts m.msg_type m s (u, verdict) asked name word k)

caught-KeepsAccounts :
    (c : Clock) (now id : ℕ) (m : ScMessage) (s t : Server) (r : Result Server)
    → broadcast c now id m s ≡ r
    → catch_invalid s r ≡ ok t
    → KeepsAccounts s t
caught-KeepsAccounts c now id m s t (ok u) e h =
    let (scmsg, d) = broadcast-delivers c now id m s u e in
    same_manager s u t h (deliver-SameNames scmsg s.sessions s u d).manager
caught-KeepsAccounts c now id m s t (throw invalid_argument) e h = same_manager s s t h refl
caught-KeepsAccounts c now id m s t (throw x) e h = cc
caught-KeepsAccounts c now id m s t ub e h = cc

dispatch-KeepsAccounts :
    (c : Clock) (now id : ℕ) (type : ScMessageType) (m : ScMessage) (s t : Server)
    → dispatch c now id type m s ≡ ok t
    → KeepsAccounts s t
unfolding dispatch
dispatch-KeepsAccounts c now id message m s t h = caught-KeepsAccounts c now id m s t _ refl h
dispatch-KeepsAccounts c now id type m s t h = same_manager s s t h refl

message-KeepsAccounts :
    (c : Clock) (now id : ℕ) (error : Bool) (s t : Server)
    → handle_scmessage c now id error s ≡ ok t
    → KeepsAccounts s t
unfolding handle_scmessage
message-KeepsAccounts c now id true s t h name word k =
    same_manager s _ t h (disconnect-manager id s) name word k
message-KeepsAccounts c now id false s t h name word k =
    let (m, _, h1) = >>=-eq-ok (deserialize (s.session id).read_buffer) _ h in
    let (u, sent, h2) = >>=-eq-ok (dispatch c now id m.msg_type m s) _ h1 in
    same_manager u _ t h2 refl name word
      (dispatch-KeepsAccounts c now id m.msg_type m s u sent name word k)

pub complete-KeepsAccounts :
    (c : Clock) (now : ℕ) (op : Op) (e : Event) (s t : Server)
    → complete c now op e s ≡ ok t
    → KeepsAccounts s t
unfolding complete receive
complete-KeepsAccounts c now (accepting id) e s t h =
    same_manager s _ t h (accept-manager id (is_error e) s)
complete-KeepsAccounts c now (handshaking id) e s t h =
    same_manager s _ t h (read_login-manager id (is_error e) s)
complete-KeepsAccounts c now (answering_failure id bytes) e s t h =
    same_manager s _ t h (read_login-manager id (is_error e) s)
complete-KeepsAccounts c now (answering_success id bytes) e s t h =
    same_manager s _ t h (success-manager id (is_error e) s)
complete-KeepsAccounts c now (writing id bytes) e s t h =
    written-KeepsAccounts id (is_error e) s t _ refl h
complete-KeepsAccounts c now (reading_auth id) e s t h =
    λ name word k. auth-KeepsAccounts id (is_error e) (receive id (bytes_of e) s) t h name word k
complete-KeepsAccounts c now (reading_message id) e s t h = λ name word k.
    message-KeepsAccounts c now id (is_error e) (receive id (bytes_of e) s) t h name word k
