-- ===== src/Server/Accounts/Asking.antt =====
-- What `HandleAuthScMessage` has when it has asked the manager.
use tyfirc.Base.{Bool, true, false, ◌≡◌, refl, Bool-cases, inl, inr}
use tyfirc.Base.Text.{Str, codes}
use tyfirc.Base.Text.Order.{str_eq_refl}
use tyfirc.Base.Result.{ok, >>=-eq-ok}
use tyfirc.AuthManager.{FileAuthManager}
use tyfirc.AuthManager
use tyfirc.AuthManager.Accounts.{account, is_some, login_iff, account-register}
use tyfirc.ScMessage.{ScMessage, get_property}
use tyfirc.ScMessage.Types.{ScMessageType, login, register}
use tyfirc.Server.{Server}
use tyfirc.Server.Handlers.{ask_manager, Verdict, verdict, accepted, unknown}
use tyfirc.Server.Accounts.{IsAuthorised, Registered, set_manager-IsAuthorised, register_grows}

abbrev pub AskedName : ScMessage → Server → Verdict → Type 0
AskedName m t accepted = (u : Str) × (get_property m (codes "username") ≡ ok u) × Registered t u
AskedName m t _ = Unit

-- What asking the manager gives: the invariant, as many sessions, and an account for the name if
-- the manager agrees.
pub record Asked (m : ScMessage) (s : Server) (r : Server × Verdict) : Type 0 where
  pub kept : IsAuthorised r.0
  pub same_next : r.0.next_id ≡ s.next_id
  pub agreed : AskedName m r.0 r.1

verdict-agreed :
    (m : ScMessage) (t : Server) (u : Str) (b : Bool)
    → get_property m (codes "username") ≡ ok u
    → (b ≡ true → Registered t u)
    → AskedName m t (verdict b)
verdict-agreed m t u true e h = (u, e, h refl)
verdict-agreed m t u false e h = tt

login-Registered :
    (s : Server) (u p : Str) → AuthManager.login s.auth_manager u p ≡ true → Registered s u
login-Registered s u p h = rw ((login_iff s.auth_manager u p).0 h) refl

register-Registered :
    (a : FileAuthManager) (u p : Str) → is_some (account (AuthManager.register a u p).0 u) ≡ true
register-Registered a u p = elim (Bool-cases (is_some (account a u))) [
  | inl h ↦ register_grows a u p u h
  | inr h ↦
      let (stored, registered) = account-register a u p u in
      rw (stored, registered, h, str_eq_refl u) refl
]

pub ask-Asked :
    (type : ScMessageType) (m : ScMessage) (s : Server) (r : Server × Verdict)
    → ask_manager type m s ≡ ok r
    → IsAuthorised s
    → Asked m s r
unfolding ask_manager
ask-Asked login m s r h v =
    let (u, e, h1) = >>=-eq-ok (get_property m (codes "username")) _ h in
    let (p, e', h2) = >>=-eq-ok (get_property m (codes "password")) _ h1 in
    let at : (s, verdict (AuthManager.login s.auth_manager u p)) ≡ r = cc in
    rw (← at) (record {
      kept = v;
      same_next = refl;
      agreed = verdict-agreed m s u _ e (login-Registered s u p);
    })
ask-Asked register m s r h v =
    let (u, e, h1) = >>=-eq-ok (get_property m (codes "username")) _ h in
    let (p, e', h2) = >>=-eq-ok (get_property m (codes "password")) _ h1 in
    let (a', registered) = AuthManager.register s.auth_manager u p in
    let at : (record s { auth_manager = a' }, verdict registered) ≡ r = cc in
    rw (← at) (record {
      kept = set_manager-IsAuthorised a' s (register_grows s.auth_manager u p) v;
      same_next = refl;
      agreed =
          verdict-agreed m (record s { auth_manager = a' }) u registered e
            (λ _. register-Registered s.auth_manager u p);
    })
ask-Asked type m s r h v =
    let at : (s, unknown) ≡ r = cc in rw (← at) (record { kept = v; same_next = refl; agreed = tt })
