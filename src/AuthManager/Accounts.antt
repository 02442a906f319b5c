-- ===== src/AuthManager/Accounts.antt =====
-- `Login` and `Register` against the accounts that they stand for.
use tyfirc.Base.{
  Bool, true, false, not, ap, ◌&&◌, ◌≡◌, ◌↔◌, refl, Option, none, some, arith, if◌then◌else◌,
  Option-cases, inl, inr,
}
use tyfirc.Base.Text.{Str, str_eq}
use tyfirc.Base.Text.Order.{str_eq→eq, str_eq_refl}
use tyfirc.Base.Map.{lookup, lookup-insert}
use tyfirc.Base.Map.Order.{IsOrdered, insert-IsOrdered}
use tyfirc.AuthManager.{FileAuthManager, login, register}

-- The password of each name.
abbrev pub Account : Type 0
Account = Str → Option Str

abbrev pub account : FileAuthManager → Account
account a name = lookup name a.auth_info

abbrev pub is_some {ℓ} : {A : Type ℓ} → Option A → Bool
is_some none = false
is_some (some a) = true

-- `Login` accepts exactly the stored password.
pub login_iff :
    (a : FileAuthManager) (username password : Str)
    → (login a username password ≡ true) ↔ (account a username ≡ some password)
unfolding login
login_iff a username password =
    (λ h. stored (lookup username a.auth_info) h, λ h. rw (h, login) (str_eq_refl password))
  where
    stored :
        (o : Option Str)
        → (elim o [ none ↦ false | some q ↦ str_eq q password ]) ≡ true
        → o ≡ some password
    stored none h = cc
    stored (some q) h = ap some (str_eq→eq q password h)

-- `Register` succeeds exactly if nobody has the name, and it never touches another account nor a
-- password that is there: afterwards each name has the password it had, but a new name the new one.
pub account-register :
    (a : FileAuthManager) (username password name : Str)
    → let (a', registered) = register a username password in
      (account a' name
        ≡ (if registered && str_eq name username then some password else account a name))
      × (registered ≡ not (is_some (account a username)))
unfolding register
account-register a username password name = elim (Option-cases (lookup username a.auth_info)) [
  | inl e ↦ rw (e, register, lookup-insert) (refl, refl)
  | inr (stored, e) ↦ rw (e, register) (refl, refl)
]

-- `Register` returns whether nobody had the name. After it, `Login` accepts a name and a password
-- exactly if it accepted them before, but for the name that nobody had, if it is registered: that
-- is accepted with the new password.
pub login-register :
    (a : FileAuthManager) (username password name word : Str)
    → let (a', registered) = register a username password in
      let is_new = not (is_some (account a username)) in
      (registered ≡ is_new)
      × (login a' name word
          ≡ (if is_new && str_eq name username then str_eq password word else login a name word))
unfolding register login
login-register a username password name word = elim (Option-cases (lookup username a.auth_info)) [
  | inl e ↦ (
    rw (e, register) refl,
    rw (e, register, lookup-insert name username password a.auth_info, login) (ground arith),
  )
  | inr (stored, e) ↦ (rw (e, register) refl, rw (e, register) refl)
]

-- The names stay in the order of the map.
pub register-IsOrdered :
    (a : FileAuthManager) (username password : Str)
    → IsOrdered a.auth_info
    → IsOrdered (register a username password).0.auth_info
unfolding register
register-IsOrdered a username password h =
    ground (arith, insert-IsOrdered username password a.auth_info h)
