-- ===== src/Client/Sending.antt =====
-- What the checks of `IrcClientApp` guarantee to the server.
use tyfirc.Base.{
  ℕ, ◌⊎◌, Bool, true, false, ◌||◌, ◌≡◌, refl, [], ◌∷◌, Lacks, ◌==◌, ==→ne, Bool-cases, inl, inr,
}
use tyfirc.Base.Text.{Str}
use tyfirc.Base.Result.{ok}
use tyfirc.ScMessage.{separator}
use tyfirc.Time.{Clock}
use tyfirc.AuthManager.Lines.{IsStorable}
use tyfirc.Client.{Socket}
use tyfirc.Client.App.{IrcClientApp, has_whitespace, has_separator, login, register, write_message}

both_false : (a b : Bool) → (a || b) ≡ false → (a ≡ false) × (b ≡ false)
both_false true b h = cc
both_false false b h = (refl, h)

no_whitespace : (s : Str) → has_whitespace s ≡ false → Lacks b' ' s × Lacks b'\n' s
no_whitespace [] h = (tt, tt)
no_whitespace (c ∷ s) h =
    let (here, rest) = both_false (c == b'\t' || (c == b'\n' || c == b' ')) (has_whitespace s) h in
    let (_, others) = both_false (c == b'\t') (c == b'\n' || c == b' ') here in
    let (newline, blank) = both_false (c == b'\n') (c == b' ') others in
    let (blanks, newlines) = no_whitespace s rest in
    ((==→ne c b' ' blank, blanks), (==→ne c b'\n' newline, newlines))

pub no_separator : (s : Str) → has_separator s ≡ false → Lacks separator s
no_separator [] h = tt
no_separator (c ∷ s) h =
    let (here, rest) = both_false (c == separator) (has_separator s) h in
    (==→ne c separator here, no_separator s rest)

storable :
    (name password : Str)
    → (has_whitespace name || has_whitespace password) ≡ false
    → IsStorable (name, password)
storable name password h =
    let (clean, secret) = both_false (has_whitespace name) (has_whitespace password) h in
    let (blanks, newlines) = no_whitespace name clean in
    let (blanks', newlines') = no_whitespace password secret in
    (blanks, newlines, blanks', newlines')

module _ {S : Type 0} (io : Socket S) where
  -- A name and a password that the application registers or logs in with can stand in a line of
  -- the server's file.
  pub register-IsStorable :
      (name password : Str) (app : IrcClientApp S) (b : Bool)
      → ((register io name password app).1 ≡ ok b) ⊎ ((login io name password app).1 ≡ ok b)
      → IsStorable (name, password)
  unfolding register login
  register-IsStorable name password app b h =
      elim (Bool-cases (has_whitespace name || has_whitespace password)) [
        | inl e ↦ elim h [ inl h ↦ cc (rw e at h) | inr h ↦ cc (rw e at h) ]
        | inr e ↦ storable name password e
      ]

  -- A text that the application writes has no separator.
  pub write_message-Lacks :
      (c : Clock) (now : ℕ) (msg : Str) (app : IrcClientApp S)
      → (write_message io c now msg app).1 ≡ ok tt
      → Lacks separator msg
  unfolding write_message
  write_message-Lacks c now msg app h = elim (Bool-cases (has_separator msg)) [
    | inl e ↦ cc (rw e at h)
    | inr e ↦ no_separator msg e
  ]
