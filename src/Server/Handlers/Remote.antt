-- ===== src/Server/Handlers/Remote.antt =====
-- What the bytes of a client, whom nobody has let in, can do to the server.
use tyfirc.Base.{ℕ, ◌≡◌, refl, sym, ap, ◌∙◌, [], ◌∷◌, ◌++◌, append_assoc, Lacks, All-right, eq→==}
use tyfirc.Base.Text.{Str}
use tyfirc.Base.Result.{ub}
use tyfirc.Time.{Clock}
use tyfirc.ScMessage.{separator, deserialize}
use tyfirc.ScMessage.Buffers.{deserialize-ub}
use tyfirc.Server.{reading_auth, reading_message, Server}
use tyfirc.Server.Handlers.{handle_auth_scmessage, handle_scmessage}
use tyfirc.Server.App.{succeeded, Reads, later, receive, complete}

-- A zero that ends the read, and two separators behind it.
abbrev pub hostile : Str
hostile = 0 ∷ separator ∷ separator ∷ []

buffer-ub : (buffer : Str) → deserialize (buffer ++ hostile) ≡ ub
buffer-ub buffer =
    ap deserialize (sym (append_assoc buffer (0 ∷ []) (separator ∷ separator ∷ [])))
    ∙ deserialize-ub (buffer ++ 0 ∷ [])

hostile-Reads : (buffer : Str) → Lacks 0 buffer → Reads buffer (succeeded hostile)
hostile-Reads buffer h = later hostile h (λ lacks. (All-right _ buffer hostile lacks).0 refl)

-- Whatever has been read before, if it has no zero, three bytes that a client sends are a read that
-- completes, and its handler is undefined, whether the session still has to log in or not.
pub complete-ub :
    (c : Clock) (now id : ℕ) (s : Server)
    → Lacks 0 (s.session id).read_buffer
    → Reads (s.session id).read_buffer (succeeded hostile)
      × (complete c now (reading_auth id) (succeeded hostile) s ≡ ub)
      × (complete c now (reading_message id) (succeeded hostile) s ≡ ub)
unfolding complete handle_auth_scmessage handle_scmessage receive
complete-ub c now id s h = (
  hostile-Reads _ h,
  rw (eq→== id id refl, buffer-ub (s.session id).read_buffer) refl,
  rw (eq→== id id refl, buffer-ub (s.session id).read_buffer) refl,
)
