-- ===== src/Server/Order/Turns.antt =====
-- The kinds of steps of the server, as far as the order of the messages goes.
use tyfirc.Base.{ℕ, true, false, ◌≡◌, refl, List, [], ◌∷◌, ◌++◌, eq→==}
use tyfirc.Base.Text.{Str}
use tyfirc.Base.Result.{ok}
use tyfirc.Time.{Clock}
use tyfirc.Server.{
  Op, accepting, handshaking, reading_auth, reading_message, answering_failure, answering_success,
  writing, Server,
}
use tyfirc.Server.Handlers.{handle_scmessage}
use tyfirc.Server.App.{
  Event, failed, succeeded, is_error, bytes_of, receive, complete, handle_accept,
}
use tyfirc.Server.Writing.{accepts, IsServed}
use tyfirc.Server.Writing.Calm.{
  Calm, Calm-IsServed, chain, returned, disconnect-Calm, read_login-Calm, success-Calm, auth-Calm,
  receive-Calm,
}
use tyfirc.Server.Writing.Queues.{Popped, written-Popped}
use tyfirc.Server.Writing.Taken.{WriterOut, writer_out}
use tyfirc.Server.Writing.Reachable.{failed_write, calm_out}
use tyfirc.Server.Order.{said, wrote, enters}
use tyfirc.Server.Order.Handled.{Spoke, Calm-Spoke, then_spoken, handle_scmessage-Spoke}

received :
    (id : ℕ) (bytes : Str) (s : Server)
    → (receive id bytes s).session id
      ≡ record (s.session id) { read_buffer = (s.session id).read_buffer ++ bytes }
unfolding receive
received id bytes s = rw (eq→== id id refl) refl

same_room : (id : ℕ) (bytes : Str) (s : Server) → (receive id bytes s).sessions ≡ s.sessions
unfolding receive
same_room id bytes s = refl

handle_failed :
    (c : Clock) (now id : ℕ) (s t : Server) → handle_scmessage c now id true s ≡ ok t → Calm s t
unfolding handle_scmessage
handle_failed c now id s t h = returned s _ t h (disconnect-Calm id s)

-- `u` is the server without the operation that completes.
pub data Turned (c : Clock) (now : ℕ) (s u t : Server) : Op → Event → Type 0 where
  spoke :
      {op : Op} {e : Event}
      → accepts (op ∷ []) ≡ []
      → ((id : ℕ) → wrote id op e ≡ [])
      → ((id : ℕ) → enters id op e ≡ false)
      → Spoke (said c now op e s) u t
      → Turned c now s u t op e
  ended :
      {id : ℕ} {bytes more : Str} (out : WriterOut id bytes s u)
      → Popped id out.rest u t
      → Turned c now s u t (writing id bytes) (succeeded more)
  opened :
      {id : ℕ} {e : Event}
      → handle_accept id (is_error e) u ≡ t
      → Turned c now s u t (accepting id) e

module _ (c : Clock) (now : ℕ) (s : Server) (before after : List Op) (t : Server) where
  abbrev u : Server
  u = record s { ops = before ++ after }

  quiet_turn :
      (op : Op) (e : Event)
      → accepts (op ∷ []) ≡ []
      → ((id : ℕ) → wrote id op e ≡ [])
      → ((id : ℕ) → enters id op e ≡ false)
      → said c now op e s ≡ []
      → Calm u t
      → Turned c now s u t op e
  quiet_turn op e doors none out quiet l = spoke doors none out (rw quiet (Calm-Spoke u t l))

  pub complete-Turned :
      (op : Op) (e : Event)
      → s.ops ≡ before ++ op ∷ after
      → complete c now op e u ≡ ok t
      → IsServed s
      → Turned c now s u t op e
  unfolding complete wrote enters said
  complete-Turned (accepting id) e at h v = opened cc
  complete-Turned (handshaking id) e at h v =
      quiet_turn (handshaking id) e refl (λ j. refl) (λ j. refl) refl
        (returned u _ t h (read_login-Calm id (is_error e) u))
  complete-Turned (answering_failure id bytes) e at h v =
      quiet_turn (answering_failure id bytes) e refl (λ j. refl) (λ j. refl) refl
        (returned u _ t h (read_login-Calm id (is_error e) u))
  complete-Turned (answering_success id bytes) e at h v =
      quiet_turn (answering_success id bytes) e refl (λ j. refl) (λ j. refl) refl
        (returned u _ t h (success-Calm id (is_error e) u))
  complete-Turned (reading_auth id) e at h v =
      quiet_turn (reading_auth id) e refl (λ j. refl) (λ j. refl) refl
        (chain u _ t (receive-Calm id (bytes_of e) u)
          (auth-Calm id (is_error e) (receive id (bytes_of e) u) t h))
  complete-Turned (reading_message id) (failed bytes) at h v =
      quiet_turn (reading_message id) (failed bytes) refl (λ j. refl) (λ j. refl) refl
        (chain u _ t (receive-Calm id bytes u) (handle_failed c now id (receive id bytes u) t h))
  complete-Turned (reading_message id) (succeeded bytes) at h v =
      let r = receive id bytes u in
      let l = receive-Calm id bytes u in
      let p =
        handle_scmessage-Spoke c now id r t
          (Calm-IsServed u r l (calm_out s before after (reading_message id) at (λ j. refl) v)) h in
      spoke refl (λ j. refl) (λ j. refl)
        (then_spoken _ u r t l (same_room id bytes u) (rw (received id bytes u) at p))
  complete-Turned (writing id bytes) (failed more) at h v =
      quiet_turn (writing id bytes) (failed more) refl (λ j. refl) (λ j. refl) refl
        (failed_write id u t h)
  complete-Turned (writing id bytes) (succeeded more) at h v =
      let out = writer_out id bytes before after s at v in
      let (w, done, p) = written-Popped id bytes before after s out in
      let same : w ≡ t = cc in ended out (rw same at p)
