-- ===== src/Client/Reading.antt =====
-- `StartRead`: every message that arrives reaches its handlers, in the order of arrival.
use tyfirc.Base.{
  Bool, true, false, if◌then◌else◌, ◌≡◌, refl, sym, ap, ◌∙◌, List, [], ◌∷◌, ◌++◌, append_assoc,
  append-nil, All, some, map,
}
use tyfirc.Base.Text.{Str, compare_str}
use tyfirc.Base.Map.{lookup}
use tyfirc.Message.{Message}
use tyfirc.Message
use tyfirc.ScMessage.Types.{message}
use tyfirc.ScMessage.{get_property}
use tyfirc.ScMessage.Buffers.{chat}
use tyfirc.Base.Result.{Result, ok, throw, ub, ◌>>=◌, >>=-assoc, >>=-cong}
use tyfirc.Misc.{ConnectionState, logged_in}
use tyfirc.Time.{Clock}
use tyfirc.ScMessage.{ScMessage, frame}
use tyfirc.ScMessage.RoundTrip.{IsWellFormed, deserialize-frame}
use tyfirc.Client.{
  Socket, ChatRw, or_discarded, read_scmessage, Signal, on_message, signals, read_pass, read_loop,
  start_read, stop_read,
}

-- What the handlers are called with for a sequence of messages.
abbrev pub signals_of : Clock → List ScMessage → Result (List Signal)
signals_of c [] = ok []
signals_of c (m ∷ ms) = do new ← signals c m.msg_type m; rest ← signals_of c ms; ok (new ++ rest)

-- What the handler of messages is called with for the texts of chat messages: each of them as it is
-- read, in their order.
abbrev pub on_messages : Clock → List Str → Result (List Signal)
on_messages c [] = ok []
on_messages c (text ∷ texts) = do
  msg ← Message.deserialize c text
  rest ← on_messages c texts
  ok (on_message msg ∷ rest)

signals-chat :
    (c : Clock) (text : Str) (rest : Result (List Signal)) (read : Result Message)
    → Message.deserialize c text ≡ read
    → (signals c message (chat text) >>= λ new. rest >>= λ more. ok (new ++ more))
      ≡ (read >>= λ msg. rest >>= λ more. ok (on_message msg ∷ more))
unfolding signals get_property lookup compare_str
signals-chat c text rest (ok msg) e = rw e refl
signals-chat c text rest (throw x) e = rw e refl
signals-chat c text rest ub e = rw e refl

pub signals_of-chats :
    (c : Clock) (texts : List Str) → signals_of c (map chat texts) ≡ on_messages c texts
signals_of-chats c [] = refl
signals_of-chats c (text ∷ texts) =
    signals-chat c text (signals_of c (map chat texts)) (Message.deserialize c text) refl
    ∙ ap (λ rest. Message.deserialize c text >>= λ msg. rest >>= λ more. ok (on_message msg ∷ more))
        (signals_of-chats c texts)

-- As many passes as messages, with no call of `StopRead`.
abbrev pub undisturbed : List ScMessage → List Bool
undisturbed [] = []
undisturbed (m ∷ ms) = false ∷ undisturbed ms

pub same_result : (r : Result (List Signal)) → (r >>= λ all. ok ([] ++ all)) ≡ r
same_result ub = refl
same_result (throw x) = refl
same_result (ok all) = refl

module _ {S : Type 0} (io : Socket S) where
  -- The stream gives the frames of the messages, one by one.
  abbrev pub Arrive : List ScMessage → S → Type 0
  Arrive [] s = Unit
  Arrive (m ∷ ms) s = (t : S) × (io.read_until s ≡ (some (frame m), t)) × Arrive ms t

  pub read_pass-frame :
      (c : Clock) (conn : ChatRw S) (m : ScMessage) (t : S)
      → IsWellFormed m
      → io.read_until conn.socket ≡ (some (frame m), t)
      → read_pass io c conn ≡ (record conn { socket = t }, signals c m.msg_type m)
  unfolding read_pass read_scmessage or_discarded
  read_pass-frame c conn m t w arrives = rw (arrives, deserialize-frame m w) refl

  abbrev pub reading : ConnectionState → S → ChatRw S
  reading k s = record { con_state = k; is_read = true; socket = s }

  -- One pass, in which `StopRead` is called or not, by what the handlers are called with or what is
  -- thrown, and by what the passes behind it do.
  pub first_pass :
      (c : Clock) (stopped : Bool) (passes : List Bool) (k : ConnectionState) (s t : S)
      (seen : List Signal) (r q : Result (List Signal))
      → read_pass io c (reading k s) ≡ (reading k t, r)
      → ((more : List Signal)
          → (read_loop io c passes
              (if stopped then stop_read (reading k t) else reading k t)
              more).1
            ≡ (q >>= λ rest. ok (more ++ rest)))
      → (read_loop io c (stopped ∷ passes) (reading k s) seen).1
        ≡ (r >>= (λ new. q >>= λ rest. ok (new ++ rest)) >>= λ all. ok (seen ++ all))
  unfolding read_loop
  first_pass c stopped passes k s t seen ub q e later = rw e refl
  first_pass c stopped passes k s t seen (throw x) q e later = rw e refl
  first_pass c stopped passes k s t seen (ok new) q e later = rw e (
      later (seen ++ new)
      ∙ >>=-cong q _ _ (λ rest. ap ok (append_assoc seen new rest))
      ∙ sym (>>=-assoc q _ _))

  -- Passes that are not disturbed, one for each message, and passes behind them.
  read_loop-frames :
      (c : Clock) (ms : List ScMessage) (k : ConnectionState) (s : S) (seen : List Signal)
      → All IsWellFormed ms
      → Arrive ms s
      → (read_loop io c (undisturbed ms) (reading k s) seen).1
        ≡ (signals_of c ms >>= λ all. ok (seen ++ all))
  unfolding read_loop
  read_loop-frames c [] k s seen w arrive = ap ok (sym (append-nil seen))
  read_loop-frames c (m ∷ ms) k s seen (w, ws) (t, arrives, later) =
      first_pass c false (undisturbed ms) k s t seen (signals c m.msg_type m) (signals_of c ms)
        (read_pass-frame c (reading k s) m t w arrives)
        (λ more. read_loop-frames c ms k t more ws later)

  -- A client that is logged in reads messages in good form that the stream gives one by one, while
  -- nobody calls `StopRead`. Then the handlers are called for each of them, in their order; if the
  -- contents of one cannot be read, what that throws is thrown.
  pub start_read-frames :
      (c : Clock) (ms : List ScMessage) (conn : ChatRw S)
      → conn.con_state ≡ logged_in
      → All IsWellFormed ms
      → Arrive ms conn.socket
      → (start_read io c (undisturbed ms) conn).1 ≡ signals_of c ms
  unfolding start_read
  start_read-frames c ms conn on w arrive =
      rw on
        (read_loop-frames c ms logged_in conn.socket [] w arrive ∙ same_result (signals_of c ms))
