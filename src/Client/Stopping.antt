-- ===== src/Client/Stopping.antt =====
-- The ends of `StartRead` of tyfirc-client/tyfirc-chatrw.cpp: a call of `StopRead`, and a connection
-- that is lost.
use tyfirc.Base.{
  Bool, true, false, ◌≡◌, refl, sym, ap, ◌∙◌, List, [], ◌∷◌, ◌++◌, append-nil, All, Lacks, map,
  some, none,
}
use mathlib.Core.List.{map-append}
use tyfirc.Base.Text.{Str}
use tyfirc.Base.Result.{ok, throw, system_error, ◌>>=◌, >>=-eq-ok}
use tyfirc.Misc.{ConnectionState, logged_in}
use tyfirc.Time.{Clock}
use tyfirc.ScMessage.{ScMessage, separator, frame}
use tyfirc.ScMessage.Buffers.{chat, chat-IsWellFormed}
use tyfirc.ScMessage.RoundTrip.{IsWellFormed}
use tyfirc.Client.{
  Socket, ChatRw, read_scmessage, connect, Signal, signals, read_pass, read_loop, start_read,
  stop_read,
}
use tyfirc.Client.Reading.{
  Arrive, undisturbed, signals_of, reading, read_pass-frame, first_pass, same_result, on_messages,
  signals_of-chats,
}

chats-IsWellFormed :
    (texts : List Str) → All (Lacks separator) texts → All IsWellFormed (map chat texts)
chats-IsWellFormed [] h = tt
chats-IsWellFormed (text ∷ texts) (h, hs) = (chat-IsWellFormed text h, chats-IsWellFormed texts hs)

module _ {S : Type 0} (io : Socket S) where
  -- No pass is taken any more.
  off :
      (c : Clock) (passes : List Bool) (k : ConnectionState) (s : S) (seen : List Signal)
      → (read_loop io c passes (stop_read (reading io k s)) seen).1 ≡ ok seen
  unfolding read_loop stop_read
  off c [] k s seen = refl
  off c (stopped ∷ passes) k s seen = refl

  read_loop-stopped :
      (c : Clock) (ms : List ScMessage) (m : ScMessage) (passes : List Bool) (k : ConnectionState)
      (s : S) (seen : List Signal)
      → All IsWellFormed (ms ++ m ∷ [])
      → Arrive io (ms ++ m ∷ []) s
      → (read_loop io c (undisturbed ms ++ true ∷ passes) (reading io k s) seen).1
        ≡ (signals_of c (ms ++ m ∷ []) >>= λ all. ok (seen ++ all))
  read_loop-stopped c [] m passes k s seen (w, _) (t, arrives, _) =
      first_pass io c true passes k s t seen (signals c m.msg_type m) (ok [])
        (read_pass-frame io c (reading io k s) m t w arrives)
        (λ more. off c passes k t more ∙ ap ok (sym (append-nil more)))
  read_loop-stopped c (n ∷ ms) m passes k s seen (w, ws) (t, arrives, later) =
      first_pass io c false (undisturbed ms ++ true ∷ passes) k s t seen (signals c n.msg_type n)
        (signals_of c (ms ++ m ∷ [])) (read_pass-frame io c (reading io k s) n t w arrives)
        (λ more. read_loop-stopped c ms m passes k t more ws later)

  -- A client that is logged in reads chat messages that the stream gives one by one, and `StopRead`
  -- is called while the last of them is read or handled. Then the loop of `StartRead` ends behind
  -- that message, however many passes it was given: the handler of messages has been called with
  -- each of the messages, once, as `Deserialize` reads its text, in their order; if one of the texts
  -- cannot be read, what that throws is thrown. The texts have no separator.
  pub start_read-stop_read :
      (c : Clock) (texts : List Str) (text : Str) (passes : List Bool) (conn : ChatRw S)
      → conn.con_state ≡ logged_in
      → All (Lacks separator) (texts ++ text ∷ [])
      → Arrive io (map chat (texts ++ text ∷ [])) conn.socket
      → (start_read io c (undisturbed (map chat texts) ++ true ∷ passes) conn).1
        ≡ on_messages c (texts ++ text ∷ [])
  unfolding start_read
  start_read-stop_read c texts text passes conn on clean arrive =
      let whole = map-append chat texts (text ∷ []) in
      rw on (
        read_loop-stopped c (map chat texts) (chat text) passes logged_in conn.socket []
          (rw (← whole) (chats-IsWellFormed (texts ++ text ∷ []) clean)) (rw whole at arrive)
        ∙ same_result (signals_of c (map chat texts ++ chat text ∷ []))
        ∙ ap (signals_of c) (sym whole)
        ∙ signals_of-chats c (texts ++ text ∷ []))

  -- The stream gives the frames of the messages, one by one, and then fails.
  abbrev pub Lost : List ScMessage → S → S → Type 0
  Lost [] s end = io.read_until s ≡ (none, end)
  Lost (m ∷ ms) s end = (t : S) × (io.read_until s ≡ (some (frame m), t)) × Lost ms t end

  lost_pass :
      (c : Clock) (k : ConnectionState) (s end : S)
      → io.read_until s ≡ (none, end)
      → read_pass io c (reading io k s) ≡ (reading io k end, throw system_error)
  unfolding read_pass read_scmessage
  lost_pass c k s end fails = rw fails refl

  read_loop-Lost :
      (c : Clock) (ms : List ScMessage) (passes : List Bool) (k : ConnectionState) (s end : S)
      (seen all : List Signal)
      → All IsWellFormed ms
      → Lost ms s end
      → signals_of c ms ≡ ok all
      → read_loop io c (undisturbed ms ++ false ∷ passes) (reading io k s) seen
        ≡ (reading io k end, throw system_error)
  unfolding read_loop
  read_loop-Lost c [] passes k s end seen all w fails h = rw (lost_pass c k s end fails) refl
  read_loop-Lost c (m ∷ ms) passes k s end seen all (w, ws) (t, arrives, later) h =
      let (new, e, h') = >>=-eq-ok (signals c m.msg_type m) _ h in
      let (rest, e', h'') = >>=-eq-ok (signals_of c ms) _ h' in
      rw (read_pass-frame io c (reading io k s) m t w arrives, e)
        (read_loop-Lost c ms passes k t end (seen ++ new) rest ws later e')

  -- A client that is logged in reads messages in good form whose contents can be read, while nobody
  -- calls `StopRead`, and then the stream fails. `StartRead` throws a `system_error`, and leaves the
  -- client logged in: `Connect` returns false without a call of the stream.
  pub start_read-connect :
      (c : Clock) (ms : List ScMessage) (passes : List Bool) (conn : ChatRw S) (end : S)
      (all : List Signal)
      → conn.con_state ≡ logged_in
      → All IsWellFormed ms
      → Lost ms conn.socket end
      → signals_of c ms ≡ ok all
      → (start_read io c (undisturbed ms ++ false ∷ passes) conn
          ≡ (reading io logged_in end, throw system_error))
        × (connect io (start_read io c (undisturbed ms ++ false ∷ passes) conn).0
            ≡ (reading io logged_in end, false))
  unfolding start_read connect
  start_read-connect c ms passes conn end all on w lost h =
      let e = read_loop-Lost c ms passes logged_in conn.socket end [] all w lost h in
      rw (on, e) (refl, refl)
