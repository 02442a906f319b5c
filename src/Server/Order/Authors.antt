-- ===== src/Server/Order/Authors.antt =====
-- Who says what the room hears in a run.
use tyfirc.Base.{
  ℕ, ◌≡◌, refl, List, ◌++◌, All, All-append, All-imp, All-left, All-right, map, Option-cases, inl,
  inr,
}
use tyfirc.Base.Text.{Str, codes}
use tyfirc.Base.Result.{Result, ok, throw, ub, >>=-eq-ok}
use tyfirc.Time.{Clock}
use tyfirc.Message
use tyfirc.AuthManager.{FileAuthManager}
use tyfirc.AuthManager.Accounts.{account}
use tyfirc.ScMessage.{ScMessage, frame, get_property}
use tyfirc.ScMessage.Types.{ScMessageType, message}
use tyfirc.ScMessage.Make.{get_message_scmessage}
use tyfirc.Server.{Session, Op, reading_message, Server}
use tyfirc.Server.App.{initial, Event, succeeded, turn, Reach, here, next}
use tyfirc.Server.Accounts.{Registered, Authorised}
use tyfirc.Server.Accounts.Reachable.{take_op-IsAuthorised, Reach-IsAuthorised}
use tyfirc.Server.Order.{rewritten, made, said_by, said_in, said, log, missed, written}
use tyfirc.Server.Order.Reachable.{Reach-Ordered}
use tyfirc.Server.ChatRoom.Deliver.{queue_of}
use tyfirc.Server.Order.Growing.{KeepsAccounts, complete-KeepsAccounts}

-- A chat message under the name of an account.
pub record IsAuthored (c : Clock) (s : Server) (m : ScMessage) : Type 0 where
  pub name : Str
  pub text : Str
  pub time : ℕ
  pub account : Registered s name
  pub written_so :
      get_message_scmessage c (record { username = name; text = text; time = time }) ≡ ok m

IsAuthored-imp :
    (c : Clock) (s t : Server) (m : ScMessage)
    → KeepsAccounts s t
    → IsAuthored c s m
    → IsAuthored c t m
IsAuthored-imp c s t m keeps v = record {
  name = v.name;
  text = v.text;
  time = v.time;
  account = elim (Option-cases (account s.auth_manager v.name)) [
    | inl none_is ↦ cc (rw none_is at v.account)
    | inr (word, e) ↦ rw (keeps v.name word e) refl
  ];
  written_so = v.written_so;
}

rewritten-IsAuthored :
    (c : Clock) (now : ℕ) (s : Server) (m : ScMessage) (w : Session) (r : Result ScMessage)
    → rewritten c now m w ≡ r
    → Registered s w.username
    → All (IsAuthored c s) (made r)
rewritten-IsAuthored c now s m w (ok x) h account =
    let (text, found, h1) = >>=-eq-ok (get_property m (codes "message[0]")) _ h in
    let (msg, read, h2) = >>=-eq-ok (Message.deserialize c text) _ h1 in
    (
      record { name = w.username; text = msg.text; time = now; account = account; written_so = h2 },
      tt,
    )
rewritten-IsAuthored c now s m w (throw x) h account = tt
rewritten-IsAuthored c now s m w ub h account = tt

said_by-IsAuthored :
    (c : Clock) (now : ℕ) (s : Server) (type : ScMessageType) (m : ScMessage) (w : Session)
    → Registered s w.username
    → All (IsAuthored c s) (said_by c now type m w)
said_by-IsAuthored c now s message m w account = rewritten-IsAuthored c now s m w _ refl account
said_by-IsAuthored c now s type m w account = tt

said_in-IsAuthored :
    (c : Clock) (now : ℕ) (s : Server) (r : Result ScMessage) (w : Session)
    → Registered s w.username
    → All (IsAuthored c s) (said_in c now r w)
said_in-IsAuthored c now s (ok m) w account = said_by-IsAuthored c now s m.msg_type m w account
said_in-IsAuthored c now s (throw x) w account = tt
said_in-IsAuthored c now s ub w account = tt

said-IsAuthored :
    (c : Clock) (now : ℕ) (op : Op) (e : Event) (s : Server)
    → Authorised s op
    → All (IsAuthored c s) (said c now op e s)
unfolding said
said-IsAuthored c now (reading_message id) (succeeded bytes) s a =
    said_in-IsAuthored c now s _
      (record (s.session id) { read_buffer = (s.session id).read_buffer ++ bytes }) a.1
said-IsAuthored c now op e s a = tt

-- Whatever is said in a run of the server is a message that `GetMessageScMessage` made under
-- the name of an account of the server's manager.
pub log-IsAuthored :
    (c : Clock) (a : FileAuthManager) {s : Server} (r : Reach c (initial a) s)
    → All (IsAuthored c s) (log r)
unfolding log
log-IsAuthored c a here = tt
log-IsAuthored c a (next {t} {u} r (turn now before op after e at allowed h)) =
    let keeps : KeepsAccounts t u =
      complete-KeepsAccounts c now op e (record t { ops = before ++ after }) u h in
    let (mine, _) = take_op-IsAuthorised t before op after at (Reach-IsAuthorised c a r) in
    All-append (IsAuthored c u) (log r) (said c now op e t)
      (All-imp _ _ (log r) (λ m. IsAuthored-imp c t u m keeps) (log-IsAuthored c a r))
      (All-imp _ _ (said c now op e t) (λ m. IsAuthored-imp c t u m keeps)
        (said-IsAuthored c now op e t mine))

-- The bytes that were written to a session from its queue, and those that wait in it, are the frames
-- of chat messages under the names of accounts.
pub record Authored (c : Clock) (id : ℕ) (written : List Str) (s : Server) : Type 0 where
  pub heard : List ScMessage
  pub sent : map frame heard ≡ written ++ map frame (queue_of id s)
  pub authors : All (IsAuthored c s) heard

-- In every run of the server, all that was written to a session from its queue or waits in it are
-- frames of messages that `GetMessageScMessage` made, each under the name of an account of the
-- server's manager: nobody without an account is heard.
pub Reach-Authored :
    (c : Clock) (a : FileAuthManager) (id : ℕ) {s : Server} (r : Reach c (initial a) s)
    → Authored c id (written id r) s
Reach-Authored c a id r =
    let o = Reach-Ordered c a id r in
    record {
      heard = o.heard;
      sent = o.in_order;
      authors =
          All-left _ o.heard o.unheard
            (All-right _ (missed id r) (o.heard ++ o.unheard) (rw o.all at (log-IsAuthored c a r)));
    }
