-- ===== src/Client/Following.antt =====
-- Server and client together, over a whole run: what tyfirc-server/tyfirc-session.cpp writes to a
-- session, and what the reading loop of tyfirc-client/tyfirc-chatrw.cpp makes of it.
use tyfirc.Base.{
  ℕ, false, ◌≡◌, ◌⊎◌, refl, ap, ◌∙◌, List, [], ◌∷◌, ◌++◌, map, append_assoc, All, All-left,
  All-right, some,
}
use tyfirc.Base.Text.{Str}
use tyfirc.Misc.{logged_in}
use tyfirc.Time.{Clock}
use tyfirc.AuthManager.{FileAuthManager}
use tyfirc.ScMessage.{ScMessage, frame}
use tyfirc.Server.{Server}
use tyfirc.Server.ChatRoom.Deliver.{occurs, queue_of}
use tyfirc.Server.App.{Reach, initial}
use tyfirc.Server.Order.{log, written, missed}
use tyfirc.Server.Order.Reachable.{Reach-Ordered}
use tyfirc.Server.Order.Clean.{log-IsWellFormed}
use tyfirc.Client.{Socket, ChatRw, start_read}
use tyfirc.Client.Reading.{Arrive, undisturbed, on_messages, signals_of-chats, start_read-frames}
use tyfirc.Base.Map.{insert}
use tyfirc.Base.Result.{ok, >>=-eq-ok}
use tyfirc.Message.{Message}
use tyfirc.Message
use tyfirc.ScMessage.{set_property}
use tyfirc.ScMessage.Make.{get_message_scmessage}
use tyfirc.ScMessage.Buffers.{chat}
use tyfirc.Server.Order.Authors.{IsAuthored, log-IsAuthored}

-- A list whose image falls into two parts does so itself.
record Parts {A B : Type 0} (f : A → B) (xs : List A) (ys zs : List B) : Type 0 where
  left : List A
  right : List A
  whole : xs ≡ left ++ right
  image_left : map f left ≡ ys
  image_right : map f right ≡ zs

map-Parts :
    {A B : Type 0} (f : A → B) (xs : List A) (ys zs : List B)
    → map f xs ≡ ys ++ zs
    → Parts f xs ys zs
map-Parts f xs [] zs e = record {
  left = [];
  right = xs;
  whole = refl;
  image_left = refl;
  image_right = e;
}
map-Parts f [] (y ∷ ys) zs e = cc
map-Parts f (x ∷ xs) (y ∷ ys) zs e =
    let p = map-Parts f xs ys zs cc in
    record {
      left = x ∷ p.left;
      right = p.right;
      whole = ap (◌∷◌ x) p.whole;
      image_left = cc p.image_left;
      image_right = p.image_right;
    }

-- What `GetMessageScMessage` makes is a chat message.
made-chat :
    (c : Clock) (msg : Message) (m : ScMessage)
    → get_message_scmessage c msg ≡ ok m
    → (text : Str) × (chat text ≡ m)
unfolding get_message_scmessage set_property insert
made-chat c msg m e = let (text, _, made) = >>=-eq-ok (Message.serialize c msg) _ e in (text, cc)

texts_of :
    (c : Clock) (s : Server) (ms : List ScMessage)
    → All (IsAuthored c s) ms
    → (texts : List Str) × (map chat texts ≡ ms)
texts_of c s [] h = ([], refl)
texts_of c s (m ∷ ms) (v, vs) =
    let (text, e) = made-chat c _ m v.written_so in
    let (texts, es) = texts_of c s ms vs in (text ∷ texts, cc)

module _ {S : Type 0} (io : Socket S) where
  -- The stream gives these texts, one by one.
  abbrev pub Gives : List Str → S → Type 0
  Gives [] s = Unit
  Gives (bytes ∷ more) s = (t : S) × (io.read_until s ≡ (some bytes, t)) × Gives more t

  Gives-Arrive : (ms : List ScMessage) (s : S) → Gives (map frame ms) s → Arrive io ms s
  Gives-Arrive [] s h = tt
  Gives-Arrive (m ∷ ms) s (t, gives, later) = (t, gives, Gives-Arrive ms t later)

  -- What was said in the room is what the session missed, chat messages whose texts the client's
  -- handler of messages was called with, each once and as it is read, what waits in the session's queue, and what the session did not hear any more, in this
  -- order; nothing of the latter if it is in the room.
  pub record Followed (c : Clock) (id : ℕ) (log missed : List ScMessage) (written : List Str)
      (s : Server) (conn : ChatRw S) : Type 0 where
    pub texts : List Str
    pub waiting : List ScMessage
    pub unheard : List ScMessage
    pub all : log ≡ missed ++ (map chat texts ++ (waiting ++ unheard))
    pub bytes : map frame (map chat texts) ≡ written
    pub queued : map frame waiting ≡ map frame (queue_of id s)
    pub latest : (occurs id s.sessions ≡ false) ⊎ (unheard ≡ [])
    pub called : (start_read io c (undisturbed (map chat texts)) conn).1 ≡ on_messages c texts

  -- The bytes that were written to a session from its queue, in any run of the server, are what the
  -- stream of a client gives, one by one, and the client is logged in and nobody calls `StopRead`.
  -- Then these bytes are the frames of the chat messages that were said in the room since the
  -- session entered, all of them up to those that wait in its queue or that it did not hear any
  -- more, and `StartRead` calls the client's handler of messages with each of them, once, as
  -- `Deserialize` reads its text, in their order; if one of the texts cannot be read, what that
  -- throws is thrown.
  pub Reach-Followed :
      (c : Clock) (a : FileAuthManager) (id : ℕ) {s : Server} (r : Reach c (initial a) s)
      (conn : ChatRw S)
      → conn.con_state ≡ logged_in
      → Gives (written id r) conn.socket
      → Followed c id (log r) (missed id r) (written id r) s conn
  Reach-Followed c a id {s} r conn on gives =
      let o = Reach-Ordered c a id r in
      let p = map-Parts frame o.heard (written id r) (map frame (queue_of id s)) o.in_order in
      let shape : log r ≡ missed id r ++ (p.left ++ (p.right ++ o.unheard)) =
        o.all
        ∙ ap (λ h. missed id r ++ (h ++ o.unheard)) p.whole
        ∙ ap (λ x. missed id r ++ x) (append_assoc p.left p.right o.unheard) in
      let heard : (P : ScMessage → Type 0) → All P (log r) → All P p.left = λ P all.
        All-left P p.left (p.right ++ o.unheard) (All-right P (missed id r) _ (rw shape at all)) in
      let (texts, same) = texts_of c s p.left (heard _ (log-IsAuthored c a r)) in
      let good = heard _ (log-IsWellFormed c a r) in
      let bytes : map frame (map chat texts) ≡ written id r = ap (map frame) same ∙ p.image_left in
      record {
        texts = texts;
        waiting = p.right;
        unheard = o.unheard;
        all = rw same shape;
        bytes = bytes;
        queued = p.image_right;
        latest = o.latest;
        called =
            start_read-frames io c (map chat texts) conn on (rw same good)
              (Gives-Arrive (map chat texts) conn.socket (rw (← bytes) at gives))
            ∙ signals_of-chats c texts;
      }
