-- ===== src/ScMessage/Chats.antt =====
-- The separator and the chat messages that `GetMessageScMessage` makes of what was read, with the
-- text forms of tyfirc/tyfirc-msgpack.cpp and tyfirc/tyfirc-misc.cpp.
use tyfirc.Base.{
  ℕ, zero, suc, ◌+◌, ◌-◌, ◌/◌, Bool, true, false, ◌≡◌, ◌≢◌, [], ◌∷◌, ◌++◌, arith, All-append,
  All-take, All-drop, Lacks, ◌==◌, ltb, if◌then◌else◌, Bool-cases, inl, inr, drop_last, length,
  take, drop, replicate, some, none, Option,
}
use tyfirc.Base.Text.{Str, substr, find, find_from}
use tyfirc.Base.Map.{insert}
use tyfirc.Base.Result.{ok, ub, >>=-eq-ok}
use tyfirc.Time.{Clock, Tm, decimal, put_field, strftime, time_point_to_str, time_point_from_str}
use tyfirc.Time.RoundTrip.{time_format}
use tyfirc.Message.{Message, deserialize_at, deserialize_between}
use tyfirc.Message
use tyfirc.ScMessage.{ScMessage, separator, set_property}
use tyfirc.ScMessage.RoundTrip.{IsWellFormed}
use tyfirc.ScMessage.Make.{get_message_scmessage}
use tyfirc.ScMessage.Buffers.{chat, chat-IsWellFormed}
use tyfirc.ScMessage.Clean.{drop_last-Lacks}

decimal-Lacks :
    (fuel n : ℕ) (out : Str) → Lacks separator out → Lacks separator (decimal fuel n out)
unfolding decimal
decimal-Lacks zero n out h = (omega arith, h)
decimal-Lacks (suc fuel) n out h = elim (Bool-cases (ltb n 10)) [
  | inl e ↦ rw (e, decimal) (omega arith, h)
  | inr e ↦ rw (e, decimal) (decimal-Lacks fuel (n / 10) _ (omega arith, h))
]

put_field-Lacks : (c : ℕ) (t : Tm) → c ≢ separator → Lacks separator (put_field c t)
unfolding put_field
put_field-Lacks c t h = ground (arith, decimal-Lacks 10 t.year [] tt)

strftime-Lacks :
    (b : Bool) (format : Str) (t : Tm)
    → Lacks separator format
    → Lacks separator (strftime b format t)
unfolding strftime
strftime-Lacks b [] t h = tt
strftime-Lacks true (c ∷ format) t (h, hs) =
    All-append _ (put_field c t) (strftime false format t) (put_field-Lacks c t h)
      (strftime-Lacks false format t hs)
strftime-Lacks false (c ∷ format) t (h, hs) = elim (Bool-cases (c == b'%')) [
  | inl e ↦ rw (e, strftime) (strftime-Lacks true format t hs)
  | inr e ↦ rw (e, strftime) (h, strftime-Lacks false format t hs)
]

zeros-Lacks : (n : ℕ) → Lacks separator (replicate n 0)
zeros-Lacks zero = tt
zeros-Lacks (suc n) = (omega arith, zeros-Lacks n)

time_point_to_str-Lacks :
    (c : Clock) (time : ℕ) (text : Str)
    → time_point_to_str c time time_format ≡ ok text
    → Lacks separator text
unfolding time_point_to_str
time_point_to_str-Lacks c time text e =
    printed (strftime false time_format (c.localtime (time / c.ticks_per_second)))
      (strftime-Lacks false time_format _ (omega arith)) e
  where
    printed :
        (s : Str)
        → Lacks separator s
        → (if ltb (length s) 20 then ok (s ++ replicate (20 - length s) 0) else ub) ≡ ok text
        → Lacks separator text
    printed s h e = elim (Bool-cases (ltb (length s) 20)) [
      | inl fits ↦
          let same : s ++ replicate (20 - length s) 0 ≡ text = cc (rw fits at e) in
          rw (← same) (All-append _ s _ h (zeros-Lacks (20 - length s)))
      | inr not_fits ↦ cc (rw not_fits at e)
    ]

name-Lacks :
    (name : Str)
    → Lacks separator name
    → Lacks separator (if length name == 0 then b'-' ∷ [] else name)
name-Lacks [] h = (omega arith, tt)
name-Lacks (c ∷ name) h = ground arith

serialize-Lacks :
    (c : Clock) (msg : Message) (text : Str)
    → Message.serialize c msg ≡ ok text
    → Lacks separator msg.username
    → Lacks separator msg.text
    → Lacks separator text
unfolding Message.serialize
serialize-Lacks c msg text e hn ht =
    let (date, printed, rest) = >>=-eq-ok (time_point_to_str c msg.time time_format) _ e in
    let name = if length msg.username == 0 then b'-' ∷ [] else msg.username in
    let same : drop_last (name ++ (b'\n' ∷ date)) ++ (b'\n' ∷ msg.text) ≡ text = cc in
    rw (← same) (
      All-append _ (drop_last (name ++ (b'\n' ∷ date))) (b'\n' ∷ msg.text)
        (drop_last-Lacks separator (name ++ (b'\n' ∷ date)) (
          All-append _ name (b'\n' ∷ date) (name-Lacks msg.username hn)
            (omega arith, time_point_to_str-Lacks c msg.time date printed)))
        (omega arith, ht))

substr-Lacks :
    (s t : Str) (pos n : ℕ) → substr s pos n ≡ ok t → Lacks separator s → Lacks separator t
unfolding substr
substr-Lacks s t pos n e h = elim (Bool-cases (ltb (length s) pos)) [
  | inl out ↦ cc (rw (out, substr) at e)
  | inr out ↦
      let same : take n (drop pos s) ≡ t = cc (rw (out, substr) at e) in
      rw (← same) (All-take _ n (drop pos s) (All-drop _ pos s h))
]

deserialize-Lacks :
    (c : Clock) (src : Str) (msg : Message)
    → Message.deserialize c src ≡ ok msg
    → Lacks separator src
    → Lacks separator msg.text
unfolding Message.deserialize deserialize_between deserialize_at
deserialize-Lacks c src msg e h = between (find src b'\n') (find_from src b'\n' _) e
  where
    between : (i j : Option ℕ) → deserialize_between c src i j ≡ ok msg → Lacks separator msg.text
    between (some i) (some j) e =
        let (name, _, e1) = >>=-eq-ok (substr src 0 i) _ e in
        let (date, _, e2) = >>=-eq-ok (substr src (i + 1) (j - i - 1)) _ e1 in
        let (time, _, e3) = >>=-eq-ok (time_point_from_str c date time_format) _ e2 in
        let (text, cut, e4) = >>=-eq-ok (substr src (j + 1) (length src - j - 1)) _ e3 in
        let same : text ≡ msg.text = cc in
        rw (← same) (substr-Lacks src text (j + 1) (length src - j - 1) cut h)
    between none j e = cc
    between (some i) none e = cc

-- What is made of a text that was read, under a name with no separator, is in good form.
pub made-IsWellFormed :
    (c : Clock) (src : Str) (said : Message) (name : Str) (now : ℕ) (m : ScMessage)
    → Message.deserialize c src ≡ ok said
    → Lacks separator src
    → Lacks separator name
    → get_message_scmessage c (record { username = name; text = said.text; time = now }) ≡ ok m
    → IsWellFormed m
unfolding get_message_scmessage set_property insert
made-IsWellFormed c src said name now m e hs hn made =
    let msg : Message = record { username = name; text = said.text; time = now } in
    let (text, printed, rest) = >>=-eq-ok (Message.serialize c msg) _ made in
    let same : chat text ≡ m = cc in
    rw (← same) (
      chat-IsWellFormed text
        (serialize-Lacks c msg text printed hn (deserialize-Lacks c src said e hs)))
