-- ===== src/Message/RoundTrip.antt =====
-- A message that is written and read back.
use tyfirc.Base.{
  ◌*◌, ◌/◌, ◌≤◌, ◌<◌, ◌≡◌, ap, ◌∙◌, [], ◌∷◌, ◌++◌, arith, append_assoc, Lacks, length,
  drop_last-append, ◌==◌, if◌then◌else◌, false, cons-ne-nil,
}
use tyfirc.Base.Text.{Str}
use tyfirc.Base.Result.{ok, ◌>>=◌}
use tyfirc.Time.{Clock, IsClock, Tm}
use tyfirc.Time.RoundTrip.{
  time_text, broken_down, time_point_to_str_lem, time_point_from_str_lem, mktime-broken_down,
}
use tyfirc.Message.{Message, serialize, deserialize}
use tyfirc.Message.Parts.{message_text, deserialize_parts}

-- The name that is written: a dash for an empty one.
abbrev pub shown_name : Str → Str
shown_name name = if length name == 0 then b'-' ∷ [] else name

time_text-Lacks : (t : Tm) → Lacks b'\n' (time_text t)
time_text-Lacks t = omega arith

name-Lacks : (name : Str) → Lacks b'\n' name → Lacks b'\n' (shown_name name)
name-Lacks [] h = omega arith
name-Lacks (c ∷ name) h = ground arith

pub serialize_lem :
    (c : Clock) (msg : Message)
    → 1000 ≤ (broken_down c msg.time).year
    → (broken_down c msg.time).year < 10000
    → serialize c msg
      ≡ ok (message_text (shown_name msg.username) (time_text (broken_down c msg.time)) msg.text)
unfolding serialize
serialize_lem c msg l h =
    let name = shown_name msg.username in
    let date = time_text (broken_down c msg.time) in
    rw (time_point_to_str_lem c msg.time l h) (
      ap ok (
        ap (λ s. s ++ (b'\n' ∷ msg.text))
          (drop_last-append name (b'\n' ∷ (date ++ 0 ∷ [])) (cons-ne-nil b'\n' _))
        ∙ append_assoc name (b'\n' ∷ date) (b'\n' ∷ msg.text)))

-- A message is read back with its text, with the name that was written (a dash if it is empty) and
-- with its time cut to the second, if the name holds no newline, the year has four digits and
-- daylight saving is not in force at that time.
pub deserialize-serialize :
    (c : Clock) (msg : Message)
    → IsClock c
    → Lacks b'\n' msg.username
    → 1000 ≤ (broken_down c msg.time).year
    → (broken_down c msg.time).year < 10000
    → (broken_down c msg.time).isdst ≡ false
    → (serialize c msg >>= deserialize c)
      ≡ ok (record {
        username = shown_name msg.username;
        text = msg.text;
        time = msg.time / c.ticks_per_second * c.ticks_per_second;
      })
deserialize-serialize c msg v hn l h standard = rw (serialize_lem c msg l h) (
    deserialize_parts (shown_name msg.username) (time_text (broken_down c msg.time)) msg.text
      (name-Lacks msg.username hn) (time_text-Lacks (broken_down c msg.time)) c _
      (time_point_from_str_lem c msg.time v h
        ∙ ap (λ s. ok (s * c.ticks_per_second)) (mktime-broken_down c msg.time v standard)))
