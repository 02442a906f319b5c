-- ===== src/Message.antt =====
-- `struct Message` of tyfirc/tyfirc-msgpack.h, and its text form in tyfirc/tyfirc-msgpack.cpp.
pub mod Parts
pub mod RoundTrip
use tyfirc.Base.{
  ℕ, suc, ◌+◌, ◌-◌, Option, none, some, [], ◌∷◌, ◌++◌, List, ◌==◌, if◌then◌else◌, length, drop_last,
}
use tyfirc.Base.Text.{Str, find, find_from, next_index, substr}
use tyfirc.Base.Result.{Result, ok, throw, invalid_argument, ◌>>=◌}
use tyfirc.Time.{Clock, time_point_to_str, time_point_from_str}
use tyfirc.Time.RoundTrip.{time_format}

-- A time point is its number of clock ticks.
pub record Message : Type 0 where
  pub username : Str
  pub text : Str
  pub time : ℕ

-- `Message{}`.
abbrev pub default_message : Message
default_message = record { username = []; text = []; time = 0 }

-- `Message::Serialize`. An empty name is written as a dash; the last character of the time's text,
-- its zero, is erased.
unfoldable pub serialize : Clock → Message → Result Str
serialize c msg = do
  let name = if length msg.username == 0 then b'-' ∷ [] else msg.username
  time_str ← time_point_to_str c msg.time time_format
  ok (drop_last (name ++ (b'\n' ∷ time_str)) ++ (b'\n' ∷ msg.text))

-- `Message::Deserialize` behind the test of the two separators.
unfoldable pub deserialize_at : Clock → Str → ℕ → ℕ → Result Message
deserialize_at c src sep_0 sep_1 = do
  username ← substr src 0 sep_0
  date_str ← substr src (sep_0 + 1) (sep_1 - sep_0 - 1)
  time ← time_point_from_str c date_str time_format
  text ← substr src (sep_1 + 1) (length src - sep_1 - 1)
  ok (record { username = username; text = text; time = time })

-- The two separators, either of which may be `npos`.
unfoldable pub deserialize_between : Clock → Str → Option ℕ → Option ℕ → Result Message
unfolding deserialize_at
deserialize_between c src (some i) (some j) = deserialize_at c src i j
deserialize_between c src _ _ = throw invalid_argument

-- `Message::Deserialize`. The second search starts at 0 if the first found nothing.
unfoldable pub deserialize : Clock → Str → Result Message
unfolding deserialize_between
deserialize c src =
    let sep_0 = find src b'\n' in
    deserialize_between c src sep_0 (find_from src b'\n' (next_index sep_0))
