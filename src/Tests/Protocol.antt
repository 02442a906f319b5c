-- ===== src/Tests/Protocol.antt =====
-- Messages of the protocol: tyfirc/tyfirc-scmessage.cpp and tyfirc/tyfirc-msgpack.cpp.
use tyfirc.Base.{ℕ, ◌+◌, ◌-◌, ◌*◌, ◌/◌, ◌%◌, ◌≡◌, ◌⊎◌, refl, [], ◌∷◌, ◌++◌, false, arith, some}
use tyfirc.Base.Text.{codes, compare_str, c_str}
use tyfirc.Base.Result.{ok, throw, invalid_argument, ◌>>=◌}
use tyfirc.Misc.{split}
use tyfirc.Time.{Tm, Clock, InRange, IsClock, time_point_from_str, get_time, get_field}
use tyfirc.Time.RoundTrip.{time_format}
use tyfirc.Time.Bounds.{Fits, time_point_from_str-Fits}
use tyfirc.Message.{Message}
use tyfirc.Message
use tyfirc.Message.RoundTrip.{deserialize-serialize, shown_name}
use tyfirc.ScMessage.Types.{login, type_from_str}
use tyfirc.ScMessage.{
  ScMessage, make, frame, deserialize, pop_last, parse_lines, parse_properties, set_type,
}
use tyfirc.ScMessage.RoundTrip.{IsWellFormed, deserialize-frame}
use tyfirc.ScMessage.Buffers.{chat, deserialize-two_frames}
use tyfirc.ScMessage.Made.{auth_message}
use tyfirc.ScMessage.Sound.{deserialize_total}

abbrev ann : ScMessage
ann = auth_message login (codes "ann") (codes "secret")

ann-IsWellFormed : IsWellFormed ann
unfolding compare_str
ann-IsWellFormed = record {
  typed = λ e. cc;
  ordered = (refl, tt);
  fields = ((omega arith, omega arith, omega arith), ((omega arith, omega arith, omega arith), tt));
}

deserialize-frame_example : deserialize (frame ann) ≡ ok ann
deserialize-frame_example = deserialize-frame ann ann-IsWellFormed

deserialize_total_example :
    ((m : ScMessage) × (deserialize (codes "LOGIN" ++ 0 ∷ []) ≡ ok m) × IsWellFormed m)
    ⊎ (deserialize (codes "LOGIN" ++ 0 ∷ []) ≡ throw invalid_argument)
deserialize_total_example = deserialize_total (codes "LOGIN")

read_login : deserialize (codes "LOGIN" ++ 0 ∷ []) ≡ ok (make login)
unfolding deserialize split c_str compare_str pop_last parse_lines type_from_str parse_properties
    set_type
read_login = refl

-- A clock with a tick of a tenth of a second and years of one day.
abbrev pub short_years : Clock
short_years = record {
  ticks_per_second = 10;
  localtime = λ s. record {
    sec = s % 60;
    min = s / 60 % 60;
    hour = s / 3600 % 24;
    mday = 1;
    mon = 0;
    year = 1970 + s / 86400;
    isdst = false;
  };
  mktime = λ t. (t.year - 1970) * 86400 + t.hour * 3600 + t.min * 60 + t.sec;
  read_ticks = λ s. some 0;
}

short_years-InRange : (s : ℕ) → InRange (short_years.localtime s)
short_years-InRange s = record {
  sec_le = omega arith;
  min_lt = omega arith;
  hour_lt = omega arith;
  mday_pos = omega arith;
  mday_le = omega arith;
  mon_lt = omega arith;
}

pub short_years-IsClock : IsClock short_years
short_years-IsClock = record {
  ticks_pos = omega arith;
  localtime-InRange = short_years-InRange;
  mktime-localtime = λ s. omega arith;
}

abbrev greeting : Message
greeting = record { username = codes "ann"; text = codes "hello"; time = 12345 }

deserialize-serialize_example :
    (Message.serialize short_years greeting >>= Message.deserialize short_years)
    ≡ ok (record {
      username = shown_name (codes "ann");
      text = codes "hello";
      time = 12345 / 10 * 10;
    })
deserialize-serialize_example =
    deserialize-serialize short_years greeting short_years-IsClock (omega arith) (omega arith)
      (omega arith) refl

deserialize-two_frames_example :
    deserialize (frame (chat (codes "first")) ++ frame (chat (codes "second")))
    ≡ ok (chat (codes "second"))
deserialize-two_frames_example =
    deserialize-two_frames (codes "first") (codes "second") (omega arith) (omega arith)

leap_second : time_point_from_str short_years (codes "31.12.1970 23:59:60") time_format ≡ ok 864000
unfolding time_point_from_str get_time get_field
leap_second = refl

time_point_from_str-Fits_example : (t : Tm) × Fits t × (864000 ≡ short_years.mktime t * 10)
time_point_from_str-Fits_example =
    time_point_from_str-Fits short_years (codes "31.12.1970 23:59:60") 864000 leap_second
