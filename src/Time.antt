-- ===== src/Time.antt =====
-- The time functions of tyfirc/tyfirc-misc.cpp. `localtime_s` and `mktime` depend on the machine's
-- time zone, so they are a parameter, `Clock`; `strftime` and `std::get_time` are modelled for the
-- conversions that the program's format uses.
pub mod RoundTrip
pub mod Bounds
use tyfirc.Base.{
  ℕ, zero, suc, ◌+◌, ◌-◌, ◌*◌, ◌/◌, ◌%◌, ◌^◌, ◌≤◌, ◌<◌, Bool, true, false, ◌||◌, ◌&&◌, Option, none,
  some, List, [], ◌∷◌, ◌++◌, ◌==◌, ltb, leb, if◌then◌else◌, length, replicate, ◌≡◌,
}
use tyfirc.Base.Text.{Str, codes}
use tyfirc.Base.Result.{Result, ok, throw, ub, invalid_argument}

-- `std::tm`; `year` counts from 0 (`tm_year + 1900`), `mon` from 0. The day of the week and of the
-- year are left out: nothing here reads them.
pub record Tm : Type 0 where
  pub sec : ℕ
  pub min : ℕ
  pub hour : ℕ
  pub mday : ℕ
  pub mon : ℕ
  pub year : ℕ
  pub isdst : Bool

-- What the program takes from the C and C++ libraries. A time point counts ticks, a `time_t` counts
-- seconds, both from the earliest `time_t`, so that times before 1970 and the -1 of `mktime` are
-- numbers too. A time before 1970 that is no whole second, which `to_time_t` would round up, does not
-- arise: what is read has whole seconds. `read_ticks` reads a number, as `iss >> zz` does, and gives
-- the ticks of so many seconds, with no fraction, or nothing where the stream fails.
pub record Clock : Type 0 where
  pub ticks_per_second : ℕ
  pub localtime : ℕ → Tm
  pub mktime : Tm → ℕ
  pub read_ticks : Str → Option ℕ

pub record InRange (t : Tm) : Type 0 where
  pub sec_le : t.sec ≤ 60
  pub min_lt : t.min < 60
  pub hour_lt : t.hour < 24
  pub mday_pos : 1 ≤ t.mday
  pub mday_le : t.mday ≤ 31
  pub mon_lt : t.mon < 12

-- What the C library documents: fields in range, and `mktime` is the inverse of `localtime`.
pub record IsClock (c : Clock) : Type 0 where
  pub ticks_pos : 0 < c.ticks_per_second
  pub localtime-InRange : (s : ℕ) → InRange (c.localtime s)
  pub mktime-localtime : (s : ℕ) → c.mktime (c.localtime s) ≡ s

-- Two digits.
abbrev pub digits2 : ℕ → Str
digits2 v = (b'0' + v / 10 % 10) ∷ (b'0' + v % 10) ∷ []

-- The decimal digits of a number below 10^(fuel + 1), in front of `out`. A year has at most ten.
unfoldable pub decimal : ℕ → ℕ → Str → Str
decimal zero n out = (b'0' + n % 10) ∷ out
decimal (suc fuel) n out =
    let rest = decimal fuel (n / 10) ((b'0' + n % 10) ∷ out) in
    if ltb n 10 then (b'0' + n) ∷ out else rest

-- One conversion of `strftime`; `%` and a letter that the program does not use are copied.
unfoldable pub put_field : ℕ → Tm → Str
unfolding decimal
put_field c t =
    if c == b'd'
    then digits2 t.mday
    else if c == b'm'
    then digits2 (t.mon + 1)
    else if c == b'Y'
    then decimal 10 t.year []
    else if c == b'H'
    then digits2 t.hour
    else if c == b'M'
    then digits2 t.min
    else if c == b'S'
    then digits2 t.sec
    else b'%' ∷ c ∷ []

-- The text that `strftime` produces. The flag tells whether a `%` stands before.
unfoldable pub strftime : Bool → Str → Tm → Str
unfolding put_field
strftime pending [] t = []
strftime true (c ∷ format) t = put_field c t ++ strftime false format t
strftime false (c ∷ format) t =
    let plain = c ∷ strftime false format t in
    let conversion = strftime true format t in if c == b'%' then conversion else plain

-- `TimePointToStr`: a string of twenty characters, zeros behind the text. If the text and its zero
-- do not fit, the characters are unspecified.
unfoldable pub time_point_to_str : Clock → ℕ → Str → Result Str
time_point_to_str c point format =
    let text = strftime false format (c.localtime (point / c.ticks_per_second)) in
    if ltb (length text) 20 then ok (text ++ replicate (20 - length text) 0) else ub

-- `CurTimeStr`: likewise with thirty characters, of the time that the clock shows.
unfoldable pub cur_time_str : Clock → ℕ → Str → Result Str
cur_time_str c now format =
    let text = strftime false format (c.localtime (now / c.ticks_per_second)) in
    if ltb (length text) 30 then ok (text ++ replicate (30 - length text) 0) else ub

abbrev pub is_space : ℕ → Bool
is_space c = c == b' ' || (leb 9 c && leb c 13)

unfoldable pub skip_spaces : Str → Str
skip_spaces [] = []
skip_spaces (c ∷ s) = if is_space c then skip_spaces s else c ∷ s

abbrev pub is_digit : ℕ → Bool
is_digit c = leb b'0' c && leb c b'9'

-- At most `n` more digits behind the value read so far.
unfoldable pub read_digits : ℕ → ℕ → Str → ℕ × Str
read_digits zero v s = (v, s)
read_digits (suc n) v [] = (v, [])
read_digits (suc n) v (c ∷ s) =
    let rest = read_digits n (v * 10 + (c - b'0')) s in if is_digit c then rest else (v, c ∷ s)

abbrev pub check_range : ℕ → ℕ → ℕ × Str → Option (ℕ × Str)
check_range lo hi (v, s) = if leb lo v && leb v hi then some (v, s) else none

-- A number of one to `n + 1` digits between `lo` and `hi`.
unfoldable pub read_number : ℕ → ℕ → ℕ → Str → Option (ℕ × Str)
unfolding read_digits
read_number n lo hi [] = none
read_number n lo hi (c ∷ s) =
    if is_digit c then check_range lo hi (read_digits n (c - b'0') s) else none

abbrev pub store : (ℕ → Tm) → Option (ℕ × Str) → Option (Tm × Str)
store set none = none
store set (some (v, s)) = some (set v, s)

-- One conversion of `std::get_time`.
unfoldable pub get_field : ℕ → Tm → Str → Option (Tm × Str)
unfolding read_number
get_field c t s =
    if c == b'd'
    then store (λ v. record t { mday = v }) (read_number 1 1 31 s)
    else if c == b'm'
    then store (λ v. record t { mon = v - 1 }) (read_number 1 1 12 s)
    else if c == b'Y'
    then store (λ v. record t { year = v }) (read_number 3 0 9999 s)
    else if c == b'H'
    then store (λ v. record t { hour = v }) (read_number 1 0 23 s)
    else if c == b'M'
    then store (λ v. record t { min = v }) (read_number 1 0 59 s)
    else if c == b'S'
    then store (λ v. record t { sec = v }) (read_number 1 0 60 s)
    else none

-- A character of the format that is no conversion: white space skips white space, any other must
-- be met.
unfoldable pub get_plain : ℕ → Str → Option Str
unfolding skip_spaces
get_plain c [] = none
get_plain c (x ∷ s) =
    if is_space c then some (skip_spaces (x ∷ s)) else if c == x then some s else none

abbrev pub on_field : (Tm → Str → Option (Tm × Str)) → Option (Tm × Str) → Option (Tm × Str)
on_field f none = none
on_field f (some (t, s)) = f t s

abbrev pub on_plain : (Str → Option (Tm × Str)) → Option Str → Option (Tm × Str)
on_plain f none = none
on_plain f (some s) = f s

-- `std::get_time`: the fields read, and the input behind them.
unfoldable pub get_time : Bool → Str → Tm → Str → Option (Tm × Str)
unfolding get_field get_plain
get_time pending [] t s = some (t, s)
get_time true (c ∷ format) t s = on_field (get_time false format) (get_field c t s)
get_time false (c ∷ format) t s =
    let plain = on_plain (get_time false format t) (get_plain c s) in
    let conversion = get_time true format t s in if c == b'%' then conversion else plain

-- `std::tm tm{}`.
abbrev pub zero_tm : Tm
zero_tm = record { sec = 0; min = 0; hour = 0; mday = 0; mon = 0; year = 1900; isdst = false }

-- The conversion of `zz` to `size_t`, whose value is not used: it is undefined out of range.
abbrev pub checked_ticks : ℕ → Option ℕ → Result ℕ
checked_ticks point none = throw invalid_argument
checked_ticks point (some zeconds) = if ltb zeconds (2 ^ 64) then ok point else ub

-- `TimePointFromStr` behind `get_time`, on the input that is left.
unfoldable pub check_rest : Clock → ℕ → Str → Result ℕ
check_rest c point [] = ok point
check_rest c point (x ∷ s) =
    if x == b'.' then checked_ticks point (c.read_ticks (x ∷ s)) else throw invalid_argument

-- `TimePointFromStr`. The fields that the format does not name stay zero, `tm_isdst` among them.
unfoldable pub time_point_from_str : Clock → Str → Str → Result ℕ
unfolding check_rest
time_point_from_str c str format = elim (get_time false format zero_tm (skip_spaces str)) [
  | none ↦ throw invalid_argument
  | some (t, rest) ↦ check_rest c (c.mktime t * c.ticks_per_second) rest
]
