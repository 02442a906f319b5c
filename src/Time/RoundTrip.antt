-- ===== src/Time/RoundTrip.antt =====
-- A time that is printed in the program's format and read back.
use tyfirc.Base.{
  ℕ, ◌+◌, ◌*◌, ◌/◌, ◌%◌, ◌≤◌, ◌<◌, false, ◌≡◌, refl, sym, ap, ◌∙◌, some, [], ◌∷◌, ◌++◌, arith, ◌-◌,
  ◌==◌, eq→==, ◌≤◌,
}
use tyfirc.Base.Text.{Str, codes}
use tyfirc.Base.Result.{ok}
use tyfirc.Time.{
  Tm, Clock, IsClock, InRange, digits2, decimal, strftime, time_point_to_str, time_point_from_str,
  read_number, get_field, get_plain, get_time, zero_tm, skip_spaces, is_space,
}

-- `Message::time_format`.
abbrev pub time_format : Str
time_format = codes "%d.%m.%Y %H:%M:%S"

abbrev digits4 : ℕ → Str
digits4 y =
    (b'0' + y / 1000 % 10) ∷ (b'0' + y / 100 % 10) ∷ (b'0' + y / 10 % 10) ∷ (b'0' + y % 10) ∷ []

read-digits2 :
    (lo hi v : ℕ) (rest : Str)
    → lo ≤ v
    → v ≤ hi
    → v < 100
    → read_number 1 lo hi (digits2 v ++ rest) ≡ some (v, rest)
unfolding read_number
read-digits2 lo hi v rest l h b = ground arith

read-digits4 :
    (v : ℕ) (rest : Str) → v < 10000 → read_number 3 0 9999 (digits4 v ++ rest) ≡ some (v, rest)
unfolding read_number
read-digits4 v rest b = ground arith

decimal-digits4 : (y : ℕ) → 1000 ≤ y → y < 10000 → decimal 10 y [] ≡ digits4 y
unfolding decimal
decimal-digits4 y l h = ground arith

-- The nineteen characters of a time.
abbrev pub time_text : Tm → Str
time_text t =
    digits2 t.mday
    ++ (b'.'
        ∷ (digits2 (t.mon + 1)
            ++ (b'.'
                ∷ (digits4 t.year
                    ++ (b' '
                        ∷ (digits2 t.hour
                            ++ (b':' ∷ (digits2 t.min ++ (b':' ∷ (digits2 t.sec ++ []))))))))))

strftime-time_text :
    (t : Tm) → 1000 ≤ t.year → t.year < 10000 → strftime false time_format t ≡ time_text t
unfolding strftime
strftime-time_text t l h = rw (decimal-digits4 t.year l h)

skip_spaces-digit : (v : ℕ) (s : Str) → v < 10 → skip_spaces ((b'0' + v) ∷ s) ≡ (b'0' + v) ∷ s
unfolding skip_spaces
skip_spaces-digit v s h = ground arith

get_time_field :
    (c : ℕ) (format : Str) (t t' : Tm) (s s' : Str)
    → get_field c t s ≡ some (t', s')
    → get_time false (b'%' ∷ c ∷ format) t s ≡ get_time false format t' s'
unfolding get_time
get_time_field c format t t' s s' e = rw e

get_time_plain :
    (c : ℕ) (format : Str) (t : Tm) (s s' : Str)
    → (c == b'%') ≡ false
    → get_plain c s ≡ some s'
    → get_time false (c ∷ format) t s ≡ get_time false format t s'
unfolding get_time
get_time_plain c format t s s' h e = rw (h, e)

get_time_done : (t : Tm) (s : Str) → get_time false [] t s ≡ some (t, s)
unfolding get_time
get_time_done t s = refl

get_day :
    (t : Tm) (v : ℕ) (s : Str)
    → 1 ≤ v
    → v ≤ 31
    → get_field b'd' t (digits2 v ++ s) ≡ some (record t { mday = v }, s)
unfolding get_field
get_day t v s l h = rw (read-digits2 1 31 v s l h (omega arith))

get_month :
    (t : Tm) (v : ℕ) (s : Str)
    → v < 12
    → get_field b'm' t (digits2 (v + 1) ++ s) ≡ some (record t { mon = v }, s)
unfolding get_field
get_month t v s h =
    let back : v + 1 - 1 ≡ v = omega arith in
    rw (read-digits2 1 12 (v + 1) s (omega arith) (omega arith) (omega arith), back)

get_year :
    (t : Tm) (v : ℕ) (s : Str)
    → v < 10000
    → get_field b'Y' t (digits4 v ++ s) ≡ some (record t { year = v }, s)
unfolding get_field
get_year t v s h = rw (read-digits4 v s h)

get_hour :
    (t : Tm) (v : ℕ) (s : Str)
    → v < 24
    → get_field b'H' t (digits2 v ++ s) ≡ some (record t { hour = v }, s)
unfolding get_field
get_hour t v s h = rw (read-digits2 0 23 v s (omega arith) (omega arith) (omega arith))

get_minute :
    (t : Tm) (v : ℕ) (s : Str)
    → v < 60
    → get_field b'M' t (digits2 v ++ s) ≡ some (record t { min = v }, s)
unfolding get_field
get_minute t v s h = rw (read-digits2 0 59 v s (omega arith) (omega arith) (omega arith))

get_second :
    (t : Tm) (v : ℕ) (s : Str)
    → v ≤ 60
    → get_field b'S' t (digits2 v ++ s) ≡ some (record t { sec = v }, s)
unfolding get_field
get_second t v s h = rw (read-digits2 0 60 v s (omega arith) h (omega arith))

get_space : (v : ℕ) (s : Str) → get_plain b' ' (b' ' ∷ (digits2 v ++ s)) ≡ some (digits2 v ++ s)
unfolding get_plain
get_space v s = ap some (skip_spaces-digit (v / 10 % 10) _ (omega arith))

get_mark : (c : ℕ) (s : Str) → is_space c ≡ false → get_plain c (c ∷ s) ≡ some s
unfolding get_plain
get_mark c s h = rw (h, eq→== c c refl)

-- Reading a printed time gives its fields; `tm_isdst` is not among them and stays zero.
get_time_text :
    (t : Tm)
    → InRange t
    → t.year < 10000
    → get_time false time_format zero_tm (time_text t) ≡ some (record t { isdst = false }, [])
get_time_text t r h =
    get_time_field b'd' _ _ _ _ _ (get_day _ t.mday _ r.mday_pos r.mday_le)
    ∙ get_time_plain b'.' _ _ _ _ refl (get_mark _ _ refl)
    ∙ get_time_field b'm' _ _ _ _ _ (get_month _ t.mon _ r.mon_lt)
    ∙ get_time_plain b'.' _ _ _ _ refl (get_mark _ _ refl)
    ∙ get_time_field b'Y' _ _ _ _ _ (get_year _ t.year _ h)
    ∙ get_time_plain b' ' _ _ _ _ refl (get_space t.hour _)
    ∙ get_time_field b'H' _ _ _ _ _ (get_hour _ t.hour _ r.hour_lt)
    ∙ get_time_plain b':' _ _ _ _ refl (get_mark _ _ refl)
    ∙ get_time_field b'M' _ _ _ _ _ (get_minute _ t.min _ r.min_lt)
    ∙ get_time_plain b':' _ _ _ _ refl (get_mark _ _ refl)
    ∙ get_time_field b'S' _ _ _ _ _ (get_second _ t.sec _ r.sec_le)
    ∙ get_time_done _ _

-- The broken-down time of a time point.
abbrev pub broken_down : Clock → ℕ → Tm
broken_down c point = c.localtime (point / c.ticks_per_second)

module _ (c : Clock) (point : ℕ) where
  -- The text fills the buffer up to its last character, which is the zero.
  pub time_point_to_str_lem :
      1000 ≤ (broken_down c point).year
      → (broken_down c point).year < 10000
      → time_point_to_str c point time_format ≡ ok (time_text (broken_down c point) ++ 0 ∷ [])
  unfolding time_point_to_str
  time_point_to_str_lem l h = rw (strftime-time_text (broken_down c point) l h)

  -- A printed time is read back as `mktime` of its fields, with no daylight saving.
  pub time_point_from_str_lem :
      IsClock c
      → (broken_down c point).year < 10000
      → time_point_from_str c (time_text (broken_down c point)) time_format
        ≡ ok (c.mktime (record (broken_down c point) { isdst = false }) * c.ticks_per_second)
  unfolding time_point_from_str
  time_point_from_str_lem v h =
      let t = broken_down c point in
      rw (
        skip_spaces-digit (t.mday / 10 % 10) _ (omega arith),
        get_time_text t (v.localtime-InRange _) h,
        time_point_from_str,
      )

  pub mktime-broken_down :
      IsClock c
      → (broken_down c point).isdst ≡ false
      → c.mktime (record (broken_down c point) { isdst = false }) ≡ point / c.ticks_per_second
  mktime-broken_down v standard =
      ap c.mktime (ap (λ b. record (broken_down c point) { isdst = b }) (sym standard))
      ∙ v.mktime-localtime (point / c.ticks_per_second)
