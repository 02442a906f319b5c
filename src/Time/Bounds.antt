-- ===== src/Time/Bounds.antt =====
-- The fields that `TimePointFromStr` of tyfirc/tyfirc-misc.cpp hands to `mktime`.
use tyfirc.Base.{
  ℕ, ◌*◌, ◌-◌, ◌≤◌, ◌<◌, Bool, true, false, ◌==◌, if◌then◌else◌, ◌≡◌, refl, Option, none, some, [],
  ◌∷◌, arith, Option-cases, inl, inr, ltb, ◌^◌,
}
use tyfirc.Base.Text.{Str, codes}
use tyfirc.Base.Result.{ok, throw, ub, invalid_argument}
use tyfirc.Time.{
  Tm, Clock, read_digits, check_range, read_number, store, get_field, get_plain, on_field, on_plain,
  get_time, zero_tm, skip_spaces, check_rest, time_point_from_str, is_digit, checked_ticks,
}
use tyfirc.Time.RoundTrip.{time_format}

-- A date and a time of a year with at most four digits, with no daylight saving.
abbrev pub Fits : Tm → Type 0
Fits t =
    t.sec ≤ 60
    × t.min < 60
    × t.hour < 24
    × 1 ≤ t.mday
    × t.mday ≤ 31
    × t.mon < 12
    × t.year < 10000
    × (t.isdst ≡ false)

if_cases {ℓ κ} :
    {A : Type ℓ}
    → {C : Type κ} → (b : Bool) → (x y : A) → {w : A} → (x ≡ w → C)
    → (y ≡ w → C)
    → (if b then x else y) ≡ w
    → C
if_cases true x y f g e = f e
if_cases false x y f g e = g e

check_range-bounds :
    (lo hi : ℕ) (r : ℕ × Str) {v : ℕ} {s : Str}
    → check_range lo hi r ≡ some (v, s)
    → lo ≤ v × v ≤ hi
check_range-bounds lo hi (v, s) e = ground arith

read_number-bounds :
    (n lo hi : ℕ) (s : Str) {v : ℕ} {rest : Str}
    → read_number n lo hi s ≡ some (v, rest)
    → lo ≤ v × v ≤ hi
unfolding read_number
read_number-bounds n lo hi [] e = cc
read_number-bounds n lo hi (c ∷ s) e =
    if_cases (is_digit c) (check_range lo hi (read_digits n (c - b'0') s)) none
      (check_range-bounds lo hi (read_digits n (c - b'0') s)) (λ z. cc) e

store-cases :
    (set : ℕ → Tm) (o : Option (ℕ × Str)) {t : Tm} {rest : Str}
    → store set o ≡ some (t, rest)
    → (v : ℕ) × (o ≡ some (v, rest)) × (set v ≡ t)
store-cases set none e = cc
store-cases set (some (v, s)) e = (v, cc, cc)

-- What a conversion for `set` keeps of a time, if it keeps it on every number it may read.
store-Fits :
    (set : ℕ → Tm) (n lo hi : ℕ) (s : Str) {t : Tm} {rest : Str}
    → ((v : ℕ) → lo ≤ v → v ≤ hi → Fits (set v))
    → store set (read_number n lo hi s) ≡ some (t, rest)
    → Fits t
store-Fits set n lo hi s fits e =
    let (v, read, is) = store-cases set (read_number n lo hi s) e in
    let (l, h) = read_number-bounds n lo hi s read in rw (← is) (fits v l h)

module _ (t : Tm) (f : Fits t) where
  day-Fits : (v : ℕ) → 1 ≤ v → v ≤ 31 → Fits (record t { mday = v })
  day-Fits v l h = let (s, m, o, p, d, n, y, i) = f in (s, m, o, l, h, n, y, i)

  month-Fits : (v : ℕ) → 1 ≤ v → v ≤ 12 → Fits (record t { mon = v - 1 })
  month-Fits v l h = let (s, m, o, p, d, n, y, i) = f in (s, m, o, p, d, omega arith, y, i)

  year-Fits : (v : ℕ) → 0 ≤ v → v ≤ 9999 → Fits (record t { year = v })
  year-Fits v l h = let (s, m, o, p, d, n, y, i) = f in (s, m, o, p, d, n, omega arith, i)

  hour-Fits : (v : ℕ) → 0 ≤ v → v ≤ 23 → Fits (record t { hour = v })
  hour-Fits v l h = let (s, m, o, p, d, n, y, i) = f in (s, m, omega arith, p, d, n, y, i)

  minute-Fits : (v : ℕ) → 0 ≤ v → v ≤ 59 → Fits (record t { min = v })
  minute-Fits v l h = let (s, m, o, p, d, n, y, i) = f in (s, omega arith, o, p, d, n, y, i)

  second-Fits : (v : ℕ) → 0 ≤ v → v ≤ 60 → Fits (record t { sec = v })
  second-Fits v l h = let (s, m, o, p, d, n, y, i) = f in (h, m, o, p, d, n, y, i)

  get_field-Fits :
      (c : ℕ) (s : Str) {u : Tm} {rest : Str} → get_field c t s ≡ some (u, rest) → Fits u
  unfolding get_field
  get_field-Fits c s {u} {rest} e =
      if_cases (c == b'd') _ _ (store-Fits _ 1 1 31 s day-Fits)
        (if_cases (c == b'm') _ _ (store-Fits _ 1 1 12 s month-Fits) (
          if_cases (c == b'Y') _ _ (store-Fits _ 3 0 9999 s year-Fits) (
            if_cases (c == b'H') _ _ (store-Fits _ 1 0 23 s hour-Fits) (
              if_cases (c == b'M') _ _ (store-Fits _ 1 0 59 s minute-Fits)
                (if_cases (c == b'S') _ _ (store-Fits _ 1 0 60 s second-Fits) (λ z. cc))))))
        e

on_field-cases :
    (f : Tm → Str → Option (Tm × Str)) (o : Option (Tm × Str)) {w : Tm × Str}
    → on_field f o ≡ some w
    → (t : Tm) × (s : Str) × (o ≡ some (t, s)) × (f t s ≡ some w)
on_field-cases f none e = cc
on_field-cases f (some (t, s)) e = (t, s, refl, e)

on_plain-cases :
    (f : Str → Option (Tm × Str)) (o : Option Str) {w : Tm × Str}
    → on_plain f o ≡ some w
    → (s : Str) × (f s ≡ some w)
on_plain-cases f none e = cc
on_plain-cases f (some s) e = (s, e)

get_time-Fits :
    (pending : Bool) (format : Str) (t : Tm) (s : Str) {u : Tm} {rest : Str}
    → Fits t
    → get_time pending format t s ≡ some (u, rest)
    → Fits u
unfolding get_time
get_time-Fits true [] t s {u} f e = let same : t ≡ u = cc in rw (← same) f
get_time-Fits false [] t s {u} f e = let same : t ≡ u = cc in rw (← same) f
get_time-Fits true (c ∷ format) t s f e =
    let (v, left, read, after) = on_field-cases (get_time false format) (get_field c t s) e in
    get_time-Fits false format v left (get_field-Fits t f c s read) after
get_time-Fits false (c ∷ format) t s f e =
    if_cases (c == b'%') _ _ (get_time-Fits true format t s f)
      (λ plain.
        let (left, after) = on_plain-cases (get_time false format t) (get_plain c s) plain in
        get_time-Fits false format t left f after)
      e

-- The day comes first in the program's format, so what the zero time lacks is read.
get_time_format-Fits :
    (s : Str) {t : Tm} {rest : Str} → get_time false time_format zero_tm s ≡ some (t, rest) → Fits t
unfolding get_time get_field
get_time_format-Fits s e =
    let (v, left, read, after) = on_field-cases (get_time false (codes ".%m.%Y %H:%M:%S")) _ e in
    get_time-Fits false (codes ".%m.%Y %H:%M:%S") v left
      (store-Fits _ 1 1 31 s
        (λ d l h. (omega arith, omega arith, omega arith, l, h, omega arith, omega arith, refl))
        read)
      after

checked_ticks-ok : (point : ℕ) (z : Option ℕ) {p : ℕ} → checked_ticks point z ≡ ok p → p ≡ point
checked_ticks-ok point none e = cc
checked_ticks-ok point (some z) e = if_cases (ltb z (2 ^ 64)) (ok point) ub (λ e. cc) (λ e. cc) e

check_rest-ok : (c : Clock) (point : ℕ) (s : Str) {p : ℕ} → check_rest c point s ≡ ok p → p ≡ point
unfolding check_rest
check_rest-ok c point [] e = cc
check_rest-ok c point (x ∷ s) e =
    if_cases (x == b'.') (checked_ticks point (c.read_ticks (x ∷ s))) (throw invalid_argument)
      (checked_ticks-ok point (c.read_ticks (x ∷ s))) (λ e. cc) e

-- If `TimePointFromStr` takes a text in the program's format, whatever the text, then the time point
-- is that of a broken-down time whose fields are all in range, the day from 1 to 31, the month below
-- 12, the year below 10000, the hour below 24, the minute below 60 and the second at most 60.
pub time_point_from_str-Fits :
    (c : Clock) (str : Str) (point : ℕ)
    → time_point_from_str c str time_format ≡ ok point
    → (t : Tm) × Fits t × (point ≡ c.mktime t * c.ticks_per_second)
unfolding time_point_from_str
time_point_from_str-Fits c str point e =
    elim (Option-cases (get_time false time_format zero_tm (skip_spaces str))) [
      | inl fails ↦ let z = rw (fails, time_point_from_str) at e in cc
      | inr ((t, rest), read) ↦ (
        t,
        get_time_format-Fits (skip_spaces str) read,
        check_rest-ok c _ rest (rw (read, time_point_from_str) at e),
      )
    ]
