-- ===== src/Signers/Time.antt =====
-- internal/sshsig/allowed.go: `parseTime`, with what it uses of Go's `time.ParseInLocation`. A time is
-- the nanoseconds since the zero time; the time zones are a parameter.
use release_me.Prelude.{
  ℕ, ◌-◌, ◌%◌, Bool, not, ◌&&◌, ◌||◌, Option, none, some, [], ◌∷◌, ◌++◌, ltb, leb, ◌==◌,
  if◌then◌else◌, is_empty, all, length, take, drop, Bytes, codes, has_suffix, is_digit, value,
}
use mathlib.Core.Option

-- A date and a time of day, as the fields of a layout spell them.
pub record Civil : Type 0 where
  pub year : ℕ
  pub month : ℕ
  pub day : ℕ
  pub hour : ℕ
  pub minute : ℕ
  pub second : ℕ
  pub nanosecond : ℕ

-- The time zones: the time of a date in UTC and in the local zone.
pub record Zones : Type 0 where
  pub utc : Civil → ℕ
  pub local_zone : Civil → ℕ

-- Go's calendar.
abbrev pub is_leap : ℕ → Bool
is_leap y = y % 4 == 0 && (not (y % 100 == 0) || y % 400 == 0)

abbrev pub days_in : ℕ → ℕ → ℕ
days_in month year =
    if month == 2
    then (if is_leap year then 29 else 28)
    else if month == 4 || month == 6 || month == 9 || month == 11
    then 30
    else 31

-- `n` digits at the start of a text, with what follows; `none` where `time.Parse` fails.
abbrev pub number : ℕ → Bytes → Option (ℕ × Bytes)
number n s =
    if leb n (length s) && all is_digit (take n s)
    then some (value 0 (take n s), drop n s)
    else none

abbrev and_then : {A B : Type 0} → Option A → (A → Option B) → Option B
and_then none f = none
and_then (some x) f = f x

-- The layout 20060102 at the start of a text.
abbrev pub date_of : ℕ → ℕ → ℕ → Bytes → Option (Civil × Bytes)
date_of year month day s =
    if leb 1 month && leb month 12 && leb 1 day && leb day (days_in month year)
    then some (
      record {
        year = year;
        month = month;
        day = day;
        hour = 0;
        minute = 0;
        second = 0;
        nanosecond = 0;
      },
      s,
    )
    else none

pub parse_date : Bytes → Option (Civil × Bytes)
parse_date s =
    and_then (number 4 s)
      λ y. and_then (number 2 y.1) λ m. and_then (number 2 m.1) λ d. date_of y.0 m.0 d.0 d.1

-- 1504 behind a date.
pub parse_clock : Civil → Bytes → Option (Civil × Bytes)
parse_clock date s = and_then (number 2 s) λ h. and_then (number 2 h.1) λ m.
    if ltb h.0 24 && ltb m.0 60 then some (record date { hour = h.0; minute = m.0 }, m.1) else none

-- The digits of a fraction of a second, nine of which count.
abbrev pub nanoseconds : Bytes → ℕ
nanoseconds s = value 0 (take 9 (s ++ codes "00000000"))

-- A fraction that `time.Parse` takes behind the seconds, though the layout has none.
abbrev pub fraction : Civil → Bytes → Option (Civil × Bytes)
fraction t [] = some (t, [])
fraction t (c ∷ s) =
    if (c == b'.' || c == b',') && not (is_empty s) && all is_digit s
    then some (record t { nanosecond = nanoseconds s }, [])
    else some (t, c ∷ s)

-- 05 behind a date and a clock.
pub parse_second : Civil → Bytes → Option (Civil × Bytes)
parse_second t s =
    and_then (number 2 s) λ n. if ltb n.0 60 then fraction (record t { second = n.0 }) n.1 else none

-- A layout takes the whole text.
abbrev pub whole : Option (Civil × Bytes) → Option Civil
whole none = none
whole (some (t, s)) = if is_empty s then some t else none

abbrev pub or_else : Option Civil → Option Civil → Option Civil
or_else none next = next
or_else (some t) next = some t

-- The three layouts, in their order.
pub parse_layouts : Bytes → Option Civil
parse_layouts s =
    let date = parse_date s in
    let minutes = and_then date λ d. parse_clock d.0 d.1 in
    let seconds = and_then minutes λ m. parse_second m.0 m.1 in
    or_else (whole date) (or_else (whole minutes) (whole seconds))

-- `parseTime`
unfoldable pub parse_time : Zones → Bytes → Option ℕ
unfolding parse_layouts parse_date parse_clock parse_second
parse_time zones s =
    if has_suffix s (codes "Z")
    then Option.map zones.utc (parse_layouts (take (length s - 1) s))
    else Option.map zones.local_zone (parse_layouts s)
