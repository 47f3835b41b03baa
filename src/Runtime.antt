-- ===== src/Runtime.antt =====
-- Values of the Go run time that the driver handles: `time.Time` by its civil fields, floats by
-- their IEEE 754 bit patterns, `interface{}` and `driver.Value` by one data type; and what the
-- driver asks of packages time and strconv, as a record of functions.
use cubrid_go.Prelude.{
  ℕ, ℤ, pos, List, Bool, ◌≡◌, arith, ◌%◌, ◌+◌, ◌/◌, ◌≤◌, ◌<◌, ◌==◌, if◌then◌else◌, ◌||◌, ◌&&◌, not,
}

pub record Time : Type 0 where
  pub year : ℤ
  pub month : ℕ
  pub day : ℕ
  pub hour : ℕ
  pub minute : ℕ
  pub second : ℕ
  pub nanosecond : ℕ

-- `other s` is a value of any other type, `s` the text that `fmt.Sprintf("%v", v)` gives for it.
pub data Value : Type 0 where
  nil : Value
  bool : Bool → Value
  int64 : ℤ → Value
  float64 : ℕ → Value
  text : List ℕ → Value
  blob : List ℕ → Value
  time : Time → Value
  other : List ℕ → Value

-- The arguments of `time.Date` in UTC: year, month, day, hour, min, sec, nsec.
pub record DateArgs : Type 0 where
  pub year : ℤ
  pub month : ℤ
  pub day : ℤ
  pub hour : ℤ
  pub minute : ℤ
  pub second : ℤ
  pub nanosecond : ℤ

-- `date` is `time.Date(…, time.UTC)`, `utc` the method `UTC`, `widen` the conversion of a float32
-- to a float64, `format_float` is `strconv.FormatFloat(v, 'g', -1, 64)`, `format_time` the format
-- "2006-01-02 15:04:05".
pub record Runtime : Type 0 where
  pub date : DateArgs → Time
  pub utc : Time → Time
  pub widen : ℕ → ℕ
  pub format_float : ℕ → List ℕ
  pub format_time : Time → List ℕ

is_leap : ℕ → Bool
is_leap y = (y % 4 == 0) && (not (y % 100 == 0) || (y % 400 == 0))

-- 30 or 31 days by turns, with August starting the turns again.
unfoldable pub days_in_month : ℕ → ℕ → ℕ
unfolding is_leap
days_in_month y m = if m == 2 then (if is_leap y then 29 else 28) else 30 + (m + m / 8) % 2

-- A date and time of day that exists, in a year from 0 to 9999.
pub record IsCivil (t : Time) : Type 0 where
  pub at_year : ℕ
  pub year_eq : t.year ≡ pos at_year
  pub year_le : at_year ≤ 9999
  pub month_pos : 1 ≤ t.month
  pub month_le : t.month ≤ 12
  pub day_pos : 1 ≤ t.day
  pub day_le : t.day ≤ days_in_month at_year t.month
  pub hour_lt : t.hour < 24
  pub minute_lt : t.minute < 60
  pub second_lt : t.second < 60
  pub nanosecond_lt : t.nanosecond < 1000000000

abbrev pub date_args : Time → DateArgs
date_args t = record {
  year = t.year;
  month = pos t.month;
  day = pos t.day;
  hour = pos t.hour;
  minute = pos t.minute;
  second = pos t.second;
  nanosecond = pos t.nanosecond;
}

-- What package time documents of `Date`: fields within their ranges are kept.
abbrev pub KeepsCivil : Runtime → Type 0
KeepsCivil go = (t : Time) → IsCivil t → go.date (date_args t) ≡ t

pub days_in_month_le : (y m : ℕ) → days_in_month y m ≤ 31
unfolding days_in_month
days_in_month_le y m = ground arith
