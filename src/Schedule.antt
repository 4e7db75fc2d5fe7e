-- ===== src/Schedule.antt =====
-- src/schedule.rs: cron jobs and the instants of their schedules. The Jiff library is the parameter
-- `Jiff`: time zones, civil dates and the conversions that the code calls. A panic (`assert!`) is
-- `none`; Jiff's own range of years is no part of the model.
pub mod Build
pub mod Laws
pub mod Search
pub mod Interval
pub mod Daily
pub mod Monthly
use pgspawn.Prelude.{
  ltb, ℕ, zero, suc, ◌+◌, ◌*◌, ◌/◌, ◌==◌, max, Bool, false, not, Option, none, some, or_else,
  String, List, any_by, if◌then◌else◌,
}
use pgspawn.Prelude.Int.{pos_part, neg_part, ℤ, pos, negsuc, sub_ℕ, ◌+ℤ◌, leb_ℤ, ltb_ℤ}
use pgspawn.Job.{Timestamp, StdDuration, EnqueueOptions}
use pgspawn.Environment.{Environment}

-- Days after Monday.
abbrev pub Weekday : Type 0
Weekday = ℕ

-- What the code calls of Jiff. A duration between dates or timestamps is in microseconds.
pub record Jiff : Type 1 where
  pub TimeZone : Type 0
  pub Date : Type 0
  pub utc : TimeZone
  pub get : String → Option TimeZone
  pub to_date : TimeZone → Timestamp → Date  -- to_datetime(timestamp).date()
  pub to_timestamp : TimeZone → Date → (hour minute : ℕ) → Timestamp  -- of date.at(hour, minute, 0, 0)
  pub minus : Date → ℕ → Date
  pub plus : Date → ℕ → Date
  pub weekday : Date → Weekday
  pub day : Date → ℕ
  pub as_second : Timestamp → ℤ
  pub from_second : ℤ → Option Timestamp

pub record DailyJobSchedule : Type 0 where
  pub hour : ℕ
  pub minute : ℕ
  pub weekdays : Option (List Weekday)

pub record MonthlyJobSchedule : Type 0 where
  pub day : ℕ
  pub hour : ℕ
  pub minute : ℕ

pub data CronSchedule (TimeZone : Type 0) : Type 0 where
  daily : DailyJobSchedule → TimeZone → CronSchedule TimeZone
  monthly : MonthlyJobSchedule → TimeZone → CronSchedule TimeZone
  interval : StdDuration → CronSchedule TimeZone

pub record CronJob (Value TimeZone : Type 0) : Type 0 where
  pub identifier : String
  pub name : String
  pub payload : Value
  pub schedule : CronSchedule TimeZone
  pub options : EnqueueOptions
  pub catch_up_on_start : Bool
  pub environments : List Environment

-- `SignedDuration::from_hours(count * 24)`
abbrev pub days : ℕ → ℕ
days count = count * 24 * 3_600_000_000

-- `interval.as_secs().max(1)`
abbrev pub whole_secs : StdDuration → ℕ
whole_secs every = max (every / 1_000_000_000) 1

-- `as i64` of a `u64`, which wraps from 2 ^ 63 on.
abbrev pub as_i64 : ℕ → ℤ
as_i64 n = if ltb n 9_223_372_036_854_775_808 then pos n else sub_ℕ n 18_446_744_073_709_551_616

-- `interval.as_secs().max(1) as i64`
unfoldable pub interval_secs : StdDuration → ℤ
interval_secs every = as_i64 (whole_secs every)

-- Division with a remainder of at least 0, and the product, by a number.
abbrev pub div_euclid : ℤ → ℕ → ℤ
div_euclid (pos n) k = pos (n / k)
div_euclid (negsuc n) k = negsuc (n / k)

abbrev pub times : ℤ → ℕ → ℤ
times (pos n) k = pos (n * k)
times (negsuc n) k = sub_ℕ 0 (suc n * k)

abbrev pub neg : ℤ → ℤ
neg a = sub_ℕ (neg_part a) (pos_part a)

-- `i64::div_euclid` and the product of `i64`s, which stays in range here, but for instants before 1970 and
-- intervals that `as i64` makes negative.
abbrev pub div_by : ℤ → ℤ → ℤ
div_by a (pos k) = div_euclid a k
div_by a (negsuc k) = neg (div_euclid a (suc k))

abbrev pub times_by : ℤ → ℤ → ℤ
times_by a (pos k) = times a k
times_by a (negsuc k) = neg (times a (suc k))

-- `schedule.weekdays.is_some_and(|days| !days.contains(&date.weekday()))`
abbrev pub skips : Option (List Weekday) → Weekday → Bool
skips none w = false
skips (some ws) w = not (any_by (λ v. v == w) ws)

module _ (J : Jiff) where
  open J use {
    TimeZone, Date, to_date, to_timestamp, minus, plus, weekday, day, as_second, from_second,
  }

  abbrev pub local_date : TimeZone → Timestamp → Date
  local_date time_zone timestamp = to_date time_zone timestamp

  abbrev pub at_time_zone : TimeZone → Date → ℕ → ℕ → Timestamp
  at_time_zone time_zone date hour minute = to_timestamp time_zone date hour minute

  -- The loops over `day_offset`, from an offset on, for some rounds: `date_at` is the date of an
  -- offset, `skip` the `continue`, `at` the candidate, `accept` the test for the early return.
  pub first_day :
      (date_at : ℕ → Date) (skip : Date → Bool) (at : Date → Timestamp) (accept : Timestamp → Bool)
      (offset rounds : ℕ)
      → Option Timestamp
  first_day date_at skip at accept offset zero = none
  first_day date_at skip at accept offset (suc rounds) =
      let rest = first_day date_at skip at accept (suc offset) rounds in
      if skip (date_at offset)
      then rest
      else if accept (at (date_at offset))
      then some (at (date_at offset))
      else rest

  abbrev pub back : TimeZone → Timestamp → ℕ → Date
  back time_zone now day_offset = minus (local_date time_zone now) (days day_offset)

  abbrev pub ahead : TimeZone → Timestamp → ℕ → Date
  ahead time_zone after day_offset = plus (local_date time_zone after) (days day_offset)

  abbrev pub skips_day : DailyJobSchedule → Date → Bool
  skips_day schedule date = skips schedule.weekdays (weekday date)

  -- `date.day() != schedule.day as i8`
  abbrev pub skips_date : MonthlyJobSchedule → Date → Bool
  skips_date schedule date = not (day date == schedule.day)

  unfoldable pub latest_daily_due_at : Timestamp → DailyJobSchedule → TimeZone → Option Timestamp
  unfolding first_day
  latest_daily_due_at now schedule time_zone =
      first_day (back time_zone now) (skips_day schedule)
        (λ date. at_time_zone time_zone date schedule.hour schedule.minute) (λ t. leb_ℤ t now) 0 9

  unfoldable pub next_daily_after : Timestamp → DailyJobSchedule → TimeZone → Timestamp
  unfolding first_day
  next_daily_after after schedule time_zone =
      or_else
        (first_day (ahead time_zone after) (skips_day schedule)
          (λ date. at_time_zone time_zone date schedule.hour schedule.minute) (λ t. ltb_ℤ after t) 0
          9)
        (after +ℤ pos (days 1))

  unfoldable pub latest_monthly_due_at :
      Timestamp → MonthlyJobSchedule → TimeZone → Option Timestamp
  unfolding first_day
  latest_monthly_due_at now schedule time_zone =
      first_day (back time_zone now) (skips_date schedule)
        (λ date. at_time_zone time_zone date schedule.hour schedule.minute) (λ t. leb_ℤ t now) 0 371

  unfoldable pub next_monthly_after : Timestamp → MonthlyJobSchedule → TimeZone → Timestamp
  unfolding first_day
  next_monthly_after after schedule time_zone =
      or_else
        (first_day (ahead time_zone after) (skips_date schedule)
          (λ date. at_time_zone time_zone date schedule.hour schedule.minute) (λ t. ltb_ℤ after t) 0
          371)
        (after +ℤ pos (days 31))

  unfoldable pub latest_interval_due_at : Timestamp → StdDuration → Option Timestamp
  unfolding interval_secs
  latest_interval_due_at now every =
      from_second (times_by (div_by (as_second now) (interval_secs every)) (interval_secs every))

  unfoldable pub next_interval_after : Timestamp → StdDuration → Timestamp
  unfolding interval_secs
  next_interval_after after every =
      or_else
        (from_second (
          times_by (div_by (as_second after) (interval_secs every) +ℤ pos 1) (interval_secs every)))
        (after +ℤ times (interval_secs every) 1_000_000)

  unfoldable pub latest_due_at : CronSchedule TimeZone → Timestamp → Option Timestamp
  latest_due_at (daily schedule time_zone) now = latest_daily_due_at now schedule time_zone
  latest_due_at (monthly schedule time_zone) now = latest_monthly_due_at now schedule time_zone
  latest_due_at (interval every) now = latest_interval_due_at now every

  unfoldable pub next_after : CronSchedule TimeZone → Timestamp → Timestamp
  next_after (daily schedule time_zone) after = next_daily_after after schedule time_zone
  next_after (monthly schedule time_zone) after = next_monthly_after after schedule time_zone
  next_after (interval every) after = next_interval_after after every
