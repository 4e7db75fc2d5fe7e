-- ===== src/Examples/Slots.antt =====
-- The theorems on schedules at the example calendar, and on parsers.
use pgspawn.Prelude.{ℕ, ◌≡◌, ◌≤◌, ◌<◌, ◌+◌, ◌*◌, ◌%◌, ◌↔◌, refl, some, [], ◌∷◌, arith, ok}
use pgspawn.Prelude.Int.{pos, ◌≤ℤ◌, ◌<ℤ◌}
use pgspawn.Job.{Timestamp}
use pgspawn.Schedule.{
  DailyJobSchedule, MonthlyJobSchedule, whole_secs, latest_daily_due_at, next_daily_after,
  latest_monthly_due_at, next_monthly_after, latest_interval_due_at, next_interval_after,
}
use pgspawn.Schedule.Daily.{
  LatestSlot, NextSlot, latest_daily_due_at-some, next_daily_after-NextSlot,
}
use pgspawn.Schedule.Monthly.{
  LatestMonth, NextMonth, latest_monthly_due_at-some, next_monthly_after-NextMonth,
}
use pgspawn.Schedule.Interval.{
  boundary, latest_interval_due_at-boundary, next_interval_after-boundary,
}
use pgspawn.Job.Status.{running, from_str, as_str, from_str-eq-ok}
use pgspawn.Examples.Calendar.{calendar, calendar-JiffLaws}

-- Mondays and Thursdays at 09:30.
abbrev on_some_days : DailyJobSchedule
on_some_days = record { hour = 9; minute = 30; weekdays = some (0 ∷ 3 ∷ []) }

-- The 15th at 06:00.
abbrev on_15th : MonthlyJobSchedule
on_15th = record { day = 15; hour = 6; minute = 0 }

abbrev noon : Timestamp
noon = pos 1_700_000_000_000_000

latest_daily_due_at-some_example :
    (t : Timestamp) × (latest_daily_due_at calendar noon on_some_days tt ≡ some t)
    × (t ≤ℤ noon)
    × LatestSlot calendar calendar-JiffLaws on_some_days tt (omega arith) (omega arith) noon t
latest_daily_due_at-some_example =
    latest_daily_due_at-some calendar calendar-JiffLaws on_some_days tt (omega arith) (omega arith)
      3 (omega arith) refl noon

next_daily_after-NextSlot_example :
    (noon <ℤ next_daily_after calendar noon on_some_days tt)
    × NextSlot calendar calendar-JiffLaws on_some_days tt
        (omega arith)
        (omega arith)
        noon
        (next_daily_after calendar noon on_some_days tt)
next_daily_after-NextSlot_example =
    next_daily_after-NextSlot calendar calendar-JiffLaws on_some_days tt (omega arith) (omega arith)
      3 (omega arith) refl noon

latest_monthly_due_at-some_example :
    (t : Timestamp) × (latest_monthly_due_at calendar noon on_15th tt ≡ some t)
    × (t ≤ℤ noon)
    × LatestMonth calendar calendar-JiffLaws on_15th tt
        (omega arith)
        (omega arith)
        (omega arith)
        (omega arith)
        noon
        t
latest_monthly_due_at-some_example =
    latest_monthly_due_at-some calendar calendar-JiffLaws on_15th tt (omega arith) (omega arith)
      (omega arith) (omega arith) noon

next_monthly_after-NextMonth_example :
    (noon <ℤ next_monthly_after calendar noon on_15th tt)
    × NextMonth calendar calendar-JiffLaws on_15th tt
        (omega arith)
        (omega arith)
        (omega arith)
        (omega arith)
        noon
        (next_monthly_after calendar noon on_15th tt)
next_monthly_after-NextMonth_example =
    next_monthly_after-NextMonth calendar calendar-JiffLaws on_15th tt (omega arith) (omega arith)
      (omega arith) (omega arith) noon

-- Every 90 seconds.
latest_interval_due_at-boundary_example :
    (t : ℕ) × (latest_interval_due_at calendar (pos 1_700_000_000_000_000) 90_000_000_000
      ≡ some (pos t))
    × (t ≤ 1_700_000_000_000_000)
    × (1_700_000_000_000_000 < t + whole_secs 90_000_000_000 * 1_000_000)
    × (t % (whole_secs 90_000_000_000 * 1_000_000) ≡ 0)
latest_interval_due_at-boundary_example =
    latest_interval_due_at-boundary calendar calendar-JiffLaws 1_700_000_000_000_000 90_000_000_000
      (omega arith) (omega arith)

next_interval_after-boundary_example :
    next_interval_after calendar (pos 1_700_000_000_000_000) 90_000_000_000
    ≡ pos (
        boundary 1_700_000_000_000_000 (whole_secs 90_000_000_000)
        + whole_secs 90_000_000_000 * 1_000_000)
next_interval_after-boundary_example =
    next_interval_after-boundary calendar calendar-JiffLaws 1_700_000_000_000_000 90_000_000_000
      (omega arith)

from_str-eq-ok_example : (from_str "running" ≡ ok running) ↔ ("running" ≡ as_str running)
from_str-eq-ok_example = from_str-eq-ok "running" running
