-- ===== src/Schedule/Laws.antt =====
-- What src/schedule.rs relies on of Jiff: whole seconds of timestamps since 1970, the order of local
-- dates and instants two or more days apart (whatever a zone's transitions do in between), the cycle of
-- weekdays, and that each day from 1 to 28 recurs within 31 days.
use pgspawn.Prelude.{ℕ, ◌+◌, ◌*◌, ◌/◌, ◌%◌, ◌≤◌, ◌<◌, ◌≡◌, some}
use pgspawn.Prelude.Int.{pos, ◌≤ℤ◌, ◌<ℤ◌}
use pgspawn.Job.{Timestamp}
use pgspawn.Schedule.{Jiff, days}

pub record JiffLaws (J : Jiff) : Type 0 where
  pub as_second_pos : (n : ℕ) → J.as_second (pos n) ≡ pos (n / 1_000_000)
  pub from_second_pos :
      (s : ℕ) → s ≤ 253_402_207_200 → J.from_second (pos s) ≡ some (pos (s * 1_000_000))
  pub earlier :
      (z : J.TimeZone) (t : Timestamp) (n hour minute : ℕ)
      → 2 ≤ n
      → hour ≤ 23
      → minute ≤ 59
      → J.to_timestamp z (J.minus (J.to_date z t) (days n)) hour minute ≤ℤ t
  pub later :
      (z : J.TimeZone) (t : Timestamp) (n hour minute : ℕ)
      → 2 ≤ n
      → hour ≤ 23
      → minute ≤ 59
      → t <ℤ J.to_timestamp z (J.plus (J.to_date z t) (days n)) hour minute
  pub weekday_lt : (d : J.Date) → J.weekday d < 7
  pub weekday_minus : (d : J.Date) (n : ℕ) → (J.weekday (J.minus d (days n)) + n) % 7 ≡ J.weekday d
  pub weekday_plus : (d : J.Date) (n : ℕ) → J.weekday (J.plus d (days n)) ≡ (J.weekday d + n) % 7
  pub day_minus :
      (d : J.Date) (m : ℕ)
      → 1 ≤ m
      → m ≤ 28
      → (n : ℕ) × (2 ≤ n) × (n ≤ 32) × (J.day (J.minus d (days n)) ≡ m)
  pub day_plus :
      (d : J.Date) (m : ℕ)
      → 1 ≤ m
      → m ≤ 28
      → (n : ℕ) × (2 ≤ n) × (n ≤ 32) × (J.day (J.plus d (days n)) ≡ m)
