-- ===== src/Schedule/Build.antt =====
-- src/schedule.rs: the constructors and builders of schedules and cron jobs. `none` is a panic, and
-- `empty` the empty JSON object.
use pgspawn.Prelude.{
  ℕ, ◌%◌, ◌==◌, ltb, leb, Bool, true, false, ◌&&◌, Option, none, some, String, List, [], ◌∷◌,
  any_by, if◌then◌else◌,
}
use pgspawn.Job.{StdDuration, EnqueueOptions, default_options}
use pgspawn.Environment.{Environment, deployed, env_eq}
use pgspawn.Schedule.{
  Jiff, Weekday, DailyJobSchedule, MonthlyJobSchedule, CronSchedule, daily, monthly, interval,
  CronJob,
}

unfoldable pub daily_schedule : (hour minute : ℕ) → Option DailyJobSchedule
daily_schedule hour minute =
    if ltb hour 24 && ltb minute 60
    then some (record { hour = hour; minute = minute; weekdays = none })
    else none

abbrev pub is_empty {ℓ} : {A : Type ℓ} → List A → Bool
is_empty [] = true
is_empty (x ∷ xs) = false

unfoldable pub on_weekdays : DailyJobSchedule → List Weekday → Option DailyJobSchedule
on_weekdays schedule weekdays =
    if is_empty weekdays then none else some (record schedule { weekdays = some weekdays })

unfoldable pub monthly_schedule : (day hour minute : ℕ) → Option MonthlyJobSchedule
monthly_schedule day hour minute =
    if leb 1 day && leb day 28 && ltb hour 24 && ltb minute 60
    then some (record { day = day; hour = hour; minute = minute })
    else none

module _ {Value TimeZone : Type 0} (empty : Value) where
  -- What the constructors have in common: the identifier is the job key, and the deployed
  -- environments run the schedule.
  abbrev pub cron_job : (identifier name : String) → CronSchedule TimeZone → CronJob Value TimeZone
  cron_job identifier name schedule = record {
    identifier = identifier;
    name = name;
    payload = empty;
    schedule = schedule;
    options = record default_options { job_key = some identifier };
    catch_up_on_start = false;
    environments = deployed;
  }

  unfoldable pub daily_job :
      (identifier name : String) → DailyJobSchedule → TimeZone → CronJob Value TimeZone
  daily_job identifier name schedule time_zone = cron_job identifier name (daily schedule time_zone)

  unfoldable pub monthly_job :
      (identifier name : String) → MonthlyJobSchedule → TimeZone → CronJob Value TimeZone
  monthly_job identifier name schedule time_zone =
      cron_job identifier name (monthly schedule time_zone)

  unfoldable pub interval_job :
      (identifier name : String) → StdDuration → Option (CronJob Value TimeZone)
  interval_job identifier name every =
      if leb 1_000_000_000 every && every % 1_000_000_000 == 0
      then some (cron_job identifier name (interval every))
      else none

module _ {Value : Type 0} (empty : Value) (J : Jiff) where
  open J use {TimeZone, utc, get}

  abbrev pub daily_utc : (identifier name : String) → DailyJobSchedule → CronJob Value TimeZone
  daily_utc identifier name schedule = daily_job empty identifier name schedule utc

  abbrev pub monthly_utc : (identifier name : String) → MonthlyJobSchedule → CronJob Value TimeZone
  monthly_utc identifier name schedule = monthly_job empty identifier name schedule utc

  -- `none` is the error of `TimeZone::get`.
  unfoldable pub daily_in_timezone :
      (identifier name : String) → DailyJobSchedule → String → Option (CronJob Value TimeZone)
  daily_in_timezone identifier name schedule time_zone_name = elim (get time_zone_name) [
    | none ↦ none
    | some time_zone ↦ some (daily_job empty identifier name schedule time_zone)
  ]

  unfoldable pub monthly_in_timezone :
      (identifier name : String) → MonthlyJobSchedule → String → Option (CronJob Value TimeZone)
  monthly_in_timezone identifier name schedule time_zone_name = elim (get time_zone_name) [
    | none ↦ none
    | some time_zone ↦ some (monthly_job empty identifier name schedule time_zone)
  ]

module _ {Value TimeZone : Type 0} (cron : CronJob Value TimeZone) where
  abbrev pub with_payload : Value → CronJob Value TimeZone
  with_payload payload = record cron { payload = payload }

  abbrev pub with_options : EnqueueOptions → CronJob Value TimeZone
  with_options options = record cron { options = options }

  abbrev pub catch_up_on_start : CronJob Value TimeZone
  catch_up_on_start = record cron { catch_up_on_start = true }

  unfoldable pub in_environments : List Environment → Option (CronJob Value TimeZone)
  in_environments environments =
      if is_empty environments then none else some (record cron { environments = environments })

  unfoldable pub is_enabled_in : Environment → Bool
  is_enabled_in environment = any_by (λ e. env_eq e environment) cron.environments
