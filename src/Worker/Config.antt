-- ===== src/Worker/Config.antt =====
-- src/worker.rs: `WorkerConfig`, its defaults and `validate`, and `WorkerError`. Durations are in
-- nanoseconds.
use pgspawn.Prelude.{
  ℕ, ◌*◌, ◌<◌, ◌==◌, ◌≡◌, ◌↔◌, leb, Option, none, some, String, ◌++ₛ◌, if◌then◌else◌, Result, ok,
  err, arith,
}
use pgspawn.Job.{StdDuration, SqlError}
use pgspawn.Environment.{Environment}

pub record WorkerConfig : Type 0 where
  pub worker_id : String
  pub environment : Option Environment
  pub concurrency : ℕ
  pub poll_interval : StdDuration
  pub cron_poll_interval : StdDuration
  pub heartbeat_interval : StdDuration
  pub lock_renew_interval : StdDuration
  pub stale_after : StdDuration
  pub recovery_interval : StdDuration
  pub shutdown_grace_period : StdDuration
  pub finished_job_retention : Option StdDuration

-- `loop_failed` carries the text of tokio's JoinError.
pub data WorkerError : Type 0 where
  empty_registry : WorkerError
  invalid_config missing_cron_handler duplicate_cron_identifier empty_cron_environments :
      String → WorkerError
  database : SqlError → WorkerError
  loop_exited : WorkerError
  loop_failed : String → WorkerError

-- `StdDuration::from_secs`
abbrev pub from_secs : ℕ → StdDuration
from_secs n = n * 1_000_000_000

-- `WorkerConfig::default()`, with the text of the random uuid.
abbrev pub default_config : (uuid : String) → WorkerConfig
default_config uuid = record {
  worker_id = "pgspawn_" ++ₛ uuid;
  environment = none;
  concurrency = 4;
  poll_interval = from_secs 30;
  cron_poll_interval = from_secs 30;
  heartbeat_interval = from_secs 15;
  lock_renew_interval = from_secs 30;
  stale_after = from_secs (10 * 60);
  recovery_interval = from_secs 60;
  shutdown_grace_period = from_secs 30;
  finished_job_retention = some (from_secs (30 * 24 * 60 * 60));
}

unfoldable pub validate : WorkerConfig → Result (Unit {0}) WorkerError
validate c =
    if c.concurrency == 0
    then err (invalid_config "concurrency must be greater than zero")
    else if c.poll_interval == 0
    then err (invalid_config "poll_interval must be greater than zero")
    else if c.cron_poll_interval == 0
    then err (invalid_config "cron_poll_interval must be greater than zero")
    else if c.heartbeat_interval == 0
    then err (invalid_config "heartbeat_interval must be greater than zero")
    else if c.lock_renew_interval == 0
    then err (invalid_config "lock_renew_interval must be greater than zero")
    else if c.recovery_interval == 0
    then err (invalid_config "recovery_interval must be greater than zero")
    else if leb c.stale_after c.heartbeat_interval
    then err (invalid_config "stale_after must be greater than heartbeat_interval")
    else if leb c.stale_after c.lock_renew_interval
    then err (invalid_config "stale_after must be greater than lock_renew_interval")
    else ok tt

-- What the loops rely on: every wait is positive, there is a claim loop, and a worker that beats and
-- renews in time is never stale.
abbrev pub IsSound : WorkerConfig → Type 0
IsSound c =
    (0 < c.concurrency)
    × (0 < c.poll_interval)
    × (0 < c.cron_poll_interval)
    × (0 < c.heartbeat_interval)
    × (0 < c.lock_renew_interval)
    × (0 < c.recovery_interval)
    × (c.heartbeat_interval < c.stale_after)
    × (c.lock_renew_interval < c.stale_after)

-- A configuration is accepted exactly when all its intervals and its concurrency are positive and both the
-- heartbeat and the renewal come before a lock is stale.
pub validate-IsSound : (c : WorkerConfig) → (validate c ≡ ok tt) ↔ IsSound c
unfolding validate
validate-IsSound c = ground arith
