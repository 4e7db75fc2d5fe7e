-- ===== src/Worker/Build.antt =====
-- src/worker.rs: `Worker` and its builder methods, and the owner under which a claim loop takes locks. The
-- pool of the queue and the shared handles for waking and counting stand for nothing here.
use pgspawn.Prelude.{
  ◌==◌, ◌≡◌, true, Option, none, some, String, ◌++ₛ◌, starts_with, starts_with_iff, List, [],
  if◌then◌else◌,
}
use text.Mathlib.TextLemmas.{append_assoc}
use pgspawn.Job.{Timestamp, StdDuration}
use pgspawn.Registry.{Handlers}
use pgspawn.Schedule.{CronJob}
use pgspawn.Worker.Config.{WorkerConfig, default_config}

pub record Worker (Value TimeZone : Type 0) : Type 0 where
  pub registry : Handlers Value
  pub crons : List (CronJob Value TimeZone)
  pub config : WorkerConfig
  pub job_summary_interval : Option StdDuration
  pub started_at : Timestamp

module _ {Value TimeZone : Type 0} where
  -- `Worker::new`; `uuid` and `now` are read by the default configuration and the clock.
  pub new_worker :
      (uuid : String) (now : Timestamp) (registry : Handlers Value) → Worker Value TimeZone
  new_worker uuid now registry = record {
    registry = registry;
    crons = [];
    config = default_config uuid;
    job_summary_interval = none;
    started_at = now;
  }

  pub with_config : WorkerConfig → Worker Value TimeZone → Worker Value TimeZone
  with_config config w = record w { config = config }

  pub with_crons : List (CronJob Value TimeZone) → Worker Value TimeZone → Worker Value TimeZone
  with_crons crons w = record w { crons = crons }

  pub with_job_summary_interval : StdDuration → Worker Value TimeZone → Worker Value TimeZone
  with_job_summary_interval interval w = record w {
    job_summary_interval = if interval == 0 then none else some interval;
  }

-- The format of `run_claim_loop`, with the decimal text of the loop's index.
abbrev pub claim_owner : (worker_id index uuid : String) → String
claim_owner worker_id index uuid = worker_id ++ₛ (":" ++ₛ (index ++ₛ (":" ++ₛ uuid)))

-- Every lock of a worker's loops begins with its id and a colon.
pub claim_owner-prefix :
    (worker_id index uuid : String)
    → starts_with (claim_owner worker_id index uuid) (worker_id ++ₛ ":") ≡ true
claim_owner-prefix worker_id index uuid =
    (starts_with_iff (claim_owner worker_id index uuid) (worker_id ++ₛ ":")).1
      (index ++ₛ (":" ++ₛ uuid), append_assoc worker_id ":" (index ++ₛ (":" ++ₛ uuid)))
