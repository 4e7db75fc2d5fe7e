-- ===== src/Job.antt =====
-- src/job.rs: options, requests, jobs and enqueue errors. A `Uuid` is a number, a `Timestamp` is the
-- signed count of microseconds since the Unix epoch (the resolution of a PostgreSQL timestamptz), and
-- a payload has an abstract type `Value`, which stands for `serde_json::Value`.
pub mod Status
pub mod KeyMode
use pgspawn.Prelude.{ℕ, Option, none, some, String, Result, ok, ◌>>=◌}
use pgspawn.Prelude.Int.{ℤ, pos}
use Status.{JobStatus}
use KeyMode.{JobKeyMode}

abbrev pub Uuid : Type 0
Uuid = ℕ

abbrev pub Timestamp : Type 0
Timestamp = ℤ

-- Nanoseconds of a `std::time::Duration`.
abbrev pub StdDuration : Type 0
StdDuration = ℕ

pub record EnqueueOptions : Type 0 where
  pub queue_name : Option String
  pub priority : ℤ  -- i32
  pub run_at : Option Timestamp
  pub max_attempts : ℤ  -- i32
  pub job_key : Option String
  pub job_key_mode : JobKeyMode

-- `EnqueueOptions::default()`.
abbrev pub default_options : EnqueueOptions
default_options = record {
  queue_name = none;
  priority = pos 0;
  run_at = none;
  max_attempts = pos 25;
  job_key = none;
  job_key_mode = JobKeyMode.dedupe;
}

pub record EnqueueRequest (Value : Type 0) : Type 0 where
  pub name : String
  pub payload : Value
  pub options : EnqueueOptions

-- A job, and the row of the jobs table: `attempt` is a number by the table's check, the other
-- integers are signed.
pub record Job (Value : Type 0) : Type 0 where
  pub id : Uuid
  pub name : String
  pub status : JobStatus
  pub payload : Value
  pub queue_name : Option String
  pub priority : ℤ
  pub run_at : Timestamp
  pub job_key : Option String
  pub attempt : ℕ
  pub max_attempts : ℤ
  pub locked_by : Option String
  pub locked_at : Option Timestamp
  pub error : Option String
  pub queued_at : Timestamp
  pub started_at : Option Timestamp
  pub finished_at : Option Timestamp
  pub created_at : Timestamp
  pub updated_at : Timestamp

-- What a statement can raise, of the errors that the code's own data can cause. Loss of the
-- connection is no part of a statement: the worker's model has it as an outcome.
pub data SqlError : Type 0 where
  unique_violation check_violation : String → SqlError  -- the constraint's name
  out_of_range : SqlError
  column_decode : String → SqlError
  protocol : String → SqlError

pub data EnqueueError : Type 0 where
  serialize : String → EnqueueError
  database : SqlError → EnqueueError
  duplicate_job_key : String → EnqueueError

module _ {Value : Type 0} where
  -- `EnqueueRequest::new`.
  abbrev pub new_request : String → Value → EnqueueRequest Value
  new_request name payload = record { name = name; payload = payload; options = default_options }

  -- `EnqueueRequest::with_options`.
  abbrev pub with_options : EnqueueRequest Value → EnqueueOptions → EnqueueRequest Value
  with_options request options = record request { options = options }

  -- `EnqueueRequest::typed`, `to_value` being `serde_json::to_value` at the payload's type.
  abbrev pub typed_request {ℓ} :
      {T : Type ℓ} → (T → Result Value String) → String → T → Result (EnqueueRequest Value) String
  typed_request to_value name payload = do value ← to_value payload; ok (new_request name value)
