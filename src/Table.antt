-- ===== src/Table.antt =====
-- migrations/0001_init.sql: the tables, as the statements of src/queue.rs see them. A table is the list
-- of its rows, a statement a function on the tables, `now` the value of now() in its transaction.
-- The status column holds one of the five statuses by `jobs_status_check`.
pub mod Valid
pub mod Update
pub mod Checked
pub mod Lookup
use pgspawn.Prelude.{
  ℕ, Bool, true, false, ◌&&◌, Option, none, some, List, [], ◌∷◌, String, same_text, if◌then◌else◌,
  count_by, any_by, not, ◌==◌, Result, ok, err,
}
use pgspawn.Job.{Timestamp, Job, SqlError, unique_violation}
use pgspawn.Job.Status.{JobStatus}

pub record WorkerRow (Value : Type 0) : Type 0 where
  pub id : String
  pub task_names : List String
  pub started_at : Timestamp
  pub last_heartbeat_at : Timestamp
  pub metadata : Value
  pub created_at : Timestamp
  pub updated_at : Timestamp

pub record CronRow (Value : Type 0) : Type 0 where
  pub identifier : String
  pub name : String
  pub payload : Value
  pub last_run_at : Option Timestamp
  pub next_run_at : Option Timestamp
  pub created_at : Timestamp
  pub updated_at : Timestamp

pub record Db (Value : Type 0) : Type 0 where
  pub jobs : List (Job Value)
  pub workers : List (WorkerRow Value)
  pub crons : List (CronRow Value)

abbrev pub is_queued : JobStatus → Bool
is_queued JobStatus.queued = true
is_queued _ = false

abbrev pub is_running : JobStatus → Bool
is_running JobStatus.running = true
is_running _ = false

-- `status IN ('queued', 'running')`
abbrev pub is_active : JobStatus → Bool
is_active JobStatus.queued = true
is_active JobStatus.running = true
is_active _ = false

module _ {Value : Type 0} where
  -- Two rows that `jobs_job_key_active_idx` does not let stand together.
  abbrev pub clash_key : Job Value → Job Value → Bool
  clash_key r s = is_active r.status && is_active s.status && same_text r.job_key s.job_key

  -- Two rows that `jobs_queue_running_idx` does not let stand together.
  abbrev pub clash_queue : Job Value → Job Value → Bool
  clash_queue r s =
      is_running r.status && is_running s.status && same_text r.queue_name s.queue_name

  -- The trigger `_100__timestamps`.
  abbrev pub touch : Timestamp → Job Value → Job Value
  touch now j = record j { updated_at = now }

  unfoldable pub update_rows :
      (Job Value → Bool) → (Job Value → Job Value) → List (Job Value) → List (Job Value)
  update_rows p f [] = []
  update_rows p f (j ∷ js) = (if p j then f j else j) ∷ update_rows p f js

  -- UPDATE … SET f WHERE p, and the number of rows that it affected.
  unfoldable pub update_jobs :
      Timestamp → (Job Value → Bool) → (Job Value → Job Value) → Db Value → Db Value × ℕ
  unfolding update_rows
  update_jobs now p f db =
      (record db { jobs = update_rows p (λ j. touch now (f j)) db.jobs }, count_by p db.jobs)

  -- Whether the row as it will be stands against a row other than itself.
  abbrev pub clashes : (Job Value → Job Value → Bool) → Job Value → List (Job Value) → Bool
  clashes clash r = any_by (λ s. not (r.id == s.id) && clash r s)

  -- An UPDATE of one row that can make it active or running: the unique indexes refuse it, in the order
  -- in which they were created.
  unfoldable pub update_checked :
      Timestamp
      → (Job Value → Bool)
      → (Job Value → Job Value)
      → Db Value
      → Result (Db Value × ℕ) SqlError
  update_checked now p f db =
      if any_by (λ r. p r && clashes clash_queue (f r) db.jobs) db.jobs
      then err (unique_violation "jobs_queue_running_idx")
      else if any_by (λ r. p r && clashes clash_key (f r) db.jobs) db.jobs
      then err (unique_violation "jobs_job_key_active_idx")
      else ok (update_jobs now p f db)
