-- ===== src/Queue/Read.antt =====
-- src/queue.rs: `get`, `recent`, `counts` and `workers`, and the conversion of rows, whose status is text.
pub mod Rows
pub mod Recent
use pgspawn.Prelude.{
  ℕ, zero, suc, ◌+◌, ◌≡◌, ◌≤◌, refl, Bool, true, false, Option, none, some, List, [], ◌∷◌, ◌++◌,
  map, String, Result, Result-cases, ok, err, ◌>>=◌, map_err, if◌then◌else◌, arith, length,
  count_by, All, All-map, Pairwise, Bool-cases, Option-cases, inl, inr, min, ap, ◌∙◌, sym, subst,
}
use pgspawn.Prelude.Int.{ℤ, pos, negsuc, ltb_ℤ, ◌≤ℤ◌, ltb_ℤ→lt, ltb_ℤ→le}
use pgspawn.Job.{Uuid, Timestamp, Job, SqlError, column_decode, out_of_range}
use pgspawn.Job.Status
use pgspawn.Job.Status.{JobStatus}
use pgspawn.Table.{Db, WorkerRow, is_queued, is_running}
use pgspawn.Table.Lookup.{find_id}

pub record JobRow (Value : Type 0) : Type 0 where
  pub id : Uuid
  pub name : String
  pub status : String
  pub payload : Value
  pub queue_name : Option String
  pub priority : ℤ
  pub run_at : Timestamp
  pub job_key : Option String
  pub attempt : ℕ
  pub max_attempts : ℤ
  pub locked_by : Option String
  pub locked_at : Option Timestamp
  pub error : Option String
  pub queued_at : Timestamp
  pub started_at : Option Timestamp
  pub finished_at : Option Timestamp
  pub created_at : Timestamp
  pub updated_at : Timestamp

pub record WorkerInfo : Type 0 where
  pub id : String
  pub task_names : List String
  pub started_at : Timestamp
  pub last_heartbeat_at : Timestamp

pub record JobCounts : Type 0 where
  pub queued : ℕ
  pub running : ℕ
  pub succeeded : ℕ
  pub failed : ℕ
  pub cancelled : ℕ

abbrev pub is_succeeded : JobStatus → Bool
is_succeeded JobStatus.succeeded = true
is_succeeded _ = false

abbrev pub is_failed : JobStatus → Bool
is_failed JobStatus.failed = true
is_failed _ = false

abbrev pub is_cancelled : JobStatus → Bool
is_cancelled JobStatus.cancelled = true
is_cancelled _ = false

-- The texts of the status column: those of the table's check, and of the SQL of the statements.
abbrev pub stored_status : JobStatus → String
stored_status JobStatus.queued = "queued"
stored_status JobStatus.running = "running"
stored_status JobStatus.succeeded = "succeeded"
stored_status JobStatus.failed = "failed"
stored_status JobStatus.cancelled = "cancelled"

module _ {Value : Type 0} where
  -- The row as sqlx reads it from the table.
  abbrev pub row_of : Job Value → JobRow Value
  row_of j = record {
    id = j.id;
    name = j.name;
    status = stored_status j.status;
    payload = j.payload;
    queue_name = j.queue_name;
    priority = j.priority;
    run_at = j.run_at;
    job_key = j.job_key;
    attempt = j.attempt;
    max_attempts = j.max_attempts;
    locked_by = j.locked_by;
    locked_at = j.locked_at;
    error = j.error;
    queued_at = j.queued_at;
    started_at = j.started_at;
    finished_at = j.finished_at;
    created_at = j.created_at;
    updated_at = j.updated_at;
  }

  unfoldable pub into_job : JobRow Value → Result (Job Value) SqlError
  into_job row = do
    status ← map_err (λ e. column_decode "status") (Status.from_str row.status)
    ok (record {
      id = row.id;
      name = row.name;
      status = status;
      payload = row.payload;
      queue_name = row.queue_name;
      priority = row.priority;
      run_at = row.run_at;
      job_key = row.job_key;
      attempt = row.attempt;
      max_attempts = row.max_attempts;
      locked_by = row.locked_by;
      locked_at = row.locked_at;
      error = row.error;
      queued_at = row.queued_at;
      started_at = row.started_at;
      finished_at = row.finished_at;
      created_at = row.created_at;
      updated_at = row.updated_at;
    })

  unfoldable pub get : Uuid → Db Value → Result (Option (Job Value)) SqlError
  get id db = elim (find_id id db) [
    | none ↦ ok none
    | some j ↦ do job ← into_job (row_of j); ok (some job)
  ]

  unfoldable pub counts : Db Value → JobCounts
  counts db = record {
    queued = count_by (λ j. is_queued j.status) db.jobs;
    running = count_by (λ j. is_running j.status) db.jobs;
    succeeded = count_by (λ j. is_succeeded j.status) db.jobs;
    failed = count_by (λ j. is_failed j.status) db.jobs;
    cancelled = count_by (λ j. is_cancelled j.status) db.jobs;
  }

  -- `ORDER BY created_at DESC`
  unfoldable pub put : Job Value → List (Job Value) → List (Job Value)
  put j [] = j ∷ []
  put j (k ∷ ks) = if ltb_ℤ j.created_at k.created_at then k ∷ put j ks else j ∷ k ∷ ks

  unfoldable pub newest_first : List (Job Value) → List (Job Value)
  newest_first [] = []
  newest_first (j ∷ js) = put j (newest_first js)

  abbrev pub take : ℕ → List (Job Value) → List (Job Value)
  take zero js = []
  take (suc n) [] = []
  take (suc n) (j ∷ js) = j ∷ take n js

  -- `map(JobRow::into_job).collect()`
  unfoldable pub collect : List (Job Value) → Result (List (Job Value)) SqlError
  collect [] = ok []
  collect (j ∷ js) = do job ← into_job (row_of j); jobs ← collect js; ok (job ∷ jobs)

  -- A negative LIMIT is an error of PostgreSQL.
  unfoldable pub recent : (limit : ℤ) → Db Value → Result (List (Job Value)) SqlError
  recent (negsuc n) db = err out_of_range
  recent (pos n) db = collect (take n (newest_first db.jobs))

  -- `ORDER BY started_at`
  unfoldable pub put_worker : WorkerRow Value → List (WorkerRow Value) → List (WorkerRow Value)
  put_worker w [] = w ∷ []
  put_worker w (v ∷ vs) =
      if ltb_ℤ v.started_at w.started_at then v ∷ put_worker w vs else w ∷ v ∷ vs

  unfoldable pub by_start : List (WorkerRow Value) → List (WorkerRow Value)
  by_start [] = []
  by_start (w ∷ ws) = put_worker w (by_start ws)

  unfoldable pub workers : Db Value → List WorkerInfo
  workers db =
      map
        (λ (row : WorkerRow Value). record {
          id = row.id;
          task_names = row.task_names;
          started_at = row.started_at;
          last_heartbeat_at = row.last_heartbeat_at;
        })
        (by_start db.workers)
