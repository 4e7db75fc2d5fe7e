-- ===== src/Queue/Insert.antt =====
-- src/queue.rs: `insert_job` and its INSERT … ON CONFLICT statement, which insert_job_batch and
-- try_enqueue_cron share. `fresh` is the id that gen_random_uuid() gives, `clock` what
-- Timestamp::now() reads in the application.
pub mod Valid
pub mod Keys
pub mod Modes
pub mod Executor
use pgspawn.Prelude.{
  ℕ, ◌==◌, Bool, true, false, not, ◌&&◌, Option, none, some, String, text_eq, or_else,
  if◌then◌else◌, Result, ok, err, ◌>>=◌, [], ◌∷◌, ◌++◌, any_by, find_by, map_err,
}
use pgspawn.Prelude.Int.{pos, leb_ℤ}
use pgspawn.Job.{
  Uuid, Timestamp, Job, EnqueueOptions, SqlError, unique_violation, check_violation,
  default_options, EnqueueError, serialize, database,
}
use pgspawn.Job.Status.{queued}
use pgspawn.Job.KeyMode
use pgspawn.Job.KeyMode.{JobKeyMode}
use pgspawn.Table.{Db, is_queued, clash_key, update_jobs}

module _ {Value : Type 0} where
  -- The row that the statement proposes, EXCLUDED, with the table's defaults.
  abbrev pub proposed :
      (now : Timestamp) (fresh : Uuid) (name : String) (payload : Value) (options : EnqueueOptions)
      (run_at : Timestamp)
      → Job Value
  proposed now fresh name payload options run_at = record {
    id = fresh;
    name = name;
    status = queued;
    payload = payload;
    queue_name = options.queue_name;
    priority = options.priority;
    run_at = run_at;
    job_key = options.job_key;
    attempt = 0;
    max_attempts = options.max_attempts;
    locked_by = none;
    locked_at = none;
    error = none;
    queued_at = now;
    started_at = none;
    finished_at = none;
    created_at = now;
    updated_at = now;
  }

  -- `$8 <> 'dedupe' AND jobs.status = 'queued'`
  unfoldable pub overwrites : JobKeyMode → Job Value → Bool
  unfolding KeyMode.as_str
  overwrites mode j = not (text_eq (KeyMode.as_str mode) "dedupe") && is_queued j.status

  -- `$8 = 'replace' AND jobs.status = 'queued'`
  unfoldable pub restarts : JobKeyMode → Job Value → Bool
  unfolding KeyMode.as_str
  restarts mode j = text_eq (KeyMode.as_str mode) "replace" && is_queued j.status

  -- DO UPDATE SET
  unfoldable pub on_conflict : JobKeyMode → (excluded : Job Value) → Job Value → Job Value
  unfolding overwrites restarts
  on_conflict mode excluded j = record j {
    name = if overwrites mode j then excluded.name else j.name;
    payload = if overwrites mode j then excluded.payload else j.payload;
    queue_name = if overwrites mode j then excluded.queue_name else j.queue_name;
    priority = if overwrites mode j then excluded.priority else j.priority;
    run_at = if restarts mode j then excluded.run_at else j.run_at;
    max_attempts = if overwrites mode j then excluded.max_attempts else j.max_attempts;
    error = if overwrites mode j then none else j.error;
  }

  -- The statement: the table's check, then the active row under the key, then a new row. The result is
  -- the id and whether a row was inserted (`xmax = 0`).
  unfoldable pub upsert :
      Timestamp
      → JobKeyMode
      → (excluded : Job Value) → Db Value
      → Result ((Uuid × Bool) × Db Value) SqlError
  upsert now mode excluded db =
      if leb_ℤ excluded.max_attempts (pos 0)
      then err (check_violation "jobs_max_attempts_check")
      else elim (find_by (λ r. clash_key r excluded) db.jobs) [
        | some existing ↦ ok (
          (existing.id, false),
          (update_jobs now (λ r. clash_key r excluded) (on_conflict mode excluded) db).0,
        )
        | none ↦
            if any_by (λ r. r.id == excluded.id) db.jobs
            then err (unique_violation "jobs_pkey")
            else ok ((excluded.id, true), record db { jobs = db.jobs ++ excluded ∷ [] })
      ]

  unfoldable pub insert_job :
      (clock now : Timestamp) (fresh : Uuid) (name : String) (payload : Value)
      (options : EnqueueOptions) (db : Db Value)
      → Result (Uuid × Db Value) SqlError
  insert_job clock now fresh name payload options db = do
    let run_at = or_else options.run_at clock
    inserted ← upsert now options.job_key_mode (proposed now fresh name payload options run_at) db
    ok (inserted.0.0, inserted.1)

  -- `enqueue_with_options`.
  abbrev pub enqueue_with_options :
      (clock now : Timestamp) (fresh : Uuid) (name : String) (payload : Value)
      (options : EnqueueOptions) (db : Db Value)
      → Result (Uuid × Db Value) SqlError
  enqueue_with_options = insert_job

  -- `enqueue`.
  abbrev pub enqueue :
      (clock now : Timestamp) (fresh : Uuid) (name : String) (payload : Value) (db : Db Value)
      → Result (Uuid × Db Value) SqlError
  enqueue clock now fresh name payload db =
      enqueue_with_options clock now fresh name payload default_options db

  -- `enqueue_typed_with_options`; `to_value` is
  -- `serde_json::to_value` at the payload's type.
  unfoldable pub enqueue_typed_with_options {ℓ} :
      {T : Type ℓ} (to_value : T → Result Value String) (clock now : Timestamp) (fresh : Uuid)
      (name : String) (payload : T) (options : EnqueueOptions) (db : Db Value)
      → Result (Uuid × Db Value) EnqueueError
  enqueue_typed_with_options to_value clock now fresh name payload options db = do
    value ← map_err serialize (to_value payload)
    map_err database (enqueue_with_options clock now fresh name value options db)

  -- `enqueue_typed`.
  abbrev pub enqueue_typed {ℓ} :
      {T : Type ℓ} (to_value : T → Result Value String) (clock now : Timestamp) (fresh : Uuid)
      (name : String) (payload : T) (db : Db Value)
      → Result (Uuid × Db Value) EnqueueError
  enqueue_typed to_value clock now fresh name payload db =
      enqueue_typed_with_options to_value clock now fresh name payload default_options db
