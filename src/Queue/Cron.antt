-- ===== src/Queue/Cron.antt =====
-- src/queue.rs: `try_enqueue_cron`, one statement that records an occurrence in the crons table and
-- enqueues its job if this call was the one that recorded it.
pub mod Valid
pub mod Record
pub mod Once
use pgspawn.Prelude.{
  Bool, true, false, ◌&&◌, ◌||◌, Option, none, some, String, text_eq, if◌then◌else◌, Result, ok,
  ◌>>=◌, List, [], ◌∷◌, any_by,
}
use pgspawn.Prelude.Int.{ltb_ℤ}
use pgspawn.Job.{Uuid, Timestamp, Job, SqlError}
use pgspawn.Schedule.{CronJob}
use pgspawn.Table.{Db, CronRow}
use pgspawn.Queue.Insert.{proposed, upsert}

pub data CronEnqueueResult : Type 0 where
  enqueued already_queued : Uuid → CronEnqueueResult
  skipped : CronEnqueueResult

-- `crons.last_run_at IS NULL OR crons.last_run_at < EXCLUDED.last_run_at`
abbrev pub not_yet_run : Option Timestamp → Timestamp → Bool
not_yet_run none due_at = true
not_yet_run (some t) due_at = ltb_ℤ t due_at

abbrev pub outcome : Uuid × Bool → CronEnqueueResult
outcome (job_id, inserted) = if inserted then enqueued job_id else already_queued job_id

module _ {Value TimeZone : Type 0} where
  -- The row for a first occurrence.
  abbrev pub new_cron :
      Timestamp → CronJob Value TimeZone → (due_at next_run_at : Timestamp) → CronRow Value
  new_cron now cron due_at next_run_at = record {
    identifier = cron.identifier;
    name = cron.name;
    payload = cron.payload;
    last_run_at = some due_at;
    next_run_at = some next_run_at;
    created_at = now;
    updated_at = now;
  }

  -- DO UPDATE SET of the crons row.
  abbrev pub advance :
      Timestamp
      → CronJob Value TimeZone
      → (due_at next_run_at : Timestamp) → CronRow Value
      → CronRow Value
  advance now cron due_at next_run_at c = record c {
    name = cron.name;
    payload = cron.payload;
    last_run_at = some due_at;
    next_run_at = some next_run_at;
    updated_at = now;
  }

  -- The WITH term `claimed`: the crons table after it, and whether it returned a row.
  unfoldable pub claim_cron :
      Timestamp
      → CronJob Value TimeZone
      → (due_at next_run_at : Timestamp) → List (CronRow Value)
      → List (CronRow Value) × Bool
  claim_cron now cron due_at next_run_at [] = (new_cron now cron due_at next_run_at ∷ [], true)
  claim_cron now cron due_at next_run_at (c ∷ cs) =
      let rest = claim_cron now cron due_at next_run_at cs in
      if text_eq c.identifier cron.identifier
      then (if not_yet_run c.last_run_at due_at
          then (advance now cron due_at next_run_at c ∷ cs, true)
          else (c ∷ cs, false))
      else (c ∷ rest.0, rest.1)

  -- The WITH term `existing`, which reads the table as it was before the statement.
  abbrev pub existed : Timestamp → CronJob Value TimeZone → List (CronRow Value) → Bool
  existed now cron = any_by (λ c. text_eq c.identifier cron.identifier && ltb_ℤ c.created_at now)

  abbrev pub cron_row : Timestamp → Uuid → CronJob Value TimeZone → (due_at : Timestamp) → Job Value
  cron_row now fresh cron due_at = proposed now fresh cron.name cron.payload cron.options due_at

  -- The INSERT INTO jobs, over the tables with the occurrence recorded.
  unfoldable pub enqueue_claimed :
      (now : Timestamp) (fresh : Uuid) (cron : CronJob Value TimeZone) (due_at : Timestamp)
      (db : Db Value)
      → Result (CronEnqueueResult × Db Value) SqlError
  enqueue_claimed now fresh cron due_at db = do
    inserted ← upsert now cron.options.job_key_mode (cron_row now fresh cron due_at) db
    ok (outcome inserted.0, inserted.1)

  unfoldable pub try_enqueue_cron :
      (now : Timestamp) (fresh : Uuid) (cron : CronJob Value TimeZone)
      (due_at next_run_at : Timestamp) (db : Db Value)
      → Result (CronEnqueueResult × Db Value) SqlError
  unfolding claim_cron enqueue_claimed
  try_enqueue_cron now fresh cron due_at next_run_at db =
      let (crons, claimed) = claim_cron now cron due_at next_run_at db.crons in
      let recorded : Db Value = record db { crons = crons } in
      if claimed && (cron.catch_up_on_start || existed now cron db.crons)
      then enqueue_claimed now fresh cron due_at recorded
      else ok (skipped, recorded)
