-- ===== src/Queue/Notify.antt =====
-- migrations/0001_init.sql: the triggers `_900_notify` and `_910_notify_queue`, which fire for each row
-- that a statement inserts or updates. A transaction's notifications arrive as one, so a statement
-- notifies the channel `pgspawn_jobs` or does not. `OF status, run_at` asks what the statement SETs.
pub mod Calm
pub mod Claimable
pub mod Rows
pub mod Inserts
pub mod Statements
pub mod Steps
use pgspawn.Prelude.{
  ℕ, ◌==◌, Bool, true, false, not, ◌&&◌, ◌||◌, Option, none, some, is_some, is_text, String,
  if◌then◌else◌, Result, ok, err, List, [], ◌∷◌, any_by, find_by, filter_by, min,
}
use pgspawn.Prelude.Int.{ℤ, pos, leb_ℤ, ◌+ℤ◌}
use pgspawn.Job.{Uuid, Timestamp, StdDuration, Job}
use pgspawn.Job.Status.{is_terminal}
use pgspawn.Job.KeyMode.{JobKeyMode}
use pgspawn.Schedule.{CronJob}
use pgspawn.Table.{Db, is_queued, is_running, is_active, clash_key}
use pgspawn.Table.Lookup.{by_id}
use pgspawn.Queue.Manage.{
  call_off, reset, give_up, finish, move_to, relock, try_again, holds, is_retryable,
}
use pgspawn.Queue.Insert.{proposed, on_conflict, upsert}
use pgspawn.Queue.Batch.{Entry, batch_row, remember, insert_rows, selected, all_modes, insert_modes}
use pgspawn.Queue.Claim.{candidate, start}
use pgspawn.Queue.Recover.{
  requeue, cutoff, duration_millis_i64, is_stuck, is_stale, locked_by_any, locked_by_worker,
}
use pgspawn.Queue.Cron.{cron_row, claim_cron, existed}

module _ {Value : Type 0} where
  -- `_900_notify` on an inserted row.
  abbrev pub insert_notifies : Job Value → Bool
  insert_notifies new = is_queued new.status

  -- Both triggers on an updated row. A statement that SETs both columns fires `_900_notify` once.
  unfoldable pub row_notifies : (sets_status sets_run_at : Bool) (old new : Job Value) → Bool
  row_notifies sets_status sets_run_at old new =
      ((sets_status || sets_run_at) && is_queued new.status)
      || (sets_status
          && (is_running old.status && is_terminal new.status && is_some old.queue_name))

  -- An UPDATE … SET f WHERE p.
  unfoldable pub update_notifies :
      (sets_status sets_run_at : Bool)
      → (Job Value → Bool)
      → (Job Value → Job Value)
      → List (Job Value)
      → Bool
  unfolding row_notifies
  update_notifies sets_status sets_run_at p f =
      any_by (λ j. p j && row_notifies sets_status sets_run_at j (f j))

  -- The INSERT … ON CONFLICT DO UPDATE, whose SET names run_at and not status.
  unfoldable pub upsert_notifies : JobKeyMode → (excluded : Job Value) → Db Value → Bool
  unfolding update_notifies
  upsert_notifies mode excluded db = elim (find_by (λ r. clash_key r excluded) db.jobs) [
    | some existing ↦
        update_notifies false true (λ r. clash_key r excluded) (on_conflict mode excluded) db.jobs
    | none ↦ insert_notifies excluded
  ]

  -- The statements of a batch, each on the tables that the earlier ones leave.
  unfoldable pub rows_notify :
      Timestamp → JobKeyMode → List (Entry Value) → List (String × Uuid) × Db Value → Bool
  unfolding upsert_notifies
  rows_notify now mode [] s = false
  rows_notify now mode (e ∷ es) (ids, db) =
      upsert_notifies mode (batch_row now e) db || (elim (upsert now mode (batch_row now e) db) [
        | ok inserted ↦
            rows_notify now mode es
              (remember e.request.options.job_key inserted.0.0 ids, inserted.1)
        | err e ↦ false
      ])

  unfoldable pub modes_notify :
      Timestamp → List JobKeyMode → List (Entry Value) → List (String × Uuid) × Db Value → Bool
  unfolding rows_notify
  modes_notify now [] es s = false
  modes_notify now (mode ∷ modes) es s =
      rows_notify now mode (selected mode es) s
      || (elim (insert_rows now mode (selected mode es) s) [
        | ok s' ↦ modes_notify now modes es s'
        | err e ↦ false
      ])

  abbrev pub batch_notifies : Timestamp → List (Entry Value) → Db Value → Bool
  batch_notifies now es db = modes_notify now all_modes es ([], db)

  -- `recover_stale` and `recover_dead_workers`.
  unfoldable pub stale_notifies : Timestamp → StdDuration → Db Value → Bool
  unfolding update_notifies
  stale_notifies now stale_after db = elim (cutoff now (duration_millis_i64 stale_after)) [
    | ok t ↦
        update_notifies true true (is_stuck t) (requeue now "recovered stale running job") db.jobs
    | err x ↦ false
  ]

  unfoldable pub dead_notifies : Timestamp → StdDuration → Db Value → Bool
  unfolding update_notifies
  dead_notifies now stale_after db = elim (cutoff now (duration_millis_i64 stale_after)) [
    | ok t ↦
        update_notifies true true (locked_by_any (filter_by (is_stale t) db.workers))
          (requeue now "recovered dead worker job") db.jobs
    | err x ↦ false
  ]

  -- `fail_locked`, whose two UPDATEs SET different columns.
  unfoldable pub fail_notifies :
      (exp : ℕ → ℕ) (now : Timestamp) (id : Uuid) (lock_owner : String) (attempt : ℕ)
      (max_attempts : ℤ) (error : String) (db : Db Value)
      → Bool
  unfolding update_notifies
  fail_notifies exp now id lock_owner attempt max_attempts error db =
      if leb_ℤ max_attempts (pos attempt)
      then update_notifies true false (holds id lock_owner) (give_up now error) db.jobs
      else update_notifies true true (holds id lock_owner) (try_again exp now error) db.jobs

  -- `claim_next`.
  unfoldable pub claim_notifies :
      (now : Timestamp) (locked : Uuid → Bool) (snapshot : Db Value) (lock_owner : String)
      (names : List String) (db : Db Value)
      → Bool
  unfolding update_notifies
  claim_notifies now locked snapshot lock_owner names db =
      elim (candidate names now locked snapshot db) [
        | none ↦ false
        | some j ↦ update_notifies true false (by_id j.id) (start now lock_owner) db.jobs
      ]

  module _ {TimeZone : Type 0} where
    unfoldable pub cron_notifies :
        (now : Timestamp) (fresh : Uuid) (cron : CronJob Value TimeZone)
        (due_at next_run_at : Timestamp) (db : Db Value)
        → Bool
    unfolding upsert_notifies
    cron_notifies now fresh cron due_at next_run_at db =
        let (crons, claimed) = claim_cron now cron due_at next_run_at db.crons in
        let recorded : Db Value = record db { crons = crons } in
        if claimed && (cron.catch_up_on_start || existed now cron db.crons)
        then upsert_notifies cron.options.job_key_mode (cron_row now fresh cron due_at) recorded
        else false
