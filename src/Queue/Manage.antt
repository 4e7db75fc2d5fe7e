-- ===== src/Queue/Manage.antt =====
-- src/queue.rs: the statements on one job by its id: cancel, retry, permanently_fail, complete and
-- reschedule, and those of the worker that holds its lock: complete_locked, renew_lock, fail_locked.
pub mod Valid
pub mod One
pub mod Locked
pub mod Operator
pub mod Retry
pub mod Acts
pub mod Explicit
use pgspawn.Prelude.{
  ℕ, ◌==◌, Bool, true, false, ◌&&◌, Option, none, some, String, is_text, if◌then◌else◌, Result, ok,
  ◌>>=◌, min,
}
use pgspawn.Prelude.Int.{ℤ, pos, ◌+ℤ◌, leb_ℤ}
use pgspawn.Job.{Uuid, Timestamp, Job, SqlError}
use pgspawn.Job.Status.{JobStatus, queued, running, succeeded, failed, cancelled}
use pgspawn.Table.{Db, is_queued, is_active, is_running, update_jobs, update_checked}

-- `status IN ('failed', 'cancelled')`
abbrev pub is_retryable : JobStatus → Bool
is_retryable JobStatus.failed = true
is_retryable JobStatus.cancelled = true
is_retryable _ = false

module _ {Value : Type 0} where
  -- `result.rows_affected() == 1`
  abbrev pub affected_one : Db Value × ℕ → Bool × Db Value
  affected_one (db, n) = (n == 1, db)

  -- SET of a cancellation.
  abbrev pub call_off : Timestamp → Job Value → Job Value
  call_off now j = record j { status = cancelled; finished_at = some now; error = none }

  unfoldable pub cancel : Timestamp → Uuid → Db Value → Bool × Db Value
  cancel now id db =
      affected_one (update_jobs now (λ j. j.id == id && is_queued j.status) (call_off now) db)

  -- SET of `retry`.
  abbrev pub reset : Timestamp → Job Value → Job Value
  reset now j = record j {
    status = queued;
    attempt = 0;
    run_at = now;
    locked_by = none;
    locked_at = none;
    error = none;
    started_at = none;
    finished_at = none;
  }

  unfoldable pub retry : Timestamp → Uuid → Db Value → Result (Bool × Db Value) SqlError
  retry now id db = do
    updated ← update_checked now (λ j. j.id == id && is_retryable j.status) (reset now) db
    ok (affected_one updated)

  -- SET of a failure for good.
  abbrev pub give_up : Timestamp → String → Job Value → Job Value
  give_up now error j = record j {
    status = failed;
    locked_by = none;
    locked_at = none;
    finished_at = some now;
    error = some error;
  }

  unfoldable pub permanently_fail : Timestamp → Uuid → String → Db Value → Bool × Db Value
  permanently_fail now id reason db =
      affected_one (update_jobs now (λ j. j.id == id && is_active j.status) (give_up now reason) db)

  -- SET of a completion.
  abbrev pub finish : Timestamp → Job Value → Job Value
  finish now j = record j {
    status = succeeded;
    locked_by = none;
    locked_at = none;
    finished_at = some now;
    error = none;
  }

  unfoldable pub complete : Timestamp → Uuid → Db Value → Bool × Db Value
  complete now id db =
      affected_one (update_jobs now (λ j. j.id == id && is_active j.status) (finish now) db)

  -- SET of `reschedule`.
  abbrev pub move_to : Timestamp → Job Value → Job Value
  move_to run_at j = record j { run_at = run_at }

  unfoldable pub reschedule : Timestamp → Uuid → Timestamp → Db Value → Bool × Db Value
  reschedule now id run_at db =
      affected_one (update_jobs now (λ j. j.id == id && is_queued j.status) (move_to run_at) db)

  abbrev pub holds : Uuid → String → Job Value → Bool
  holds id lock_owner j = j.id == id && is_text j.locked_by lock_owner

  unfoldable pub complete_locked : Timestamp → Uuid → String → Db Value → Bool × Db Value
  complete_locked now id lock_owner db =
      affected_one (update_jobs now (holds id lock_owner) (finish now) db)

  -- SET of `renew_lock`.
  abbrev pub relock : Timestamp → Job Value → Job Value
  relock now j = record j { locked_at = some now }

  unfoldable pub renew_lock : Timestamp → Uuid → String → Db Value → Bool × Db Value
  renew_lock now id lock_owner db = affected_one (
      update_jobs now (λ j. j.id == id && (is_text j.locked_by lock_owner && is_running j.status))
        (relock now) db)

  -- `exp n` is PostgreSQL's exp(n) seconds, in microseconds.
  module _ (exp : ℕ → ℕ) where
    -- SET of a failure that will be tried again. The `attempt` is the column's.
    abbrev pub try_again : Timestamp → String → Job Value → Job Value
    try_again now error j = record j {
      status = queued;
      locked_by = none;
      locked_at = none;
      run_at = now +ℤ pos (exp (min j.attempt 10));
      error = some error;
    }

    unfoldable pub fail_locked :
        Timestamp
        → Uuid
        → String
        → (attempt : ℕ) (max_attempts : ℤ) → String
        → Db Value
        → Bool × Db Value
    fail_locked now id lock_owner attempt max_attempts error db = affected_one (
        if leb_ℤ max_attempts (pos attempt)
        then update_jobs now (holds id lock_owner) (give_up now error) db
        else update_jobs now (holds id lock_owner) (try_again now error) db)
