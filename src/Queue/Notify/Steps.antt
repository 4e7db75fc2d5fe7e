-- ===== src/Queue/Notify/Steps.antt =====
-- src/queue.rs and migrations/0001_init.sql: which statements notify the workers, and that the others
-- give them nothing to do.
use pgspawn.Prelude.{
  ℕ, ◌==◌, ◌≡◌, refl, Bool, true, false, ◌&&◌, some, is_text, String, arith, List, or_else,
}
use pgspawn.Job.{Uuid, Timestamp, Job}
use pgspawn.Table.{Db, is_queued, is_active, is_running, update_jobs}
use pgspawn.Table.Valid.{IsValid}
use pgspawn.Table.Lookup.{find_id}
use pgspawn.Queue.Manage.{
  cancel, permanently_fail, complete, reschedule, complete_locked, renew_lock, call_off, reset,
  give_up, finish, move_to, relock, holds, is_retryable,
}
use pgspawn.Queue.Insert.{proposed}
use pgspawn.Queue.Claim.{can_claim}
use pgspawn.Queue.Recover.{
  register_worker, deregister_worker, release_worker_jobs, force_unlock_worker, requeue,
  locked_by_worker,
}
use pgspawn.Queue.Steps.{
  Step, inserts, inserts_many, cancels, retries, fails, completes, reschedules, claims,
  completes_locked, renews, fails_locked, registers, deregisters, releases, unlocks, prunes,
  recovers_stale, recovers_dead, schedules,
}
use pgspawn.Queue.Notify.{
  row_notifies, update_notifies, upsert_notifies, batch_notifies, cron_notifies, claim_notifies,
  fail_notifies, stale_notifies, dead_notifies,
}
use pgspawn.Queue.Notify.Calm.{IsCalm, update_jobs-IsCalm}
use pgspawn.Queue.Notify.Rows.{ending-IsCalm, queueing-IsCalm}
use pgspawn.Queue.Notify.Claimable.{IsCalm-claimable}
use pgspawn.Queue.Notify.Inserts.{enqueue_many-IsCalm, cron-IsCalm}
use pgspawn.Queue.Notify.Statements.{
  insert_job-IsCalm, retry-IsCalm, relock_calm, claim_next-IsCalm, prune_finished-IsCalm,
  other_tables, same_jobs, stale-IsCalm, dead-IsCalm, fail_locked-IsCalm,
}

module _ {Value TimeZone : Type 0} (exp : ℕ → ℕ) where
  -- Whether a statement notifies `pgspawn_jobs`: each UPDATE with the columns that it SETs. What sets
  -- no column of a job or deletes jobs fires neither trigger.
  unfoldable pub notified : {db db' : Db Value} → Step TimeZone exp db db' → Bool
  notified {db = db} (inserts clock now fresh name payload options e) =
      upsert_notifies options.job_key_mode
        (proposed now fresh name payload options (or_else options.run_at clock)) db
  notified {db = db} (inserts_many now es e) = batch_notifies now es db
  notified {db = db} (cancels now id) =
      update_notifies true false (λ j. j.id == id && is_queued j.status) (call_off now) db.jobs
  notified {db = db} (retries now id e) =
      update_notifies true true (λ j. j.id == id && is_retryable j.status) (reset now) db.jobs
  notified {db = db} (fails now id reason) =
      update_notifies true false (λ j. j.id == id && is_active j.status) (give_up now reason)
        db.jobs
  notified {db = db} (completes now id) =
      update_notifies true false (λ j. j.id == id && is_active j.status) (finish now) db.jobs
  notified {db = db} (reschedules now id run_at) =
      update_notifies false true (λ j. j.id == id && is_queued j.status) (move_to run_at) db.jobs
  notified {db = db} (claims now locked snapshot lock_owner names e) =
      claim_notifies now locked snapshot lock_owner names db
  notified {db = db} (completes_locked now id lock_owner) =
      update_notifies true false (holds id lock_owner) (finish now) db.jobs
  notified {db = db} (renews now id lock_owner) =
      update_notifies false false
        (λ j. j.id == id && (is_text j.locked_by lock_owner && is_running j.status)) (relock now)
        db.jobs
  notified {db = db} (fails_locked now id lock_owner attempt max_attempts error) =
      fail_notifies exp now id lock_owner attempt max_attempts error db
  notified (registers now worker_id task_names metadata) = false
  notified (deregisters worker_id) = false
  notified {db = db} (releases now worker_id) =
      update_notifies true true (locked_by_worker worker_id)
        (requeue now "released by shutting down worker") db.jobs
  notified {db = db} (unlocks now worker_id) =
      update_notifies true true (locked_by_worker worker_id) (requeue now "released by operator")
        db.jobs
  notified (prunes now retain_for e) = false
  notified {db = db} (recovers_stale now stale_after e) = stale_notifies now stale_after db
  notified {db = db} (recovers_dead now stale_after e) = dead_notifies now stale_after db
  notified {db = db} (schedules now fresh cron due_at next_run_at e) =
      cron_notifies now fresh cron due_at next_run_at db

  pub Step-IsCalm :
      {db db' : Db Value} (s : Step TimeZone exp db db')
      → IsValid db
      → notified s ≡ false
      → IsCalm db db'
  unfolding notified row_notifies cancel permanently_fail complete reschedule complete_locked
      renew_lock register_worker deregister_worker release_worker_jobs force_unlock_worker
      update_jobs
  Step-IsCalm {db = db} (inserts clock now fresh name payload options e) v q =
      insert_job-IsCalm clock now fresh name payload options db v e q
  Step-IsCalm {db = db} (inserts_many now es e) v q = enqueue_many-IsCalm now es db v e q
  Step-IsCalm {db = db} (cancels now id) v q =
      ending-IsCalm now _ (call_off now) (λ r. refl) db v false (λ r. refl) q
  Step-IsCalm {db = db} (retries now id e) v q = retry-IsCalm now id db v e q
  Step-IsCalm {db = db} (fails now id reason) v q =
      ending-IsCalm now _ (give_up now reason) (λ r. refl) db v false (λ r. refl) q
  Step-IsCalm {db = db} (completes now id) v q =
      ending-IsCalm now _ (finish now) (λ r. refl) db v false (λ r. refl) q
  Step-IsCalm {db = db} (reschedules now id run_at) v q =
      queueing-IsCalm now _ (move_to run_at) (λ r. refl) db v false true refl (λ r t. ground arith)
        q
  Step-IsCalm {db = db} (claims now locked snapshot lock_owner names e) v q =
      claim_next-IsCalm now locked snapshot lock_owner names db e
  Step-IsCalm {db = db} (completes_locked now id lock_owner) v q =
      ending-IsCalm now _ (finish now) (λ r. refl) db v false (λ r. refl) q
  Step-IsCalm {db = db} (renews now id lock_owner) v q =
      update_jobs-IsCalm false false now _ (relock now) (λ r. refl) (λ r h t z. relock_calm now r)
        db v q
  Step-IsCalm {db = db} (fails_locked now id lock_owner attempt max_attempts error) v q =
      fail_locked-IsCalm exp now id lock_owner attempt max_attempts error db v q
  Step-IsCalm {db = db} (registers now worker_id task_names metadata) v q = same_jobs db _
  Step-IsCalm {db = db} (deregisters worker_id) v q = same_jobs db _
  Step-IsCalm {db = db} (releases now worker_id) v q =
      queueing-IsCalm now (locked_by_worker worker_id) _ (λ r. refl) db v true true refl
        (λ r t. refl) q
  Step-IsCalm {db = db} (unlocks now worker_id) v q =
      other_tables db _ (deregister_worker worker_id db).workers (
        queueing-IsCalm now (locked_by_worker worker_id) _ (λ r. refl)
          (deregister_worker worker_id db) (record { rows = v.rows; pairs = v.pairs }) true true
          refl (λ r t. refl) q)
  Step-IsCalm {db = db} (prunes now retain_for e) v q = prune_finished-IsCalm now retain_for db v e
  Step-IsCalm {db = db} (recovers_stale now stale_after e) v q =
      stale-IsCalm now stale_after db v e q
  Step-IsCalm {db = db} (recovers_dead now stale_after e) v q = dead-IsCalm now stale_after db v e q
  Step-IsCalm {db = db} (schedules now fresh cron due_at next_run_at e) v q =
      cron-IsCalm now fresh cron due_at next_run_at db v e q

  -- On a valid table, whatever statement a client runs: if it notifies nobody, a job that any worker could
  -- claim afterwards, at any time and for any names, could be claimed at that time before it. So a worker
  -- that knew of no work and has heard nothing has none.
  pub notified-claimable :
      {db db' : Db Value} (s : Step TimeZone exp db db')
      → IsValid db
      → notified s ≡ false
      → (names : List String) (t : Timestamp) (k : Uuid) (new : Job Value)
      → find_id k db' ≡ some new
      → can_claim names t db'.jobs new ≡ true
      → (old : Job Value) × (find_id k db ≡ some old) × (can_claim names t db.jobs old ≡ true)
  notified-claimable {db = db} {db' = db'} s v q = IsCalm-claimable db db' v (Step-IsCalm s v q)
