-- ===== src/Queue/Life/Steps.antt =====
-- src/queue.rs: every statement of every client moves each job by at most one step of its life.
use pgspawn.Prelude.{ℕ, refl, arith}
use pgspawn.Table.{Db, update_jobs}
use pgspawn.Table.Valid.{IsValid}
use pgspawn.Queue.Manage.{
  cancel, permanently_fail, complete, reschedule, complete_locked, renew_lock, call_off, give_up,
  finish, move_to, relock, holds,
}
use pgspawn.Queue.Recover.{
  register_worker, deregister_worker, release_worker_jobs, force_unlock_worker, locked_by_worker,
}
use pgspawn.Queue.Steps.{
  Step, inserts, inserts_many, cancels, retries, fails, completes, reschedules, claims,
  completes_locked, renews, fails_locked, registers, deregisters, releases, unlocks, prunes,
  recovers_stale, recovers_dead, schedules,
}
use pgspawn.Queue.Life.{stays, ended, called_off, Lives}
use pgspawn.Queue.Life.Rows.{update_jobs-Lives, queued_status}
use pgspawn.Queue.Life.Inserts.{insert_job-Lives, enqueue_many-Lives, try_enqueue_cron-Lives}
use pgspawn.Queue.Life.Statements.{
  holder_runs, retry-Lives, claim_next-Lives, prune_finished-Lives, requeue-Lives, stale-Lives,
  dead-Lives, fail_locked-Lives, called_off_view,
}

module _ {Value TimeZone : Type 0} (exp : ℕ → ℕ) where
  -- Every statement of every client, on a valid table, moves each job by at most one step of its life:
  -- an id without a job gets a queued one; a queued job is claimed, which counts an attempt, cancelled
  -- or ended by hand; a running one is handed back to the queue with its attempts or ended; a failed or
  -- cancelled one is queued again from no attempt; only a finished one is deleted; and no other change
  -- of a job's status, attempts or holder happens.
  pub Step-Lives : {db db' : Db Value} → Step TimeZone exp db db' → IsValid db → Lives db db'
  unfolding cancel permanently_fail complete reschedule complete_locked renew_lock register_worker
      deregister_worker release_worker_jobs force_unlock_worker update_jobs
  Step-Lives (inserts clock now fresh name payload options e) v =
      insert_job-Lives clock now fresh name payload options _ v e
  Step-Lives (inserts_many now es e) v = enqueue_many-Lives now es _ v e
  Step-Lives {db = db} (cancels now id) v =
      update_jobs-Lives now _ (call_off now) (λ r. refl)
        (λ r h t.
          called_off (queued_status r.status (ground arith))
            (called_off_view now r h (ground arith)))
        db v
  Step-Lives (retries now id e) v = retry-Lives now id _ v e
  Step-Lives {db = db} (fails now id reason) v =
      update_jobs-Lives now _ (give_up now reason) (λ r. refl)
        (λ r h t. ended (ground arith) refl refl refl) db v
  Step-Lives {db = db} (completes now id) v =
      update_jobs-Lives now _ (finish now) (λ r. refl)
        (λ r h t. ended (ground arith) refl refl refl) db v
  Step-Lives {db = db} (reschedules now id run_at) v =
      update_jobs-Lives now _ (move_to run_at) (λ r. refl) (λ r h t. stays refl) db v
  Step-Lives (claims now locked snapshot lock_owner names e) v =
      claim_next-Lives now locked snapshot lock_owner names _ e
  Step-Lives {db = db} (completes_locked now id lock_owner) v =
      update_jobs-Lives now (holds id lock_owner) (finish now) (λ r. refl)
        (λ r h t. let runs = holder_runs r id lock_owner h t in ended (ground arith) refl refl refl)
        db v
  Step-Lives {db = db} (renews now id lock_owner) v =
      update_jobs-Lives now _ (relock now) (λ r. refl) (λ r h t. stays refl) db v
  Step-Lives (fails_locked now id lock_owner attempt max_attempts error) v =
      fail_locked-Lives exp now id lock_owner attempt max_attempts error _ v
  Step-Lives (registers now worker_id task_names metadata) v = λ k. stays refl
  Step-Lives (deregisters worker_id) v = λ k. stays refl
  Step-Lives {db = db} (releases now worker_id) v =
      requeue-Lives now (locked_by_worker worker_id) _ db (λ r h. ground arith) v
  Step-Lives {db = db} (unlocks now worker_id) v =
      requeue-Lives now (locked_by_worker worker_id) _ db (λ r h. ground arith) v
  Step-Lives (prunes now retain_for e) v = prune_finished-Lives now retain_for _ v e
  Step-Lives (recovers_stale now stale_after e) v = stale-Lives now stale_after _ v e
  Step-Lives (recovers_dead now stale_after e) v = dead-Lives now stale_after _ v e
  Step-Lives (schedules now fresh cron due_at next_run_at e) v =
      try_enqueue_cron-Lives now fresh cron due_at next_run_at _ v e
