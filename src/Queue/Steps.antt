-- ===== src/Queue/Steps.antt =====
-- src/queue.rs: the database as its clients change it. A step is one statement (a batch is one
-- transaction) of any client, at any time `now`, with any arguments; a claim may have read any earlier
-- snapshot. What another client's loss of connection leaves behind is a state between two steps.
use pgspawn.Prelude.{ℕ, ◌≡◌, Bool, Option, String, List, ok, []}
use pgspawn.Prelude.Int.{ℤ}
use pgspawn.Job.{Uuid, Timestamp, StdDuration, Job, EnqueueOptions}
use pgspawn.Schedule.{CronJob}
use pgspawn.Table.{Db}
use pgspawn.Table.Valid.{IsValid}
use pgspawn.Queue.Manage.{
  cancel, retry, permanently_fail, complete, reschedule, complete_locked, renew_lock, fail_locked,
}
use pgspawn.Queue.Manage.Valid.{
  cancel-IsValid, retry-IsValid, permanently_fail-IsValid, complete-IsValid, reschedule-IsValid,
  complete_locked-IsValid, renew_lock-IsValid, fail_locked-IsValid,
}
use pgspawn.Queue.Insert.{insert_job}
use pgspawn.Queue.Insert.Valid.{insert_job-IsValid}
use pgspawn.Queue.Batch.{Entry, enqueue_many}
use pgspawn.Queue.Batch.Valid.{enqueue_many-IsValid}
use pgspawn.Queue.Claim.{claim_next}
use pgspawn.Queue.Claim.Valid.{claim_next-IsValid}
use pgspawn.Queue.Recover.{
  register_worker, deregister_worker, release_worker_jobs, force_unlock_worker, prune_finished,
  recover_stale, recover_dead_workers,
}
use pgspawn.Queue.Recover.Valid.{
  register_worker-IsValid, deregister_worker-IsValid, release_worker_jobs-IsValid,
  force_unlock_worker-IsValid, prune_finished-IsValid, recover_stale-IsValid,
  recover_dead_workers-IsValid,
}
use pgspawn.Queue.Cron.{CronEnqueueResult, try_enqueue_cron}
use pgspawn.Queue.Cron.Valid.{try_enqueue_cron-IsValid}

module _ {Value : Type 0} (TimeZone : Type 0) (exp : ℕ → ℕ) where
  pub data Step (db : Db Value) : Db Value → Type 0 where
    inserts :
        {db' : Db Value} {id : Uuid} (clock now : Timestamp) (fresh : Uuid) (name : String)
        (payload : Value) (options : EnqueueOptions)
        → insert_job clock now fresh name payload options db ≡ ok (id, db')
        → Step db db'
    inserts_many :
        {db' : Db Value} {ids : List Uuid} (now : Timestamp) (es : List (Entry Value))
        → enqueue_many now es db ≡ ok (ids, db')
        → Step db db'
    cancels : (now : Timestamp) (id : Uuid) → Step db (cancel now id db).1
    retries :
        {db' : Db Value} {b : Bool} (now : Timestamp) (id : Uuid)
        → retry now id db ≡ ok (b, db')
        → Step db db'
    fails :
        (now : Timestamp) (id : Uuid) (reason : String)
        → Step db (permanently_fail now id reason db).1
    completes : (now : Timestamp) (id : Uuid) → Step db (complete now id db).1
    reschedules :
        (now : Timestamp) (id : Uuid) (run_at : Timestamp) → Step db (reschedule now id run_at db).1
    claims :
        {db' : Db Value} {r : Option (Job Value)} (now : Timestamp) (locked : Uuid → Bool)
        (snapshot : Db Value) (lock_owner : String) (names : List String)
        → claim_next now locked snapshot lock_owner names db ≡ ok (r, db')
        → Step db db'
    completes_locked :
        (now : Timestamp) (id : Uuid) (lock_owner : String)
        → Step db (complete_locked now id lock_owner db).1
    renews :
        (now : Timestamp) (id : Uuid) (lock_owner : String)
        → Step db (renew_lock now id lock_owner db).1
    fails_locked :
        (now : Timestamp) (id : Uuid) (lock_owner : String) (attempt : ℕ) (max_attempts : ℤ)
        (error : String)
        → Step db (fail_locked exp now id lock_owner attempt max_attempts error db).1
    registers :
        (now : Timestamp) (worker_id : String) (task_names : List String) (metadata : Value)
        → Step db (register_worker now worker_id task_names metadata db)
    deregisters : (worker_id : String) → Step db (deregister_worker worker_id db)
    releases :
        (now : Timestamp) (worker_id : String) → Step db (release_worker_jobs now worker_id db).0
    unlocks :
        (now : Timestamp) (worker_id : String) → Step db (force_unlock_worker now worker_id db).0
    prunes :
        {db' : Db Value} {n : ℕ} (now : Timestamp) (retain_for : StdDuration)
        → prune_finished now retain_for db ≡ ok (db', n)
        → Step db db'
    recovers_stale :
        {db' : Db Value} {n : ℕ} (now : Timestamp) (stale_after : StdDuration)
        → recover_stale now stale_after db ≡ ok (db', n)
        → Step db db'
    recovers_dead :
        {db' : Db Value} {n : ℕ} (now : Timestamp) (stale_after : StdDuration)
        → recover_dead_workers now stale_after db ≡ ok (db', n)
        → Step db db'
    schedules :
        {db' : Db Value} {r : CronEnqueueResult} (now : Timestamp) (fresh : Uuid)
        (cron : CronJob Value TimeZone) (due_at next_run_at : Timestamp)
        → try_enqueue_cron now fresh cron due_at next_run_at db ≡ ok (r, db')
        → Step db db'

  pub data Reach (db : Db Value) : Db Value → Type 0 where
    here : Reach db db
    next : {db₁ db₂ : Db Value} → Reach db db₁ → Step db₁ db₂ → Reach db db₂

  -- Every statement of every client keeps the jobs table valid.
  pub Step-IsValid : {db db' : Db Value} → Step db db' → IsValid db → IsValid db'
  Step-IsValid (inserts clock now fresh name payload options e) v =
      insert_job-IsValid clock now fresh name payload options _ v e
  Step-IsValid (inserts_many now es e) v = enqueue_many-IsValid now es _ v e
  Step-IsValid (cancels now id) v = cancel-IsValid now id _ v
  Step-IsValid (retries now id e) v = retry-IsValid now id _ v e
  Step-IsValid (fails now id reason) v = permanently_fail-IsValid now id reason _ v
  Step-IsValid (completes now id) v = complete-IsValid now id _ v
  Step-IsValid (reschedules now id run_at) v = reschedule-IsValid now id run_at _ v
  Step-IsValid (claims now locked snapshot lock_owner names e) v =
      claim_next-IsValid now locked snapshot lock_owner names _ v e
  Step-IsValid (completes_locked now id lock_owner) v =
      complete_locked-IsValid now id lock_owner _ v
  Step-IsValid (renews now id lock_owner) v = renew_lock-IsValid now id lock_owner _ v
  Step-IsValid (fails_locked now id lock_owner attempt max_attempts error) v =
      fail_locked-IsValid exp now id lock_owner attempt max_attempts error _ v
  Step-IsValid (registers now worker_id task_names metadata) v =
      register_worker-IsValid now worker_id task_names metadata _ v
  Step-IsValid (deregisters worker_id) v = deregister_worker-IsValid worker_id _ v
  Step-IsValid (releases now worker_id) v = release_worker_jobs-IsValid now worker_id _ v
  Step-IsValid (unlocks now worker_id) v = force_unlock_worker-IsValid now worker_id _ v
  Step-IsValid (prunes now retain_for e) v = prune_finished-IsValid now retain_for _ v e
  Step-IsValid (recovers_stale now stale_after e) v = recover_stale-IsValid now stale_after _ v e
  Step-IsValid (recovers_dead now stale_after e) v =
      recover_dead_workers-IsValid now stale_after _ v e
  Step-IsValid (schedules now fresh cron due_at next_run_at e) v =
      try_enqueue_cron-IsValid now fresh cron due_at next_run_at _ v e

  -- From the tables as the migration leaves them, or any valid ones, every sequence of statements of
  -- all clients leads to a valid jobs table: ids are distinct, no two queued or running jobs share a
  -- job key, no two running jobs share a queue name, the running jobs and no others are locked, and
  -- the finished ones and no others have an end.
  pub Reach-IsValid : {db db' : Db Value} → IsValid db → Reach db db' → IsValid db'
  Reach-IsValid v here = v
  Reach-IsValid v (next r s) = Step-IsValid s (Reach-IsValid v r)

abbrev pub empty_db : (Value : Type 0) → Db Value
empty_db Value = record { jobs = []; workers = []; crons = [] }

pub empty_db-IsValid : (Value : Type 0) → IsValid (empty_db Value)
empty_db-IsValid Value = record { rows = tt; pairs = tt }
