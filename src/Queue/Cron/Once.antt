-- ===== src/Queue/Cron/Once.antt =====
-- src/queue.rs: a second attempt for an occurrence, whatever other clients do between the two.
use pgspawn.Prelude.{
  ℕ, ◌≡◌, refl, sym, subst, ◌∙◌, true, String, arith, ok, Result-cases, inl, inr, List, Bool,
  Option, or_else,
}
use pgspawn.Prelude.Int.{◌≤ℤ◌}
use pgspawn.Job.{Timestamp, StdDuration, Uuid, Job, EnqueueOptions}
use pgspawn.Schedule.{CronJob}
use pgspawn.Table.{Db, CronRow, update_jobs, update_checked}
use pgspawn.Queue.Manage.{
  cancel, retry, permanently_fail, complete, reschedule, complete_locked, renew_lock, fail_locked,
}
use pgspawn.Queue.Insert.{insert_job, upsert, proposed}
use pgspawn.Queue.Batch.{Entry, batch_row, enqueue_many}
use pgspawn.Queue.Batch.Keeps.{enqueue_many-keeps}
use pgspawn.Queue.Claim.{claim_next, claim_row}
use pgspawn.Queue.Recover.{
  register_worker, deregister_worker, release_worker_jobs, force_unlock_worker, prune_finished,
  recover_stale, recover_dead_workers,
}
use pgspawn.Queue.Cron.{CronEnqueueResult, skipped, try_enqueue_cron}
use pgspawn.Queue.Cron.Record.{
  is_recorded, is_recorded_mono, upsert-crons, try_enqueue_cron-crons, recorded_skipped,
  claim_cron-keeps, claim_cron-records,
}
use pgspawn.Queue.Steps.{
  Step, Reach, here, next, inserts, inserts_many, cancels, retries, fails, completes, reschedules,
  claims, completes_locked, renews, fails_locked, registers, deregisters, releases, unlocks, prunes,
  recovers_stale, recovers_dead, schedules,
}

module _ {Value : Type 0} where
  update_checked-crons :
      (now : Timestamp) (p : Job Value → Bool) (f : Job Value → Job Value) (db : Db Value)
      {u : Db Value × ℕ}
      → update_checked now p f db ≡ ok u
      → u.0.crons ≡ db.crons
  unfolding update_checked update_jobs
  update_checked-crons now p f db e = ground arith

  insert_job-crons :
      (clock now : Timestamp) (fresh : Uuid) (name : String) (payload : Value)
      (options : EnqueueOptions) (db : Db Value) {id : Uuid} {db' : Db Value}
      → insert_job clock now fresh name payload options db ≡ ok (id, db')
      → db'.crons ≡ db.crons
  unfolding insert_job
  insert_job-crons clock now fresh name payload options db {db' = db'} e =
      elim (Result-cases (upsert now options.job_key_mode row db)) [
        | inl ((i, d), p) ↦
            subst (λ (x : Db Value). x.crons ≡ db.crons) {x = d} {y = db'} (ground (arith, p))
              (upsert-crons now options.job_key_mode row db {r = i} {db' = d} p)
        | inr (x, p) ↦ absurd (ground (arith, p))
      ]
    where
      row : Job Value
      row = proposed now fresh name payload options (or_else options.run_at clock)

  retry-crons :
      (now : Timestamp) (id : Uuid) (db : Db Value) {b : Bool} {db' : Db Value}
      → retry now id db ≡ ok (b, db')
      → db'.crons ≡ db.crons
  unfolding retry update_checked update_jobs
  retry-crons now id db e = ground arith

  claim_next-crons :
      (now : Timestamp) (locked : Uuid → Bool) (snapshot : Db Value) (lock_owner : String)
      (names : List String) (db : Db Value) {r : Option (Job Value)} {db' : Db Value}
      → claim_next now locked snapshot lock_owner names db ≡ ok (r, db')
      → db'.crons ≡ db.crons
  unfolding claim_next claim_row update_checked update_jobs
  claim_next-crons now locked snapshot lock_owner names db e = ground arith

  prune-crons :
      (now : Timestamp) (d : StdDuration) (db : Db Value) {db' : Db Value} {n : ℕ}
      → prune_finished now d db ≡ ok (db', n)
      → db'.crons ≡ db.crons
  unfolding prune_finished
  prune-crons now d db e = ground arith

  stale-crons :
      (now : Timestamp) (d : StdDuration) (db : Db Value) {db' : Db Value} {n : ℕ}
      → recover_stale now d db ≡ ok (db', n)
      → db'.crons ≡ db.crons
  unfolding recover_stale update_jobs
  stale-crons now d db e = ground arith

  dead-crons :
      (now : Timestamp) (d : StdDuration) (db : Db Value) {db' : Db Value} {n : ℕ}
      → recover_dead_workers now d db ≡ ok (db', n)
      → db'.crons ≡ db.crons
  unfolding recover_dead_workers update_jobs
  dead-crons now d db e = ground arith

  many-crons :
      (now : Timestamp) (es : List (Entry Value)) (db : Db Value) {ids : List Uuid} {db' : Db Value}
      → enqueue_many now es db ≡ ok (ids, db')
      → db'.crons ≡ db.crons
  many-crons now es db {ids} {db'} e =
      enqueue_many-keeps (λ d. d.crons ≡ db.crons)
        (λ now mode x d h r d' p. upsert-crons now mode (batch_row now x) d p ∙ h) now es db refl e

  kept :
      (identifier : String) (due_at : Timestamp) {cs cs' : List (CronRow Value)}
      → cs' ≡ cs
      → is_recorded identifier due_at cs ≡ true
      → is_recorded identifier due_at cs' ≡ true
  kept identifier due_at p h = subst (λ c. is_recorded identifier due_at c ≡ true) (sym p) h

module _ {Value TimeZone : Type 0} (exp : ℕ → ℕ) (identifier : String) (due_at : Timestamp) where
  Step-recorded :
      {db db' : Db Value}
      → Step TimeZone exp db db'
      → is_recorded identifier due_at db.crons ≡ true
      → is_recorded identifier due_at db'.crons ≡ true
  unfolding cancel permanently_fail complete reschedule complete_locked renew_lock fail_locked
      update_jobs register_worker deregister_worker release_worker_jobs force_unlock_worker
  Step-recorded (inserts clock now fresh name payload options e) h =
      kept identifier due_at (insert_job-crons clock now fresh name payload options _ e) h
  Step-recorded (inserts_many now es e) h = kept identifier due_at (many-crons now es _ e) h
  Step-recorded (cancels now id) h = h
  Step-recorded (retries now id e) h = kept identifier due_at (retry-crons now id _ e) h
  Step-recorded (fails now id reason) h = h
  Step-recorded (completes now id) h = h
  Step-recorded (reschedules now id run_at) h = h
  Step-recorded (claims now locked snapshot lock_owner names e) h =
      kept identifier due_at (claim_next-crons now locked snapshot lock_owner names _ e) h
  Step-recorded (completes_locked now id lock_owner) h = h
  Step-recorded (renews now id lock_owner) h = h
  Step-recorded (fails_locked now id lock_owner attempt max_attempts error) h = ground (arith, h)
  Step-recorded (registers now worker_id task_names metadata) h = h
  Step-recorded (deregisters worker_id) h = h
  Step-recorded (releases now worker_id) h = h
  Step-recorded (unlocks now worker_id) h = h
  Step-recorded (prunes now retain_for e) h =
      kept identifier due_at (prune-crons now retain_for _ e) h
  Step-recorded (recovers_stale now stale_after e) h =
      kept identifier due_at (stale-crons now stale_after _ e) h
  Step-recorded (recovers_dead now stale_after e) h =
      kept identifier due_at (dead-crons now stale_after _ e) h
  Step-recorded {db = db} (schedules now fresh cron due next_run_at e) h =
      kept identifier due_at (try_enqueue_cron-crons now cron due next_run_at fresh db e)
        (claim_cron-keeps now cron due next_run_at identifier due_at db.crons h)

  Reach-recorded :
      {db db' : Db Value}
      → Reach TimeZone exp db db'
      → is_recorded identifier due_at db.crons ≡ true
      → is_recorded identifier due_at db'.crons ≡ true
  Reach-recorded here h = h
  Reach-recorded (next r s) h = Step-recorded s (Reach-recorded r h)

module _ {Value TimeZone : Type 0} (exp : ℕ → ℕ) where
  -- An occurrence is enqueued at most once. After a successful attempt for it, whatever that attempt
  -- did, and after any statements of any clients, an attempt under the same identifier for the same or
  -- an earlier time is skipped and changes nothing.
  pub try_enqueue_cron-once :
      (now now' : Timestamp) (fresh fresh' : Uuid) (cron cron' : CronJob Value TimeZone)
      (due_at due_at' next_run_at next_run_at' : Timestamp) (db : Db Value) {r : CronEnqueueResult}
      {db₁ db₂ : Db Value}
      → cron'.identifier ≡ cron.identifier
      → due_at' ≤ℤ due_at
      → try_enqueue_cron now fresh cron due_at next_run_at db ≡ ok (r, db₁)
      → Reach TimeZone exp db₁ db₂
      → try_enqueue_cron now' fresh' cron' due_at' next_run_at' db₂ ≡ ok (skipped, db₂)
  try_enqueue_cron-once now now' fresh fresh' cron cron' due_at due_at' next_run_at next_run_at' db
        {db₁ = db₁} {db₂ = db₂} same earlier e reach =
      recorded_skipped now' cron' due_at' next_run_at' fresh' db₂ (
        is_recorded_mono cron'.identifier due_at due_at' db₂.crons earlier (
          Reach-recorded exp cron'.identifier due_at reach (
            subst (λ i. is_recorded i due_at db₁.crons ≡ true) (sym same)
              (subst (λ cs. is_recorded cron.identifier due_at cs ≡ true)
                (sym (try_enqueue_cron-crons now cron due_at next_run_at fresh db e))
                (claim_cron-records now cron due_at next_run_at db.crons)))))
