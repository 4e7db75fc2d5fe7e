-- ===== src/Queue/Manage/Operator.antt =====
-- src/queue.rs: cancel, complete, permanently_fail and reschedule by id and status, retry under the index
-- on job keys, and what an operator's completion leaves for the worker that still runs the job.
use pgspawn.Prelude.{◌&&◌, ◌≡◌, refl, inl, inr, String, Bool, true, false, is_some, arith, ℕ}
use pgspawn.Prelude.Int.{ℤ}
use pgspawn.Job.{Uuid, Timestamp, Job}
use pgspawn.Table.{Db, is_queued, is_active, is_running}
use pgspawn.Table.Valid.{IsValid}
use pgspawn.Table.Lookup.{find_id}
use pgspawn.Queue.Manage.{
  cancel, complete, permanently_fail, reschedule, call_off, finish, give_up, move_to, relock,
  complete_locked, renew_lock, fail_locked,
}
use pgspawn.Queue.Manage.Valid.{complete-IsValid, permanently_fail-IsValid}
use pgspawn.Queue.Manage.One.{UpdatesOne, passes, update_jobs-UpdatesOne}
use pgspawn.Queue.Manage.Locked.{
  complete_locked-UpdatesOne, renew_lock-UpdatesOne, fail_locked-UpdatesOne, owned_by,
  after_failure,
}

module _ {Value : Type 0} where
  -- On a valid table, cancel ends a queued job and returns true; for a running, finished or missing job
  -- it returns false and changes nothing.
  pub cancel-UpdatesOne :
      (now : Timestamp) (id : Uuid) (db : Db Value)
      → IsValid db
      → UpdatesOne now id (λ j. is_queued j.status) (call_off now) db (cancel now id db)
  unfolding cancel
  cancel-UpdatesOne now id db v =
      update_jobs-UpdatesOne now id (λ j. is_queued j.status) (call_off now) (λ r. refl) db v

  pub complete-UpdatesOne :
      (now : Timestamp) (id : Uuid) (db : Db Value)
      → IsValid db
      → UpdatesOne now id (λ j. is_active j.status) (finish now) db (complete now id db)
  unfolding complete
  complete-UpdatesOne now id db v =
      update_jobs-UpdatesOne now id (λ j. is_active j.status) (finish now) (λ r. refl) db v

  pub permanently_fail-UpdatesOne :
      (now : Timestamp) (id : Uuid) (reason : String) (db : Db Value)
      → IsValid db
      → UpdatesOne now id
          (λ j. is_active j.status)
          (give_up now reason)
          db
          (permanently_fail now id reason db)
  unfolding permanently_fail
  permanently_fail-UpdatesOne now id reason db v =
      update_jobs-UpdatesOne now id (λ j. is_active j.status) (give_up now reason) (λ r. refl) db v

  -- On a valid table, reschedule moves a queued job to the new time and returns true; a running,
  -- finished or missing job is left as it was, with the result false.
  pub reschedule-UpdatesOne :
      (now : Timestamp) (id : Uuid) (run_at : Timestamp) (db : Db Value)
      → IsValid db
      → UpdatesOne now id
          (λ j. is_queued j.status)
          (move_to run_at)
          db
          (reschedule now id run_at db)
  unfolding reschedule
  reschedule-UpdatesOne now id run_at db v =
      update_jobs-UpdatesOne now id (λ j. is_queued j.status) (move_to run_at) (λ r. refl) db v

  -- The statements of a lock's owner have no effect, at any time and for any owner.
  abbrev pub Discards : (ℕ → ℕ) → Uuid → Db Value → Type 0
  Discards exp id db =
      (now : Timestamp) (lock_owner : String) (attempt : ℕ) (max_attempts : ℤ) (error : String)
      → (complete_locked now id lock_owner db ≡ (false, db))
        × (renew_lock now id lock_owner db ≡ (false, db))
        × (fail_locked exp now id lock_owner attempt max_attempts error db ≡ (false, db))

  abbrev is_locked : Job Value → Bool
  is_locked j = is_some j.locked_by

  refused :
      (now : Timestamp) (id : Uuid) (q : Job Value → Bool) (f : Job Value → Job Value)
      (db : Db Value) (r : Bool × Db Value)
      → ((j : Job Value) → is_locked j ≡ false → q j ≡ false)
      → passes is_locked (find_id id db) ≡ false
      → UpdatesOne now id q f db r
      → r ≡ (false, db)
  refused now id q f db r needs free (inl (e, _)) = e
  refused now id q f db r needs free (inr (j, found, passes, _, _)) =
      absurd (ground (arith, needs j, found))

  unlocked-Discards :
      (exp : ℕ → ℕ) (id : Uuid) (db : Db Value)
      → IsValid db
      → passes is_locked (find_id id db) ≡ false
      → Discards exp id db
  unlocked-Discards exp id db v free now lock_owner attempt max_attempts error = (
    refused now id (owned_by lock_owner) (finish now) db _ (λ j u. ground arith) free
        (complete_locked-UpdatesOne now id lock_owner db v),
    refused now id (λ j. owned_by lock_owner j && is_running j.status) (relock now) db _
        (λ j u. ground arith) free (renew_lock-UpdatesOne now id lock_owner db v),
    refused now id (owned_by lock_owner) (after_failure exp now attempt max_attempts error) db _
        (λ j u. ground arith) free
        (fail_locked-UpdatesOne exp now id lock_owner attempt max_attempts error db v),
  )

  retired :
      (now : Timestamp) (id : Uuid) (f : Job Value → Job Value) (db : Db Value)
      (r : Bool × Db Value)
      → ((j : Job Value) → is_locked (f j) ≡ false)
      → r.0 ≡ true
      → UpdatesOne now id (λ j. is_active j.status) f db r
      → passes is_locked (find_id id r.1) ≡ false
  retired now id f db r frees done (inl (e, _)) = absurd (ground (arith, e, done))
  retired now id f db r frees done (inr (j, _, _, _, after)) =
      rw (after id) (ground (arith, frees j))

  -- When an operator has completed a job, no owner of its lock can complete it, renew the lock or record
  -- a failure any more: a handler that still runs has its result discarded, and the job is not tried
  -- again.
  pub complete-Discards :
      (exp : ℕ → ℕ) (now : Timestamp) (id : Uuid) (db : Db Value)
      → IsValid db
      → (complete now id db).0 ≡ true
      → Discards exp id (complete now id db).1
  complete-Discards exp now id db v done =
      unlocked-Discards exp id _ (complete-IsValid now id db v)
        (retired now id (finish now) db _ (λ j. refl) done (complete-UpdatesOne now id db v))

  -- The same when an operator has failed the job for good.
  pub permanently_fail-Discards :
      (exp : ℕ → ℕ) (now : Timestamp) (id : Uuid) (reason : String) (db : Db Value)
      → IsValid db
      → (permanently_fail now id reason db).0 ≡ true
      → Discards exp id (permanently_fail now id reason db).1
  permanently_fail-Discards exp now id reason db v done =
      unlocked-Discards exp id _ (permanently_fail-IsValid now id reason db v) (
        retired now id (give_up now reason) db _ (λ j. refl) done
          (permanently_fail-UpdatesOne now id reason db v))
