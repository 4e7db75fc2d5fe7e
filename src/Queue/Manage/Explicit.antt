-- ===== src/Queue/Manage/Explicit.antt =====
-- src/queue.rs: cancel, complete_locked and fail_locked column by column.
use pgspawn.Prelude.{
  ℕ, ◌≡◌, ◌⊎◌, inl, inr, refl, true, false, none, some, String, arith, min, Bool-cases,
  Option-cases, All-find_by, eq_iff, eq_refl,
}
use pgspawn.Prelude.Int.{ℤ, pos, ◌+ℤ◌, ◌≤ℤ◌, ◌<ℤ◌, leb_ℤ, leb_ℤ→le}
use pgspawn.Job.{Uuid, Timestamp, Job}
use pgspawn.Job.Status.{JobStatus, queued, succeeded, failed, cancelled}
use pgspawn.Table.{Db, touch, is_queued, is_running}
use pgspawn.Table.Valid.{IsValid, RowOk}
use pgspawn.Table.Lookup.{by_id}
use pgspawn.Queue.Manage.{
  cancel, complete_locked, fail_locked, call_off, finish, give_up, try_again,
}
use pgspawn.Queue.Manage.Locked.{
  owned_by, after_failure, complete_locked-UpdatesOne, fail_locked-UpdatesOne,
}
use pgspawn.Queue.Manage.Operator.{cancel-UpdatesOne}
use pgspawn.Queue.Manage.Acts.{IsSameJob, IsEnded, IsPutBack, Acts, UpdatesOne-Acts}

module _ {Value : Type 0} where
  -- The owner holds the job's lock.
  abbrev pub IsHeldBy : String → Job Value → Type 0
  IsHeldBy lock_owner j = j.locked_by ≡ some lock_owner

  held :
      (lock_owner : String) (j : Job Value) → owned_by lock_owner j ≡ true → IsHeldBy lock_owner j
  held lock_owner j h = elim (Option-cases j.locked_by) [
    | inl n ↦ absurd (ground (arith, n, h))
    | inr (o, n) ↦ ground (arith, n, h, eq_iff o lock_owner)
  ]

  not_held :
      (lock_owner : String) (j : Job Value)
      → owned_by lock_owner j ≡ false
      → ¬ IsHeldBy lock_owner j
  not_held lock_owner j h e = ground (arith, h, e, eq_refl lock_owner)

  all_same : (j : Job Value) → IsSameJob j j
  all_same j = (refl, refl, refl, refl, refl, refl, refl, refl, refl, refl, refl)

  finish-IsEnded :
      (now : Timestamp) (j : Job Value) → IsEnded now succeeded none j (touch now (finish now j))
  finish-IsEnded now j = record {
    same_job = all_same j;
    status_is = refl;
    error_is = refl;
    unlocked = (refl, refl);
    finished = refl;
    run_at = refl;
    stamped = refl;
  }

  give_up-IsEnded :
      (now : Timestamp) (error : String) (j : Job Value)
      → IsEnded now failed (some error) j (touch now (give_up now error j))
  give_up-IsEnded now error j = record {
    same_job = all_same j;
    status_is = refl;
    error_is = refl;
    unlocked = (refl, refl);
    finished = refl;
    run_at = refl;
    stamped = refl;
  }

  try_again-IsPutBack :
      (exp : ℕ → ℕ) (now : Timestamp) (error : String) (j : Job Value)
      → IsPutBack now
          (now +ℤ pos (exp (min j.attempt 10)))
          error
          j
          (touch now (try_again exp now error j))
  try_again-IsPutBack exp now error j = record {
    same_job = all_same j;
    status_is = refl;
    error_is = refl;
    unlocked = (refl, refl);
    finished = refl;
    run_at_is = refl;
    stamped = refl;
  }

  call_off-IsEnded :
      (now : Timestamp) (j : Job Value)
      → j.locked_by ≡ none
      → j.locked_at ≡ none
      → IsEnded now cancelled none j (touch now (call_off now j))
  call_off-IsEnded now j free since = record {
    same_job = all_same j;
    status_is = refl;
    error_is = refl;
    unlocked = (free, since);
    finished = refl;
    run_at = refl;
    stamped = refl;
  }

  -- On a valid table, complete_locked finishes the job if the owner holds its lock, and returns true: the job
  -- has succeeded, at that time, has no error and no lock, and is otherwise as it was. Without the lock it
  -- returns false and changes nothing; no other job changes.
  pub complete_locked-Acts :
      (now : Timestamp) (id : Uuid) (lock_owner : String) (db : Db Value)
      → IsValid db
      → Acts
          (IsHeldBy lock_owner)
          (IsEnded now succeeded none)
          id
          db
          (complete_locked now id lock_owner db)
  complete_locked-Acts now id lock_owner db v =
      UpdatesOne-Acts now id (owned_by lock_owner) (finish now) db _ (IsHeldBy lock_owner)
        (IsEnded now succeeded none) (held lock_owner) (not_held lock_owner)
        (λ j e h. finish-IsEnded now j) (complete_locked-UpdatesOne now id lock_owner db v)

  -- What a failure makes of the job: at the last attempt it has failed; otherwise it waits for the next one
  -- for exp(least(attempt, 10)) seconds, by the attempt in its row.
  abbrev pub IsFailed :
      (exp : ℕ → ℕ) (now : Timestamp) (attempt : ℕ) (max_attempts : ℤ) (error : String)
      (j j' : Job Value)
      → Type 0
  IsFailed exp now attempt max_attempts error j j' =
      ((max_attempts ≤ℤ pos attempt) × IsEnded now failed (some error) j j')
      ⊎ ((pos attempt <ℤ max_attempts)
          × IsPutBack now (now +ℤ pos (exp (min j.attempt 10))) error j j')

  after_failure-IsFailed :
      (exp : ℕ → ℕ) (now : Timestamp) (attempt : ℕ) (max_attempts : ℤ) (error : String)
      (j : Job Value)
      → IsFailed exp now attempt max_attempts error j
          (touch now (after_failure exp now attempt max_attempts error j))
  after_failure-IsFailed exp now attempt max_attempts error j =
      elim (Bool-cases (leb_ℤ max_attempts (pos attempt))) [
        | inl t ↦ rw t (inl (leb_ℤ→le max_attempts (pos attempt) t, give_up-IsEnded now error j))
        | inr t ↦ rw t (inr (ground (arith, t), try_again-IsPutBack exp now error j))
      ]

  -- On a valid table, fail_locked acts if the owner holds the job's lock, and returns true. At the last
  -- attempt that it is told of the job has failed, at that time; otherwise it is queued again after
  -- exp(least(attempt, 10)) seconds, by the attempt in its row. It has the error and no lock, and is otherwise
  -- as it was. Without the lock it returns false and changes nothing; no other job changes.
  pub fail_locked-Acts :
      (exp : ℕ → ℕ) (now : Timestamp) (id : Uuid) (lock_owner : String) (attempt : ℕ)
      (max_attempts : ℤ) (error : String) (db : Db Value)
      → IsValid db
      → Acts
          (IsHeldBy lock_owner)
          (IsFailed exp now attempt max_attempts error)
          id
          db
          (fail_locked exp now id lock_owner attempt max_attempts error db)
  fail_locked-Acts exp now id lock_owner attempt max_attempts error db v =
      UpdatesOne-Acts now id (owned_by lock_owner)
        (after_failure exp now attempt max_attempts error) db _ (IsHeldBy lock_owner)
        (IsFailed exp now attempt max_attempts error) (held lock_owner) (not_held lock_owner)
        (λ j e h. after_failure-IsFailed exp now attempt max_attempts error j)
        (fail_locked-UpdatesOne exp now id lock_owner attempt max_attempts error db v)

  -- On a valid table, cancel acts if the job is queued, and returns true: the job is cancelled, at that time,
  -- has no error and no lock, and is otherwise as it was. If it is running or finished, or there is none, the
  -- result is false and nothing changes; no other job changes.
  pub cancel-Acts :
      (now : Timestamp) (id : Uuid) (db : Db Value)
      → IsValid db
      → Acts (λ j. j.status ≡ queued) (IsEnded now cancelled none) id db (cancel now id db)
  cancel-Acts now id db v =
      UpdatesOne-Acts now id (λ j. is_queued j.status) (call_off now) db _ (λ j. j.status ≡ queued)
        (IsEnded now cancelled none) (λ j h. queued_status j.status h)
        (λ j h e. ground (arith, h, e))
        (λ j e h.
          let free = All-find_by RowOk (by_id id) db.jobs {a = j} v.rows e in
          let idle : is_running j.status ≡ false = ground (arith, h) in
          call_off-IsEnded now j (free.idle_unlocked idle).0 (free.idle_unlocked idle).1)
        (cancel-UpdatesOne now id db v)
    where
      queued_status : (s : JobStatus) → is_queued s ≡ true → s ≡ queued
      queued_status JobStatus.queued h = refl
      queued_status JobStatus.running h = absurd (ground arith)
      queued_status JobStatus.succeeded h = absurd (ground arith)
      queued_status JobStatus.failed h = absurd (ground arith)
      queued_status JobStatus.cancelled h = absurd (ground arith)
