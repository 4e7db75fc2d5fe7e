-- ===== src/Queue/Manage/Valid.antt =====
-- src/queue.rs: the statements on one job keep the jobs table valid.
use pgspawn.Prelude.{
  ℕ, ◌==◌, ◌&&◌, refl, subst, Bool-cases, ◌≡◌, String, arith, ok, Bool, Result-cases, inl, inr,
}
use pgspawn.Prelude.Int.{ℤ, pos, leb_ℤ}
use pgspawn.Job.{Uuid, Timestamp, Job}
use pgspawn.Table.{Db, update_checked}
use pgspawn.Table.Valid.{IsValid}
use pgspawn.Table.Update.{update_jobs-IsValid}
use pgspawn.Table.Checked.{update_checked-IsValid}
use pgspawn.Queue.Manage.{
  cancel, retry, permanently_fail, complete, reschedule, complete_locked, renew_lock, fail_locked,
  reset, is_retryable, holds, give_up, try_again,
}

module _ {Value : Type 0} where
  pub cancel-IsValid :
      (now : Timestamp) (id : Uuid) (db : Db Value) → IsValid db → IsValid (cancel now id db).1
  unfolding cancel
  cancel-IsValid now id db =
      update_jobs-IsValid now _ _ db (λ r h e. ground arith) (λ r h e. ground arith)

  pub permanently_fail-IsValid :
      (now : Timestamp) (id : Uuid) (reason : String) (db : Db Value)
      → IsValid db
      → IsValid (permanently_fail now id reason db).1
  unfolding permanently_fail
  permanently_fail-IsValid now id reason db =
      update_jobs-IsValid now _ _ db (λ r h e. ground arith) (λ r h e. ground arith)

  pub complete-IsValid :
      (now : Timestamp) (id : Uuid) (db : Db Value) → IsValid db → IsValid (complete now id db).1
  unfolding complete
  complete-IsValid now id db =
      update_jobs-IsValid now _ _ db (λ r h e. ground arith) (λ r h e. ground arith)

  pub reschedule-IsValid :
      (now : Timestamp) (id : Uuid) (run_at : Timestamp) (db : Db Value)
      → IsValid db
      → IsValid (reschedule now id run_at db).1
  unfolding reschedule
  reschedule-IsValid now id run_at db =
      update_jobs-IsValid now _ _ db (λ r h e. ground arith) (λ r h e. ground arith)

  pub complete_locked-IsValid :
      (now : Timestamp) (id : Uuid) (lock_owner : String) (db : Db Value)
      → IsValid db
      → IsValid (complete_locked now id lock_owner db).1
  unfolding complete_locked
  complete_locked-IsValid now id lock_owner db =
      update_jobs-IsValid now _ _ db (λ r h e. ground arith) (λ r h e. ground arith)

  pub renew_lock-IsValid :
      (now : Timestamp) (id : Uuid) (lock_owner : String) (db : Db Value)
      → IsValid db
      → IsValid (renew_lock now id lock_owner db).1
  unfolding renew_lock
  renew_lock-IsValid now id lock_owner db =
      update_jobs-IsValid now _ _ db (λ r h e. ground arith) (λ r h e. ground arith)

  pub fail_locked-IsValid :
      (exp : ℕ → ℕ) (now : Timestamp) (id : Uuid) (lock_owner : String) (attempt : ℕ)
      (max_attempts : ℤ) (error : String) (db : Db Value)
      → IsValid db
      → IsValid (fail_locked exp now id lock_owner attempt max_attempts error db).1
  unfolding fail_locked
  fail_locked-IsValid exp now id lock_owner attempt max_attempts error db v =
      elim (Bool-cases (leb_ℤ max_attempts (pos attempt))) [
        | inl last ↦
            rw (last, fail_locked)
              (update_jobs-IsValid now (holds id lock_owner) (give_up now error) db
                (λ r h e. ground arith) (λ r h e. ground arith) v)
        | inr more ↦
            rw (more, fail_locked)
              (update_jobs-IsValid now (holds id lock_owner) (try_again exp now error) db
                (λ r h e. ground arith) (λ r h e. ground arith) v)
      ]

  -- `retry`, where the index on job keys accepts it.
  pub retry-IsValid :
      (now : Timestamp) (id : Uuid) (db : Db Value)
      → IsValid db
      → {b : Bool} {db' : Db Value} → retry now id db ≡ ok (b, db')
      → IsValid db'
  unfolding retry
  retry-IsValid now id db v e = elim (Result-cases (update_checked now may_retry (reset now) db)) [
    | inl ((db₁, n), p) ↦ subst IsValid {x = db₁} (ground (arith, p)) (
        update_checked-IsValid now may_retry (reset now) id db (λ r q. ground arith) (λ r. refl)
          (λ r h q. ground arith) v p)
    | inr (x, p) ↦ absurd (ground (arith, p))
  ]
    where
      may_retry : Job Value → Bool
      may_retry j = j.id == id && is_retryable j.status
