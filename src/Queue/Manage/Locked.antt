-- ===== src/Queue/Manage/Locked.antt =====
-- src/queue.rs: complete_locked, renew_lock and fail_locked act for the holder of the job's lock alone.
use pgspawn.Prelude.{ℕ, ◌&&◌, refl, String, Bool, Bool-cases, inl, inr, is_text, if◌then◌else◌}
use pgspawn.Prelude.Int.{ℤ, pos, leb_ℤ}
use pgspawn.Job.{Uuid, Timestamp, Job}
use pgspawn.Table.{Db, is_running}
use pgspawn.Table.Valid.{IsValid}
use pgspawn.Queue.Manage.{
  complete_locked, renew_lock, fail_locked, give_up, try_again, finish, relock,
}
use pgspawn.Queue.Manage.One.{UpdatesOne, update_jobs-UpdatesOne}

module _ {Value : Type 0} where
  abbrev pub owned_by : String → Job Value → Bool
  owned_by lock_owner j = is_text j.locked_by lock_owner

  -- On a valid table, complete_locked finishes the job and returns true if the owner holds its lock, and
  -- otherwise returns false and changes nothing; no other job changes.
  pub complete_locked-UpdatesOne :
      (now : Timestamp) (id : Uuid) (lock_owner : String) (db : Db Value)
      → IsValid db
      → UpdatesOne now id
          (owned_by lock_owner)
          (finish now)
          db
          (complete_locked now id lock_owner db)
  unfolding complete_locked
  complete_locked-UpdatesOne now id lock_owner db v =
      update_jobs-UpdatesOne now id (owned_by lock_owner) (finish now) (λ r. refl) db v

  pub renew_lock-UpdatesOne :
      (now : Timestamp) (id : Uuid) (lock_owner : String) (db : Db Value)
      → IsValid db
      → UpdatesOne now id
          (λ j. owned_by lock_owner j && is_running j.status)
          (relock now)
          db
          (renew_lock now id lock_owner db)
  unfolding renew_lock
  renew_lock-UpdatesOne now id lock_owner db v =
      update_jobs-UpdatesOne now id (λ j. owned_by lock_owner j && is_running j.status) (relock now)
        (λ r. refl) db v

  -- What a failed attempt makes of the job: failed for good at the last attempt, otherwise queued again
  -- after exp(least(attempt, 10)) seconds, where `attempt` is the column of the row.
  abbrev pub after_failure :
      (ℕ → ℕ) → Timestamp → (attempt : ℕ) (max_attempts : ℤ) → String → Job Value → Job Value
  after_failure exp now attempt max_attempts error j =
      if leb_ℤ max_attempts (pos attempt) then give_up now error j else try_again exp now error j

  -- On a valid table, fail_locked does that to the job if the owner holds its lock, and otherwise
  -- returns false and changes nothing; no other job changes.
  pub fail_locked-UpdatesOne :
      (exp : ℕ → ℕ) (now : Timestamp) (id : Uuid) (lock_owner : String) (attempt : ℕ)
      (max_attempts : ℤ) (error : String) (db : Db Value)
      → IsValid db
      → UpdatesOne now id
          (owned_by lock_owner)
          (after_failure exp now attempt max_attempts error)
          db
          (fail_locked exp now id lock_owner attempt max_attempts error db)
  unfolding fail_locked
  fail_locked-UpdatesOne exp now id lock_owner attempt max_attempts error db v =
      elim (Bool-cases (leb_ℤ max_attempts (pos attempt))) [
        | inl last ↦
            rw (last, fail_locked)
              (update_jobs-UpdatesOne now id (owned_by lock_owner) (give_up now error) (λ r. refl)
                db v)
        | inr more ↦
            rw (more, fail_locked)
              (update_jobs-UpdatesOne now id (owned_by lock_owner) (try_again exp now error)
                (λ r. refl) db v)
      ]
