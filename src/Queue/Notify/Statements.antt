-- ===== src/Queue/Notify/Statements.antt =====
-- src/queue.rs: the statements that notify nobody are calm, those that need more than their SET.
use pgspawn.Prelude.{
  ℕ, ◌==◌, ◌≡◌, refl, sym, subst, inl, inr, Bool, true, false, not, ◌&&◌, Option, String, arith,
  List, filter_by, Bool-cases, Result-cases, ok, or_else,
}
use pgspawn.Prelude.Int.{ℤ, pos, leb_ℤ}
use pgspawn.Job.{Uuid, Timestamp, StdDuration, Job, EnqueueOptions}
use pgspawn.Table.{Db, WorkerRow, touch, update_jobs, update_checked}
use pgspawn.Table.Valid.{IsValid}
use pgspawn.Queue.Manage.{
  retry, fail_locked, reset, give_up, relock, try_again, holds, is_retryable,
}
use pgspawn.Queue.Insert.{insert_job, upsert, proposed}
use pgspawn.Queue.Claim.{claim_next, start}
use pgspawn.Queue.Claim.Effect.{claim_next-Claims, update_checked-ok}
use pgspawn.Queue.Recover.{
  prune_finished, recover_stale, recover_dead_workers, requeue, cutoff, duration_millis_i64,
  is_stuck, is_stale, locked_by_any,
}
use pgspawn.Queue.Recover.Free.{prune_finished-deletes}
use pgspawn.Queue.Notify.{
  update_notifies, upsert_notifies, fail_notifies, stale_notifies, dead_notifies,
}
use pgspawn.Queue.Notify.Calm.{RowCalm, IsCalm, IsCalm-refl, IsCalm-rows, RowCalm-refl}
use pgspawn.Queue.Notify.Rows.{ending-IsCalm, queueing-IsCalm}
use pgspawn.Queue.Notify.Inserts.{upsert-IsCalm}

module _ {Value : Type 0} where
  pub insert_job-IsCalm :
      (clock now : Timestamp) (fresh : Uuid) (name : String) (payload : Value)
      (options : EnqueueOptions) (db : Db Value)
      → IsValid db
      → {id : Uuid} {db' : Db Value}
      → insert_job clock now fresh name payload options db ≡ ok (id, db')
      → upsert_notifies options.job_key_mode
          (proposed now fresh name payload options (or_else options.run_at clock))
          db
        ≡ false
      → IsCalm db db'
  unfolding insert_job
  insert_job-IsCalm clock now fresh name payload options db v {id} {db'} e q =
      elim (Result-cases (upsert now options.job_key_mode row db)) [
        | inl ((r, d), p) ↦
            subst (IsCalm db) {x = d} {y = db'} (ground (arith, p))
              (upsert-IsCalm now options.job_key_mode row db refl v r d p q)
        | inr (x, p) ↦ absurd (ground (arith, p))
      ]
    where
      row : Job Value
      row = proposed now fresh name payload options (or_else options.run_at clock)

  pub retry-IsCalm :
      (now : Timestamp) (id : Uuid) (db : Db Value) {b : Bool} {db' : Db Value}
      → IsValid db
      → retry now id db ≡ ok (b, db')
      → update_notifies true true (λ j. j.id == id && is_retryable j.status) (reset now) db.jobs
        ≡ false
      → IsCalm db db'
  unfolding retry
  retry-IsCalm now id db {b} {db'} v e quiet =
      elim (Result-cases (update_checked now p (reset now) db)) [
        | inl (u, q) ↦
            subst (IsCalm db) {x = (update_jobs now p (reset now) db).0} {y = db'}
              (ground (arith, e, q, update_checked-ok now p (reset now) db {u = u} q))
              (queueing-IsCalm now p (reset now) (λ r. refl) db v true true refl (λ r t. refl)
                quiet)
        | inr (x, q) ↦ absurd (ground (arith, e, q))
      ]
    where
      p : Job Value → Bool
      p j = j.id == id && is_retryable j.status

  pub relock_calm : (now : Timestamp) (r : Job Value) → RowCalm r (touch now (relock now r))
  relock_calm now r = record {
    row_kept =
        λ e. record { queued_before = e; same_time = refl; same_name = refl; same_queue = refl };
    slot_kept = λ e n. record { runs_after = e; queue_kept = refl };
  }

  pub claim_next-IsCalm :
      (now : Timestamp) (locked : Uuid → Bool) (snapshot : Db Value) (lock_owner : String)
      (names : List String) (db : Db Value) {r : Option (Job Value)} {db' : Db Value}
      → claim_next now locked snapshot lock_owner names db ≡ ok (r, db')
      → IsCalm db db'
  claim_next-IsCalm now locked snapshot lock_owner names db {r} {db'} e =
      elim (claim_next-Claims now locked snapshot lock_owner names db {r = r} {db' = db'} e) [
        | inl (_, same) ↦ subst (IsCalm db) (sym same) (IsCalm-refl db)
        | inr (j, found, waits, due, named, free, unlocked, is_r, sets) ↦
            IsCalm-rows db db'
              (λ k old at_k. elim (Bool-cases (k == j.id)) [
                | inr f ↦ (old, ground (arith, sets k, f, at_k), RowCalm-refl old)
                | inl t ↦ (
                  touch now (start now lock_owner j),
                  ground (arith, sets k, t),
                  record {
                    row_kept = λ h. absurd (ground (arith, h));
                    slot_kept = λ h n. absurd (ground (arith, h, waits, found, at_k, t));
                  },
                )
              ])
              (λ k none_k. elim (Bool-cases (k == j.id)) [
                | inr f ↦ ground (arith, sets k, f, none_k)
                | inl t ↦ absurd (ground (arith, found, t, none_k))
              ])
      ]

  pub prune_finished-IsCalm :
      (now : Timestamp) (retain_for : StdDuration) (db : Db Value) {db' : Db Value} {n : ℕ}
      → IsValid db
      → prune_finished now retain_for db ≡ ok (db', n)
      → IsCalm db db'
  unfolding prune_finished
  prune_finished-IsCalm now retain_for db {db'} {n} v e =
      elim (Result-cases (cutoff now (duration_millis_i64 retain_for))) [
        | inr (x, q) ↦ absurd (ground (arith, e, q))
        | inl (t, q) ↦
            let (db₁, n₁, is_ok, counted, rows) =
              prune_finished-deletes now retain_for db v {t = t} q in
            subst (IsCalm db) {x = db₁} {y = db'} (ground (arith, e, is_ok)) (record {
              rows_kept = λ k new at_k h.
                  (new, ground (arith, rows k, at_k), (RowCalm-refl new).row_kept h);
              slots_kept = λ k old at_k h named.
                  (old, ground (arith, rows k, at_k, h), (RowCalm-refl old).slot_kept h named);
            })
      ]

  -- Only the jobs matter.
  pub other_tables :
      (db d : Db Value) (ws : List (WorkerRow Value))
      → IsCalm (record db { workers = ws }) d
      → IsCalm db d
  other_tables db d ws c = record { rows_kept = c.rows_kept; slots_kept = c.slots_kept }

  pub same_jobs :
      (db : Db Value) (ws : List (WorkerRow Value)) → IsCalm db (record db { workers = ws })
  same_jobs db ws =
      let c = IsCalm-refl db in record { rows_kept = c.rows_kept; slots_kept = c.slots_kept }

  pub stale-IsCalm :
      (now : Timestamp) (stale_after : StdDuration) (db : Db Value) {db' : Db Value} {n : ℕ}
      → IsValid db
      → recover_stale now stale_after db ≡ ok (db', n)
      → stale_notifies now stale_after db ≡ false
      → IsCalm db db'
  unfolding recover_stale stale_notifies
  stale-IsCalm now stale_after db {db'} {n} v e quiet =
      elim (Result-cases (cutoff now (duration_millis_i64 stale_after))) [
        | inr (x, q) ↦ absurd (ground (arith, e, q))
        | inl (t, q) ↦
            subst (IsCalm db)
              {x = (update_jobs now (is_stuck t) (requeue now "recovered stale running job") db).0}
              {y = db'} (ground (arith, e, q))
              (queueing-IsCalm now (is_stuck t) (requeue now "recovered stale running job")
                (λ r. refl) db v true true refl (λ r h. refl) (ground (arith, quiet, q)))
      ]

  pub dead-IsCalm :
      (now : Timestamp) (stale_after : StdDuration) (db : Db Value) {db' : Db Value} {n : ℕ}
      → IsValid db
      → recover_dead_workers now stale_after db ≡ ok (db', n)
      → dead_notifies now stale_after db ≡ false
      → IsCalm db db'
  unfolding recover_dead_workers dead_notifies
  dead-IsCalm now stale_after db {db'} {n} v e quiet =
      elim (Result-cases (cutoff now (duration_millis_i64 stale_after))) [
        | inr (x, q) ↦ absurd (ground (arith, e, q))
        | inl (t, q) ↦
            let left : Db Value = record db {
              workers = filter_by (λ w. not (is_stale t w)) db.workers;
            } in
            let dead = locked_by_any (filter_by (is_stale t) db.workers) in
            subst (IsCalm db)
              {x = (update_jobs now dead (requeue now "recovered dead worker job") left).0}
              {y = db'} (ground (arith, e, q))
              (other_tables db _ left.workers (
                queueing-IsCalm now dead (requeue now "recovered dead worker job") (λ r. refl) left
                  (record { rows = v.rows; pairs = v.pairs }) true true refl (λ r h. refl)
                  (ground (arith, quiet, q))))
      ]

  pub fail_locked-IsCalm :
      (exp : ℕ → ℕ) (now : Timestamp) (id : Uuid) (lock_owner : String) (attempt : ℕ)
      (max_attempts : ℤ) (error : String) (db : Db Value)
      → IsValid db
      → fail_notifies exp now id lock_owner attempt max_attempts error db ≡ false
      → IsCalm db (fail_locked exp now id lock_owner attempt max_attempts error db).1
  unfolding fail_locked fail_notifies
  fail_locked-IsCalm exp now id lock_owner attempt max_attempts error db v quiet =
      elim (Bool-cases (leb_ℤ max_attempts (pos attempt))) [
        | inl t ↦ rw t (
            ending-IsCalm now (holds id lock_owner) (give_up now error) (λ r. refl) db v false
              (λ r. refl) (ground (arith, t, quiet)))
        | inr t ↦ rw t (
            queueing-IsCalm now (holds id lock_owner) (try_again exp now error) (λ r. refl) db v
              true true refl (λ r h. refl) (ground (arith, t, quiet)))
      ]
