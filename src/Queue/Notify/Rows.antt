-- ===== src/Queue/Notify/Rows.antt =====
-- migrations/0001_init.sql: the changes of a row for which the triggers stay silent.
use pgspawn.Prelude.{◌≡◌, Bool, true, false, ◌||◌, arith}
use pgspawn.Job.{Timestamp, Job}
use pgspawn.Job.Status.{is_terminal}
use pgspawn.Table.{Db, is_queued, touch, update_jobs}
use pgspawn.Table.Valid.{IsValid}
use pgspawn.Queue.Notify.{row_notifies, update_notifies}
use pgspawn.Queue.Notify.Calm.{RowCalm, IsCalm, update_jobs-IsCalm}

module _ {Value : Type 0} where
  -- A job that ends unnoticed occupied no named queue.
  ends_calm :
      (sets_run_at : Bool) (now : Timestamp) (old new : Job Value)
      → is_terminal new.status ≡ true
      → row_notifies true sets_run_at old new ≡ false
      → RowCalm old (touch now new)
  unfolding row_notifies
  ends_calm sets_run_at now old new ends quiet = record {
    row_kept = λ e. absurd (ground (arith, e, ends));
    slot_kept = λ e n. absurd (ground (arith, e, n, ends, quiet));
  }

  -- No job is queued unnoticed.
  queues_calm :
      (sets_status sets_run_at : Bool) (now : Timestamp) (old new : Job Value)
      → (sets_status || sets_run_at) ≡ true
      → is_queued new.status ≡ true
      → row_notifies sets_status sets_run_at old new ≡ false
      → RowCalm old (touch now new)
  unfolding row_notifies
  queues_calm sets_status sets_run_at now old new sets queues quiet =
      absurd (ground (arith, sets, queues, quiet))

  module _ (now : Timestamp) (p : Job Value → Bool) (f : Job Value → Job Value)
      (id_kept : (r : Job Value) → (f r).id ≡ r.id) (db : Db Value) (v : IsValid db) where
    pub ending-IsCalm :
        (sets_run_at : Bool)
        → ((r : Job Value) → is_terminal (f r).status ≡ true)
        → update_notifies true sets_run_at p f db.jobs ≡ false
        → IsCalm db (update_jobs now p f db).0
    ending-IsCalm sets_run_at ends quiet =
        update_jobs-IsCalm true sets_run_at now p f id_kept
          (λ r h t q. ends_calm sets_run_at now r (f r) (ends r) q) db v quiet

    pub queueing-IsCalm :
        (sets_status sets_run_at : Bool)
        → (sets_status || sets_run_at) ≡ true
        → ((r : Job Value) → p r ≡ true → is_queued (f r).status ≡ true)
        → update_notifies sets_status sets_run_at p f db.jobs ≡ false
        → IsCalm db (update_jobs now p f db).0
    queueing-IsCalm sets_status sets_run_at sets queues quiet =
        update_jobs-IsCalm sets_status sets_run_at now p f id_kept
          (λ r h t q. queues_calm sets_status sets_run_at now r (f r) sets (queues r t) q) db v
          quiet
