-- ===== src/Queue/Cron/Valid.antt =====
-- src/queue.rs: enqueueing a cron occurrence keeps the jobs table valid.
use pgspawn.Prelude.{◌≡◌, refl, subst, arith, ok, Result-cases, inl, inr, Bool-cases, ◌&&◌, ◌||◌}
use pgspawn.Job.{Uuid, Timestamp}
use pgspawn.Schedule.{CronJob}
use pgspawn.Table.{Db}
use pgspawn.Table.Valid.{IsValid}
use pgspawn.Queue.Insert.{upsert}
use pgspawn.Queue.Insert.Valid.{upsert-IsValid}
use pgspawn.Queue.Cron.{
  CronEnqueueResult, claim_cron, cron_row, existed, enqueue_claimed, try_enqueue_cron,
}

module _ {Value TimeZone : Type 0} where
  enqueue_claimed-IsValid :
      (now : Timestamp) (fresh : Uuid) (cron : CronJob Value TimeZone) (due_at : Timestamp)
      (db : Db Value)
      → IsValid db
      → {r : CronEnqueueResult} {db' : Db Value}
      → enqueue_claimed now fresh cron due_at db ≡ ok (r, db')
      → IsValid db'
  unfolding enqueue_claimed
  enqueue_claimed-IsValid now fresh cron due_at db v {db' = db'} e =
      elim (Result-cases
        (upsert now cron.options.job_key_mode (cron_row now fresh cron due_at) db)) [
          | inl (((id, b), db₁), p) ↦ subst IsValid {x = db₁} (ground (arith, p)) (
              upsert-IsValid now cron.options.job_key_mode (cron_row now fresh cron due_at) db
                (λ a. ground arith) refl v p)
          | inr (y, p) ↦ absurd (ground (arith, p))
        ]

  pub try_enqueue_cron-IsValid :
      (now : Timestamp) (fresh : Uuid) (cron : CronJob Value TimeZone)
      (due_at next_run_at : Timestamp) (db : Db Value)
      → IsValid db
      → {r : CronEnqueueResult} {db' : Db Value}
      → try_enqueue_cron now fresh cron due_at next_run_at db ≡ ok (r, db')
      → IsValid db'
  unfolding try_enqueue_cron
  try_enqueue_cron-IsValid now fresh cron due_at next_run_at db v {r} {db'} e =
      let claim = claim_cron now cron due_at next_run_at db.crons in
      let recorded : Db Value = record db { crons = claim.0 } in
      let valid : IsValid recorded = record { rows = v.rows; pairs = v.pairs } in
      elim (Bool-cases (claim.1 && (cron.catch_up_on_start || existed now cron db.crons))) [
        | inl p ↦
            enqueue_claimed-IsValid now fresh cron due_at recorded valid {r = r}
              (ground (arith, e, p))
        | inr p ↦ subst IsValid {x = recorded} (ground (arith, e, p)) valid
      ]
