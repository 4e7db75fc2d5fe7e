-- ===== src/Queue/Notify/Inserts.antt =====
-- src/queue.rs: an INSERT that notifies nobody is calm.
use pgspawn.Prelude.{
  ◌≡◌, refl, subst, inl, inr, Bool, true, false, ◌&&◌, ◌||◌, String, arith, List, [], ◌∷◌, find_by,
  Bool-cases, Option-cases, Result-cases, ok,
}
use pgspawn.Prelude.Int.{leb_ℤ, pos}
use pgspawn.Job.{Uuid, Timestamp, Job}
use pgspawn.Job.Status.{queued}
use pgspawn.Job.KeyMode.{JobKeyMode}
use pgspawn.Schedule.{CronJob}
use pgspawn.Queue.Cron.{
  CronEnqueueResult, cron_row, enqueue_claimed, claim_cron, try_enqueue_cron, existed,
}
use pgspawn.Table.{Db, CronRow, clash_key, touch, update_jobs}
use pgspawn.Table.Valid.{IsValid}
use pgspawn.Queue.Insert.{on_conflict, upsert, overwrites}
use pgspawn.Queue.Insert.Valid.{upsert-IsValid}
use pgspawn.Queue.Batch.{
  Entry, batch_row, remember, insert_rows, insert_modes, selected, insert_job_batch, enqueue_many,
  duplicate_key, ordered_ids, all_modes,
}
use pgspawn.Queue.Notify.{
  row_notifies, upsert_notifies, rows_notify, modes_notify, batch_notifies, cron_notifies,
}
use pgspawn.Queue.Notify.Calm.{RowCalm, IsCalm, IsCalm-refl, IsCalm-trans, update_jobs-IsCalm}

module _ {Value : Type 0} where
  same_id : (mode : JobKeyMode) (excluded r : Job Value) → (on_conflict mode excluded r).id ≡ r.id
  unfolding on_conflict
  same_id mode excluded r = refl

  conflict_calm :
      (now : Timestamp) (mode : JobKeyMode) (excluded r : Job Value)
      → row_notifies false true r (on_conflict mode excluded r) ≡ false
      → RowCalm r (touch now (on_conflict mode excluded r))
  unfolding row_notifies on_conflict overwrites
  conflict_calm now mode excluded r h = record {
    row_kept = λ e. absurd (ground arith);
    slot_kept = λ e n. record { runs_after = e; queue_kept = ground arith };
  }

  pub upsert-IsCalm :
      (now : Timestamp) (mode : JobKeyMode) (excluded : Job Value) (db : Db Value)
      → excluded.status ≡ queued
      → IsValid db
      → (r : Uuid × Bool) (db' : Db Value) → upsert now mode excluded db ≡ ok (r, db')
      → upsert_notifies mode excluded db ≡ false
      → IsCalm db db'
  unfolding upsert upsert_notifies
  upsert-IsCalm now mode excluded db is_new v r db' e quiet =
      elim (Bool-cases (leb_ℤ excluded.max_attempts (pos 0))) [
        | inl bad ↦ absurd (ground (arith, e, bad))
        | inr fine ↦ elim (Option-cases (find_by (λ r. clash_key r excluded) db.jobs)) [
          | inl free ↦ absurd (ground (arith, free, quiet, is_new))
          | inr (j, first) ↦
              subst (IsCalm db)
                {x = (update_jobs now (λ r. clash_key r excluded) (on_conflict mode excluded) db).0}
                {y = db'} (ground (arith, e, fine, first))
                (update_jobs-IsCalm false true now (λ r. clash_key r excluded)
                  (on_conflict mode excluded) (same_id mode excluded)
                  (λ r h t q. conflict_calm now mode excluded r q) db v
                  (ground (arith, first, quiet)))
        ]
      ]

  -- The rows of a batch: the table stays valid, and calm if nobody is notified.
  abbrev Quiet : Db Value → Bool → Db Value → Type 0
  Quiet db notified db' = IsValid db' × (notified ≡ false → IsCalm db db')

  rows-Quiet :
      (now : Timestamp) (mode : JobKeyMode) (es : List (Entry Value))
      (s : List (String × Uuid) × Db Value) {s' : List (String × Uuid) × Db Value}
      → IsValid s.1
      → insert_rows now mode es s ≡ ok s'
      → Quiet s.1 (rows_notify now mode es s) s'.1
  unfolding insert_rows rows_notify
  rows-Quiet now mode [] s {s'} v e =
      subst (λ x. Quiet s.1 false x.1) {x = s} {y = s'} (ground arith) (v, λ q. IsCalm-refl s.1)
  rows-Quiet now mode (x ∷ xs) (ids, db) {s'} v e =
      elim (Result-cases (upsert now mode (batch_row now x) db)) [
        | inr (y, p) ↦ absurd (ground (arith, e, p))
        | inl (((id, b), d), p) ↦
            let next : List (String × Uuid) × Db Value =
              (remember x.request.options.job_key id ids, d) in
            let valid = upsert-IsValid now mode (batch_row now x) db (λ a. ground arith) refl v p in
            let rest = rows-Quiet now mode xs next {s' = s'} valid (ground (arith, e, p)) in
            (
              rest.0,
              λ q.
                  IsCalm-trans
                    (upsert-IsCalm now mode (batch_row now x) db refl v (id, b) d p
                      (ground (arith, q)))
                    (rest.1 (ground (arith, q, p))),
            )
      ]

  modes-Quiet :
      (now : Timestamp) (modes : List JobKeyMode) (es : List (Entry Value))
      (s : List (String × Uuid) × Db Value) {s' : List (String × Uuid) × Db Value}
      → IsValid s.1
      → insert_modes now modes es s ≡ ok s'
      → Quiet s.1 (modes_notify now modes es s) s'.1
  unfolding insert_modes modes_notify
  modes-Quiet now [] es s {s'} v e =
      subst (λ x. Quiet s.1 false x.1) {x = s} {y = s'} (ground arith) (v, λ q. IsCalm-refl s.1)
  modes-Quiet now (mode ∷ modes) es s {s'} v e =
      elim (Result-cases (insert_rows now mode (selected mode es) s)) [
        | inr (y, p) ↦ absurd (ground (arith, e, p))
        | inl (s₁, p) ↦
            let first = rows-Quiet now mode (selected mode es) s {s' = s₁} v p in
            let rest = modes-Quiet now modes es s₁ {s' = s'} first.0 (ground (arith, e, p)) in
            (
              rest.0,
              λ q. IsCalm-trans (first.1 (ground (arith, q))) (rest.1 (ground (arith, q, p))),
            )
      ]

  batch-IsCalm :
      (now : Timestamp) (es : List (Entry Value)) (db : Db Value) {ids : List Uuid} {db' : Db Value}
      → IsValid db
      → insert_job_batch now es db ≡ ok (ids, db')
      → batch_notifies now es db ≡ false
      → IsCalm db db'
  unfolding insert_job_batch
  batch-IsCalm now es db {ids} {db'} v e quiet = elim (Option-cases (duplicate_key [] es)) [
    | inr (key, d) ↦ absurd (ground (arith, e, d))
    | inl d ↦ elim (Result-cases (insert_modes now all_modes es ([], db))) [
      | inr (y, p) ↦ absurd (ground (arith, e, d, p))
      | inl (s, p) ↦ elim (Result-cases (ordered_ids s.0 es)) [
        | inr (y, q) ↦ absurd (ground (arith, e, d, p, q))
        | inl (ids₁, q) ↦
            subst (IsCalm db) {x = s.1} (ground (arith, e, d, p, q))
              ((modes-Quiet now all_modes es ([], db) {s' = s} v p).1 quiet)
      ]
    ]
  ]

  same_jobs :
      (db : Db Value) (crons : List (CronRow Value)) (d : Db Value)
      → IsCalm db d
      → IsCalm db (record d { crons = crons })
  same_jobs db crons d c = record { rows_kept = c.rows_kept; slots_kept = c.slots_kept }

  module _ {TimeZone : Type 0} where
    pub cron-IsCalm :
        (now : Timestamp) (fresh : Uuid) (cron : CronJob Value TimeZone)
        (due_at next_run_at : Timestamp) (db : Db Value) {r : CronEnqueueResult} {db' : Db Value}
        → IsValid db
        → try_enqueue_cron now fresh cron due_at next_run_at db ≡ ok (r, db')
        → cron_notifies now fresh cron due_at next_run_at db ≡ false
        → IsCalm db db'
    unfolding try_enqueue_cron enqueue_claimed cron_notifies
    cron-IsCalm now fresh cron due_at next_run_at db {r} {db'} v e quiet =
        let claim = claim_cron now cron due_at next_run_at db.crons in
        let recorded : Db Value = record db { crons = claim.0 } in
        let row = cron_row now fresh cron due_at in
        elim (Bool-cases (claim.1 && (cron.catch_up_on_start || existed now cron db.crons))) [
          | inr f ↦
              subst (IsCalm db) {x = recorded} {y = db'} (ground (arith, e, f))
                (same_jobs db claim.0 db (IsCalm-refl db))
          | inl t ↦ elim (Result-cases (upsert now cron.options.job_key_mode row recorded)) [
            | inr (x, p) ↦ absurd (ground (arith, e, t, p))
            | inl ((i, d), p) ↦
                let c =
                  upsert-IsCalm now cron.options.job_key_mode row recorded refl
                    (record { rows = v.rows; pairs = v.pairs }) i d p (ground (arith, quiet, t)) in
                subst (IsCalm db) {x = d} {y = db'} (ground (arith, e, t, p))
                  (record { rows_kept = c.rows_kept; slots_kept = c.slots_kept })
          ]
        ]

  pub enqueue_many-IsCalm :
      (now : Timestamp) (es : List (Entry Value)) (db : Db Value) {ids : List Uuid} {db' : Db Value}
      → IsValid db
      → enqueue_many now es db ≡ ok (ids, db')
      → batch_notifies now es db ≡ false
      → IsCalm db db'
  unfolding enqueue_many
  enqueue_many-IsCalm now [] db v e quiet =
      subst (IsCalm db) {x = db} (ground arith) (IsCalm-refl db)
  enqueue_many-IsCalm now (x ∷ es) db v e quiet = batch-IsCalm now (x ∷ es) db v e quiet
