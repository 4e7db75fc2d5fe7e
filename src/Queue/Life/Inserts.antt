-- ===== src/Queue/Life/Inserts.antt =====
-- src/queue.rs: an INSERT gives life to the id of its row or leaves every job's life as it is.
use pgspawn.Prelude.{
  ◌≡◌, refl, sym, subst, ◌∙◌, ◌⊎◌, inl, inr, Bool, Option, none, some, List, String, arith,
  Bool-cases, Result-cases, ok, ◌==◌, ap, or_else, ◌&&◌, ◌||◌,
}
use pgspawn.Job.{Uuid, Timestamp, Job, EnqueueOptions}
use pgspawn.Job.Status.{queued}
use pgspawn.Job.KeyMode.{JobKeyMode}
use pgspawn.Schedule.{CronJob}
use pgspawn.Table.{Db, touch}
use pgspawn.Table.Valid.{IsValid}
use pgspawn.Table.Lookup.{find_id}
use pgspawn.Queue.Insert.{proposed, on_conflict, upsert, insert_job}
use pgspawn.Queue.Insert.Valid.{upsert-IsValid}
use pgspawn.Queue.Insert.Keys.{Sets, upsert-Resolves}
use pgspawn.Queue.Batch.{Entry, batch_row, enqueue_many}
use pgspawn.Queue.Batch.Keeps.{enqueue_many-keeps}
use pgspawn.Queue.Cron.{
  CronEnqueueResult, cron_row, enqueue_claimed, claim_cron, try_enqueue_cron, existed,
}
use pgspawn.Queue.Life.{View, Life, stays, created, view, view_of, life, Lives}

abbrev fresh_view : View
fresh_view = record { status = queued; attempt = 0; owner = none }

-- The life of an id stays as it is or begins.
abbrev Grows : Option View → Option View → Type 0
Grows v w = (w ≡ v) ⊎ ((v ≡ none) × (w ≡ some fresh_view))

Grows-trans : (u v w : Option View) → Grows u v → Grows v w → Grows u w
Grows-trans u v w (inl p) (inl q) = inl (q ∙ p)
Grows-trans u v w (inl p) (inr (a, b)) = inr (sym p ∙ a, b)
Grows-trans u v w (inr (a, b)) (inl q) = inr (a, q ∙ b)
Grows-trans u v w (inr (a, b)) (inr (c, d)) = inr (a, d)

Grows-Life : (v w : Option View) → Grows v w → Life v w
Grows-Life v w (inl p) = stays (sym p)
Grows-Life v w (inr (a, b)) =
    subst (λ x. Life x w) (sym a) (subst (λ x. Life none x) (sym b) created)

module _ {Value : Type 0} where
  abbrev AllGrow : Db Value → Db Value → Type 0
  AllGrow db db' = (k : Uuid) → Grows (life k db) (life k db')

  set-Grows :
      (db : Db Value) (row : Job Value) (id : Uuid) (db' : Db Value)
      → Grows (life id db) (some (view row))
      → Sets db row id db'
      → AllGrow db db'
  set-Grows db row id db' g h k = elim (Bool-cases (k == id)) [
    | inl t ↦
        subst (λ x. Grows (life x db) (life k db')) {x = id} {y = k} (ground (arith, t))
          (subst (λ x. Grows (life id db) (view_of x)) {x = some row} {y = find_id k db'}
            (ground (arith, h k, t)) g)
    | inr t ↦ inl (ap view_of (ground (arith, h k, t)))
  ]

  upsert-Grows :
      (now : Timestamp) (mode : JobKeyMode) (excluded : Job Value) (db : Db Value)
      → view excluded ≡ fresh_view
      → IsValid db
      → (r : Uuid × Bool) (db' : Db Value) → upsert now mode excluded db ≡ ok (r, db')
      → AllGrow db db'
  unfolding on_conflict
  upsert-Grows now mode excluded db blank v (id, b) db' e =
      elim (upsert-Resolves now mode excluded db v {id = id} {b = b} {db' = db'} e) [
        | inl (own, free, none_id, sets) ↦
            set-Grows db excluded id db' (inr (ap view_of none_id, ap some blank)) sets
        | inr (j, is_j, found, held, sets) ↦
            set-Grows db (touch now (on_conflict mode excluded j)) id db'
              (inl (sym (ap view_of found))) sets
      ]

  pub insert_job-Lives :
      (clock now : Timestamp) (fresh : Uuid) (name : String) (payload : Value)
      (options : EnqueueOptions) (db : Db Value)
      → IsValid db
      → {id : Uuid} {db' : Db Value}
      → insert_job clock now fresh name payload options db ≡ ok (id, db')
      → Lives db db'
  unfolding insert_job
  insert_job-Lives clock now fresh name payload options db v {id} {db'} e k =
      elim (Result-cases (upsert now options.job_key_mode row db)) [
        | inl ((r, d), p) ↦
            subst (λ x. Life (life k db) (life k x)) {x = d} {y = db'} (ground (arith, p))
              (Grows-Life _ _ (upsert-Grows now options.job_key_mode row db refl v r d p k))
        | inr (x, p) ↦ absurd (ground (arith, p))
      ]
    where
      row : Job Value
      row = proposed now fresh name payload options (or_else options.run_at clock)

  pub enqueue_many-Lives :
      (now : Timestamp) (es : List (Entry Value)) (db : Db Value)
      → IsValid db
      → {ids : List Uuid} {db' : Db Value} → enqueue_many now es db ≡ ok (ids, db')
      → Lives db db'
  enqueue_many-Lives now es db v {ids} {db'} e k = Grows-Life _ _ (
      (enqueue_many-keeps (λ d. IsValid d × AllGrow db d)
          (λ now mode x d h r d' p. (
            upsert-IsValid now mode (batch_row now x) d (λ a. ground arith) refl h.0 p,
            λ i.
                Grows-trans (life i db) (life i d) (life i d') (h.1 i)
                  (upsert-Grows now mode (batch_row now x) d refl h.0 r d' p i),
          ))
          now es db (v, λ i. inl refl) {ids = ids} {db' = db'} e).1
        k)

  module _ {TimeZone : Type 0} where
    enqueue_claimed-Grows :
        (now : Timestamp) (fresh : Uuid) (cron : CronJob Value TimeZone) (due_at : Timestamp)
        (db : Db Value)
        → IsValid db
        → (r : CronEnqueueResult) (db' : Db Value)
        → enqueue_claimed now fresh cron due_at db ≡ ok (r, db')
        → AllGrow db db'
    unfolding enqueue_claimed
    enqueue_claimed-Grows now fresh cron due_at db v r db' e =
        elim (Result-cases (upsert now cron.options.job_key_mode row db)) [
          | inl ((i, d), p) ↦
              subst (AllGrow db) {x = d} {y = db'} (ground (arith, p))
                (upsert-Grows now cron.options.job_key_mode row db refl v i d p)
          | inr (x, p) ↦ absurd (ground (arith, p))
        ]
      where
        row : Job Value
        row = cron_row now fresh cron due_at

    pub try_enqueue_cron-Lives :
        (now : Timestamp) (fresh : Uuid) (cron : CronJob Value TimeZone)
        (due_at next_run_at : Timestamp) (db : Db Value)
        → IsValid db
        → {r : CronEnqueueResult} {db' : Db Value}
        → try_enqueue_cron now fresh cron due_at next_run_at db ≡ ok (r, db')
        → Lives db db'
    unfolding try_enqueue_cron
    try_enqueue_cron-Lives now fresh cron due_at next_run_at db v {r} {db'} e k =
        let claim = claim_cron now cron due_at next_run_at db.crons in
        let recorded : Db Value = record db { crons = claim.0 } in
        elim (Bool-cases (claim.1 && (cron.catch_up_on_start || existed now cron db.crons))) [
          | inl p ↦ Grows-Life _ _ (
              enqueue_claimed-Grows now fresh cron due_at recorded
                (record { rows = v.rows; pairs = v.pairs }) r db' (ground (arith, e, p)) k)
          | inr p ↦
              subst (λ x. Life (life k db) (life k x)) {x = recorded} {y = db'}
                (ground (arith, e, p)) (stays refl)
        ]
