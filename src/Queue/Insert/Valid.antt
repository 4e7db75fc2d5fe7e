-- ===== src/Queue/Insert/Valid.antt =====
-- src/queue.rs: the INSERT statement keeps the jobs table valid.
use pgspawn.Prelude.{
  ◌==◌, ◌≡◌, refl, subst, Bool, false, String, arith, ok, Result-cases, inl, inr, Bool-cases,
  Option-cases, find_by, find_by-none, any_by, any_by-false, All-zip, All-append, or_else,
  Pairwise-append_one, [], ◌∷◌, none, ◌++◌,
}
use pgspawn.Prelude.Int.{pos, leb_ℤ, ◌≤ℤ◌}
use pgspawn.Job.{Uuid, Timestamp, Job, EnqueueOptions}
use pgspawn.Job.Status.{queued}
use pgspawn.Job.KeyMode.{JobKeyMode}
use pgspawn.Table.{Db, clash_key, update_jobs, is_running}
use pgspawn.Table.Valid.{RowOk, Compatible, IsValid}
use pgspawn.Table.Update.{update_jobs-IsValid}
use pgspawn.Queue.Insert.{upsert, on_conflict, insert_job, proposed}

module _ {Value : Type 0} where
  -- A proposed row that passes the table's check, beside rows under another key and other ids.
  append-IsValid :
      (excluded : Job Value) (db : Db Value)
      → RowOk excluded
      → is_running excluded.status ≡ false
      → find_by (λ r. clash_key r excluded) db.jobs ≡ none
      → any_by (λ r. r.id == excluded.id) db.jobs ≡ false
      → IsValid db
      → IsValid (record db { jobs = db.jobs ++ excluded ∷ [] })
  append-IsValid excluded db good idle free fresh v = record {
    rows = All-append RowOk db.jobs (excluded ∷ []) v.rows (good, tt);
    pairs = Pairwise-append_one Compatible db.jobs excluded v.pairs (
        All-zip db.jobs (λ r f g. record { ids = g; keys = f; queues = ground arith })
          (find_by-none _ db.jobs free) (any_by-false _ db.jobs fresh));
  }

  on_conflict-IsValid :
      (now : Timestamp) (mode : JobKeyMode) (excluded : Job Value) (db : Db Value)
      → pos 1 ≤ℤ excluded.max_attempts
      → IsValid db
      → IsValid (update_jobs now (λ r. clash_key r excluded) (on_conflict mode excluded) db).0
  unfolding on_conflict
  on_conflict-IsValid now mode excluded db allowed =
      update_jobs-IsValid now _ _ db (λ r h e. ground arith) (λ r h e. ground arith)

  -- Every success of the statement leaves the table valid, if the proposed row is a fresh queued one.
  pub upsert-IsValid :
      (now : Timestamp) (mode : JobKeyMode) (excluded : Job Value) (db : Db Value)
      → (pos 1 ≤ℤ excluded.max_attempts → RowOk excluded)
      → excluded.status ≡ queued
      → IsValid db
      → {id : Uuid} {b : Bool} {db' : Db Value} → upsert now mode excluded db ≡ ok ((id, b), db')
      → IsValid db'
  unfolding upsert
  upsert-IsValid now mode excluded db good is_new v e =
      elim (Bool-cases (leb_ℤ excluded.max_attempts (pos 0))) [
        | inl bad ↦ absurd (ground (arith, e, bad))
        | inr fine ↦
            let allowed : pos 1 ≤ℤ excluded.max_attempts = ground (arith, fine) in
            elim (Option-cases (find_by (λ r. clash_key r excluded) db.jobs)) [
              | inl free ↦ elim (Bool-cases (any_by (λ r. r.id == excluded.id) db.jobs)) [
                | inl used ↦ absurd (ground (arith, e, fine, free, used))
                | inr unused ↦
                    subst IsValid {x = record db { jobs = db.jobs ++ excluded ∷ [] }}
                      (ground (arith, e, fine, free, unused))
                      (append-IsValid excluded db (good allowed) (ground arith) free unused v)
              ]
              | inr (existing, held) ↦
                  subst IsValid
                    {x = (update_jobs now (λ r. clash_key r excluded) (on_conflict mode excluded)
                      db).0}
                    (ground (arith, e, fine, held))
                    (on_conflict-IsValid now mode excluded db allowed v)
            ]
      ]

  pub insert_job-IsValid :
      (clock now : Timestamp) (fresh : Uuid) (name : String) (payload : Value)
      (options : EnqueueOptions) (db : Db Value)
      → IsValid db
      → {id : Uuid} {db' : Db Value}
      → insert_job clock now fresh name payload options db ≡ ok (id, db')
      → IsValid db'
  unfolding insert_job
  insert_job-IsValid clock now fresh name payload options db v {db' = db'} e =
      elim (Result-cases (upsert now options.job_key_mode row db)) [
        | inl (((id, b), db₁), p) ↦
            subst IsValid {x = db₁} (ground (arith, p))
              (upsert-IsValid now options.job_key_mode row db (λ a. ground arith) refl v p)
        | inr (x, p) ↦ absurd (ground (arith, p))
      ]
    where
      row : Job Value
      row = proposed now fresh name payload options (or_else options.run_at clock)
