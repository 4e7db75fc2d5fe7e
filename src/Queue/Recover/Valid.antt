-- ===== src/Queue/Recover/Valid.antt =====
-- src/queue.rs: release, recovery and pruning keep the jobs table valid.
use pgspawn.Prelude.{
  ℕ, ◌≡◌, refl, sym, subst, Bool, not, String, arith, ok, Result-cases, inl, inr, List, [], ◌∷◌,
  All, Pairwise, filter_by, All-filter_by, true,
}
use pgspawn.Job.{Timestamp, StdDuration, Job}
use pgspawn.Table.{Db, WorkerRow, update_jobs, is_running}
use pgspawn.Table.Valid.{RowOk, Compatible, IsValid}
use pgspawn.Table.Update.{update_jobs-IsValid}
use pgspawn.Queue.Recover.{
  register_worker, deregister_worker, release_worker_jobs, force_unlock_worker, prune_finished,
  recover_stale, recover_dead_workers, cutoff, duration_millis_i64, requeue, is_old, is_stuck,
  locked_by_worker, locked_by_any, is_stale,
}

module _ {Value : Type 0} where
  -- The jobs alone decide.
  jobs-IsValid : (db db' : Db Value) → db'.jobs ≡ db.jobs → IsValid db → IsValid db'
  jobs-IsValid db db' e v = record {
    rows = subst (All RowOk) (sym e) v.rows;
    pairs = subst (Pairwise Compatible) (sym e) v.pairs;
  }

  pub register_worker-IsValid :
      (now : Timestamp) (worker_id : String) (task_names : List String) (metadata : Value)
      (db : Db Value)
      → IsValid db
      → IsValid (register_worker now worker_id task_names metadata db)
  unfolding register_worker
  register_worker-IsValid now worker_id task_names metadata db v = jobs-IsValid db _ refl v

  pub deregister_worker-IsValid :
      (worker_id : String) (db : Db Value) → IsValid db → IsValid (deregister_worker worker_id db)
  unfolding deregister_worker
  deregister_worker-IsValid worker_id db v = jobs-IsValid db _ refl v

  -- A requeue of running jobs, whichever they are.
  requeue-IsValid :
      (now : Timestamp) (reason : String) (p : Job Value → Bool) (db : Db Value)
      → ((r : Job Value) → p r ≡ true → is_running r.status ≡ true)
      → IsValid db
      → IsValid (update_jobs now p (requeue now reason) db).0
  requeue-IsValid now reason p db running =
      update_jobs-IsValid now p (requeue now reason) db (λ r h e. ground (arith, running r e))
        (λ r h e. ground (arith, running r e))

  pub release_worker_jobs-IsValid :
      (now : Timestamp) (worker_id : String) (db : Db Value)
      → IsValid db
      → IsValid (release_worker_jobs now worker_id db).0
  unfolding release_worker_jobs
  release_worker_jobs-IsValid now worker_id db =
      requeue-IsValid now _ (locked_by_worker worker_id) db (λ r e. ground arith)

  pub force_unlock_worker-IsValid :
      (now : Timestamp) (worker_id : String) (db : Db Value)
      → IsValid db
      → IsValid (force_unlock_worker now worker_id db).0
  unfolding force_unlock_worker
  force_unlock_worker-IsValid now worker_id db v =
      requeue-IsValid now _ (locked_by_worker worker_id) (deregister_worker worker_id db)
        (λ r e. ground arith) (deregister_worker-IsValid worker_id db v)

  Pairwise-filter_by :
      (p : Job Value → Bool) (rs : List (Job Value))
      → Pairwise Compatible rs
      → Pairwise Compatible (filter_by p rs)
  Pairwise-filter_by p [] h = h
  Pairwise-filter_by p (r ∷ rs) h =
      ground (arith, All-filter_by (Compatible r) p rs h.0, Pairwise-filter_by p rs h.1)

  filter_by-IsValid :
      (p : Job Value → Bool) (db : Db Value)
      → IsValid db
      → IsValid (record db { jobs = filter_by p db.jobs })
  filter_by-IsValid p db v = record {
    rows = All-filter_by RowOk p db.jobs v.rows;
    pairs = Pairwise-filter_by p db.jobs v.pairs;
  }

  pub prune_finished-IsValid :
      (now : Timestamp) (retain_for : StdDuration) (db : Db Value)
      → IsValid db
      → {db' : Db Value} {n : ℕ} → prune_finished now retain_for db ≡ ok (db', n)
      → IsValid db'
  unfolding prune_finished
  prune_finished-IsValid now retain_for db v {db' = db'} e =
      elim (Result-cases (cutoff now (duration_millis_i64 retain_for))) [
        | inl (t, p) ↦
            subst IsValid {x = record db { jobs = filter_by (λ j. not (is_old t j)) db.jobs }}
              (ground (arith, p)) (filter_by-IsValid (λ j. not (is_old t j)) db v)
        | inr (x, p) ↦ absurd (ground (arith, p))
      ]

  pub recover_stale-IsValid :
      (now : Timestamp) (stale_after : StdDuration) (db : Db Value)
      → IsValid db
      → {db' : Db Value} {n : ℕ} → recover_stale now stale_after db ≡ ok (db', n)
      → IsValid db'
  unfolding recover_stale
  recover_stale-IsValid now stale_after db v {db' = db'} e =
      elim (Result-cases (cutoff now (duration_millis_i64 stale_after))) [
        | inl (t, p) ↦
            subst IsValid
              {x = (update_jobs now (is_stuck t) (requeue now "recovered stale running job") db).0}
              (ground (arith, p)) (requeue-IsValid now _ (is_stuck t) db (λ r q. ground arith) v)
        | inr (x, p) ↦ absurd (ground (arith, p))
      ]

  locked_by_any-running :
      (ws : List (WorkerRow Value)) (j : Job Value)
      → locked_by_any ws j ≡ true
      → is_running j.status ≡ true
  locked_by_any-running [] j e = absurd (ground arith)
  locked_by_any-running (w ∷ ws) j e = ground (arith, locked_by_any-running ws j)

  pub recover_dead_workers-IsValid :
      (now : Timestamp) (stale_after : StdDuration) (db : Db Value)
      → IsValid db
      → {db' : Db Value} {n : ℕ} → recover_dead_workers now stale_after db ≡ ok (db', n)
      → IsValid db'
  unfolding recover_dead_workers
  recover_dead_workers-IsValid now stale_after db v {db' = db'} e =
      elim (Result-cases (cutoff now (duration_millis_i64 stale_after))) [
        | inl (t, p) ↦
            let stale = filter_by (is_stale t) db.workers in
            let rest : Db Value = record db {
              workers = filter_by (λ w. not (is_stale t w)) db.workers;
            } in
            subst IsValid
              {x = (update_jobs now (locked_by_any stale) (requeue now "recovered dead worker job")
                rest).0}
              (ground (arith, p))
              (requeue-IsValid now _ (locked_by_any stale) rest
                (λ r q. locked_by_any-running stale r q) (jobs-IsValid db rest refl v))
        | inr (x, p) ↦ absurd (ground (arith, p))
      ]
