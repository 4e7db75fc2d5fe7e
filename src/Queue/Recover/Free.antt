-- ===== src/Queue/Recover/Free.antt =====
-- src/queue.rs: what release, recovery and pruning leave behind.
use pgspawn.Prelude.{
  ◌≡◌, refl, not, Bool, false, none, some, List, [], ◌∷◌, String, All, arith, Bool-cases, inl, inr,
  if◌then◌else◌, ok, ℕ, ◌+◌, length, count_by, filter_by, ◌==◌, find_by, Pairwise,
}
use pgspawn.Job.{Job, Timestamp, StdDuration, Uuid}
use pgspawn.Table.{Db, is_running, WorkerRow, touch, update_rows, update_jobs}
use pgspawn.Table.Lookup.{find_id, by_id}
use pgspawn.Table.Valid.{IsValid, Compatible}
use pgspawn.Queue.Recover.{
  cutoff, duration_millis_i64, requeue, locked_by_worker, locked_by_any, is_stale, is_old,
  release_worker_jobs, recover_dead_workers, prune_finished,
}

module _ {Value : Type 0} where
  pub requeued-All :
      (now : Timestamp) (p : Job Value → Bool) (f : Job Value → Job Value)
      (passes : (j : Job Value) → p (touch now (f j)) ≡ false) (rs : List (Job Value))
      → All (λ j. p j ≡ false) (update_rows p (λ j. touch now (f j)) rs)
  unfolding update_rows
  requeued-All now p f passes [] = tt
  requeued-All now p f passes (r ∷ rs) = (ground (arith, passes r), requeued-All now p f passes rs)

  -- After a release no running job is locked by the worker; every job that was is queued again.
  pub release_worker_jobs-frees :
      (now : Timestamp) (worker_id : String) (db : Db Value)
      → All
          (λ j. locked_by_worker worker_id j ≡ false)
          (release_worker_jobs now worker_id db).0.jobs
  unfolding release_worker_jobs update_jobs
  release_worker_jobs-frees now worker_id db =
      requeued-All now (locked_by_worker worker_id) (requeue now "released by shutting down worker")
        (λ j. refl) db.jobs

  pub not_any :
      (ws : List (WorkerRow Value)) (j : Job Value)
      → is_running j.status ≡ false
      → locked_by_any ws j ≡ false
  not_any [] j h = refl
  not_any (w ∷ ws) j h = ground (arith, not_any ws j h, h)

  split :
      (p : Job Value → Bool) (rs : List (Job Value))
      → length (filter_by (λ j. not (p j)) rs) + count_by p rs ≡ length rs
  split p [] = refl
  split p (r ∷ rs) = ground (arith, split p rs)

  elsewhere :
      (k : Uuid) (r : Job Value) (rs : List (Job Value)) (p : Job Value → Bool)
      → All (Compatible r) rs
      → r.id ≡ k
      → find_by (by_id k) (filter_by p rs) ≡ none
  elsewhere k r [] p c e = refl
  elsewhere k r (s ∷ rs) p c e = let apart = c.0.ids in ground (arith, elsewhere k r rs p c.1 e)

  find_by-filter_by :
      (k : Uuid) (p : Job Value → Bool) (rs : List (Job Value))
      → Pairwise Compatible rs
      → find_by (by_id k) (filter_by p rs)
        ≡ elim (find_by (by_id k) rs) [ none ↦ none | some j ↦ if p j then some j else none ]
  find_by-filter_by k p [] c = refl
  find_by-filter_by k p (r ∷ rs) c = elim (Bool-cases (r.id == k)) [
    | inl e ↦ ground (arith, e, elsewhere k r rs p c.0 (ground arith))
    | inr e ↦ ground (arith, e, find_by-filter_by k p rs c.1)
  ]

  -- On a valid table, pruning with a retention that gives a cutoff deletes the finished jobs that ended
  -- before it, and no other job, and returns how many.
  pub prune_finished-deletes :
      (now : Timestamp) (retain_for : StdDuration) (db : Db Value)
      → IsValid db
      → {t : Timestamp} → cutoff now (duration_millis_i64 retain_for) ≡ ok t
      → (db' : Db Value) × (n : ℕ) × (prune_finished now retain_for db ≡ ok (db', n))
        × (length db'.jobs + n ≡ length db.jobs)
        × ((k : Uuid)
            → find_id k db' ≡ elim (find_id k db) [
              | none ↦ none
              | some j ↦ if not (is_old t j) then some j else none
            ])
  unfolding prune_finished
  prune_finished-deletes now retain_for db v {t} e = (
    record db { jobs = filter_by (λ j. not (is_old t j)) db.jobs },
    count_by (is_old t) db.jobs,
    ground (arith, e),
    split (is_old t) db.jobs,
    λ k. find_by-filter_by k (λ j. not (is_old t j)) db.jobs v.pairs,
  )

  pub fresh_workers :
      (t : Timestamp) (ws : List (WorkerRow Value))
      → All (λ w. is_stale t w ≡ false) (filter_by (λ w. not (is_stale t w)) ws)
  fresh_workers t [] = tt
  fresh_workers t (w ∷ ws) = ground (arith, fresh_workers t ws)

  -- Recovery with an age that gives a cutoff deletes the workers whose last heartbeat is before it, and
  -- leaves no running job locked by one of them.
  pub recover_dead_workers-frees :
      (now : Timestamp) (stale_after : StdDuration) (db : Db Value) {t : Timestamp}
      → cutoff now (duration_millis_i64 stale_after) ≡ ok t
      → (db' : Db Value) × (n : ℕ) × (recover_dead_workers now stale_after db ≡ ok (db', n))
        × All (λ w. is_stale t w ≡ false) db'.workers
        × All (λ j. locked_by_any (filter_by (is_stale t) db.workers) j ≡ false) db'.jobs
        × (n ≡ count_by (locked_by_any (filter_by (is_stale t) db.workers)) db.jobs)
  unfolding recover_dead_workers update_jobs
  recover_dead_workers-frees now stale_after db {t} e =
      let stale = filter_by (is_stale t) db.workers in
      let recovered =
        update_jobs now (locked_by_any stale) (requeue now "recovered dead worker job")
          (record db { workers = filter_by (λ w. not (is_stale t w)) db.workers }) in
      (
        recovered.0,
        recovered.1,
        ground (arith, e),
        fresh_workers t db.workers,
        requeued-All now (locked_by_any stale) (requeue now "recovered dead worker job")
            (λ j. not_any stale (touch now (requeue now "recovered dead worker job" j)) refl)
            db.jobs,
        refl,
      )
