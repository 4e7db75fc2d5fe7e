-- ===== src/Worker/Alive.antt =====
-- src/queue.rs and src/worker.rs: a worker that beats in time is left alone by `recover_dead_workers`.
use pgspawn.Prelude.{
  ℕ, ◌≡◌, refl, inl, inr, true, false, not, ◌&&◌, some, List, [], ◌∷◌, String, ◌++ₛ◌, text_eq,
  eq_iff, arith, Bool-cases, Option-cases, All, Pairwise, filter_by, starts_with, ok,
}
use pgspawn.Prelude.Int.{◌≤ℤ◌}
use pgspawn.Job.{Uuid, Timestamp, StdDuration, Job}
use pgspawn.Table.{Db, WorkerRow, touch, update_jobs}
use pgspawn.Table.Lookup.{find_id, find_by-update_rows}
use pgspawn.Queue.Recover.{
  cutoff, duration_millis_i64, requeue, locked_by_worker, locked_by_any, begins, is_stale, beat,
  recover_dead_workers,
}
use pgspawn.Worker.Build.{claim_owner, claim_owner-prefix}
use pgspawn.Queue.Recover.Owners.{no_colon, one_owner}

module _ {Value : Type 0} where
  -- Each row under the id has a heartbeat that is not before `t`.
  abbrev pub IsAlive : Timestamp → String → List (WorkerRow Value) → Type 0
  IsAlive t worker_id ws = All (λ w. (text_eq w.id worker_id && is_stale t w) ≡ false) ws

  abbrev pub HaveNoColon : List (WorkerRow Value) → Type 0
  HaveNoColon ws = All (λ w. no_colon w.id ≡ true) ws

  other_worker :
      (worker_id : String) (w : WorkerRow Value) (j : Job Value)
      → no_colon w.id ≡ true
      → no_colon worker_id ≡ true
      → begins j.locked_by (worker_id ++ₛ ":") ≡ true
      → text_eq w.id worker_id ≡ false
      → locked_by_worker w.id j ≡ false
  other_worker worker_id w j hw h owned apart = elim (Option-cases j.locked_by) [
    | inl n ↦ absurd (ground (arith, n, owned))
    | inr (owner, e) ↦ elim (Bool-cases (starts_with owner (w.id ++ₛ ":"))) [
      | inr f ↦ ground (arith, e, f)
      | inl t ↦
          let same = one_owner owner w.id worker_id hw h t (ground (arith, e, owned)) in
          absurd (ground (arith, eq_iff w.id worker_id, same, apart))
    ]
  ]

  -- Its jobs are locked by none of the stale workers.
  not_dead :
      (t : Timestamp) (worker_id : String) (ws : List (WorkerRow Value)) (j : Job Value)
      → HaveNoColon ws
      → no_colon worker_id ≡ true
      → IsAlive t worker_id ws
      → begins j.locked_by (worker_id ++ₛ ":") ≡ true
      → locked_by_any (filter_by (is_stale t) ws) j ≡ false
  not_dead t worker_id [] j hs h alive owned = refl
  not_dead t worker_id (w ∷ ws) j hs h alive owned =
      let rest = not_dead t worker_id ws j hs.1 h alive.1 owned in
      elim (Bool-cases (is_stale t w)) [
        | inr f ↦ ground (arith, f, rest)
        | inl s ↦
            let this = other_worker worker_id w j hs.0 h owned (ground (arith, alive.0, s)) in
            ground (arith, s, rest, this)
      ]

  kept_rows :
      (t : Timestamp) (worker_id : String) (ws : List (WorkerRow Value))
      → IsAlive t worker_id ws
      → filter_by (λ w. text_eq w.id worker_id) (filter_by (λ w. not (is_stale t w)) ws)
        ≡ filter_by (λ w. text_eq w.id worker_id) ws
  kept_rows t worker_id [] alive = refl
  kept_rows t worker_id (w ∷ ws) alive = ground (arith, kept_rows t worker_id ws alive.1, alive.0)

  -- A worker whose heartbeat is not before the cutoff keeps every job that one of its claim loops has
  -- locked when dead workers are recovered, and stays registered, provided that no worker's id has a colon.
  pub recover_dead_workers-spares :
      (now : Timestamp) (stale_after : StdDuration) (worker_id index uuid : String) (k : Uuid)
      (db : Db Value) {t : Timestamp} {j : Job Value}
      → cutoff now (duration_millis_i64 stale_after) ≡ ok t
      → HaveNoColon db.workers
      → no_colon worker_id ≡ true
      → IsAlive t worker_id db.workers
      → find_id k db ≡ some j
      → j.locked_by ≡ some (claim_owner worker_id index uuid)
      → (db' : Db Value) × (n : ℕ) × (recover_dead_workers now stale_after db ≡ ok (db', n))
        × (find_id k db' ≡ some j)
        × (filter_by (λ w. text_eq w.id worker_id) db'.workers
            ≡ filter_by (λ w. text_eq w.id worker_id) db.workers)
  unfolding recover_dead_workers update_jobs
  recover_dead_workers-spares now stale_after worker_id index uuid k db {t} {j} e hs h alive found
        held =
      let dead = locked_by_any (filter_by (is_stale t) db.workers) in
      let recovered =
        update_jobs now dead (requeue now "recovered dead worker job")
          (record db { workers = filter_by (λ w. not (is_stale t w)) db.workers }) in
      let owned : begins j.locked_by (worker_id ++ₛ ":") ≡ true =
        ground (arith, held, claim_owner-prefix worker_id index uuid) in
      let spared = not_dead t worker_id db.workers j hs h alive owned in
      (
        recovered.0,
        recovered.1,
        ground (arith, e),
        rw
            (
              find_by-update_rows dead (λ r. touch now (requeue now "recovered dead worker job" r))
                  (λ r. refl) k db.jobs,
              found,
              spared,
            )
            refl,
        kept_rows t worker_id db.workers alive,
      )

  abbrev pub AreDistinct : List (WorkerRow Value) → Type 0
  AreDistinct ws = Pairwise (λ v w. text_eq v.id w.id ≡ false) ws

  elsewhere :
      (t : Timestamp) (v : WorkerRow Value) (worker_id : String) (ws : List (WorkerRow Value))
      → text_eq v.id worker_id ≡ true
      → All (λ w. text_eq v.id w.id ≡ false) ws
      → IsAlive t worker_id ws
  elsewhere t v worker_id [] same apart = tt
  elsewhere t v worker_id (w ∷ ws) same apart = (
    ground (arith, eq_iff v.id worker_id, eq_iff w.id worker_id, eq_iff v.id w.id, same, apart.0),
    elsewhere t v worker_id ws same apart.1,
  )

  -- A heartbeat is alive for every cutoff up to its time.
  pub beat-IsAlive :
      (now t : Timestamp) (worker_id : String) (task_names : List String) (metadata : Value)
      (ws : List (WorkerRow Value))
      → t ≤ℤ now
      → AreDistinct ws
      → IsAlive t worker_id (beat now worker_id task_names metadata ws)
  unfolding beat
  beat-IsAlive now t worker_id task_names metadata [] le apart = (ground (arith, le), tt)
  beat-IsAlive now t worker_id task_names metadata (w ∷ ws) le apart =
      elim (Bool-cases (text_eq w.id worker_id)) [
        | inl same ↦ rw same (ground (arith, le), elsewhere t w worker_id ws same apart.0)
        | inr other ↦
            rw other (
              ground (arith, other),
              beat-IsAlive now t worker_id task_names metadata ws le apart.1,
            )
      ]
