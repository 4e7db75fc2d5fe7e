-- ===== src/Queue/Recover.antt =====
-- src/queue.rs: the workers table, and the statements on many jobs: release, recovery and pruning.
pub mod Valid
pub mod Free
pub mod Expiry
pub mod Owners
use pgspawn.Prelude.{
  ℕ, suc, ◌+◌, ◌*◌, ◌/◌, min, ltb, Bool, true, false, not, ◌&&◌, ◌||◌, Option, none, some, is_some,
  or_else, String, ◌++ₛ◌, text_eq, starts_with, if◌then◌else◌, Result, ok, err, ◌>>=◌, List, [],
  ◌∷◌, any_by, count_by, filter_by,
}
use pgspawn.Prelude.Int.{ℤ, pos, negsuc, ltb_ℤ, ◌-ℤ◌}
use pgspawn.Job.{Timestamp, StdDuration, Job, SqlError, out_of_range}
use pgspawn.Job.Status.{queued, is_terminal}
use pgspawn.Table.{Db, WorkerRow, is_running, update_jobs}

-- `i64::try_from(duration.as_millis()).unwrap_or(i64::MAX)`
unfoldable pub duration_millis_i64 : StdDuration → ℕ
duration_millis_i64 duration = min (duration / 1_000_000) 9_223_372_036_854_775_807

-- `now() - ($1 * interval '1 millisecond')`. An interval holds less than 2 ^ 63 microseconds, a
-- timestamptz begins at the Julian day 0; beyond either PostgreSQL raises an error.
unfoldable pub cutoff : Timestamp → (millis : ℕ) → Result Timestamp SqlError
cutoff now millis =
    if ltb (millis * 1000) 9_223_372_036_854_775_808
    then (if ltb_ℤ (now -ℤ pos (millis * 1000)) (negsuc 210_866_803_199_999_999)
        then err out_of_range
        else ok (now -ℤ pos (millis * 1000)))
    else err out_of_range

-- `locked_by IS NOT NULL AND left(locked_by, length(p)) = p`, at the prefix
-- `{worker_id}:` of the owners of a worker's locks. A text's first length(p) characters are p exactly
-- when p begins it.
abbrev pub begins : Option String → String → Bool
begins none prefix = false
begins (some owner) prefix = starts_with owner prefix

-- `finished_at` or `locked_at` before the cutoff; NULL is not.
abbrev pub older : Timestamp → Option Timestamp → Bool
older t none = false
older t (some s) = ltb_ℤ s t

module _ {Value : Type 0} where
  -- ON CONFLICT (id) DO UPDATE: a heartbeat of a registered worker.
  unfoldable pub beat :
      Timestamp → String → List String → Value → List (WorkerRow Value) → List (WorkerRow Value)
  beat now worker_id task_names metadata [] =
      record {
        id = worker_id;
        task_names = task_names;
        started_at = now;
        last_heartbeat_at = now;
        metadata = metadata;
        created_at = now;
        updated_at = now;
      }
      ∷ []
  beat now worker_id task_names metadata (w ∷ ws) =
      if text_eq w.id worker_id
      then record w {
        task_names = task_names;
        metadata = metadata;
        last_heartbeat_at = now;
        updated_at = now;
      }
        ∷ ws
      else w ∷ beat now worker_id task_names metadata ws

  unfoldable pub register_worker :
      (now : Timestamp) (worker_id : String) (task_names : List String) (metadata : Value)
      (db : Db Value)
      → Db Value
  unfolding beat
  register_worker now worker_id task_names metadata db = record db {
    workers = beat now worker_id task_names metadata db.workers;
  }

  unfoldable pub deregister_worker : (worker_id : String) (db : Db Value) → Db Value
  deregister_worker worker_id db = record db {
    workers = filter_by (λ w. not (text_eq w.id worker_id)) db.workers;
  }

  abbrev pub locked_by_worker : String → Job Value → Bool
  locked_by_worker worker_id j = is_running j.status && begins j.locked_by (worker_id ++ₛ ":")

  -- SET of a release, with the reason that it leaves if the job has no error yet.
  abbrev pub requeue : Timestamp → String → Job Value → Job Value
  requeue now reason j = record j {
    status = queued;
    locked_by = none;
    locked_at = none;
    run_at = now;
    error = some (or_else j.error reason);
  }

  unfoldable pub release_worker_jobs : Timestamp → (worker_id : String) → Db Value → Db Value × ℕ
  release_worker_jobs now worker_id db =
      update_jobs now (locked_by_worker worker_id) (requeue now "released by shutting down worker")
        db

  unfoldable pub force_unlock_worker : Timestamp → (worker_id : String) → Db Value → Db Value × ℕ
  unfolding deregister_worker
  force_unlock_worker now worker_id db =
      update_jobs now (locked_by_worker worker_id) (requeue now "released by operator")
        (deregister_worker worker_id db)

  abbrev pub is_old : Timestamp → Job Value → Bool
  is_old t j = is_terminal j.status && older t j.finished_at

  abbrev pub is_stuck : Timestamp → Job Value → Bool
  is_stuck t j = is_running j.status && older t j.locked_at

  unfoldable pub prune_finished :
      Timestamp → StdDuration → Db Value → Result (Db Value × ℕ) SqlError
  prune_finished now retain_for db = do
    t ← cutoff now (duration_millis_i64 retain_for)
    ok (record db { jobs = filter_by (λ j. not (is_old t j)) db.jobs }, count_by (is_old t) db.jobs)

  unfoldable pub recover_stale : Timestamp → StdDuration → Db Value → Result (Db Value × ℕ) SqlError
  recover_stale now stale_after db = do
    t ← cutoff now (duration_millis_i64 stale_after)
    ok (update_jobs now (is_stuck t) (requeue now "recovered stale running job") db)

  abbrev pub is_stale : Timestamp → WorkerRow Value → Bool
  is_stale t w = ltb_ℤ w.last_heartbeat_at t

  -- The deleted workers that a job's lock belongs to.
  abbrev pub locked_by_any : List (WorkerRow Value) → Job Value → Bool
  locked_by_any ws j = any_by (λ w. locked_by_worker w.id j) ws

  unfoldable pub recover_dead_workers :
      Timestamp → StdDuration → Db Value → Result (Db Value × ℕ) SqlError
  recover_dead_workers now stale_after db = do
    t ← cutoff now (duration_millis_i64 stale_after)
    let stale = filter_by (is_stale t) db.workers
    ok (
        update_jobs now (locked_by_any stale) (requeue now "recovered dead worker job")
          (record db { workers = filter_by (λ w. not (is_stale t w)) db.workers }))
