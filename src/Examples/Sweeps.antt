-- ===== src/Examples/Sweeps.antt =====
-- The theorems on waits, pruning and recovery at the example table.
use pgspawn.Prelude.{
  ℕ, ◌+◌, ◌≡◌, ◌⊎◌, refl, false, none, some, ok, String, [], ◌∷◌, All, length, filter_by, count_by,
}
use pgspawn.Prelude.Int.{pos, ◌-ℤ◌}
use pgspawn.Job.{Timestamp, Uuid}
use pgspawn.Table.{Db, WorkerRow}
use pgspawn.Table.Lookup.{find_id}
use pgspawn.Queue.Claim.{next_runnable_in, from_millis}
use pgspawn.Queue.Claim.Wait.{waits_for, Earliest, Reaches, next_runnable_in-Reaches}
use pgspawn.Queue.Recover.{
  cutoff, duration_millis_i64, is_stale, locked_by_any, prune_finished, recover_dead_workers,
}
use pgspawn.Queue.Recover.Free.{recover_dead_workers-frees}
use pgspawn.Queue.Recover.Expiry.{IsPruned, prune_finished-expires}
use pgspawn.Examples.Jobs.{some_jobs, some_jobs-IsValid}

next_runnable_in-Reaches_example :
    let waiting = filter_by (waits_for ("send" ∷ []) some_jobs.jobs) some_jobs.jobs in
    ((waiting ≡ []) × (next_runnable_in (pos 500) ("send" ∷ []) some_jobs ≡ none))
    ⊎ ((m : Timestamp) × Earliest m waiting
        × ((k : ℕ) × (next_runnable_in (pos 500) ("send" ∷ []) some_jobs ≡ some (from_millis k))
            × Reaches (pos 500) m k))
next_runnable_in-Reaches_example = next_runnable_in-Reaches (pos 500) ("send" ∷ []) some_jobs

cut : cutoff (pos 1_000_000) (duration_millis_i64 990_000_000) ≡ ok (pos 10_000)
unfolding cutoff duration_millis_i64 ◌-ℤ◌
cut = refl

prune_finished-expires_example :
    (db' : Db String) × (n : ℕ) × (prune_finished (pos 1_000_000) 990_000_000 some_jobs
      ≡ ok (db', n))
    × (length db'.jobs + n ≡ length some_jobs.jobs)
    × ((k : Uuid) → IsPruned (pos 10_000) (find_id k some_jobs) (find_id k db'))
prune_finished-expires_example =
    prune_finished-expires (pos 1_000_000) 990_000_000 some_jobs some_jobs-IsValid cut

abbrev dead : WorkerRow String
dead = record {
  id = "w";
  task_names = "send" ∷ [];
  started_at = pos 100;
  last_heartbeat_at = pos 200;
  metadata = "{}";
  created_at = pos 100;
  updated_at = pos 200;
}

abbrev with_dead : Db String
with_dead = record some_jobs { workers = dead ∷ [] }

recover_dead_workers-frees_example :
    (db' : Db String) × (n : ℕ) × (recover_dead_workers (pos 1_000_000) 990_000_000 with_dead
      ≡ ok (db', n))
    × All (λ w. is_stale (pos 10_000) w ≡ false) db'.workers
    × All
        (λ j. locked_by_any (filter_by (is_stale (pos 10_000)) with_dead.workers) j ≡ false)
        db'.jobs
    × (n
        ≡ count_by
            (locked_by_any (filter_by (is_stale (pos 10_000)) with_dead.workers))
            with_dead.jobs)
recover_dead_workers-frees_example =
    recover_dead_workers-frees (pos 1_000_000) 990_000_000 with_dead cut
