-- ===== src/Examples/Spares.antt =====
-- The theorems on retry, recovery and live workers, and on the reports of the summaries.
use pgspawn.Prelude.{
  arith, ◌≡◌, ◌⊎◌, refl, true, false, some, String, ok, [], ◌∷◌, ℕ, filter_by, text_eq,
}
use pgspawn.Prelude.Int.{pos, ◌-ℤ◌}
use pgspawn.Job.{Timestamp, Job}
use pgspawn.Table.{Db, WorkerRow}
use pgspawn.Table.Lookup.{find_id}
use pgspawn.Queue.Manage.{permanently_fail}
use pgspawn.Queue.Recover.{cutoff, duration_millis_i64, recover_dead_workers}
use pgspawn.Worker.Config.{default_config, from_secs}
use pgspawn.Worker.Loops.{Turn, recovery_round}
use pgspawn.Worker.Run.{Reply, delivered, lost_before, lost_after}
use pgspawn.Worker.Rounds.Recovers.{IsRecovered, recovery_round-IsRecovered}
use pgspawn.Worker.Reports.{drain_job_summaries-reports}
use pgspawn.Worker.Summary.{
  Summaries, default_summary, summary_of, is_reported, drain_job_summaries, record_job_started,
  record_job_succeeded, update_entry,
}
use pgspawn.Worker.Alive.{recover_dead_workers-spares}
use pgspawn.Examples.Jobs.{some_jobs, busy}

abbrev failed_jobs : Db String
failed_jobs = (permanently_fail (pos 2000) 3 "lost" some_jobs).1

abbrev alive : WorkerRow String
alive = record {
  id = "w";
  task_names = "send" ∷ [];
  started_at = pos 0;
  last_heartbeat_at = pos 500_000_000;
  metadata = "{}";
  created_at = pos 0;
  updated_at = pos 500_000_000;
}

abbrev dead : WorkerRow String
dead = record alive { id = "v"; last_heartbeat_at = pos 100 }

abbrev own_job : Job String
own_job = record busy { locked_by = some "w:0:a1" }

abbrev two_workers : Db String
two_workers = record { jobs = own_job ∷ []; workers = dead ∷ alive ∷ []; crons = [] }

cut : cutoff (pos 1_000_000_000) (duration_millis_i64 (from_secs 600)) ≡ ok (pos 400_000_000)
unfolding cutoff duration_millis_i64 ◌-ℤ◌
cut = refl

recover_dead_workers-spares_example :
    (db' : Db String) × (n : ℕ) × (recover_dead_workers
        (pos 1_000_000_000)
        (from_secs 600)
        two_workers
      ≡ ok (db', n))
    × (find_id 3 db' ≡ some own_job)
    × (filter_by (λ w. text_eq w.id "w") db'.workers ≡ alive ∷ [])
recover_dead_workers-spares_example =
    recover_dead_workers-spares (pos 1_000_000_000) (from_secs 600) "w" "0" "a1" 3 two_workers cut
      (refl, (refl, tt)) refl (refl, (refl, tt)) refl refl

-- The second statement comes half a minute later, and its answer is lost.
abbrev turn_at : Timestamp → Reply → Turn String
turn_at now reply = record { meanwhile = λ db. db; now = now; reply = reply }

later_cut :
    cutoff (pos 1_030_000_000) (duration_millis_i64 (default_config "1").stale_after)
    ≡ ok (pos 430_000_000)
unfolding cutoff duration_millis_i64 ◌-ℤ◌
later_cut = refl

recovery_round-IsRecovered_example :
    IsRecovered
      (pos 400_000_000)
      (pos 430_000_000)
      (dead ∷ [])
      (recovery_round
        (
          turn_at (pos 1_000_000_000) delivered,
          turn_at (pos 1_030_000_000) lost_after,
          turn_at (pos 1_060_000_000) lost_before,
        )
        (default_config "1")
        (two_workers, 0)).0
recovery_round-IsRecovered_example =
    recovery_round-IsRecovered (turn_at (pos 1_000_000_000) delivered)
      (turn_at (pos 1_030_000_000) lost_after) (turn_at (pos 1_060_000_000) lost_before)
      (default_config "1") (two_workers, 0) cut later_cut (λ e. ground (arith, e))
      (λ e. ground (arith, e)) (λ db. refl) (λ db. refl)

-- A run that started in one window and ended in the next, in which nothing else happened.
abbrev spanning : Summaries
spanning = ("send", record default_summary { succeeded = 1; total_elapsed_ms = 5 }) ∷ []

spans_windows :
    record_job_succeeded "send" 5 (drain_job_summaries (record_job_started "send" [])).1 ≡ spanning
unfolding record_job_succeeded record_job_started drain_job_summaries update_entry
spans_windows = refl

drain_job_summaries-reports_example :
    let before = summary_of "send" spanning in
    let reported = summary_of "send" (drain_job_summaries spanning).0 in
    let left = summary_of "send" (drain_job_summaries spanning).1 in
    ((is_reported before ≡ true)
      × (reported ≡ before)
      × (left ≡ record default_summary { running = before.running }))
    ⊎ ((is_reported before ≡ false) × (reported ≡ default_summary) × (left ≡ default_summary))
drain_job_summaries-reports_example = drain_job_summaries-reports "send" spanning (tt, tt)
