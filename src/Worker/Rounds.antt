-- ===== src/Worker/Rounds.antt =====
-- src/worker.rs: the heartbeat, recovery, cron and summary loops, told by how their waits end and what each
-- round finds. A loop that has not stopped yet still waits at the end of the list.
pub mod Recovers
use pgspawn.Prelude.{ℕ, Bool, true, false, Option, List, [], ◌∷◌, ◌++◌, String, if◌then◌else◌}
use pgspawn.Job.{Timestamp, Uuid}
use pgspawn.Schedule.{Jiff, CronJob}
use pgspawn.Table.{Db}
use pgspawn.Worker.Config.{WorkerConfig}
use pgspawn.Worker.Loops.{Turn, heartbeat_round, recovery_round, enqueue_due_crons}
use pgspawn.Worker.Run.{Reply}
use pgspawn.Worker.Shutdown.{Watch, tells_stop}
use pgspawn.Worker.Summary.{Summaries, JobSummary, emit_job_summaries}

-- The end of a wait: the sleep or the tick, or `shutdown.changed()`.
pub data Wake : Type 0 where
  elapsed : Wake
  changed : Watch → Wake

abbrev pub breaks_off : Wake → Bool
breaks_off elapsed = false
breaks_off (changed shutdown) = tells_stop shutdown

module _ {Value : Type 0} where
  -- Each wait with what other clients have done to the tables meanwhile, and the time and the reply of the
  -- round that follows, if the loop goes on.
  unfoldable pub run_heartbeat_loop :
      WorkerConfig
      → (task_names : List String) (empty : Value)
      → List (Wake × (Db Value → Db Value) × Timestamp × Reply)
      → Db Value
      → Db Value
  unfolding heartbeat_round
  run_heartbeat_loop config task_names empty [] db = db
  run_heartbeat_loop config task_names empty ((wake, meanwhile, now, reply) ∷ rest) db =
      let on =
        run_heartbeat_loop config task_names empty rest
          (heartbeat_round now config task_names empty reply (meanwhile db)) in
      if breaks_off wake then meanwhile db else on

  -- The second component counts the wakes of the claim loops.
  unfoldable pub run_recovery_loop :
      WorkerConfig
      → List (Wake × (Db Value → Db Value) × (Turn Value × Turn Value × Turn Value))
      → Db Value × ℕ
      → Db Value × ℕ
  unfolding recovery_round
  run_recovery_loop config [] s = s
  run_recovery_loop config ((wake, meanwhile, turns) ∷ rest) (db, wakes) =
      let on = run_recovery_loop config rest (recovery_round turns config (meanwhile db, wakes)) in
      if breaks_off wake then (meanwhile db, wakes) else on

  module _ (J : Jiff) where
    -- A round comes before the wait, and the head of the loop looks at the channel again; `head` is its
    -- value there, and `polls` are the crons with the ids and times of their statements.
    unfoldable pub run_cron_loop :
        List (
          (head : Bool) × (Db Value → Db Value)
          × (clock : Timestamp) × List (CronJob Value J.TimeZone × (Uuid × Timestamp))
          × Wake)
        → Db Value × ℕ
        → Db Value × ℕ
    unfolding enqueue_due_crons
    run_cron_loop [] s = s
    run_cron_loop ((head, meanwhile, clock, polls, wake) ∷ rest) (db, wakes) =
        let polled = enqueue_due_crons J clock polls (meanwhile db, wakes) in
        let on = run_cron_loop rest polled in
        if head then (meanwhile db, wakes) else if breaks_off wake then polled else on

-- The reports in their order. A change of the channel that does not stop the loop reports nothing. The
-- map is what the runs of jobs have made of it when the wait ends.
unfoldable pub run_job_summary_loop :
    List (Wake × (Summaries → Summaries))
    → Summaries
    → List (List (String × (JobSummary × Option ℕ))) × Summaries
unfolding emit_job_summaries
run_job_summary_loop [] job_summaries = ([], job_summaries)
run_job_summary_loop ((elapsed, runs) ∷ rest) job_summaries =
    let (reported, left) = emit_job_summaries (runs job_summaries) in
    let (reports, last) = run_job_summary_loop rest left in (reported ∷ reports, last)
run_job_summary_loop ((changed shutdown, runs) ∷ rest) job_summaries =
    let on = run_job_summary_loop rest (runs job_summaries) in
    if tells_stop shutdown then ([], runs job_summaries) else on
