-- ===== src/Examples/Inserts.antt =====
-- The theorems on inserts and cron occurrences at the example table.
use pgspawn.Prelude.{◌≡◌, refl, some, String, [], ◌∷◌, ◌++◌, ok, arith, true}
use pgspawn.Prelude.Int.{pos}
use pgspawn.Job.{Job, EnqueueOptions, default_options}
use pgspawn.Job.KeyMode.{replace}
use pgspawn.Schedule.{CronJob, interval}
use pgspawn.Environment.{production}
use pgspawn.Table.{Db, update_jobs, update_rows}
use pgspawn.Table.Lookup.{by_id}
use pgspawn.Queue.Manage.{cancel}
use pgspawn.Queue.Insert.{proposed, on_conflict, upsert, insert_job}
use pgspawn.Queue.Insert.Keys.{Resolves, insert_job-Resolves}
use pgspawn.Queue.Insert.Modes.{merged, on_conflict-merged}
use pgspawn.Queue.Cron.{
  enqueued, skipped, try_enqueue_cron, claim_cron, enqueue_claimed, new_cron, cron_row,
}
use pgspawn.Queue.Cron.Once.{try_enqueue_cron-once}
use pgspawn.Queue.Steps.{here, next, cancels}
use pgspawn.Examples.Jobs.{some_jobs, some_jobs-IsValid, some_exp, waiting}

abbrev welcome_again : EnqueueOptions
welcome_again = record default_options {
  job_key = some "welcome";
  job_key_mode = replace;
  run_at = some (pos 5000);
}

abbrev request : Job String
request = proposed (pos 2000) 9 "send" "[]" welcome_again (pos 5000)

abbrev changed : Db String
changed = (update_jobs (pos 2000) (by_id 1) (on_conflict replace request) some_jobs).0

-- The key "welcome" is a queued job's already, and a finished job's, which does not count.
inserted_again :
    insert_job (pos 1999) (pos 2000) 9 "send" "[]" welcome_again some_jobs ≡ ok (1, changed)
unfolding insert_job upsert update_jobs update_rows
inserted_again = refl

insert_job-Resolves_example : Resolves (pos 2000) replace request some_jobs 1 changed
insert_job-Resolves_example =
    insert_job-Resolves (pos 1999) (pos 2000) 9 "send" "[]" welcome_again some_jobs
      some_jobs-IsValid inserted_again

on_conflict-merged_example : on_conflict replace request waiting ≡ merged replace request waiting
on_conflict-merged_example = on_conflict-merged replace request waiting

abbrev pub hourly : CronJob String Unit
hourly = record {
  identifier = "clean";
  name = "send";
  payload = "{}";
  schedule = interval 3_600_000_000_000;
  options = default_options;
  catch_up_on_start = true;
  environments = production ∷ [];
}

abbrev clean_up : Db String
clean_up = record some_jobs {
  jobs = some_jobs.jobs ++ cron_row (pos 3_600_000_100) 7 hourly (pos 3_600_000_000) ∷ [];
  crons = new_cron (pos 3_600_000_100) hourly (pos 3_600_000_000) (pos 7_200_000_000) ∷ [];
}

enqueued_hour :
    try_enqueue_cron (pos 3_600_000_100) 7 hourly (pos 3_600_000_000) (pos 7_200_000_000) some_jobs
    ≡ ok (enqueued 7, clean_up)
unfolding try_enqueue_cron claim_cron enqueue_claimed upsert
enqueued_hour = refl

-- Another worker tries the same occurrence after the job has been cancelled.
try_enqueue_cron-once_example :
    try_enqueue_cron
      (pos 3_600_000_900)
      8
      hourly
      (pos 3_600_000_000)
      (pos 7_200_000_000)
      (cancel (pos 3_600_000_500) 7 clean_up).1
    ≡ ok (skipped, (cancel (pos 3_600_000_500) 7 clean_up).1)
try_enqueue_cron-once_example =
    try_enqueue_cron-once some_exp (pos 3_600_000_100) (pos 3_600_000_900) 7 8 hourly hourly
      (pos 3_600_000_000) (pos 3_600_000_000) (pos 7_200_000_000) (pos 7_200_000_000) some_jobs refl
      (omega arith) enqueued_hour (next here (cancels (pos 3_600_000_500) 7))
