-- ===== src/Examples/Loops.antt =====
-- The theorems on a job's life, on notifications, and on the worker's loops and its end.
use pgspawn.Prelude.{
  ℕ, ◌+◌, ◌≤◌, ◌≡◌, ◌⊎◌, ◌↔◌, refl, true, false, some, String, ok, [], ◌∷◌, arith,
}
use pgspawn.Prelude.Int.{pos, ◌+ℤ◌, ◌-ℤ◌, ◌<ℤ◌}
use pgspawn.Job.{Job, protocol}
use pgspawn.Table.{Db, update_jobs, update_rows}
use pgspawn.Table.Valid.{IsValid}
use pgspawn.Table.Lookup.{find_id}
use pgspawn.Queue.Manage.{complete_locked, renew_lock}
use pgspawn.Queue.Claim.{
  can_claim, candidate, first_free, in_order, claim_next, next_runnable_in, min_run_at,
}
use pgspawn.Queue.Steps.{Step, completes_locked, renews}
use pgspawn.Queue.Life.{Lives}
use pgspawn.Queue.Life.Steps.{Step-Lives}
use pgspawn.Queue.Notify.{update_notifies, row_notifies}
use pgspawn.Queue.Notify.Steps.{notified, notified-claimable}
use pgspawn.Schedule.Build.{is_enabled_in}
use pgspawn.Worker.Config.{validate}
use pgspawn.Worker.Loops.{idle_wait_duration}
use pgspawn.Worker.Run.{delivered}
use pgspawn.Worker.Start.{start_crons, check_crons}
use pgspawn.Worker.Stop.{
  Ends, requested, answered, failed_before, run_until_shutdown, AllWell, IsFree, IsGone,
  run_until_shutdown-cleans,
}
use pgspawn.Worker.Claims.{
  System, sleep_until, checking, waiting, listening, arm, claim_result, inspect, stopped,
}
use pgspawn.Worker.Claims.Moves.{Run, here, own, arms, begins, claims, looks, inspects}
use pgspawn.Worker.Claims.Idle.{CouldClaim, Run-idle}
use pgspawn.Worker.Claims.Stops.{own_moves, Next, Run-stops}
use pgspawn.Examples.Jobs.{some_jobs, some_exp, some_jobs-IsValid, urgent}
use pgspawn.Examples.Inserts.{hourly}
use pgspawn.Examples.Runs.{some_config}

Step-Lives_example : Lives some_jobs (complete_locked (pos 2000) 3 "w:1" some_jobs).1
Step-Lives_example =
    Step-Lives {TimeZone = ℕ} some_exp (completes_locked (pos 2000) 3 "w:1") some_jobs-IsValid

abbrev renewal : Step ℕ some_exp some_jobs (renew_lock (pos 2000) 3 "w:1" some_jobs).1
renewal = renews (pos 2000) 3 "w:1"

silent : notified some_exp renewal ≡ false
unfolding notified update_notifies row_notifies
silent = refl

still_claimable :
    can_claim ("send" ∷ []) (pos 2000) (renew_lock (pos 2000) 3 "w:1" some_jobs).1.jobs urgent
    ≡ true
unfolding can_claim renew_lock update_jobs update_rows
still_claimable = refl

still_there : find_id 2 (renew_lock (pos 2000) 3 "w:1" some_jobs).1 ≡ some urgent
unfolding renew_lock update_jobs update_rows
still_there = refl

notified-claimable_example :
    (old : Job String) × (find_id 2 some_jobs ≡ some old)
    × (can_claim ("send" ∷ []) (pos 2000) some_jobs.jobs old ≡ true)
notified-claimable_example =
    notified-claimable some_exp renewal some_jobs-IsValid silent ("send" ∷ []) (pos 2000) 2 urgent
      still_there still_claimable

-- The only job is due in four milliseconds.
abbrev later_job : Job String
later_job = record urgent { run_at = pos 9000 }

abbrev one_job : Db String
one_job = record { jobs = later_job ∷ []; workers = []; crons = [] }

one_job-IsValid : IsValid one_job
one_job-IsValid = record {
  rows = (
    record {
      running_locked = λ h. ground arith;
      idle_unlocked = λ h. (refl, refl);
      terminal_finished = λ h. ground arith;
      open_unfinished = λ h. refl;
      attempts_allowed = omega arith;
    },
    tt,
  );
  pairs = (tt, tt);
}

abbrev before_loop : System String
before_loop = record {
  db = one_job;
  clock = pos 5000;
  shutdown = record { value = false; closed = false };
  phase = checking;
  listener = listening;
  woken = false;
  pending = false;
  missed = false;
}

abbrev asleep : System String
asleep = record before_loop {
  phase = waiting one_job (some (pos 5000, one_job)) (pos 5000) 4_000_000;
}

falls_asleep : Run ℕ some_exp some_config ("send" ∷ []) "w:2" before_loop asleep
unfolding arm claim_result inspect claim_next candidate first_free in_order can_claim
    next_runnable_in min_run_at idle_wait_duration ◌+ℤ◌ ◌-ℤ◌
falls_asleep =
    own
      (own
        (own (own (own here (arms refl)) (begins refl))
          (claims one_job (pos 5000) (λ k. false) delivered refl))
        (looks one_job refl))
      (inspects one_job (pos 5000, one_job) refl)

claimable_then : can_claim ("send" ∷ []) (pos 9000) one_job.jobs later_job ≡ true
unfolding can_claim
claimable_then = refl

Run-idle_example :
    (4_000_000 ≤ some_config.poll_interval)
    × (CouldClaim ("send" ∷ []) (pos 5000) one_job
        ⊎ (sleep_until (pos 5000) 4_000_000 <ℤ pos 9000 +ℤ pos 1000))
Run-idle_example =
    Run-idle ℕ some_exp some_config ("send" ∷ []) "w:2" (pos 5000) (pos 5000) (pos 9000) 4_000_000 2
      later_job one_job-IsValid refl falls_asleep refl refl refl claimable_then

abbrev told_to_stop : System String
told_to_stop = record before_loop { shutdown = record { value = true; closed = false } }

abbrev at_an_end : System String
at_an_end = record told_to_stop { phase = stopped }

stops_at_once : Run ℕ some_exp some_config ("send" ∷ []) "w:2" told_to_stop at_an_end
unfolding arm
stops_at_once = own here (arms refl)

Run-stops_example :
    (own_moves ℕ some_exp some_config ("send" ∷ []) "w:2" stops_at_once + 0 ≤ 1)
    × (1 ≤ 6)
    × ((at_an_end.phase ≡ stopped) ⊎ Next ℕ some_exp some_config ("send" ∷ []) "w:2" at_an_end)
Run-stops_example = Run-stops ℕ some_exp some_config ("send" ∷ []) "w:2" stops_at_once refl

-- A shutdown during which the deregistration is lost.
abbrev some_ends : Ends String
some_ends = record {
  cause = requested;
  meanwhile = λ d. d;
  now = pos 3000;
  release = answered;
  between = λ d. d;
  deregister = failed_before (protocol "lost");
}

starts : start_crons some_config ("send" ∷ []) (hourly ∷ []) ≡ ok (hourly ∷ [])
unfolding start_crons validate check_crons is_enabled_in
starts = refl

run_until_shutdown-cleans_example :
    let (result, db') =
      run_until_shutdown some_config
        ("send" ∷ [])
        (hourly ∷ [])
        "{}"
        (pos 100)
        answered
        some_ends
        some_jobs in
    ((result ≡ ok tt) ↔ AllWell requested answered (failed_before (protocol "lost")))
    × ((true ≡ false) ⊎ IsFree some_config.worker_id db')
    × ((false ≡ false) ⊎ IsGone some_config.worker_id db')
run_until_shutdown-cleans_example =
    run_until_shutdown-cleans some_config ("send" ∷ []) (hourly ∷ []) (hourly ∷ []) "{}" (pos 100)
      some_ends some_jobs starts (λ d h. h)
