-- ===== src/Examples/Jobs.antt =====
-- A table with a running job of the queue "mail", a queued job of the same queue, two queued jobs without
-- one, and a finished job.
use pgspawn.Prelude.{ℕ, ◌*◌, ◌==◌, ◌≡◌, refl, false, none, some, String, [], ◌∷◌, arith}
use pgspawn.Prelude.Int.{pos}
use pgspawn.Job.{Job}
use pgspawn.Job.Status.{queued, running, succeeded}
use pgspawn.Table.{Db, clash_key, clash_queue}
use pgspawn.Table.Valid.{IsValid, RowOk, Compatible}

abbrev pub waiting : Job String
waiting = record {
  id = 1;
  name = "send";
  status = queued;
  payload = "{}";
  queue_name = none;
  priority = pos 0;
  run_at = pos 1000;
  job_key = some "welcome";
  attempt = 0;
  max_attempts = pos 2;
  locked_by = none;
  locked_at = none;
  error = none;
  queued_at = pos 1000;
  started_at = none;
  finished_at = none;
  created_at = pos 1000;
  updated_at = pos 1000;
}

abbrev pub urgent : Job String
urgent = record waiting { id = 2; job_key = none; priority = pos 0; run_at = pos 900 }

abbrev pub busy : Job String
busy = record waiting {
  id = 3;
  job_key = none;
  queue_name = some "mail";
  status = running;
  attempt = 1;
  locked_by = some "w:1";
  locked_at = some (pos 1500);
  started_at = some (pos 1500);
}

abbrev pub behind : Job String
behind = record waiting { id = 4; job_key = none; queue_name = some "mail"; run_at = pos 800 }

abbrev pub over : Job String
over = record waiting { id = 5; status = succeeded; attempt = 1; finished_at = some (pos 1700) }

abbrev pub some_jobs : Db String
some_jobs = record { jobs = waiting ∷ urgent ∷ busy ∷ behind ∷ over ∷ []; workers = []; crons = [] }

abbrev pub some_exp : ℕ → ℕ
some_exp n = n * 1_000_000

waiting-RowOk : RowOk waiting
waiting-RowOk = record {
  running_locked = λ h. ground arith;
  idle_unlocked = λ h. (refl, refl);
  terminal_finished = λ h. ground arith;
  open_unfinished = λ h. refl;
  attempts_allowed = omega arith;
}

urgent-RowOk : RowOk urgent
urgent-RowOk = record {
  running_locked = λ h. ground arith;
  idle_unlocked = λ h. (refl, refl);
  terminal_finished = λ h. ground arith;
  open_unfinished = λ h. refl;
  attempts_allowed = omega arith;
}

busy-RowOk : RowOk busy
busy-RowOk = record {
  running_locked = λ h. (refl, refl);
  idle_unlocked = λ h. ground arith;
  terminal_finished = λ h. ground arith;
  open_unfinished = λ h. refl;
  attempts_allowed = omega arith;
}

behind-RowOk : RowOk behind
behind-RowOk = record {
  running_locked = λ h. ground arith;
  idle_unlocked = λ h. (refl, refl);
  terminal_finished = λ h. ground arith;
  open_unfinished = λ h. refl;
  attempts_allowed = omega arith;
}

over-RowOk : RowOk over
over-RowOk = record {
  running_locked = λ h. ground arith;
  idle_unlocked = λ h. (refl, refl);
  terminal_finished = λ h. refl;
  open_unfinished = λ h. ground arith;
  attempts_allowed = omega arith;
}

apart :
    {r s : Job String}
    → (r.id == s.id) ≡ false
    → clash_key r s ≡ false
    → clash_queue r s ≡ false
    → Compatible r s
apart i k q = record { ids = i; keys = k; queues = q }

pub some_jobs-IsValid : IsValid some_jobs
some_jobs-IsValid = record {
  rows = (waiting-RowOk, (urgent-RowOk, (busy-RowOk, (behind-RowOk, (over-RowOk, tt)))));
  pairs = (
    (
      apart refl refl refl,
      (apart refl refl refl, (apart refl refl refl, (apart refl refl refl, tt))),
    ),
    (
      (apart refl refl refl, (apart refl refl refl, (apart refl refl refl, tt))),
      ((apart refl refl refl, (apart refl refl refl, tt)), ((apart refl refl refl, tt), (tt, tt))),
    ),
  );
}
