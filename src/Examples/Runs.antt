-- ===== src/Examples/Runs.antt =====
-- The theorems on the worker, at runs over the example table.
use pgspawn.Prelude.{
  ◌≡◌, ◌↔◌, refl, true, some, String, text_eq, List, [], ◌∷◌, ok, err, Result, arith, if◌then◌else◌,
}
use pgspawn.Prelude.Int.{pos}
use pgspawn.Job.{Job}
use pgspawn.Schedule.{latest_due_at, latest_interval_due_at, next_after, next_interval_after}
use pgspawn.Queue.Cron.{try_enqueue_cron, claim_cron, enqueue_claimed}
use pgspawn.Queue.Insert.{upsert}
use pgspawn.Environment.{production}
use pgspawn.Table.{touch}
use pgspawn.Table.Lookup.{find_id}
use pgspawn.Registry.{Handlers, JobHandler, get, register_typed, decoded, register_typed-decodes}
use pgspawn.Worker.Config.{WorkerConfig, default_config}
use pgspawn.Worker.Selected.{IsSelection, start_crons-IsSelection}
use pgspawn.Worker.Start.{start_crons, Starts}
use pgspawn.Worker.Summary.{summary_of}
use pgspawn.Worker.Run.{Tick, State, returned, crashed, delivered, lost_after, run_claimed_job}
use pgspawn.Worker.Outcome.{Spares, verdict, run_claimed_job-verdict}
use pgspawn.Worker.Lost.{run_claimed_job-IsLost}
use pgspawn.Worker.Tally.{CountsOne, HasRoom, run_claimed_job-CountsOne}
use pgspawn.Worker.Loops.{poll_cron, enqueue_due_crons}
use pgspawn.Worker.Loops.Crons.{Poll, round_ok, enqueue_due_crons-twice}
use pgspawn.Examples.Jobs.{some_jobs, some_jobs-IsValid, some_exp, busy}
use pgspawn.Examples.Inserts.{hourly}
use pgspawn.Examples.Calendar.{calendar}

abbrev times_out : JobHandler String
times_out job = err "timeout"

abbrev some_handlers : Handlers String
some_handlers = ("send", times_out) ∷ []

-- Nothing else happens; the answer is lost once.
abbrev renewal : Tick String
renewal = record { meanwhile = λ d. d; now = pos 1600; elapsed_ms = 30_000; reply = lost_after }

abbrev end : Tick String
end = record { meanwhile = λ d. d; now = pos 1700; elapsed_ms = 31_000; reply = delivered }

abbrev before : State String
before = record { db = some_jobs; summaries = []; wakes = 0 }

spares : (t : Tick String) → (Spares some_exp "w:1" busy renewal) × Spares some_exp "w:1" busy end
spares t = (
  record { valid_kept = λ d v. v; row_kept = λ d. refl },
  record { valid_kept = λ d v. v; row_kept = λ d. refl },
)

has_handler : get some_handlers busy.name ≡ some times_out
unfolding get
has_handler = refl

run_claimed_job-verdict_example :
    find_id 3
      (run_claimed_job some_exp "w:1" busy some_handlers returned (renewal ∷ []) end before).db
    ≡ some (touch (pos 1700) (verdict some_exp "w:1" busy returned (err "timeout") (pos 1700) busy))
run_claimed_job-verdict_example =
    run_claimed_job-verdict some_exp "w:1" busy some_handlers returned (renewal ∷ []) end before
      has_handler some_jobs-IsValid refl refl refl ((spares end).0, tt) (spares end).1 refl

run_claimed_job-IsLost_example :
    (run_claimed_job some_exp "w:9" busy some_handlers
      (crashed "panic")
      (renewal ∷ [])
      end
      before).db
    ≡ some_jobs
run_claimed_job-IsLost_example =
    run_claimed_job-IsLost some_exp "w:9" busy some_handlers (crashed "panic") (renewal ∷ []) end
      before some_jobs-IsValid refl ((λ d. refl), tt) (λ d. refl)

room : HasRoom (summary_of "send" [])
unfolding summary_of
room = (omega arith, omega arith, omega arith, omega arith, omega arith, omega arith, omega arith)

run_claimed_job-CountsOne_example : CountsOne (summary_of "send" []) (
    summary_of "send"
      (run_claimed_job some_exp "w:1" busy some_handlers returned
        (renewal ∷ [])
        end
        before).summaries)
run_claimed_job-CountsOne_example =
    run_claimed_job-CountsOne some_exp "w:1" busy some_handlers returned (renewal ∷ []) end before
      has_handler room

abbrev pub some_config : WorkerConfig
some_config = record (default_config "1") { environment = some production }

start_crons-IsSelection_example :
    (start_crons some_config ("send" ∷ []) (hourly ∷ []) ≡ ok (hourly ∷ [])) ↔ (
      Starts some_config ("send" ∷ []) (hourly ∷ [])
      × IsSelection some_config.environment (hourly ∷ []) (hourly ∷ []))
start_crons-IsSelection_example =
    start_crons-IsSelection some_config ("send" ∷ []) (hourly ∷ []) (hourly ∷ [])

abbrev decode : Job String → Result String String
decode job = ok job.payload

abbrev answers : Job String → String → Result (Unit {0}) String
answers job payload = if text_eq payload "{}" then err "empty" else ok tt

register_typed-decodes_example :
    (h : JobHandler String) × ((other : String)
      → get (register_typed decode (λ e. e) "send" answers some_handlers) other
        ≡ (if text_eq "send" other then some h else get some_handlers other))
    × ((job : Job String) → h job ≡ decoded (λ e. e) (answers job) (decode job))
register_typed-decodes_example = register_typed-decodes decode (λ e. e) "send" answers some_handlers

abbrev one_poll : List (Poll calendar String)
one_poll = (hourly, (7, pos 3_600_000_100)) ∷ []

abbrev other_poll : List (Poll calendar String)
other_poll = (hourly, (8, pos 3_600_000_200)) ∷ []

no_error : round_ok calendar (pos 3_600_000_050) one_poll (some_jobs, 0) ≡ true
unfolding poll_cron latest_due_at latest_interval_due_at next_after next_interval_after
    try_enqueue_cron claim_cron enqueue_claimed upsert
no_error = refl

enqueue_due_crons-twice_example :
    enqueue_due_crons calendar
      (pos 3_600_000_050)
      other_poll
      (enqueue_due_crons calendar (pos 3_600_000_050) one_poll (some_jobs, 0))
    ≡ enqueue_due_crons calendar (pos 3_600_000_050) one_poll (some_jobs, 0)
enqueue_due_crons-twice_example =
    enqueue_due_crons-twice calendar (pos 3_600_000_050) one_poll other_poll (some_jobs, 0) no_error
      refl
