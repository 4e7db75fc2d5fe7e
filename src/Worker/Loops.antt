-- ===== src/Worker/Loops.antt =====
-- src/worker.rs: the waits of the loops and what one round of each does to the tables. A round's
-- statements run at the given times; an error of a statement is logged and leaves the tables.
pub mod Waits
pub mod Crons
use pgspawn.Prelude.{
  ℕ, zero, suc, ◌+◌, ◌*◌, ◌==◌, ltb, min, Bool, true, false, Option, none, some, Result, ok, err,
  List, [], ◌∷◌, if◌then◌else◌, String,
}
use pgspawn.Job.{Timestamp, StdDuration, Uuid, SqlError}
use pgspawn.Schedule.{Jiff, CronJob, latest_due_at, next_after}
use pgspawn.Table.{Db}
use pgspawn.Queue.Cron.{CronEnqueueResult, enqueued, already_queued, skipped, try_enqueue_cron}
use pgspawn.Queue.Recover.{register_worker, recover_dead_workers, recover_stale, prune_finished}
use pgspawn.Worker.Config.{WorkerConfig, from_secs}
use pgspawn.Worker.Run.{Reply, delivered, lost_before, lost_after, answer}

abbrev pub database_retry_interval : StdDuration
database_retry_interval = from_secs 2

-- `MAX_RECONNECT_DELAY`
abbrev pub max_reconnect_delay : StdDuration
max_reconnect_delay = from_secs 30

unfoldable pub idle_wait_duration :
    (next_run_in : Option StdDuration) (poll_interval : StdDuration) → StdDuration
idle_wait_duration none poll_interval = poll_interval
idle_wait_duration (some until_due) poll_interval =
    if until_due == 0 then poll_interval else min until_due poll_interval

-- The largest `Duration`: `saturating_mul` stops there.
abbrev pub max_duration : StdDuration
max_duration = 18_446_744_073_709_551_615 * 1_000_000_000 + 999_999_999

-- The delay after one more failed attempt of the listener to connect.
unfoldable pub next_delay : StdDuration → StdDuration
next_delay reconnect_delay = min (min (reconnect_delay * 2) max_duration) max_reconnect_delay

-- What a wait of the claim loop is bounded by; an error of the query means a retry.
abbrev pub claim_wait : Result (Option StdDuration) SqlError → WorkerConfig → StdDuration
claim_wait (ok next_run_in) config = idle_wait_duration next_run_in config.poll_interval
claim_wait (err e) config = database_retry_interval

-- A statement of a round: what other clients do to the tables before it, its time, and the reply.
pub record Turn (Value : Type 0) : Type 0 where
  pub meanwhile : Db Value → Db Value
  pub now : Timestamp
  pub reply : Reply

module _ {Value : Type 0} where
  -- The tables after a recovery statement, and the wakes so far: a count of recovered jobs that arrives
  -- wakes the claim loops. An error, of the statement or of the connection, is a log line.
  abbrev pub recovered : Reply → Result (Db Value × ℕ) SqlError → Db Value × ℕ → Db Value × ℕ
  recovered delivered (ok (db', count)) (db, wakes) = (db', if count == 0 then wakes else suc wakes)
  recovered lost_after (ok (db', count)) (db, wakes) = (db', wakes)
  recovered lost_before (ok (db', count)) s = s
  recovered reply (err e) s = s

  abbrev pub pruned : Reply → Result (Db Value × ℕ) SqlError → Db Value × ℕ → Db Value × ℕ
  pruned delivered (ok (db', count)) (db, wakes) = (db', wakes)
  pruned lost_after (ok (db', count)) (db, wakes) = (db', wakes)
  pruned lost_before (ok (db', count)) s = s
  pruned reply (err e) s = s

  abbrev pub after_others : Turn Value → Db Value × ℕ → Db Value × ℕ
  after_others turn (db, wakes) = (turn.meanwhile db, wakes)

  -- One round of `run_heartbeat_loop` after its sleep; `empty` is the metadata object.
  unfoldable pub heartbeat_round :
      Timestamp
      → WorkerConfig
      → (task_names : List String) (empty : Value) → Reply
      → Db Value
      → Db Value
  heartbeat_round now config task_names empty reply db =
      (answer reply (true, register_worker now config.worker_id task_names empty db) db).1

  -- The three statements of a round of `run_recovery_loop`.
  abbrev pub recover_dead_turn : Turn Value → WorkerConfig → Db Value × ℕ → Db Value × ℕ
  recover_dead_turn turn config s =
      recovered turn.reply (recover_dead_workers turn.now config.stale_after (turn.meanwhile s.0))
        (after_others turn s)

  abbrev pub recover_stale_turn : Turn Value → WorkerConfig → Db Value × ℕ → Db Value × ℕ
  recover_stale_turn turn config s =
      recovered turn.reply (recover_stale turn.now config.stale_after (turn.meanwhile s.0))
        (after_others turn s)

  abbrev pub prune_turn : Turn Value → WorkerConfig → Db Value × ℕ → Db Value × ℕ
  prune_turn turn config s = elim config.finished_job_retention [
    | none ↦ s
    | some retention ↦
        pruned turn.reply (prune_finished turn.now retention (turn.meanwhile s.0))
          (after_others turn s)
  ]

  -- One round of `run_recovery_loop` after its wait. Without a retention the third turn is not taken.
  unfoldable pub recovery_round :
      (Turn Value × Turn Value × Turn Value) → WorkerConfig → Db Value × ℕ → Db Value × ℕ
  recovery_round (dead, stale, prune) config s =
      prune_turn prune config (recover_stale_turn stale config (recover_dead_turn dead config s))

module _ (J : Jiff) {Value : Type 0} where
  -- The tables after one cron's statement, and the wakes so far.
  abbrev pub poll_result :
      Result (CronEnqueueResult × Db Value) SqlError → Db Value × ℕ → Db Value × ℕ
  poll_result (ok (enqueued job_id, db')) (db, wakes) = (db', suc wakes)
  poll_result (ok (already_queued job_id, db')) (db, wakes) = (db', wakes)
  poll_result (ok (skipped, db')) (db, wakes) = (db', wakes)
  poll_result (err e) s = s

  -- The body of the loop of `enqueue_due_crons`, at the application's time `clock`; `fresh` is the id
  -- that the database generates, `now` the time of the statement.
  unfoldable pub poll_cron :
      (clock now : Timestamp) (fresh : Uuid) (cron : CronJob Value J.TimeZone) (s : Db Value × ℕ)
      → Db Value × ℕ
  poll_cron clock now fresh cron s = elim (latest_due_at J cron.schedule clock) [
    | none ↦ s
    | some due_at ↦
        poll_result (try_enqueue_cron now fresh cron due_at (next_after J cron.schedule due_at) s.0)
          s
  ]

  -- Each cron comes with the id and the time of its statement.
  unfoldable pub enqueue_due_crons :
      (clock : Timestamp)
      → List (CronJob Value J.TimeZone × (Uuid × Timestamp))
      → Db Value × ℕ
      → Db Value × ℕ
  enqueue_due_crons clock [] s = s
  enqueue_due_crons clock ((cron, (fresh, now)) ∷ rest) s =
      enqueue_due_crons clock rest (poll_cron clock now fresh cron s)
