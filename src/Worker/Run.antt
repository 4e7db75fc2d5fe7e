-- ===== src/Worker/Run.antt =====
-- src/worker.rs: `run_claimed_job`. The run is told by what happens while the handler works: the ends of
-- the renewal intervals (`ticks`) and the end of the handler (`last`), each with the statements that
-- other clients have run since the event before (`meanwhile`), the time, and what became of the
-- worker's own statement: a connection can be lost before the statement takes effect or after.
use pgspawn.Prelude.{
  ℕ, suc, Bool, true, false, Option, none, some, is_some, String, ◌++ₛ◌, List, [], ◌∷◌, Result, ok,
  err, if◌then◌else◌,
}
use pgspawn.Prelude.Int.{pos, pos_part, leb_ℤ}
use pgspawn.Job.{Timestamp, Job, SqlError}
use pgspawn.Job.Status.{is_terminal}
use pgspawn.Table.{Db}
use pgspawn.Queue.Manage.{complete_locked, renew_lock, fail_locked}
use pgspawn.Registry.{Handlers, get}
use pgspawn.Worker.Summary.{
  Summaries, record_job_started, record_job_succeeded, record_job_failed, record_job_abandoned,
}

pub data Reply : Type 0 where
  delivered lost_before lost_after : Reply

-- The answer to a statement with the given effect on the tables, and the tables after it; no answer is
-- an error of the connection.
abbrev pub answer {ℓ} : {A : Type ℓ} → Reply → Bool × A → A → Option Bool × A
answer delivered (b, db') db = (some b, db')
answer lost_before r db = (none, db)
answer lost_after (b, db') db = (none, db')

-- What the handler task ended with: the handler returned, or the task panicked, with the text of the
-- JoinError.
pub data Ending : Type 0 where
  returned : Ending
  crashed : String → Ending

pub record Tick (Value : Type 0) : Type 0 where
  pub meanwhile : Db Value → Db Value
  pub now : Timestamp
  pub elapsed_ms : ℕ
  pub reply : Reply

pub record State (Value : Type 0) : Type 0 where
  pub db : Db Value
  pub summaries : Summaries
  pub wakes : ℕ  -- calls of notify_waiters

module _ {Value : Type 0} where
  abbrev pub others : Tick Value → State Value → State Value
  others t s = record s { db = t.meanwhile s.db }

  module _ (exp : ℕ → ℕ) (lock_owner : String) (job : Job Value) where
    -- `fail_claimed_job`; its log lines are left out.
    unfoldable pub fail_claimed_job :
        Tick Value → (error_message : String) → State Value → State Value
    fail_claimed_job t error_message s =
        let result =
          answer t.reply
            (fail_locked exp t.now job.id lock_owner job.attempt job.max_attempts error_message
              s.db)
            s.db in
        record s { db = result.1 }

    abbrev pub is_last : Bool
    is_last = leb_ℤ job.max_attempts (pos job.attempt)

    -- An error of the handler, or of its task.
    unfoldable pub fail_run : Tick Value → (error_message : String) → State Value → State Value
    fail_run t error_message s =
        fail_claimed_job t error_message
          (record s { summaries = record_job_failed job.name t.elapsed_ms is_last s.summaries })

    unfoldable pub complete_run : Tick Value → State Value → State Value
    complete_run t s =
        let result = answer t.reply (complete_locked t.now job.id lock_owner s.db) s.db in
        record s {
          db = result.1;
          summaries = elim result.0 [
            | some true ↦ record_job_succeeded job.name t.elapsed_ms s.summaries
            | some false ↦ record_job_abandoned job.name t.elapsed_ms s.summaries
            | none ↦ record_job_abandoned job.name t.elapsed_ms s.summaries
          ];
        }

    -- `match result`
    unfoldable pub settle :
        Ending → Result (Unit {0}) String → Tick Value → State Value → State Value
    settle (crashed error_message) result t s = fail_run t error_message s
    settle returned (err error_message) t s = fail_run t error_message s
    settle returned (ok _) t s = complete_run t s

    -- A serialized job frees its queue.
    abbrev pub wake : State Value → State Value
    wake s = if is_some job.queue_name then record s { wakes = suc s.wakes } else s

    -- The end of a renewal interval: whether the loop goes on, and the state. A lost lock ends it.
    unfoldable pub renew_once : Tick Value → State Value → Bool × State Value
    renew_once t s =
        let result = answer t.reply (renew_lock t.now job.id lock_owner s.db) s.db in
        elim result.0 [
          | some true ↦ (true, record s { db = result.1 })
          | some false ↦ (
            false,
            record s {
              db = result.1;
              summaries = record_job_abandoned job.name t.elapsed_ms s.summaries;
            },
          )
          | none ↦ (true, record s { db = result.1 })
        ]

    -- The loop, from its first tick on, and what follows it.
    unfoldable pub attend :
        Ending
        → Result (Unit {0}) String
        → List (Tick Value)
        → (last : Tick Value) → State Value
        → State Value
    attend ending result [] last s = wake (settle ending result last (others last s))
    attend ending result (t ∷ ts) last s =
        let renewed = renew_once t (others t s) in
        let rest = attend ending result ts last renewed.1 in if renewed.0 then rest else renewed.1

    -- Without a handler the job is failed at once, with its limit for the attempt; a job's limit is
    -- positive by the table's check.
    unfoldable pub run_claimed_job :
        Handlers Value
        → Ending
        → List (Tick Value)
        → (last : Tick Value) → State Value
        → State Value
    run_claimed_job handlers ending ticks last s = elim (get handlers job.name) [
      | none ↦
          let db = last.meanwhile s.db in
          let result =
            answer last.reply
              (fail_locked exp last.now job.id lock_owner (pos_part job.max_attempts)
                job.max_attempts ("no handler registered for job " ++ₛ job.name) db)
              db in
          record s { db = result.1 }
      | some handler ↦
          attend ending (handler job) ticks last
            (record s { summaries = record_job_started job.name s.summaries })
    ]

-- What `log_lock_loss` tells of a run whose lock is gone.
pub data LockLoss : Type 0 where
  external_completion lock_lost disappeared uninspected : LockLoss

module _ {Value : Type 0} where
  abbrev pub log_lock_loss : Result (Option (Job Value)) SqlError → LockLoss
  log_lock_loss (ok (some job)) = if is_terminal job.status then external_completion else lock_lost
  log_lock_loss (ok none) = disappeared
  log_lock_loss (err e) = uninspected
