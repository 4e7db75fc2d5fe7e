-- ===== src/Worker/Claims.antt =====
-- src/worker.rs: `run_claim_loop` and `run_notify_listener_loop` of a worker, as a system that moves in
-- the order in which its tasks, the database and its other clients happen to act. tokio's Notify is the
-- bit `woken`: notify_waiters sets it, `notified().enable()` clears it. A notification of the database is
-- `pending` until the listener receives it, and `missed` if no connection was there to take it.
pub mod Moves
pub mod Since
pub mod Quiet
pub mod Sleep
pub mod Idle
pub mod Stops
use pgspawn.Prelude.{
  ℕ, ◌+◌, ◌/◌, ◌≡◌, Bool, true, false, ◌||◌, Option, none, some, String, List, if◌then◌else◌,
  Result, ok, err,
}
use pgspawn.Prelude.Int.{ℤ, pos, ◌+ℤ◌, ◌≤ℤ◌}
use pgspawn.Job.{Timestamp, StdDuration, Uuid, Job, SqlError}
use pgspawn.Table.{Db}
use pgspawn.Queue.Claim.{claim_next, next_runnable_in}
use pgspawn.Queue.Steps.{Step}
use pgspawn.Queue.Notify.Steps.{notified}
use pgspawn.Worker.Config.{WorkerConfig}
use pgspawn.Worker.Loops.{claim_wait, idle_wait_duration, next_delay, database_retry_interval}
use pgspawn.Worker.Run.{Reply, delivered, lost_before, lost_after}
use pgspawn.Worker.Shutdown.{Watch, tells_stop}

-- The listener's loop: each state with the delay that follows.
pub data Listener : Type 0 where
  connecting : (reconnect_delay : StdDuration) → Listener
  listening : Listener
  backing_off : (reconnect_delay : StdDuration) → Listener
  closed : Listener

abbrev pub is_listening : Listener → Bool
is_listening listening = true
is_listening _ = false

-- Where the claim loop stands. `seen` is what its claim reads and `began` the claim's now(); `look` is when
-- and on which tables it asks for the next job, `looked` the same if there was an answer; a sleep has the
-- time of its start and its duration.
pub data Phase (Value : Type 0) : Type 0 where
  checking armed stopped : Phase Value
  claiming : (seen : Db Value) (began : Timestamp) → Phase Value
  running : (job : Job Value) → Phase Value
  inspecting : (seen : Db Value) → Phase Value
  looking : (seen : Db Value) (look : Timestamp × Db Value) → Phase Value
  waiting :
      (seen : Db Value) (looked : Option (Timestamp × Db Value)) (from : Timestamp)
      (duration : StdDuration)
      → Phase Value
  retrying : (from : Timestamp) → Phase Value

pub record System (Value : Type 0) : Type 0 where
  pub db : Db Value
  pub clock : Timestamp
  pub shutdown : Watch
  pub phase : Phase Value
  pub listener : Listener
  pub woken : Bool
  pub pending : Bool
  pub missed : Bool

-- The end of a sleep: durations have nanoseconds, the clock has microseconds.
abbrev pub sleep_until : Timestamp → StdDuration → Timestamp
sleep_until now duration = now +ℤ pos ((duration + 999) / 1000)

module _ {Value : Type 0} where
  -- The loop is in a `select!` with `shutdown.changed()`.
  abbrev pub is_asleep : Phase Value → Bool
  is_asleep (waiting seen looked from duration) = true
  is_asleep (retrying from) = true
  is_asleep _ = false

  -- The head of the loop: the check of the shutdown, then `notified.as_mut().enable()`.
  unfoldable pub arm : System Value → System Value
  arm s =
      if s.shutdown.value
      then record s { phase = stopped }
      else record s { phase = armed; woken = false; missed = false }

  -- The claim's SELECT takes its snapshot.
  abbrev pub begin_claim : System Value → System Value
  begin_claim s = record s { phase = claiming s.db s.clock }

  abbrev pub retry_later : System Value → System Value
  retry_later s = record s { phase = retrying s.clock }

  -- `match self.queue.claim_next(…)`; the answer can be lost before or after its effect.
  unfoldable pub claim_result :
      (seen : Db Value)
      → Reply
      → Result (Option (Job Value) × Db Value) SqlError
      → System Value
      → System Value
  claim_result seen delivered (ok (some job, db')) s = record s { db = db'; phase = running job }
  claim_result seen delivered (ok (none, db')) s = record s { db = db'; phase = inspecting seen }
  claim_result seen delivered (err e) s = retry_later s
  claim_result seen lost_before r s = retry_later s
  claim_result seen lost_after (ok (r, db')) s = retry_later (record s { db = db' })
  claim_result seen lost_after (err e) s = retry_later s

  -- The snapshot of `next_runnable_in`.
  abbrev pub begin_look : (seen : Db Value) → System Value → System Value
  begin_look seen s = record s { phase = looking seen (s.clock, s.db) }

  -- `match self.queue.next_runnable_in(…)`, and the start of the sleep.
  unfoldable pub inspect :
      WorkerConfig
      → (names : List String) (seen : Db Value) (look : Timestamp × Db Value) → System Value
      → System Value
  inspect config names seen (i, d) s = record s {
    phase =
        waiting seen (some (i, d)) s.clock (claim_wait (ok (next_runnable_in i names d)) config);
  }

  abbrev pub fail_inspect :
      WorkerConfig → SqlError → (seen : Db Value) → System Value → System Value
  fail_inspect config e seen s = record s {
    phase = waiting seen none s.clock (claim_wait (err e) config);
  }

  -- What the database's notification meets, if a statement sent one.
  unfoldable pub stir : Bool → System Value → System Value
  stir sent s =
      if sent
      then (if is_listening s.listener
          then record s { pending = true }
          else record s { missed = true })
      else s

  -- `connect_with` and `listen` succeeded: the loops are woken for what was missed.
  unfoldable pub connect : System Value → System Value
  connect s = record s { listener = listening; woken = true }

  -- `listener.recv()` returned a notification.
  unfoldable pub receive : System Value → System Value
  receive s = record s { woken = true; pending = false }

  -- A connection that is lost takes what was pending with it.
  unfoldable pub lose_connection : Listener → System Value → System Value
  lose_connection listener s = record s {
    listener = listener;
    pending = false;
    missed = s.missed || s.pending;
  }
