-- ===== src/Worker/Claims/Moves.antt =====
-- src/worker.rs: the moves of a claim loop, and those of its worker's listener, of the database and of the
-- other clients.
use pgspawn.Prelude.{ℕ, ◌≡◌, Bool, true, Option, String, List}
use pgspawn.Prelude.Int.{◌≤ℤ◌}
use pgspawn.Job.{Timestamp, StdDuration, Uuid, Job, SqlError}
use pgspawn.Table.{Db}
use pgspawn.Queue.Claim.{claim_next}
use pgspawn.Queue.Steps.{Step}
use pgspawn.Queue.Notify.Steps.{notified}
use pgspawn.Worker.Config.{WorkerConfig}
use pgspawn.Worker.Loops.{next_delay, database_retry_interval}
use pgspawn.Worker.Run.{Reply}
use pgspawn.Worker.Shutdown.{tells_stop}
use pgspawn.Worker.Claims.{
  System, checking, armed, stopped, claiming, running, inspecting, looking, waiting, retrying,
  connecting, listening, backing_off, closed, is_asleep, sleep_until, arm, begin_claim, begin_look,
  claim_result, inspect, fail_inspect, stir, connect, receive, lose_connection,
}

module _ (TimeZone : Type 0) (exp : ℕ → ℕ) (config : WorkerConfig) (names : List String)
    (lock_owner : String) {Value : Type 0} where
  -- A move of the claim loop itself.
  pub data Own (s : System Value) : System Value → Type 0 where
    arms : s.phase ≡ checking → Own s (arm s)
    begins : s.phase ≡ armed → Own s (begin_claim s)
    claims :
        (seen : Db Value) (began : Timestamp) (locked : Uuid → Bool) (reply : Reply)
        → s.phase ≡ claiming seen began
        → Own s (claim_result seen reply (claim_next began locked seen lock_owner names s.db) s)
    finishes : (job : Job Value) → s.phase ≡ running job → Own s (record s { phase = checking })
    looks : (seen : Db Value) → s.phase ≡ inspecting seen → Own s (begin_look seen s)
    inspects :
        (seen : Db Value) (look : Timestamp × Db Value)
        → s.phase ≡ looking seen look
        → Own s (inspect config names seen look s)
    fails_to_inspect :
        (seen : Db Value) (look : Timestamp × Db Value) (e : SqlError)
        → s.phase ≡ looking seen look
        → Own s (fail_inspect config e seen s)
    wakes_up :
        (seen : Db Value) (looked : Option (Timestamp × Db Value)) (from : Timestamp)
        (duration : StdDuration)
        → s.phase ≡ waiting seen looked from duration
        → s.woken ≡ true
        → Own s (record s { phase = checking })
    times_out :
        (seen : Db Value) (looked : Option (Timestamp × Db Value)) (from : Timestamp)
        (duration : StdDuration)
        → s.phase ≡ waiting seen looked from duration
        → sleep_until from duration ≤ℤ s.clock
        → Own s (record s { phase = checking })
    retries :
        (from : Timestamp)
        → s.phase ≡ retrying from
        → sleep_until from database_retry_interval ≤ℤ s.clock
        → Own s (record s { phase = checking })
    stops :
        is_asleep s.phase ≡ true
        → tells_stop s.shutdown ≡ true
        → Own s (record s { phase = stopped })

  -- A move of the rest: any statement of any client, among them those of the run of a job; a call of
  -- notify_waiters by another task of the worker; time; the shutdown; and the listener.
  pub data Other (s : System Value) : System Value → Type 0 where
    statement :
        {db' : Db Value} (step : Step TimeZone exp s.db db')
        → Other s (stir (notified exp step) (record s { db = db' }))
    notifies : Other s (record s { woken = true })
    elapses : (t : Timestamp) → s.clock ≤ℤ t → Other s (record s { clock = t })
    requests_shutdown : Other s (record s { shutdown = record s.shutdown { value = true } })
    drops_sender : Other s (record s { shutdown = record s.shutdown { closed = true } })
    connects : (d : StdDuration) → s.listener ≡ connecting d → Other s (connect s)
    fails_to_connect :
        (d : StdDuration)
        → s.listener ≡ connecting d
        → Other s (record s { listener = backing_off d })
    receives : s.listener ≡ listening → s.pending ≡ true → Other s (receive s)
    -- recv() reconnects of itself after a short loss.
    reconnects : s.listener ≡ listening → Other s (lose_connection listening s)
    -- recv() failed.
    breaks :
        s.listener ≡ listening → Other s (lose_connection (backing_off database_retry_interval) s)
    tries_again :
        (d : StdDuration)
        → s.listener ≡ backing_off d
        → Other s (record s { listener = connecting (next_delay d) })
    closes : tells_stop s.shutdown ≡ true → Other s (lose_connection closed s)

  pub data Run (s : System Value) : System Value → Type 0 where
    here : Run s s
    own : {s₁ s₂ : System Value} → Run s s₁ → Own s₁ s₂ → Run s s₂
    other : {s₁ s₂ : System Value} → Run s s₁ → Other s₁ s₂ → Run s s₂
