-- ===== src/Worker/Loops/Waits.antt =====
-- src/worker.rs: bounds of the waits.
use pgspawn.Prelude.{◌≤◌, ◌<◌, some, arith}
use pgspawn.Job.{StdDuration}
use pgspawn.Worker.Loops.{idle_wait_duration}

-- A claim loop with nothing to do waits for a positive time, for the poll interval at most, and not beyond
-- the time at which the next job is due.
pub idle_wait_duration-bounds :
    (until_due : StdDuration) (poll_interval : StdDuration)
    → 0 < poll_interval
    → 0 < until_due
    → (0 < idle_wait_duration (some until_due) poll_interval)
      × (idle_wait_duration (some until_due) poll_interval ≤ poll_interval)
      × (idle_wait_duration (some until_due) poll_interval ≤ until_due)
unfolding idle_wait_duration
idle_wait_duration-bounds until_due poll_interval h g = ground arith
