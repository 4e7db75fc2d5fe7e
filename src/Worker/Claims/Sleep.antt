-- ===== src/Worker/Claims/Sleep.antt =====
-- src/worker.rs: the lengths of the claim loop's sleeps.
use pgspawn.Prelude.{
  none, Option, ℕ, ◌+◌, ◌*◌, ◌/◌, ◌==◌, ◌≡◌, ◌≤◌, sym, subst, true, false, some, arith,
}
use pgspawn.Prelude.Int.{pos, ◌+ℤ◌, ◌≤ℤ◌, ◌<ℤ◌, +ℤ_parts}
use pgspawn.Job.{Timestamp, StdDuration}
use pgspawn.Queue.Claim.{from_millis}
use pgspawn.Worker.Loops.{idle_wait_duration}
use pgspawn.Worker.Claims.{sleep_until}

-- A sleep of k milliseconds or less takes k thousand microseconds or less.
sleep_bound :
    (k : ℕ) (poll : StdDuration)
    → (k == 0) ≡ false
    → (idle_wait_duration (some (from_millis k)) poll + 999) / 1000 ≤ k * 1000
unfolding idle_wait_duration
sleep_bound k poll h = ground arith

-- No sleep is longer than the poll interval.
pub wait_polls :
    (next : Option StdDuration) (poll : StdDuration) → idle_wait_duration next poll ≤ poll
unfolding idle_wait_duration
wait_polls none poll = omega arith
wait_polls (some until_due) poll = ground arith

-- A sleep that is bounded by the time of the earliest job ends within a millisecond of it.
pub sleep_short :
    (i m t : Timestamp) (k : ℕ) (poll duration : StdDuration)
    → (k == 0) ≡ false
    → i +ℤ pos (k * 1000) <ℤ m +ℤ pos 1000
    → m ≤ℤ t
    → duration ≡ idle_wait_duration (some (from_millis k)) poll
    → sleep_until i duration <ℤ t +ℤ pos 1000
sleep_short i m t k poll duration pos_k near early e =
    let bound = sleep_bound k poll pos_k in
    let w = (idle_wait_duration (some (from_millis k)) poll + 999) / 1000 in
    let a = +ℤ_parts i (pos w) in
    let b = +ℤ_parts i (pos (k * 1000)) in
    let c = +ℤ_parts m (pos 1000) in
    let d = +ℤ_parts t (pos 1000) in
    subst (λ u. sleep_until i u <ℤ t +ℤ pos 1000) (sym e)
      (omega (arith, bound, a, b, c, d, near, early))

pub at_once : (i m : Timestamp) (n : ℕ) → (n == 0) ≡ true → m ≤ℤ i +ℤ pos (n * 1000) → m ≤ℤ i
at_once i m n e h =
    let zero_n : n ≡ 0 = ground (arith, e) in
    let sum = +ℤ_parts i (pos (n * 1000)) in omega (arith, zero_n, sum, h)
