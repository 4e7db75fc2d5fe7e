-- ===== src/Schedule/Interval.antt =====
-- src/schedule.rs: latest_interval_due_at and next_interval_after, from the Unix epoch on.
use pgspawn.Prelude.{ℕ, ◌+◌, ◌*◌, ◌/◌, ◌%◌, ◌≤◌, ◌<◌, ◌≡◌, some, arith, ap}
use pgspawn.Prelude.Int.{pos, ◌+ℤ◌}
use pgspawn.Job.{StdDuration}
use pgspawn.Schedule.{Jiff, interval_secs, whole_secs, latest_interval_due_at, next_interval_after}
use native.Mathlib.Nat.{mul_assoc, mul-mod_left}
use pgspawn.Schedule.Laws.{JiffLaws}

-- The start of the interval of `k` seconds that holds microsecond `n`.
abbrev pub boundary : (n k : ℕ) → ℕ
boundary n k = n / 1_000_000 / k * k * 1_000_000

boundary_bounds : (n k : ℕ) → 1 ≤ k → (boundary n k ≤ n) × (n < boundary n k + k * 1_000_000)
boundary_bounds n k h = grind arith

whole_secs_pos : (every : StdDuration) → 1 ≤ whole_secs every
whole_secs_pos every = omega arith

-- Below 2 ^ 63 seconds the cast keeps the interval.
interval_secs-pos :
    (every : StdDuration)
    → whole_secs every < 9_223_372_036_854_775_808
    → interval_secs every ≡ pos (whole_secs every)
unfolding interval_secs
interval_secs-pos every h = ground (arith, h)

boundary_aligned : (n k : ℕ) → boundary n k % (k * 1_000_000) ≡ 0
boundary_aligned n k = rw (mul_assoc (n / 1_000_000 / k) k 1_000_000) (mul-mod_left _ _)

seconds_in_range :
    (n k : ℕ) → 1 ≤ k → n ≤ 253_402_207_200_000_000 → n / 1_000_000 / k * k ≤ 253_402_207_200
seconds_in_range n k h b = grind arith

next_in_range :
    (n k : ℕ)
    → 1 ≤ k
    → n + k * 1_000_000 ≤ 253_402_207_200_000_000
    → (n / 1_000_000 / k + 1) * k ≤ 253_402_207_200
next_in_range n k h b = grind arith

next_boundary : (n k : ℕ) → (n / 1_000_000 / k + 1) * k * 1_000_000 ≡ boundary n k + k * 1_000_000
next_boundary n k = omega arith

succ_ℤ : (q : ℕ) → pos q +ℤ pos 1 ≡ pos (q + 1)
unfolding ◌+ℤ◌
succ_ℤ q = ground arith

module _ (J : Jiff) (laws : JiffLaws J) where
  -- Where the calendar has the laws asked of Jiff, for an instant from 1970 up to its last second and an
  -- interval below 2 ^ 63 seconds, which `as i64` keeps, the latest due instant is the epoch-aligned boundary
  -- at or before it, less than one interval back.
  pub latest_interval_due_at-boundary :
      (n : ℕ) (every : StdDuration)
      → n ≤ 253_402_207_200_000_000
      → whole_secs every < 9_223_372_036_854_775_808
      → (t : ℕ) × (latest_interval_due_at J (pos n) every ≡ some (pos t))
        × (t ≤ n)
        × (n < t + whole_secs every * 1_000_000)
        × (t % (whole_secs every * 1_000_000) ≡ 0)
  unfolding latest_interval_due_at
  latest_interval_due_at-boundary n every h small =
      let k = whole_secs every in
      let bounds = boundary_bounds n k (whole_secs_pos every) in
      (
        boundary n k,
        rw (laws.as_second_pos n, interval_secs-pos every small, latest_interval_due_at)
            (laws.from_second_pos (n / 1_000_000 / k * k)
              (seconds_in_range n k (whole_secs_pos every) h)),
        bounds.0,
        bounds.1,
        boundary_aligned n k,
      )

  -- Under the same laws, for an instant from 1970 up to one interval before the last second, the next instant of an
  -- interval is the boundary that follows the latest one.
  pub next_interval_after-boundary :
      (n : ℕ) (every : StdDuration)
      → n + whole_secs every * 1_000_000 ≤ 253_402_207_200_000_000
      → next_interval_after J (pos n) every
        ≡ pos (boundary n (whole_secs every) + whole_secs every * 1_000_000)
  unfolding next_interval_after
  next_interval_after-boundary n every h =
      let k = whole_secs every in
      rw
        (
          laws.as_second_pos n,
          interval_secs-pos every (omega (arith, h)),
          succ_ℤ (n / 1_000_000 / k),
          next_interval_after,
        )
        (rw
          (laws.from_second_pos ((n / 1_000_000 / k + 1) * k)
            (next_in_range n k (whole_secs_pos every) h))
          (ap pos (next_boundary n k)))
