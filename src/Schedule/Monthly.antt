-- ===== src/Schedule/Monthly.antt =====
-- src/schedule.rs: latest_monthly_due_at and next_monthly_after.
use pgspawn.Prelude.{ℕ, ◌≤◌, ◌==◌, ◌≡◌, not, false, some, arith}
use pgspawn.Prelude.Int.{leb_ℤ, ltb_ℤ, ◌≤ℤ◌, ◌<ℤ◌, leb_ℤ→le, ltb_ℤ→lt, le→leb_ℤ, lt→ltb_ℤ}
use pgspawn.Job.{Timestamp}
use pgspawn.Schedule.{
  Jiff, MonthlyJobSchedule, skips_date, back, ahead, at_time_zone, latest_monthly_due_at,
  next_monthly_after,
}
use pgspawn.Schedule.Laws.{JiffLaws}
use pgspawn.Schedule.Search.{FirstAt, FirstAt-accept, first_day-finds}

same_day : (d e : ℕ) → d ≡ e → not (d == e) ≡ false
same_day d e p = ground arith

module _ (J : Jiff) (laws : JiffLaws J) (schedule : MonthlyJobSchedule) (time_zone : J.TimeZone)
    (in_day : schedule.hour ≤ 23) (in_hour : schedule.minute ≤ 59) (first : 1 ≤ schedule.day)
    (last : schedule.day ≤ 28) where
  abbrev pub month_slot : J.Date → Timestamp
  month_slot date = at_time_zone J time_zone date schedule.hour schedule.minute

  abbrev pub LatestMonth : Timestamp → Timestamp → Type 0
  LatestMonth now =
      FirstAt J (back J time_zone now) (skips_date J schedule) month_slot (λ u. leb_ℤ u now) 0 371

  abbrev pub NextMonth : Timestamp → Timestamp → Type 0
  NextMonth after =
      FirstAt J (ahead J time_zone after) (skips_date J schedule) month_slot (λ u. ltb_ℤ after u) 0
        371

  -- Where the calendar has the laws asked of Jiff, a monthly schedule on a day from 1 to 28 within the
  -- hours of a day always has a latest due instant. It is not after `now`, and it is the slot at the
  -- smallest day offset that falls on the schedule's day and whose slot is not after `now`.
  pub latest_monthly_due_at-some :
      (now : Timestamp)
      → (t : Timestamp) × (latest_monthly_due_at J now schedule time_zone ≡ some t)
        × (t ≤ℤ now)
        × LatestMonth now t
  unfolding latest_monthly_due_at
  latest_monthly_due_at-some now =
      let (n, far, near, on_day) =
        laws.day_minus (J.to_date time_zone now) schedule.day first last in
      let r =
        first_day-finds J (back J time_zone now) (skips_date J schedule) month_slot
          (λ u. leb_ℤ u now) 371 n (omega arith)
          (record {
            kept = same_day _ _ on_day;
            accepted =
                le→leb_ℤ (month_slot (back J time_zone now n)) now
                  (laws.earlier time_zone now n schedule.hour schedule.minute far in_day in_hour);
          }) in
      (r.0, r.1, leb_ℤ→le r.0 now (FirstAt-accept J _ _ _ _ r.2), r.2)

  -- Under the same conditions the next instant is after the one given, and is the slot at the smallest
  -- day offset on the schedule's day that is later. The fallback of 31 days is never taken.
  pub next_monthly_after-NextMonth :
      (after : Timestamp)
      → (after <ℤ next_monthly_after J after schedule time_zone)
        × NextMonth after (next_monthly_after J after schedule time_zone)
  unfolding next_monthly_after
  next_monthly_after-NextMonth after =
      let (n, far, near, on_day) =
        laws.day_plus (J.to_date time_zone after) schedule.day first last in
      let r =
        first_day-finds J (ahead J time_zone after) (skips_date J schedule) month_slot
          (λ u. ltb_ℤ after u) 371 n (omega arith)
          (record {
            kept = same_day _ _ on_day;
            accepted =
                lt→ltb_ℤ after (month_slot (ahead J time_zone after n))
                  (laws.later time_zone after n schedule.hour schedule.minute far in_day in_hour);
          }) in
      rw r.1 (ltb_ℤ→lt after r.0 (FirstAt-accept J _ _ _ _ r.2), r.2)
