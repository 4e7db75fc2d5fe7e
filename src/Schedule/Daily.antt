-- ===== src/Schedule/Daily.antt =====
-- src/schedule.rs: latest_daily_due_at and next_daily_after.
use pgspawn.Prelude.{
  ℕ, ◌+◌, ◌-◌, ◌%◌, ◌≤◌, ◌<◌, ◌≡◌, sym, subst, false, some, arith, ltb, if◌then◌else◌,
}
use pgspawn.Prelude.Int.{leb_ℤ, ltb_ℤ, ◌≤ℤ◌, ◌<ℤ◌, leb_ℤ→le, ltb_ℤ→lt, le→leb_ℤ, lt→ltb_ℤ}
use pgspawn.Job.{Timestamp}
use pgspawn.Schedule.{
  Jiff, Weekday, DailyJobSchedule, skips, skips_day, back, ahead, at_time_zone, latest_daily_due_at,
  next_daily_after,
}
use pgspawn.Schedule.Laws.{JiffLaws}
use pgspawn.Schedule.Search.{Accepts, FirstAt, FirstAt-accept, first_day-finds}

-- Days back from weekday `c` to weekday `w`, two at least.
abbrev days_back : (c w : ℕ) → ℕ
days_back c w = let k = (c + 7 - w) % 7 in if ltb k 2 then k + 7 else k

days_back_range : (c w : ℕ) → (2 ≤ days_back c w) × (days_back c w < 9)
days_back_range c w = ground arith

days_back_lem : (c w x : ℕ) → c < 7 → w < 7 → x < 7 → (x + days_back c w) % 7 ≡ c → x ≡ w
days_back_lem c w x hc hw hx e = ground arith

days_ahead_lem : (c w x : ℕ) → c < 7 → w < 7 → x ≡ (c + days_back w c) % 7 → x ≡ w
days_ahead_lem c w x hc hw e = ground arith

module _ (J : Jiff) (laws : JiffLaws J) (schedule : DailyJobSchedule) (time_zone : J.TimeZone)
    (in_day : schedule.hour ≤ 23) (in_hour : schedule.minute ≤ 59) where
  abbrev pub slot : J.Date → Timestamp
  slot date = at_time_zone J time_zone date schedule.hour schedule.minute

  abbrev pub LatestSlot : Timestamp → Timestamp → Type 0
  LatestSlot now =
      FirstAt J (back J time_zone now) (skips_day J schedule) slot (λ u. leb_ℤ u now) 0 9

  abbrev pub NextSlot : Timestamp → Timestamp → Type 0
  NextSlot after =
      FirstAt J (ahead J time_zone after) (skips_day J schedule) slot (λ u. ltb_ℤ after u) 0 9

  module _ (w : Weekday) (hw : w < 7) (runs : skips schedule.weekdays w ≡ false) where
    back-Accepts :
        (now : Timestamp)
        → Accepts J
            (back J time_zone now)
            (skips_day J schedule)
            slot
            (λ u. leb_ℤ u now)
            (days_back (J.weekday (J.to_date time_zone now)) w)
    back-Accepts now = record {
      kept = subst (λ v. skips schedule.weekdays v ≡ false) (sym on_weekday) runs;
      accepted = le→leb_ℤ (slot (back J time_zone now n)) now (
          laws.earlier time_zone now n schedule.hour schedule.minute (days_back_range _ w).0 in_day
            in_hour);
    }
      where
        n : ℕ
        n = days_back (J.weekday (J.to_date time_zone now)) w

        on_weekday : J.weekday (back J time_zone now n) ≡ w
        on_weekday =
            days_back_lem (J.weekday (J.to_date time_zone now)) w _ (laws.weekday_lt _) hw
              (laws.weekday_lt _) (laws.weekday_minus (J.to_date time_zone now) n)

    ahead-Accepts :
        (after : Timestamp)
        → Accepts J
            (ahead J time_zone after)
            (skips_day J schedule)
            slot
            (λ u. ltb_ℤ after u)
            (days_back w (J.weekday (J.to_date time_zone after)))
    ahead-Accepts after = record {
      kept = subst (λ v. skips schedule.weekdays v ≡ false) (sym on_weekday) runs;
      accepted = lt→ltb_ℤ after (slot (ahead J time_zone after n)) (
          laws.later time_zone after n schedule.hour schedule.minute (days_back_range w _).0 in_day
            in_hour);
    }
      where
        n : ℕ
        n = days_back w (J.weekday (J.to_date time_zone after))

        on_weekday : J.weekday (ahead J time_zone after n) ≡ w
        on_weekday =
            days_ahead_lem (J.weekday (J.to_date time_zone after)) w _ (laws.weekday_lt _) hw
              (laws.weekday_plus (J.to_date time_zone after) n)

    -- Where the calendar has the laws asked of Jiff, a daily schedule within the hours of a day that runs
    -- on some weekday always has a latest due instant. It is not after `now`, and it is the slot at the
    -- smallest day offset whose weekday the schedule runs on and whose slot is not after `now`.
    pub latest_daily_due_at-some :
        (now : Timestamp)
        → (t : Timestamp) × (latest_daily_due_at J now schedule time_zone ≡ some t)
          × (t ≤ℤ now)
          × LatestSlot now t
    unfolding latest_daily_due_at
    latest_daily_due_at-some now =
        let r =
          first_day-finds J (back J time_zone now) (skips_day J schedule) slot (λ u. leb_ℤ u now) 9
            _ (days_back_range (J.weekday (J.to_date time_zone now)) w).1 (back-Accepts now) in
        (r.0, r.1, leb_ℤ→le r.0 now (FirstAt-accept J _ _ _ _ r.2), r.2)

    -- Under the same conditions the next instant is after the one given: the slot at the smallest day
    -- offset on such a weekday that is later. The fallback of one day is never taken.
    pub next_daily_after-NextSlot :
        (after : Timestamp)
        → (after <ℤ next_daily_after J after schedule time_zone)
          × NextSlot after (next_daily_after J after schedule time_zone)
    unfolding next_daily_after
    next_daily_after-NextSlot after =
        let r =
          first_day-finds J (ahead J time_zone after) (skips_day J schedule) slot
            (λ u. ltb_ℤ after u) 9 _ (days_back_range w (J.weekday (J.to_date time_zone after))).1
            (ahead-Accepts after) in
        rw r.1 (ltb_ℤ→lt after r.0 (FirstAt-accept J _ _ _ _ r.2), r.2)
