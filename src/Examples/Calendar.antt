-- ===== src/Examples/Calendar.antt =====
-- A calendar that has the laws asked of Jiff: one time zone without transitions, days of 24 hours from
-- 1970 on and before, weeks of seven days, months of 28 days.
use pgspawn.Prelude.{
  ℕ, ◌+◌, ◌-◌, ◌*◌, ◌/◌, ◌%◌, ◌≤◌, ◌<◌, ◌≡◌, refl, leb, ltb, min, none, some, arith, if◌then◌else◌,
}
use pgspawn.Prelude.Int.{pos, negsuc, pos_part, ◌+ℤ◌, ◌-ℤ◌, ◌≤ℤ◌, ◌<ℤ◌, +ℤ_parts, -ℤ_parts}
use pgspawn.Job.{Timestamp}
use pgspawn.Schedule.{Jiff, days, div_euclid, times}
use pgspawn.Schedule.Laws.{JiffLaws}

-- A day is the timestamp of its midnight, and its place in the cycle of 28 days.
pub record Day : Type 0 where
  pub midnight : Timestamp
  pub place : ℕ

abbrev pub into_day : Timestamp → ℕ
into_day (pos n) = n % 86_400_000_000
into_day (negsuc n) = 86_399_999_999 - n % 86_400_000_000

abbrev place_of : Timestamp → ℕ
place_of (pos n) = (n / 86_400_000_000 + 3) % 28
place_of (negsuc n) = (n / 86_400_000_000 * 27 + 2) % 28

abbrev day_of : Timestamp → Day
day_of t = record { midnight = t -ℤ pos (into_day t); place = place_of t }

abbrev of_day : ℕ → ℕ → ℕ
of_day hour minute = min hour 23 * 3_600_000_000 + min minute 59 * 60_000_000

abbrev pub calendar : Jiff
calendar = record {
  TimeZone = Unit;
  Date = Day;
  utc = tt;
  get = λ name. some tt;
  to_date = λ z. day_of;
  to_timestamp = λ z d hour minute. d.midnight +ℤ pos (of_day hour minute);
  minus = λ d u. record {
    midnight = d.midnight -ℤ pos u;
    place = (d.place + u / 86_400_000_000 * 27) % 28;
  };
  plus =
      λ d u. record { midnight = d.midnight +ℤ pos u; place = (d.place + u / 86_400_000_000) % 28 };
  weekday = λ d. d.place % 7;
  day = λ d. d.place % 28 + 1;
  as_second = λ t. div_euclid t 1_000_000;
  from_second = λ s. if leb (pos_part s) 253_402_207_200 then some (times s 1_000_000) else none;
}

of_day_lt : (hour minute : ℕ) → of_day hour minute < 86_400_000_000
of_day_lt hour minute = omega arith

into_day_lt : (t : Timestamp) → into_day t < 86_400_000_000
into_day_lt (pos n) = omega arith
into_day_lt (negsuc n) = omega arith

before_midnight : (t : Timestamp) (a u b : ℕ) → b ≤ u → ((t -ℤ pos a) -ℤ pos u) +ℤ pos b ≤ℤ t
before_midnight t a u b h = omega (
  arith,
  -ℤ_parts t (pos a),
  -ℤ_parts (t -ℤ pos a) (pos u),
  +ℤ_parts ((t -ℤ pos a) -ℤ pos u) (pos b),
)

after_midnight : (t : Timestamp) (a u b : ℕ) → a < u → t <ℤ ((t -ℤ pos a) +ℤ pos u) +ℤ pos b
after_midnight t a u b h = omega (
  arith,
  -ℤ_parts t (pos a),
  +ℤ_parts (t -ℤ pos a) (pos u),
  +ℤ_parts ((t -ℤ pos a) +ℤ pos u) (pos b),
)

days_div : (n : ℕ) → days n / 86_400_000_000 ≡ n
days_div n = omega arith

days_le : (n : ℕ) → 2 ≤ n → 86_400_000_000 ≤ days n
days_le n h = omega arith

-- Days back from place `c` to place `m` - 1, two at least.
abbrev places_back : ℕ → ℕ → ℕ
places_back c m = let k = (c % 28 + 29 - m) % 28 in if ltb k 2 then k + 28 else k

abbrev places_ahead : ℕ → ℕ → ℕ
places_ahead c m = let k = (m + 27 - c % 28) % 28 in if ltb k 2 then k + 28 else k

pub calendar-JiffLaws : JiffLaws calendar
calendar-JiffLaws = record {
  as_second_pos = λ n. refl;
  from_second_pos = λ s h. ground arith;
  earlier = λ z t n hour minute far _ _.
      before_midnight t (into_day t) (days n) (of_day hour minute)
        (omega (arith, of_day_lt hour minute, days_le n far));
  later = λ z t n hour minute far _ _.
      after_midnight t (into_day t) (days n) (of_day hour minute)
        (omega (arith, into_day_lt t, days_le n far));
  weekday_lt = λ d. omega arith;
  weekday_minus = λ d n. rw (days_div n) (omega arith);
  weekday_plus = λ d n. rw (days_div n) (omega arith);
  day_minus = λ d m first last. (
    places_back d.place m,
    ground arith,
    ground arith,
    rw (days_div (places_back d.place m)) (ground arith),
  );
  day_plus = λ d m first last. (
    places_ahead d.place m,
    ground arith,
    ground arith,
    rw (days_div (places_ahead d.place m)) (ground arith),
  );
}
