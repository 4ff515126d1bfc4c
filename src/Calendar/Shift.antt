-- ===== src/Calendar/Shift.antt =====
-- `add_duration_to_datetime` of models/wrf/wrf_datetime.cpp.
use cpdn_control.Prelude.{
  ℕ, zero, suc, ◌+◌, ◌-◌, ◌*◌, ◌<◌, ◌≡◌, refl, ◌∙◌, inl, inr, Option, some, pos, arith, Bool-cases,
  ◌==◌, leb,
}
use cpdn_control.Calendar.{
  DateTime, days_in_month, next_month, advance_days, carry_second, carry_minute, carry_hour,
  datetime_to_absolute_seconds, secs_to_datetime_duration, add_duration_to_datetime,
  datetime_duration_seconds,
}
use cpdn_control.Calendar.Months.{
  IsValid, IsValid-is_valid_datetime, month_start-suc, month_start-one, days_before_year-suc,
  days_in_month_pos,
}
use cpdn_control.Calendar.Seconds.{
  day_number, day_seconds, datetime_to_absolute_seconds_lem, IsDuration, duration_seconds,
  secs_to_datetime_duration-IsDuration, duration_seconds-secs_to_datetime_duration,
}

next_month-IsValid : (t : DateTime) → IsValid t → IsValid (next_month t)
unfolding next_month
next_month-IsValid t v =
    ground (arith, days_in_month_pos t.year (t.month + 1), days_in_month_pos (t.year + 1) 1)

next_month-day_number :
    (t : DateTime)
    → IsValid t
    → day_number (next_month t) + t.day ≡ day_number t + days_in_month t.year t.month + 1
unfolding next_month
next_month-day_number t v = ground (
  arith,
  month_start-suc t.year t.month (t.month + 1),
  month_start-suc t.year t.month 13,
  month_start-one (t.year + 1),
  days_before_year-suc t.year v.year_in,
)

-- `r` returns a valid date `elapsed` days after `t`, at the same time of day.
pub record IsDaysAfter (elapsed : ℕ) (t : DateTime) (r : Option DateTime) : Type 0 where
  pub found : DateTime
  pub returns : r ≡ some found
  pub valid : IsValid found
  pub later : day_number found ≡ day_number t + elapsed
  pub same_time : day_seconds found ≡ day_seconds t

next_month-day_seconds : (t : DateTime) → day_seconds (next_month t) ≡ day_seconds t
unfolding next_month
next_month-day_seconds t = ground arith

IsDaysAfter-next :
    (t : DateTime) (elapsed rest : ℕ) (r : Option DateTime)
    → IsValid t
    → elapsed + t.day ≡ rest + days_in_month t.year t.month + 1
    → IsDaysAfter rest (next_month t) r
    → IsDaysAfter elapsed t r
IsDaysAfter-next t elapsed rest r v e a = record {
  found = a.found;
  returns = a.returns;
  valid = a.valid;
  later = omega (arith, a.later, next_month-day_number t v, v.day_in.0);
  same_time = a.same_time ∙ next_month-day_seconds t;
}

advance_days-IsDaysAfter :
    (fuel : ℕ) (t : DateTime) (elapsed : ℕ)
    → IsValid t
    → elapsed < fuel
    → IsDaysAfter elapsed t (advance_days fuel t elapsed)
unfolding advance_days
advance_days-IsDaysAfter zero t elapsed v lt = elim lt [ ]
advance_days-IsDaysAfter (suc fuel) t elapsed v lt = elim (Bool-cases (elapsed == 0)) [
  | inl stop ↦
      rw stop
        (record { found = t; returns = refl; valid = v; later = ground arith; same_time = refl })
  | inr go ↦ elim (Bool-cases (leb (elapsed + t.day) month_days)) [
    | inl fits ↦
        rw (go, fits)
          (record {
            found = record t { day = t.day + elapsed };
            returns = refl;
            valid = ground arith;
            later = ground arith;
            same_time = refl;
          })
    | inr over ↦
        rw (go, over)
          (IsDaysAfter-next t elapsed (elapsed + t.day - month_days - 1) _ v (ground arith) (
            advance_days-IsDaysAfter fuel (next_month t) (elapsed + t.day - month_days - 1)
              (next_month-IsValid t v) (ground arith)))
  ]
]
  where
    month_days : ℕ
    month_days = days_in_month t.year t.month

-- What the three carries leave: a valid date, on the day of `start`, and whole days to go.
record IsCarried (start duration t : DateTime) (elapsed : ℕ) : Type 0 where
  valid : IsValid t
  same_day : day_number t ≡ day_number start
  whole : day_seconds t + elapsed * 86400 ≡ day_seconds start + duration_seconds duration

abbrev added : DateTime → DateTime → DateTime
added start duration = record start {
  second = start.second + duration.second;
  minute = start.minute + duration.minute;
  hour = start.hour + duration.hour;
}

abbrev carried : DateTime → DateTime → DateTime × ℕ
carried start duration =
    carry_hour (carry_minute (carry_second (added start duration))) duration.day

carried-IsCarried :
    (start duration : DateTime)
    → IsValid start
    → IsDuration duration
    → IsCarried start duration (carried start duration).0 (carried start duration).1
carried-IsCarried start duration v d = ground arith

-- `r` returns a valid date that many seconds after `start`.
pub record IsSecondsAfter (seconds : ℕ) (start : DateTime) (r : Option DateTime) : Type 0 where
  pub found : DateTime
  pub returns : r ≡ some found
  pub valid : IsValid found
  pub later : datetime_to_absolute_seconds found ≡ datetime_to_absolute_seconds start + seconds

-- From a valid date and an offset with its hours, minutes and seconds in range, the loop ends
-- within its fuel, the result is a valid date, and it lies as many seconds after the start as the
-- offset holds, across month and year boundaries and leap days.
pub add_duration-IsSecondsAfter :
    (start duration : DateTime)
    → IsValid start
    → IsDuration duration
    → IsSecondsAfter (duration_seconds duration) start (add_duration_to_datetime start duration)
unfolding add_duration_to_datetime
add_duration-IsSecondsAfter start duration v d = record {
  found = after.found;
  returns = after.returns;
  valid = after.valid;
  later = omega (
    arith,
    after.later,
    after.same_time,
    after.valid.day_in,
    c.same_day,
    c.whole,
    v.day_in,
    datetime_to_absolute_seconds_lem start v,
    datetime_to_absolute_seconds_lem after.found after.valid,
  );
}
  where
    t : DateTime
    t = (carried start duration).0

    elapsed : ℕ
    elapsed = (carried start duration).1

    c : IsCarried start duration t elapsed
    c = carried-IsCarried start duration v d

    after : IsDaysAfter elapsed t (advance_days (elapsed + 1) t elapsed)
    after = advance_days-IsDaysAfter (elapsed + 1) t elapsed c.valid (omega arith)

-- The time between a valid date and the date `n` seconds later is `n`: the controller gets a step
-- back from the timestamp that it computes for that step.
pub datetime_duration_seconds-add_duration :
    (start : DateTime) (n : ℕ)
    → IsValid start
    → (end : DateTime) × (add_duration_to_datetime start (secs_to_datetime_duration n) ≡ some end)
      × (datetime_duration_seconds start end ≡ pos n)
unfolding datetime_duration_seconds
datetime_duration_seconds-add_duration start n v = (
  a.found,
  a.returns,
  ground (
    arith,
    a.later,
    duration_seconds-secs_to_datetime_duration n,
    IsValid-is_valid_datetime start v,
    IsValid-is_valid_datetime a.found a.valid,
  ),
)
  where
    d : DateTime
    d = secs_to_datetime_duration n

    a : IsSecondsAfter (duration_seconds d) start (add_duration_to_datetime start d)
    a = add_duration-IsSecondsAfter start d v (secs_to_datetime_duration-IsDuration n)
