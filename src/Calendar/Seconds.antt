-- ===== src/Calendar/Seconds.antt =====
-- `datetime_to_absolute_seconds` and `secs_to_datetime_duration` of models/wrf/wrf_datetime.cpp.
use cpdn_control.Prelude.{ℕ, ◌+◌, ◌-◌, ◌*◌, ◌≤◌, ◌≡◌, ◌/◌, ◌%◌, pos, true, arith}
use native.Mathlib.Nat.{div-add-mod'}
use cpdn_control.Calendar.{
  datetime_duration_seconds, is_valid_datetime, DateTime, days_before_year,
  datetime_to_absolute_seconds, secs_to_datetime_duration,
}
use cpdn_control.Calendar.Months.{IsValid, month_start, add_month_days_lem}

-- Days since 0001-01-01.
abbrev pub day_number : DateTime → ℕ
day_number t = days_before_year t.year + month_start t.year t.month + t.day - 1

abbrev pub day_seconds : DateTime → ℕ
day_seconds t = t.hour * 3600 + t.minute * 60 + t.second

pub datetime_to_absolute_seconds_lem :
    (t : DateTime)
    → IsValid t
    → datetime_to_absolute_seconds t ≡ day_number t * 86400 + day_seconds t
unfolding datetime_to_absolute_seconds
datetime_to_absolute_seconds_lem t v =
    omega (arith, add_month_days_lem t.year t.month (days_before_year t.year) v.month_in.0)

-- An offset in days, hours, minutes and seconds, each of the last three in its range.
pub record IsDuration (d : DateTime) : Type 0 where
  pub hours : d.hour ≤ 23
  pub minutes : d.minute ≤ 59
  pub seconds : d.second ≤ 59

abbrev pub duration_seconds : DateTime → ℕ
duration_seconds d = d.day * 86400 + day_seconds d

pub secs_to_datetime_duration-IsDuration : (n : ℕ) → IsDuration (secs_to_datetime_duration n)
unfolding secs_to_datetime_duration
secs_to_datetime_duration-IsDuration n = omega arith

pub duration_seconds-secs_to_datetime_duration :
    (n : ℕ) → duration_seconds (secs_to_datetime_duration n) ≡ n
unfolding secs_to_datetime_duration
duration_seconds-secs_to_datetime_duration n = omega arith

-- A duration that is not negative is one between valid dates.
pub duration-valid :
    (start end : DateTime) (n : ℕ)
    → datetime_duration_seconds start end ≡ pos n
    → (is_valid_datetime start ≡ true)
      × (is_valid_datetime end ≡ true)
      × (datetime_to_absolute_seconds end ≡ datetime_to_absolute_seconds start + n)
unfolding datetime_duration_seconds
duration-valid start end n h = (ground arith, ground arith, ground arith)

-- Whole time steps in an elapsed time.
pub whole_steps : (n timestep : ℕ) → n % timestep ≡ 0 → n ≡ n / timestep * timestep
whole_steps n timestep h = omega (arith, div-add-mod' n timestep)
