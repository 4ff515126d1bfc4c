-- ===== src/Calendar.antt =====
-- models/wrf/wrf_datetime.cpp. The fields of a `DateTime` are natural numbers here: the fields of
-- a timestamp are made of digits, and a negative field is one that `is_valid_datetime` refuses.
-- Years stay far below 2 ^ 31 and seconds far below 2 ^ 63, so nothing wraps around.
pub mod Months
pub mod Seconds
pub mod Shift
use cpdn_control.Prelude.{
  ℕ, zero, suc, ◌+◌, ◌-◌, ◌*◌, ◌/◌, ◌%◌, Bool, true, false, not, ◌&&◌, ◌||◌, Option, none, some,
  List, [], ◌∷◌, ℤ, pos, negsuc, ltb, leb, ◌==◌, if◌then◌else◌, get_or,
}

pub record DateTime : Type 0 where
  pub year : ℕ
  pub month : ℕ
  pub day : ℕ
  pub hour : ℕ
  pub minute : ℕ
  pub second : ℕ

unfoldable pub is_leap_year : ℕ → Bool
is_leap_year y = (y % 400 == 0) || ((y % 4 == 0) && not (y % 100 == 0))

abbrev pub month_lengths : List ℕ
month_lengths = 31 ∷ 28 ∷ 31 ∷ 30 ∷ 31 ∷ 30 ∷ 31 ∷ 31 ∷ 30 ∷ 31 ∷ 30 ∷ 31 ∷ []

unfoldable pub days_in_month : ℕ → ℕ → ℕ
days_in_month y m =
    if ltb m 1 || ltb 12 m
    then 0
    else if (m == 2) && is_leap_year y
    then 29
    else get_or month_lengths (m - 1) 0

unfoldable pub is_valid_datetime : DateTime → Bool
is_valid_datetime t =
    if (t.year == 0) || ltb t.month 1 || ltb 12 t.month || ltb t.day 1
    then false
    else if ltb 23 t.hour || ltb 59 t.minute || ltb 59 t.second
    then false
    else leb t.day (days_in_month t.year t.month)

-- Called for a positive year.
unfoldable pub days_before_year : ℕ → ℕ
days_before_year y = let c = y - 1 in c * 365 + c / 4 - c / 100 + c / 400

-- The loop over the months before the given one: `left` rounds to go, at month `m`.
unfoldable pub add_month_days : ℕ → ℕ → ℕ → ℕ → ℕ
add_month_days y zero m days = days
add_month_days y (suc left) m days = add_month_days y left (m + 1) (days + days_in_month y m)

-- Called for a valid date, so day - 1 is not truncated.
unfoldable pub datetime_to_absolute_seconds : DateTime → ℕ
datetime_to_absolute_seconds t =
    let days = add_month_days t.year (t.month - 1) 1 (days_before_year t.year) + (t.day - 1) in
    days * 86400 + t.hour * 3600 + t.minute * 60 + t.second

-- `seconds` is a product of a step and a timestep, neither of them negative.
unfoldable pub secs_to_datetime_duration : ℕ → DateTime
secs_to_datetime_duration seconds = record {
  year = 0;
  month = 0;
  day = seconds / 86400;
  hour = seconds % 86400 / 60 / 60 % 60;
  minute = seconds % 86400 / 60 % 60;
  second = seconds % 86400 % 60;
}

-- The three carries of `add_duration_to_datetime`; the day carry goes to the second part.
abbrev carry_second : DateTime → DateTime
carry_second t =
    if leb 60 t.second then record t { second = t.second - 60; minute = t.minute + 1 } else t

abbrev carry_minute : DateTime → DateTime
carry_minute t =
    if leb 60 t.minute then record t { minute = t.minute - 60; hour = t.hour + 1 } else t

abbrev carry_hour : DateTime → ℕ → DateTime × ℕ
carry_hour t elapsed =
    if leb 24 t.hour then (record t { hour = t.hour - 24 }, elapsed + 1) else (t, elapsed)

-- The first day of the next month.
unfoldable pub next_month : DateTime → DateTime
next_month t =
    if ltb 12 (t.month + 1)
    then record t { day = 1; month = 1; year = t.year + 1 }
    else record t { day = 1; month = t.month + 1 }

-- The loop on `elapsed_days`; `none` means that the fuel ran out. `elapsed_days` is compared with
-- `month_days - day` over the integers, hence the sum.
unfoldable pub advance_days : ℕ → DateTime → ℕ → Option DateTime
advance_days zero t elapsed = none
advance_days (suc fuel) t elapsed =
    let month_days = days_in_month t.year t.month in
    let later = advance_days fuel (next_month t) (elapsed + t.day - month_days - 1) in
    if elapsed == 0
    then some t
    else if leb (elapsed + t.day) month_days
    then some (record t { day = t.day + elapsed })
    else later

-- Each round of the loop uses up a day at least, so the fuel is enough from a valid date.
unfoldable pub add_duration_to_datetime : DateTime → DateTime → Option DateTime
add_duration_to_datetime start duration =
    let added = record start {
      second = start.second + duration.second;
      minute = start.minute + duration.minute;
      hour = start.hour + duration.hour;
    } in
    let (t, elapsed) = carry_hour (carry_minute (carry_second added)) duration.day in
    advance_days (elapsed + 1) t elapsed

unfoldable pub datetime_duration_seconds : DateTime → DateTime → ℤ
datetime_duration_seconds start end =
    if not (is_valid_datetime start) || not (is_valid_datetime end)
    then negsuc 0
    else if ltb (datetime_to_absolute_seconds end) (datetime_to_absolute_seconds start)
    then negsuc 0
    else pos (datetime_to_absolute_seconds end - datetime_to_absolute_seconds start)
