-- ===== src/Calendar/Months.antt =====
-- Month and year boundaries of models/wrf/wrf_datetime.cpp.
use cpdn_control.Prelude.{ℕ, zero, suc, ◌+◌, ◌-◌, ◌≤◌, ◌≡◌, refl, ap, true, arith, get_or-All}
use cpdn_control.Calendar.{
  DateTime, month_lengths, is_leap_year, days_in_month, is_valid_datetime, days_before_year,
  add_month_days,
}

-- What `is_valid_datetime` accepts.
pub record IsValid (t : DateTime) : Type 0 where
  pub year_in : 1 ≤ t.year
  pub month_in : (1 ≤ t.month) × (t.month ≤ 12)
  pub day_in : (1 ≤ t.day) × (t.day ≤ days_in_month t.year t.month)
  pub hour_in : t.hour ≤ 23
  pub minute_in : t.minute ≤ 59
  pub second_in : t.second ≤ 59

pub is_valid_datetime-IsValid : (t : DateTime) → is_valid_datetime t ≡ true → IsValid t
unfolding is_valid_datetime
is_valid_datetime-IsValid t h = ground arith

pub IsValid-is_valid_datetime : (t : DateTime) → IsValid t → is_valid_datetime t ≡ true
unfolding is_valid_datetime
IsValid-is_valid_datetime t v = ground arith

-- Days of the year before month `m`.
abbrev pub month_start : ℕ → ℕ → ℕ
month_start y zero = 0
month_start y (suc m) = month_start y m + days_in_month y m

pub month_start-suc :
    (y m k : ℕ) → m + 1 ≡ k → month_start y k ≡ month_start y m + days_in_month y m
month_start-suc y m k e = let e' : k ≡ suc m = omega arith in ap (month_start y) e'

add_month_days-month_start :
    (y left m days k : ℕ)
    → m + left ≡ k
    → add_month_days y left m days + month_start y m ≡ days + month_start y k
unfolding add_month_days
add_month_days-month_start y zero m days k e =
    let e' : m ≡ k = omega arith in ap (λ j. days + month_start y j) e'
add_month_days-month_start y (suc left) m days k e = omega (
  arith,
  add_month_days-month_start y left (m + 1) (days + days_in_month y m) k (omega arith),
  month_start-suc y m (m + 1) refl,
)

pub month_start-one : (y : ℕ) → month_start y 1 ≡ 0
unfolding days_in_month
month_start-one y = refl

-- The loop over the months sums the days before the month.
pub add_month_days_lem :
    (y m days : ℕ) → 1 ≤ m → add_month_days y (m - 1) 1 days ≡ days + month_start y m
add_month_days_lem y m days h =
    omega (arith, add_month_days-month_start y (m - 1) 1 days m (omega arith), month_start-one y)

pub days_in_month_pos : (y m : ℕ) → 1 ≤ m → m ≤ 12 → 1 ≤ days_in_month y m
unfolding days_in_month
days_in_month_pos y m h k =
    ground (arith, get_or-All (λ n. 1 ≤ n) month_lengths (m - 1) 0 (omega arith) (omega arith))

pub days_before_year-suc :
    (y : ℕ) → 1 ≤ y → days_before_year (y + 1) ≡ days_before_year y + month_start y 13
unfolding days_before_year days_in_month is_leap_year
days_before_year-suc y h = ground arith
