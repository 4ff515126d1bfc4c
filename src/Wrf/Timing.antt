-- ===== src/Wrf/Timing.antt =====
-- models/wrf/wrf_control.cpp: the progress of the model, read from the lines of its log.
pub mod Steps
pub mod Last
use cpdn_control.Prelude.{
  ℕ, ◌+◌, ◌/◌, ◌%◌, Bool, true, false, not, ◌||◌, Option, none, some, List, [], ◌∷◌, ◌==◌, ℤ, pos,
  negsuc, pos_part, ltb, ltb_ℤ, leb_ℤ, eqb_ℤ, length, drop, take, if◌then◌else◌,
}
use cpdn_control.Text.{Bytes, codes, is_empty, starts_with, after_first, split_at, trim_whitespace}
use cpdn_control.Text.Number.{parse_int}
use cpdn_control.Calendar.{DateTime, datetime_duration_seconds}
use cpdn_control.Progress.{is_ok, stored}
use cpdn_control.Wrf.{parse_wrf_timestamp}

abbrev pub timing_prefix : Bytes
timing_prefix = codes "Timing for main: time "

abbrev pub domain_marker : Bytes
domain_marker = codes " on domain"

-- parse_int into a variable that is not read where it fails.
unfoldable pub int_of : Bytes → Option ℤ
int_of s = if is_ok (parse_int s) then some (stored (parse_int s) (pos 0)) else none

-- The text in front of the colon, as a number.
number_before : Option (Bytes × Bytes) → Option ℤ
number_before none = none
number_before (some (domain_text, behind)) =
    let text = trim_whitespace domain_text in if is_empty text then none else int_of text

-- The number between the marker and the colon, which stand behind the time stamp.
domain_of : Option Bytes → Option ℤ
unfolding number_before
domain_of none = none
domain_of (some rest) = number_before (split_at b':' rest)

abbrev with_timestamp : DateTime → Option ℤ → Option (ℤ × DateTime)
with_timestamp timestamp none = none
with_timestamp timestamp (some domain) = some (domain, timestamp)

-- The domain and the time stamp.
unfoldable pub parse_wrf_timing_line : Bytes → Option (ℤ × DateTime)
unfolding domain_of
parse_wrf_timing_line line =
    if not (starts_with timing_prefix line)
    then none
    else if ltb (length line) (22 + 19)
    then none
    else elim (parse_wrf_timestamp (take 19 (drop 22 line))) [
      | none ↦ none
      | some timestamp ↦
          with_timestamp timestamp (domain_of (after_first domain_marker (drop (22 + 19) line)))
    ]

abbrev on_domain1 : Option (ℤ × DateTime) → Option DateTime
on_domain1 none = none
on_domain1 (some (domain, timestamp)) = if eqb_ℤ domain (pos 1) then some timestamp else none

-- The time stamp of a line on the outermost domain.
unfoldable pub domain1_timestamp : Bytes → Option DateTime
domain1_timestamp line = on_domain1 (parse_wrf_timing_line line)

abbrev newer : Option DateTime → Option DateTime → Option DateTime
newer latest none = latest
newer latest (some timestamp) = some timestamp

-- The loop over the lines of the log.
unfoldable pub latest_timestamp : Option DateTime → List Bytes → Option DateTime
latest_timestamp latest [] = latest
latest_timestamp latest (line ∷ lines) =
    latest_timestamp (newer latest (domain1_timestamp line)) lines

-- The step of an elapsed time, none of the two being negative.
unfoldable pub step_of_seconds : ℕ → ℤ → ℤ → Option ℕ
step_of_seconds timestep total_steps (negsuc n) = none
step_of_seconds timestep total_steps (pos n) =
    if not (n % timestep == 0)
    then none
    else if ltb_ℤ total_steps (pos (n / timestep))
    then none
    else some (n / timestep)

abbrev step_at : ℕ → DateTime → ℤ → Option DateTime → Option ℕ
step_at timestep step0_datetime total_steps none = none
step_at timestep step0_datetime total_steps (some timestamp) =
    step_of_seconds timestep total_steps (datetime_duration_seconds step0_datetime timestamp)

abbrev lines_of : Option (List Bytes) → List Bytes
lines_of none = []
lines_of (some lines) = lines

-- The result and the output argument, which is set to 0 first.
abbrev pub with_step : Option ℕ → Bool × ℤ
with_step none = (false, pos 0)
with_step (some step) = (true, pos step)

-- The log is none where it cannot be opened, which is as if it had no lines.
unfoldable pub get_current_step : ℤ → DateTime → Option (List Bytes) → ℤ → Bool × ℤ
unfolding step_of_seconds
get_current_step timestep_seconds step0_datetime log total_steps =
    if leb_ℤ timestep_seconds (pos 0)
    then (false, pos 0)
    else with_step (
        step_at (pos_part timestep_seconds) step0_datetime total_steps
          (latest_timestamp none (lines_of log)))
