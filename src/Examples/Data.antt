-- ===== src/Examples/Data.antt =====
-- The theorems on texts, dates, trickles and the progress file, at small inputs.
use cpdn_control.Prelude.{
  ℕ, ◌+◌, ◌*◌, ◌/◌, ◌≤◌, ◌≡◌, refl, inl, true, false, Option, some, [], ◌∷◌, ◌++◌, drop, All,
  length, pos, arith,
}
use cpdn_control.Text.{Bytes, codes, is_trimmed_char, is_ascii_digit, parse_namelist_key_value}
use cpdn_control.Text.Number.{scan_digits, to_string_ℕ, digits}
use cpdn_control.Text.KeyValue.{namelist_line, parse_namelist_key_value_lem}
use cpdn_control.Progress.{StrtodResult, progress_content, to_string_double, read}
use cpdn_control.Progress.Values.{IsWord-IsKey, IsPlain-IsValue}
use cpdn_control.Progress.RoundTrip.{restored, read-progress_content}
use cpdn_control.Trickle.{read_trickle_data_file}
use cpdn_control.Trickle.Data.{IsKept, read_trickle_data_file-IsKept, read_trickle_data_file-clean}
use cpdn_control.Trickle.Boundary.{trickles_at, last_observed, trickles_at_lem}
use cpdn_control.Calendar.{
  DateTime, is_valid_datetime, is_leap_year, days_in_month, add_duration_to_datetime,
  secs_to_datetime_duration, datetime_duration_seconds,
}
use cpdn_control.Calendar.Months.{is_valid_datetime-IsValid}
use cpdn_control.Calendar.Seconds.{duration_seconds}
use cpdn_control.Calendar.Shift.{
  IsSecondsAfter, add_duration-IsSecondsAfter, datetime_duration_seconds-add_duration,
}
use cpdn_control.Start.{Slot, initialize_task_state_from_restart}
use cpdn_control.Start.Modes.{StartsAs, initialize-StartsAs}
use cpdn_control.World.{TaskState}
use cpdn_control.Examples.Scene.{ended_task}

parse_namelist_key_value_lem_example :
    parse_namelist_key_value (
      namelist_line
        (codes " ")
        (codes "run_days")
        (codes " ")
        (codes "  ")
        (codes "14")
        (codes " ")
        (codes ", ! days"))
    ≡ some (codes "run_days", codes "14")
unfolding is_trimmed_char is_ascii_digit
parse_namelist_key_value_lem_example =
    parse_namelist_key_value_lem (codes " ") (codes "run_days") (codes " ") (codes "  ")
      (codes "14") (codes " ") (codes ", ! days") (IsWord-IsKey (codes "run_days") (λ e. cc) refl)
      (IsPlain-IsValue (codes "14") (λ e. cc) (refl, (refl, tt))) (refl, tt) (refl, tt)
      (refl, (refl, tt)) (refl, tt) (inl refl)

abbrev leap_eve : DateTime
leap_eve = record { year = 2024; month = 2; day = 28; hour = 23; minute = 59; second = 30 }

abbrev a_day_and_more : DateTime
a_day_and_more = record { year = 0; month = 0; day = 1; hour = 0; minute = 0; second = 45 }

add_duration-IsSecondsAfter_example :
    IsSecondsAfter
      (duration_seconds a_day_and_more)
      leap_eve
      (add_duration_to_datetime leap_eve a_day_and_more)
unfolding is_valid_datetime days_in_month is_leap_year
add_duration-IsSecondsAfter_example =
    add_duration-IsSecondsAfter leap_eve a_day_and_more (is_valid_datetime-IsValid leap_eve refl)
      (record { hours = omega arith; minutes = omega arith; seconds = omega arith })

datetime_duration_seconds-add_duration_example :
    (end : DateTime) × (add_duration_to_datetime leap_eve (secs_to_datetime_duration 86445)
      ≡ some end)
    × (datetime_duration_seconds leap_eve end ≡ pos 86445)
unfolding is_valid_datetime days_in_month is_leap_year
datetime_duration_seconds-add_duration_example =
    datetime_duration_seconds-add_duration leap_eve 86445 (is_valid_datetime-IsValid leap_eve refl)

trickles_at_lem_example :
    trickles_at 5 0 (3 ∷ 5 ∷ 9 ∷ 11 ∷ []) + 0 / 5 ≡ last_observed 0 (3 ∷ 5 ∷ 9 ∷ 11 ∷ []) / 5
trickles_at_lem_example = trickles_at_lem 5 0 (3 ∷ 5 ∷ 9 ∷ 11 ∷ []) (omega arith) (
  omega arith,
  omega arith,
  (omega arith, omega arith, (omega arith, omega arith, (omega arith, omega arith, tt))),
)

abbrev messy : Option Bytes
messy = some (codes "1, 2;x-3.5,\n")

read_trickle_data_file-IsKept_example :
    (length (read_trickle_data_file messy) ≤ 511) × All IsKept (read_trickle_data_file messy)
read_trickle_data_file-IsKept_example = read_trickle_data_file-IsKept messy

read_trickle_data_file-clean_example :
    read_trickle_data_file (some (codes "1,-2.5" ++ b',' ∷ [])) ≡ codes "1,-2.5"
read_trickle_data_file-clean_example =
    read_trickle_data_file-clean (codes "1,-2.5")
      (omega arith, (omega arith, (omega arith, (omega arith, (omega arith, (omega arith, tt))))))
      (omega arith)

-- A strtod that reads seconds with six decimals.
abbrev strtod_of : ℕ × Bytes → StrtodResult
strtod_of (whole, rest) =
    let fraction = scan_digits (drop 1 rest) 0 in
    record {
      value = whole * 1000000 + fraction.0;
      converted = true;
      out_of_range = false;
      rest = fraction.1;
    }

abbrev six_place_strtod : Bytes → StrtodResult
six_place_strtod s = strtod_of (scan_digits s 0)

abbrev saved_task : TaskState
saved_task = record ended_task { current_cpu_time = 12000345 }

read-progress_content_example :
    read six_place_strtod (some (progress_content (pos 4711) saved_task)) ended_task
    ≡ (restored saved_task ended_task, true)
unfolding to_string_double to_string_ℕ digits scan_digits is_ascii_digit
read-progress_content_example =
    read-progress_content six_place_strtod (pos 4711) saved_task ended_task (omega arith)
      (record {
        upload_file_number = omega arith;
        last_completed_step = omega arith;
        last_upload_step = omega arith;
        model_completed = omega arith;
      })
      refl

-- A progress file at step 40, and a restart of step 41.
abbrev restarted_slot : Slot
restarted_slot = record {
  progress_file_exists = true;
  progress_file_is_empty = false;
  read = λ t. (ended_task, true);
  restart_exists = true;
  parse_restart = some (codes "41");
}

initialize-StartsAs_example :
    StartsAs restarted_slot
      (pos 10)
      saved_task
      (initialize_task_state_from_restart restarted_slot (pos 10) saved_task)
initialize-StartsAs_example = initialize-StartsAs restarted_slot (pos 10) saved_task
