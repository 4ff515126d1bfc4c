-- ===== src/Examples/Wrf.antt =====
-- The theorems on the WRF control at small inputs.
use cpdn_control.Prelude.{
  ◌≡◌, refl, inr, ◌⊎◌, true, false, some, none, List, [], ◌∷◌, ◌++◌, ◌+◌, ◌*◌, ◌/◌, pos, arith,
}
use cpdn_control.Text.{Bytes, codes, is_trimmed_char, is_ascii_digit}
use cpdn_control.Text.Trim.{AllBlank}
use cpdn_control.Text.Number.{to_string_ℕ, digits}
use cpdn_control.Calendar.{
  DateTime, datetime_to_absolute_seconds, days_before_year, add_month_days, days_in_month,
  is_leap_year, is_valid_datetime, datetime_duration_seconds, add_duration_to_datetime,
  secs_to_datetime_duration, advance_days, next_month,
}
use cpdn_control.Calendar.Months.{IsValid, is_valid_datetime-IsValid}
use cpdn_control.Wrf.{
  parse_wrf_timestamp, is_wrf_datetime_suffix, digits_at, at, find_latest_valid_restart_set,
  latest_from, is_complete, is_later, all_present,
}
use cpdn_control.Wrf.Stamps.{stamp}
use cpdn_control.Wrf.Timing.{get_current_step}
use cpdn_control.Wrf.Timing.Steps.{timing_line, get_current_step-timing_line}
use cpdn_control.Wrf.Timing.Last.{IsStep, get_current_step-IsStep}
use cpdn_control.Wrf.Domains.{
  WrfControl, ensure_domain_prefixes_initialized, build_wrf_domain_prefixes, is_output_filename,
}
use cpdn_control.Wrf.Domains.Prefixes.{
  IsReady, IsConsistent, ensure_domain_prefixes_initialized-IsReady,
}
use cpdn_control.Wrf.Output.{get_output_filenames, get_copyable_output_filenames}
use cpdn_control.Wrf.Output.Names.{output_filename, get_output_filenames-date}
use cpdn_control.Wrf.Output.Copyable.{files_of_intervals, get_copyable_output_filenames_lem}
use cpdn_control.Wrf.Scan.{DirEntry, is_some, latest_of, restart_exists, parse_restart}
use cpdn_control.Wrf.Scan.Complete.{IsLatestOnDisk, restart_exists-IsLatestOnDisk}
use cpdn_control.Wrf.Scan.Step.{IsRestartStep, parse_restart-IsRestartStep}
use cpdn_control.Examples.Stamps.{new_year}

abbrev noon : DateTime
noon = record { year = 2023; month = 12; day = 31; hour = 12; minute = 0; second = 0 }

abbrev two_past : DateTime
two_past = record { year = 2023; month = 12; day = 31; hour = 12; minute = 2; second = 0 }

noon-IsValid : IsValid noon
unfolding is_valid_datetime days_in_month is_leap_year
noon-IsValid = is_valid_datetime-IsValid noon refl

two_past-IsValid : IsValid two_past
unfolding is_valid_datetime days_in_month is_leap_year
two_past-IsValid = is_valid_datetime-IsValid two_past refl

two_past_later : datetime_to_absolute_seconds two_past ≡ datetime_to_absolute_seconds noon + 2 * 60
unfolding datetime_to_absolute_seconds days_before_year add_month_days days_in_month is_leap_year
two_past_later = refl

abbrev logged : List Bytes
logged =
    codes "starting wrf task" ∷ []
    ++ timing_line two_past (pos 1) (codes "   ") (codes "    3.25000 elapsed seconds") ∷ []

three_blanks : AllBlank (codes "   ")
unfolding is_trimmed_char
three_blanks = (refl, (refl, (refl, tt)))

get_current_step-timing_line_example :
    get_current_step (pos 60) noon (some logged) (pos 1440) ≡ (true, pos 2)
get_current_step-timing_line_example =
    get_current_step-timing_line 60 noon two_past (codes "starting wrf task" ∷ []) [] (codes "   ")
      (codes "    3.25000 elapsed seconds") 2 (pos 1440) (omega arith) noon-IsValid two_past-IsValid
      (omega arith) two_past_later three_blanks tt (omega arith)

get_current_step-IsStep_example : IsStep 60 noon logged (pos 1440) (pos 2)
get_current_step-IsStep_example = get_current_step-IsStep (pos 60) noon logged (pos 1440) (pos 2) (
    get_current_step-timing_line 60 noon two_past (codes "starting wrf task" ∷ []) [] (codes "   ")
      (codes "    3.25000 elapsed seconds") 2 (pos 1440) (omega arith) noon-IsValid two_past-IsValid
      (omega arith) two_past_later three_blanks tt (omega arith))

-- Two domains, a time step of a minute, and an output file for each hour.
abbrev pub control : WrfControl
control = record {
  timestep_seconds = pos 60;
  output_interval = pos 60;
  step0_datetime = noon;
  restart_reference_start_datetime = noon;
  restart_reference_start_valid = false;
  max_domains = pos 2;
  output_prefixes = build_wrf_domain_prefixes (codes "wrfout") (pos 2);
  restart_prefixes = build_wrf_domain_prefixes (codes "wrfrst") (pos 2);
  restart_sets = [];
  restart_scan_cached = false;
  cached_restart_exists = false;
  cached_restart_scan_dir = [];
  cached_restart_scan_max_domains = pos 0;
}

pub control-IsReady : IsReady control
control-IsReady = record { allowed = refl; output_ready = refl; restart_ready = refl }

ensure_domain_prefixes_initialized-IsReady_example :
    let r = ensure_domain_prefixes_initialized none control in
    IsConsistent r.1 × ((r.0 ≡ false) ⊎ IsReady r.1)
ensure_domain_prefixes_initialized-IsReady_example =
    ensure_domain_prefixes_initialized-IsReady none control (inr control-IsReady)

two_past_reached :
    add_duration_to_datetime noon (secs_to_datetime_duration (2 * 60)) ≡ some two_past
unfolding add_duration_to_datetime secs_to_datetime_duration advance_days next_month days_in_month
    is_leap_year
two_past_reached = refl

get_output_filenames-date_example :
    (datetime_to_absolute_seconds two_past ≡ datetime_to_absolute_seconds noon + 2 * 60)
    × (get_output_filenames none (pos 2) control
        ≡ some (output_filename control two_past ∷ [], control))
    × (is_output_filename none (output_filename control two_past) control ≡ (true, control))
    × (parse_wrf_timestamp (stamp two_past) ≡ some two_past)
get_output_filenames-date_example =
    get_output_filenames-date control control-IsReady none 2 60 two_past refl (omega arith)
      noon-IsValid two_past_reached (omega arith)

get_copyable_output_filenames_lem_example :
    get_copyable_output_filenames none false (pos 150) control
    ≡ some (files_of_intervals none control 60 0 (150 / 60), control)
get_copyable_output_filenames_lem_example =
    get_copyable_output_filenames_lem none false control 150 60
      (record {
        ready = control-IsReady;
        timestep = 60;
        timed = refl;
        timestep_pos = omega arith;
        start_valid = noon-IsValid;
      })
      refl (omega arith)

abbrev pub entries : List DirEntry
entries =
    record {
      filename = codes "wrfrst_d01_2023-12-31_23:59:59";
      is_regular_file = true;
      file_size = some 10;
    }
    ∷ record {
      filename = codes "wrfrst_d02_2024-01-01_00:30:00";
      is_regular_file = true;
      file_size = some 0;
    }
    ∷ record {
      filename = codes "wrfrst_d01_2024-01-01_00:30:00";
      is_regular_file = true;
      file_size = some 10;
    }
    ∷ record {
      filename = codes "wrfrst_d02_2023-12-31_23:59:59";
      is_regular_file = true;
      file_size = some 7;
    }
    ∷ []

restart_exists-IsLatestOnDisk_example :
    let r = restart_exists none (codes "/slots/1") entries control in
    (r.0 ≡ is_some (latest_of r.1))
    × IsLatestOnDisk 2
        (build_wrf_domain_prefixes (codes "wrfrst") (pos 2))
        entries
        (stamp new_year)
        (latest_of r.1)
    × (restart_exists none (codes "/slots/1") [] r.1 ≡ r)
restart_exists-IsLatestOnDisk_example =
    restart_exists-IsLatestOnDisk none (codes "/slots/1") entries [] control (stamp new_year)
      control-IsReady refl

abbrev restarted : WrfControl
restarted = record control {
  restart_sets = record { datetime = stamp two_past; domains_present = true ∷ true ∷ [] } ∷ [];
  restart_reference_start_valid = true;
}

restarted_step : parse_restart restarted ≡ some (codes "2")
unfolding parse_restart find_latest_valid_restart_set latest_from is_complete is_later all_present
    parse_wrf_timestamp is_wrf_datetime_suffix digits_at at is_ascii_digit datetime_duration_seconds
    is_valid_datetime days_in_month is_leap_year datetime_to_absolute_seconds days_before_year
    add_month_days to_string_ℕ digits
restarted_step = refl

parse_restart-IsRestartStep_example : IsRestartStep restarted (codes "2")
parse_restart-IsRestartStep_example =
    parse_restart-IsRestartStep restarted (codes "2") restarted_step
