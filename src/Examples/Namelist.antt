-- ===== src/Examples/Namelist.antt =====
-- The theorems on the namelist, its rewriting for a restart and the pruning of restarts at small inputs.
use cpdn_control.Prelude.{◌≡◌, refl, true, some, none, List, [], ◌∷◌, ◌++◌, pos, arith}
use cpdn_control.Text.{
  Bytes, codes, is_empty, contains, equal, starts_with, split_at, cut_at, is_trimmed_char, ltrim,
  rtrim, trim_whitespace, is_ascii_digit, contains_embedded_nul, strip_quotes_and_trim,
  split_key_value, parse_key_value, parse_namelist_key_value,
}
use cpdn_control.Text.Number.{scan_digits, from_chars, parse_int}
use cpdn_control.Wrf.Timing.{int_of}
use cpdn_control.Calendar.{
  datetime_duration_seconds, is_valid_datetime, days_in_month, is_leap_year,
  datetime_to_absolute_seconds, days_before_year, add_month_days,
}
use cpdn_control.Wrf.Namelist.{
  list_token, get_wrf_datetime_field, extract_namelist_rhs_preserving_list,
  parse_wrf_domain_list_value, build_wrf_start_value_list, replace_namelist_rhs,
}
use cpdn_control.Wrf.Namelist.Rewrite.{parse_wrf_domain_list_value-replace}
use cpdn_control.Wrf.Prune.{restart_files, do_step_tasks}
use cpdn_control.Wrf.Prune.Order.{stamps}
use cpdn_control.Wrf.Prune.Kept.{replaced, do_step_tasks-replaced}
use cpdn_control.Wrf.Input.{
  ModelControlInputData, missing, opened, parsed_input, read_key, read_input_line, read_input_lines,
  finish_input, parse_control_input,
}
use cpdn_control.Wrf.Input.Running.{IsConfigured, parse_control_input-IsConfigured}
use cpdn_control.Wrf.Scan.{restart_exists}
use cpdn_control.Wrf.Restart.{FileOutcome, setup}
use cpdn_control.Wrf.Restart.Outcome.{IsSetUp, setup-IsSetUp}
use cpdn_control.Examples.Wrf.{control, control-IsReady, entries}

-- The value for the second of two domains, in a line that had a comment.
parse_wrf_domain_list_value-replace_example :
    (text : Bytes) × (extract_namelist_rhs_preserving_list (
        replace_namelist_rhs
          (codes " start_day " ++ b'=' ∷ codes " 01, 01, ! the day")
          (build_wrf_start_value_list 17 2 (pos 2)))
      ≡ some text)
    × (parse_wrf_domain_list_value text (pos 2) ≡ some (pos 17))
parse_wrf_domain_list_value-replace_example =
    parse_wrf_domain_list_value-replace 2 17 1 (codes " start_day ") (codes " 01, 01, ! the day")
      (refl, (refl, (refl, (refl, (refl, (refl, (refl, (refl, (refl, (refl, (refl, tt)))))))))))
      (refl, (refl, (refl, (refl, (refl, (refl, (refl, (refl, (refl, (refl, (refl, tt))))))))))) 1
      (omega arith) (omega arith)

do_step_tasks-replaced_example :
    let files = restart_files control.restart_prefixes entries in
    do_step_tasks none (pos 48) (some entries) control
    ≡ record { ok = true; removals = replaced (stamps files) files; control = control }
do_step_tasks-replaced_example =
    do_step_tasks-replaced none 48 entries control control-IsReady (omega arith) refl

abbrev namelist : List Bytes
namelist =
    codes "&time_control"
    ∷ codes " start_year = 2023, 2023,"
    ∷ codes " start_month = 12, 12,"
    ∷ codes " start_day = 31, 31,"
    ∷ codes " start_hour = 12, 12,"
    ∷ codes " start_minute = 00, 00,"
    ∷ codes " start_second = 00, 00,"
    ∷ codes " end_year = 2023, 2023,"
    ∷ codes " end_month = 12, 12,"
    ∷ codes " end_day = 31, 31,"
    ∷ codes " end_hour = 18, 18,"
    ∷ codes " end_minute = 00, 00,"
    ∷ codes " history_interval = 60, 30,"
    ∷ codes " frames_per_outfile = 1, 2,"
    ∷ codes " restart_interval = 120, ! minutes"
    ∷ codes "/"
    ∷ codes " time_step = 60,"
    ∷ codes " max_dom = 2,"
    ∷ []

abbrev everything_works : FileOutcome
everything_works = record {
  backed_up = true;
  reopened = true;
  written = true;
  flushed = true;
  restored = true;
  left_behind = [];
}

setup-IsSetUp_example :
    IsSetUp
      (restart_exists (some namelist) (codes "/slots/1") entries control).0
      everything_works
      namelist
      (setup true everything_works (codes "/slots/1") entries namelist control)
setup-IsSetUp_example =
    setup-IsSetUp true everything_works (codes "/slots/1") entries namelist control

abbrev six_hours : ModelControlInputData
six_hours = record {
  timestep_seconds = pos 60;
  output_interval = pos 60;
  restart_interval = pos 120;
  total_steps = 360;
  forecast_length_time = 21600;
}

reading : (parse_control_input missing (opened namelist) control).0 ≡ parsed_input six_hours
unfolding parse_control_input read_input_lines finish_input read_input_line read_key trim_whitespace
    ltrim rtrim is_empty equal starts_with split_at cut_at contains is_trimmed_char
    strip_quotes_and_trim split_key_value parse_key_value parse_namelist_key_value
    extract_namelist_rhs_preserving_list parse_wrf_domain_list_value get_wrf_datetime_field
    list_token scan_digits from_chars parse_int int_of is_ascii_digit contains_embedded_nul
    datetime_duration_seconds is_valid_datetime days_in_month is_leap_year
    datetime_to_absolute_seconds days_before_year add_month_days
reading = refl

parse_control_input-IsConfigured_example :
    IsConfigured namelist six_hours (parse_control_input missing (opened namelist) control).1
parse_control_input-IsConfigured_example =
    parse_control_input-IsConfigured missing (opened namelist) control six_hours reading
