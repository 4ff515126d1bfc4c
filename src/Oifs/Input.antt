-- ===== src/Oifs/Input.antt =====
-- models/openifs/oifs_control.cpp: parse_oifs_custop and parse_control_input.
use cpdn_control.Prelude.{
  ℕ, ◌*◌, ◌/◌, ◌%◌, Bool, not, ◌||◌, Option, none, some, List, [], ◌∷◌, ◌==◌, ℤ, pos, negsuc,
  pos_part, abs_ℤ, ◌*ℤ◌, quot, eqb_ℤ, leb_ℤ, ltb, length, if◌then◌else◌,
}
use cpdn_control.Text.{
  Bytes, codes, is_empty, front, equal, cut_at, trim_whitespace, parse_namelist_key_value,
}
use cpdn_control.Text.Number.{int_max}
use cpdn_control.Wrf.Timing.{int_of}
use cpdn_control.Wrf.Input.{
  ErrorStep, exists, opening, parse, validate, ControlFile, missing, closed, opened,
  ModelControlInputData, InputResult, parsed_input, input_error,
}
use cpdn_control.Oifs.{OifsControl}

-- The count's text and the seconds of its unit; 0 is a count of time steps.
unfoldable pub custop_unit : Bytes → Bytes × ℕ
custop_unit [] = ([], 0)
custop_unit (c ∷ s) =
    if c == b't'
    then (s, 0)
    else if c == b'h'
    then (s, 3600)
    else if c == b'd'
    then (s, 86400)
    else (c ∷ s, 0)

unfoldable pub duration_steps : ℕ → ℕ → Option ℕ
duration_steps total_seconds timestep_seconds =
    let calculated_steps = total_seconds / timestep_seconds in
    if not (total_seconds % timestep_seconds == 0)
    then none
    else if ltb int_max calculated_steps
    then none
    else some calculated_steps

unfoldable pub custop_steps : ℤ → ℕ → Option ℤ → Option ℕ
unfolding duration_steps
custop_steps timestep_seconds seconds_per_unit none = none
custop_steps timestep_seconds seconds_per_unit (some count) =
    if leb_ℤ count (pos 0)
    then none
    else if seconds_per_unit == 0
    then some (pos_part count)
    else if leb_ℤ timestep_seconds (pos 0)
    then none
    else duration_steps (pos_part count * seconds_per_unit) (pos_part timestep_seconds)

unfoldable pub parse_oifs_custop : Bytes → ℤ → Option ℕ
unfolding custop_unit custop_steps
parse_oifs_custop value timestep_seconds =
    let (count_text, seconds_per_unit) = custop_unit value in
    if is_empty value
    then none
    else custop_steps timestep_seconds seconds_per_unit (int_of count_text)

-- The local variables of the function, and the control that it changes.
pub record OifsScan : Type 0 where
  pub control : OifsControl
  pub timestep_seconds : ℤ
  pub output_interval : ℤ
  pub restart_interval : ℤ
  pub custop_value : Bytes

pub data OifsResult : Type 0 where
  oifs_scanned : OifsScan → OifsResult
  oifs_failed : ErrorStep → OifsControl → OifsResult

abbrev pub read_int : OifsScan → Option ℤ → (ℤ → OifsScan) → OifsResult
read_int s none store = oifs_failed parse s.control
read_int s (some z) store = oifs_scanned (store z)

abbrev pub with_experiment : Bytes → OifsScan → OifsScan
with_experiment id s = record s { control = record s.control { experiment_id = id } }

-- The chain of tests on the key of a line.
unfoldable pub read_oifs_key : Bytes → Bytes → OifsScan → OifsResult
read_oifs_key key value s =
    if equal key (codes "UTSTEP")
    then read_int s (int_of (cut_at b'.' value)) (λ z. record s { timestep_seconds = z })
    else if equal key (codes "NFRPOS")
    then read_int s (int_of value) (λ z. record s { output_interval = z })
    else if equal key (codes "NFRRES")
    then read_int s (int_of value) (λ z. record s { restart_interval = z })
    else if equal key (codes "CNMEXP")
    then (if not (length value == 4)
        then oifs_failed validate (with_experiment value s).control
        else oifs_scanned (with_experiment value s))
    else if equal key (codes "CUSTOP")
    then oifs_scanned (record s { custop_value = value })
    else oifs_scanned s

abbrev pub read_oifs_pair : Option (Bytes × Bytes) → OifsScan → OifsResult
read_oifs_pair none s = oifs_scanned s
read_oifs_pair (some (key, value)) s = read_oifs_key key value s

unfoldable pub read_oifs_line : Bytes → OifsScan → OifsResult
unfolding read_oifs_key
read_oifs_line input_line s =
    let line = trim_whitespace input_line in
    if is_empty line
    then oifs_scanned s
    else if front line == b'!'
    then oifs_scanned s
    else read_oifs_pair (parse_namelist_key_value line) s

abbrev pub then_line : (OifsScan → OifsResult) → OifsResult → OifsResult
then_line next (oifs_failed step c) = oifs_failed step c
then_line next (oifs_scanned s) = next s

-- The loop over the lines.
unfoldable pub read_oifs_lines : List Bytes → OifsScan → OifsResult
unfolding read_oifs_line
read_oifs_lines [] s = oifs_scanned s
read_oifs_lines (line ∷ lines) s =
    then_line (λ next. read_oifs_lines lines next) (read_oifs_line line s)

-- The steps of CUSTOP: 0 where there is none, and no result where it cannot be read.
unfoldable pub total_steps_of : OifsScan → Option ℕ
unfolding parse_oifs_custop
total_steps_of s =
    if is_empty s.custop_value then some 0 else parse_oifs_custop s.custop_value s.timestep_seconds

abbrev pub has_missing_fields : OifsScan → ℕ → Bool
has_missing_fields s total_steps =
    is_empty s.control.experiment_id
    || (leb_ℤ s.timestep_seconds (pos 0)
        || (eqb_ℤ s.output_interval (pos 0)
            || (eqb_ℤ s.restart_interval (pos 0) || (total_steps == 0))))

-- A negative interval is in hours.
abbrev pub interval_steps : ℤ → ℤ → ℤ
interval_steps timestep_seconds (pos n) = pos n
interval_steps timestep_seconds (negsuc n) =
    quot (pos (abs_ℤ (negsuc n)) *ℤ pos 3600) timestep_seconds

abbrev pub oifs_data : OifsScan → ℕ → ModelControlInputData
oifs_data s total_steps = record {
  timestep_seconds = s.timestep_seconds;
  output_interval = interval_steps s.timestep_seconds s.output_interval;
  restart_interval = interval_steps s.timestep_seconds s.restart_interval;
  total_steps = total_steps;
  forecast_length_time = total_steps * pos_part s.timestep_seconds;
}

abbrev pub finish_steps : OifsScan → Option ℕ → InputResult × OifsControl
finish_steps s none = (input_error parse, s.control)
finish_steps s (some total_steps) =
    if has_missing_fields s total_steps then (input_error validate, s.control) else (
      parsed_input (oifs_data s total_steps),
      record s.control { output_interval = interval_steps s.timestep_seconds s.output_interval },
    )

abbrev pub finish_oifs : OifsResult → InputResult × OifsControl
finish_oifs (oifs_failed step c) = (input_error step, c)
finish_oifs (oifs_scanned s) = finish_steps s (total_steps_of s)

abbrev pub start_oifs : OifsControl → OifsScan
start_oifs c = record {
  control = c;
  timestep_seconds = pos 0;
  output_interval = pos 0;
  restart_interval = pos 0;
  custop_value = [];
}

unfoldable pub parse_oifs_control_input : ControlFile → OifsControl → InputResult × OifsControl
unfolding read_oifs_lines total_steps_of
parse_oifs_control_input missing c = (input_error exists, c)
parse_oifs_control_input closed c = (input_error opening, c)
parse_oifs_control_input (opened lines) c = finish_oifs (read_oifs_lines lines (start_oifs c))
