-- ===== src/Wrf/Input.antt =====
-- models/wrf/wrf_control.cpp: parse_control_input, which reads the namelist that the run was started with.
pub mod Keeps
pub mod Fields
pub mod Dates
pub mod TimeStep
pub mod Running
use cpdn_control.Prelude.{
  ℕ, zero, suc, ◌+◌, ◌/◌, ◌%◌, Bool, true, false, not, ◌&&◌, ◌||◌, Option, none, some, List, [],
  ◌∷◌, ◌==◌, ℤ, pos, negsuc, pos_part, leb_ℤ, ◌*ℤ◌, quot, if◌then◌else◌,
}
use cpdn_control.Text.{
  Bytes, codes, is_empty, front, equal, starts_with, cut_at, trim_whitespace,
  parse_namelist_key_value,
}
use cpdn_control.Calendar.{DateTime, datetime_duration_seconds}
use cpdn_control.Wrf.Timing.{int_of}
use cpdn_control.Wrf.Domains.{WrfControl, is_allowed, set_domain_prefixes}
use cpdn_control.Wrf.Namelist.{
  extract_namelist_rhs_preserving_list, parse_wrf_domain_list_value, get_wrf_datetime_field,
  set_field, Field,
}

-- The `error_step` of a failed parse; the field and the message are left out.
pub data ErrorStep : Type 0 where
  exists opening parse validate : ErrorStep

pub data ControlFile : Type 0 where
  missing closed : ControlFile
  opened : List Bytes → ControlFile

pub record ModelControlInputData : Type 0 where
  pub timestep_seconds : ℤ
  pub output_interval : ℤ
  pub restart_interval : ℤ
  pub total_steps : ℕ
  pub forecast_length_time : ℕ

-- The local variables of the function, and the control that it changes.
pub record InputScan : Type 0 where
  pub control : WrfControl
  pub timestep_seconds : ℤ
  pub history_interval : Bytes
  pub frames_per_outfile : Bytes
  pub restart_interval_minutes : ℤ
  pub parsed_max_domains : ℤ
  pub have_start_datetime : Bool
  pub have_end_datetime : Bool
  pub start_datetime : DateTime
  pub end_datetime : DateTime

pub data ScanResult : Type 0 where
  scanned : InputScan → ScanResult
  failed : ErrorStep → WrfControl → ScanResult

abbrev or_failed : {A : Type 0} → InputScan → Option A → (A → ScanResult) → ScanResult
or_failed s none next = failed parse s.control
or_failed s (some a) next = next a

abbrev read_time_step : Bytes → InputScan → ScanResult
read_time_step value s = or_failed s (int_of (cut_at b'.' value)) λ z.
    scanned (record s { timestep_seconds = z; control = record s.control { timestep_seconds = z } })

-- The field of the start or of the end date, if the key names one.
abbrev read_field : Bool → Option Field → Bytes → InputScan → ScanResult
read_field is_start none value s = scanned s
read_field true (some field) value s =
    or_failed s (int_of value)
      λ z. scanned (record s { start_datetime = set_field field z s.start_datetime })
read_field false (some field) value s =
    or_failed s (int_of value)
      λ z. scanned (record s { end_datetime = set_field field z s.end_datetime })

abbrev mark_have : Bool → InputScan → InputScan
mark_have true s = record s { have_start_datetime = true }
mark_have false s = record s { have_end_datetime = true }

abbrev read_date : Bool → Bytes → Bytes → InputScan → ScanResult
read_date is_start key value s =
    read_field is_start (get_wrf_datetime_field key) value (mark_have is_start s)

abbrev read_max_dom : Bytes → InputScan → ScanResult
read_max_dom value s = or_failed s (int_of value) λ z.
    if not (is_allowed z)
    then failed validate s.control
    else scanned (record s { parsed_max_domains = z })

abbrev pub key_is : Bytes → Bytes → Bool
key_is key name = equal key name

-- The chain of tests on the key of a line.
unfoldable pub read_key : Bytes → Bytes → Bytes → InputScan → ScanResult
read_key line key value s =
    if key_is key (codes "time_step")
    then read_time_step value s
    else if starts_with (codes "start_") key || starts_with (codes "end_") key
    then read_date (starts_with (codes "start_") key) key value s
    else if key_is key (codes "restart_interval")
    then or_failed s (int_of value) (λ z. scanned (record s { restart_interval_minutes = z }))
    else if key_is key (codes "max_dom")
    then read_max_dom value s
    else if key_is key (codes "history_interval")
    then or_failed s (extract_namelist_rhs_preserving_list line)
        (λ rhs. scanned (record s { history_interval = rhs }))
    else if key_is key (codes "frames_per_outfile")
    then or_failed s (extract_namelist_rhs_preserving_list line)
        (λ rhs. scanned (record s { frames_per_outfile = rhs }))
    else scanned s

abbrev read_pair : Bytes → Option (Bytes × Bytes) → InputScan → ScanResult
read_pair line none s = scanned s
read_pair line (some (key, value)) s = read_key line key value s

unfoldable pub read_input_line : Bytes → InputScan → ScanResult
unfolding read_key
read_input_line input_line s =
    let line = trim_whitespace input_line in
    if is_empty line
    then scanned s
    else if front line == b'!'
    then scanned s
    else read_pair line (parse_namelist_key_value line) s

abbrev after_line : (InputScan → ScanResult) → ScanResult → ScanResult
after_line next (failed step c) = failed step c
after_line next (scanned s) = next s

-- The loop over the lines.
unfoldable pub read_input_lines : List Bytes → InputScan → ScanResult
unfolding read_input_line
read_input_lines [] s = scanned s
read_input_lines (line ∷ lines) s =
    after_line (λ next. read_input_lines lines next) (read_input_line line s)

pub data InputResult : Type 0 where
  parsed_input : ModelControlInputData → InputResult
  input_error : ErrorStep → InputResult

abbrev input_data : InputScan → ℤ → ℤ → ℕ → ModelControlInputData
input_data s output restart run_len_secs = record {
  timestep_seconds = s.timestep_seconds;
  output_interval = output;
  restart_interval = restart;
  total_steps = run_len_secs / pos_part s.timestep_seconds;
  forecast_length_time = run_len_secs;
}

-- The length of the run, and its steps.
abbrev total_of : InputScan → ℤ → ℤ → WrfControl → ℤ → InputResult × WrfControl
total_of s output restart c (negsuc n) = (input_error validate, c)
total_of s output restart c (pos run_len_secs) =
    if not (run_len_secs % pos_part s.timestep_seconds == 0)
    then (input_error validate, c)
    else (parsed_input (input_data s output restart run_len_secs), c)

-- The checks behind the loop, from the output interval on; `c` has the domains set.
abbrev finish_intervals : InputScan → WrfControl → Option ℤ → Option ℤ → InputResult × WrfControl
finish_intervals s c none frames = (input_error parse, c)
finish_intervals s c (some history) none = (input_error parse, c)
finish_intervals s c (some history) (some frames) =
    let output = quot (history *ℤ frames *ℤ pos 60) s.timestep_seconds in
    let restart = quot (s.restart_interval_minutes *ℤ pos 60) s.timestep_seconds in
    let cached = record c { output_interval = output } in
    if not s.have_start_datetime || not s.have_end_datetime
    then (input_error validate, cached)
    else total_of s output restart (record cached { step0_datetime = s.start_datetime })
        (datetime_duration_seconds s.start_datetime s.end_datetime)

abbrev domains_set : InputScan → WrfControl
domains_set s =
    set_domain_prefixes s.parsed_max_domains
      (record s.control { max_domains = s.parsed_max_domains })

unfoldable pub finish_input : ScanResult → InputResult × WrfControl
finish_input (failed step c) = (input_error step, c)
finish_input (scanned s) =
    let c = domains_set s in
    if leb_ℤ s.timestep_seconds (pos 0)
    then (input_error validate, s.control)
    else if leb_ℤ s.parsed_max_domains (pos 0)
    then (input_error validate, s.control)
    else finish_intervals s c (parse_wrf_domain_list_value s.history_interval s.parsed_max_domains)
        (parse_wrf_domain_list_value s.frames_per_outfile s.parsed_max_domains)

abbrev no_date : DateTime
no_date = record { year = 0; month = 0; day = 0; hour = 0; minute = 0; second = 0 }

abbrev pub start_scan : WrfControl → InputScan
start_scan c = record {
  control = c;
  timestep_seconds = pos 0;
  history_interval = [];
  frames_per_outfile = [];
  restart_interval_minutes = pos 0;
  parsed_max_domains = pos 0;
  have_start_datetime = false;
  have_end_datetime = false;
  start_datetime = no_date;
  end_datetime = no_date;
}

-- The file to read: the copy of the first start's namelist, or the namelist where there is none.
abbrev pub source_file : ControlFile → ControlFile → ControlFile
source_file missing namelist = namelist
source_file closed namelist = closed
source_file (opened lines) namelist = opened lines

abbrev parse_source : ControlFile → WrfControl → InputResult × WrfControl
parse_source missing c = (input_error exists, c)
parse_source closed c = (input_error opening, c)
parse_source (opened lines) c = finish_input (read_input_lines lines (start_scan c))

unfoldable pub parse_control_input :
    ControlFile → ControlFile → WrfControl → InputResult × WrfControl
unfolding finish_input read_input_lines
parse_control_input step0 namelist c = parse_source (source_file step0 namelist) c
