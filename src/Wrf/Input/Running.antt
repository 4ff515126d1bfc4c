-- ===== src/Wrf/Input/Running.antt =====
-- `parse_control_input` (models/wrf/wrf_control.cpp) leaves a control that the run can be followed with.
use cpdn_control.Prelude.{
  List, ℕ, ◌+◌, ◌*◌, ◌/◌, ◌%◌, ◌≤◌, ◌≡◌, refl, sym, ap, ◌∙◌, inl, inr, true, false, not, ◌||◌,
  Option, none, some, ◌==◌, ℤ, pos, negsuc, pos_part, leb_ℤ, Bool-cases, arith,
}
use cpdn_control.Text.{Bytes, codes}
use cpdn_control.Text.Entries.{last_value}
use cpdn_control.Wrf.Input.TimeStep.{seconds_of, read_input_lines-timestep}
use cpdn_control.Calendar.{DateTime, datetime_duration_seconds, datetime_to_absolute_seconds}
use cpdn_control.Calendar.Months.{IsValid, is_valid_datetime-IsValid}
use cpdn_control.Calendar.Seconds.{duration-valid, whole_steps}
use cpdn_control.Wrf.Domains.{WrfControl, is_allowed}
use cpdn_control.Wrf.Output.Copyable.{IsRunning}
use cpdn_control.Wrf.Input.{
  ControlFile, missing, closed, opened, ModelControlInputData, InputScan, ScanResult, scanned,
  failed, InputResult, parsed_input, input_error, input_data, total_of, domains_set,
  finish_intervals, finish_input, start_scan, source_file, parse_source, parse_control_input,
}
use cpdn_control.Wrf.Input.Dates.{lines_of, IsDateOf, read_input_lines-IsDateOf}
use cpdn_control.Wrf.Input.Keeps.{IsRead, Keeps, read_input_lines-Keeps, start_scan-IsRead}

-- The run that the namelist describes, and a control that is set up for it.
pub record IsConfigured (lines : List Bytes) (data_read : ModelControlInputData) (c : WrfControl)
    : Type 0 where
  pub running : IsRunning c
  pub timestep_read :
      seconds_of (last_value (codes "time_step") lines (codes "0"))
      ≡ some data_read.timestep_seconds
  pub same_timestep : c.timestep_seconds ≡ data_read.timestep_seconds
  pub same_interval : c.output_interval ≡ data_read.output_interval
  pub end : DateTime
  pub end_valid : IsValid end
  pub start_read : IsDateOf true lines c.step0_datetime
  pub end_read : IsDateOf false lines end
  pub whole :
      datetime_to_absolute_seconds end
      ≡ datetime_to_absolute_seconds c.step0_datetime
        + data_read.total_steps * pos_part c.timestep_seconds

abbrev Configures : List Bytes → InputResult × WrfControl → Type 0
Configures lines (input_error step, c) = Unit
Configures lines (parsed_input data_read, c) = IsConfigured lines data_read c

positive_timestep : (z : ℤ) → leb_ℤ z (pos 0) ≡ false → (z ≡ pos (pos_part z)) × (1 ≤ pos_part z)
positive_timestep z h = (ground arith, ground arith)

not_zero : (z : ℤ) → leb_ℤ z (pos 0) ≡ false → z ≡ pos 0 → ⊥
not_zero z h e = ground (arith, ap (λ z. leb_ℤ z (pos 0)) e)

module _ (lines : List Bytes) (s : InputScan) (r : IsRead s)
    (started : IsDateOf true lines s.start_datetime) (ended : IsDateOf false lines s.end_datetime)
    (stepped : seconds_of (last_value (codes "time_step") lines (codes "0"))
      ≡ some s.timestep_seconds)
    (timed : leb_ℤ s.timestep_seconds (pos 0) ≡ false)
    (counted : leb_ℤ s.parsed_max_domains (pos 0) ≡ false) where
  same : s.control.timestep_seconds ≡ s.timestep_seconds
  same = elim r.timed [ inl zero ↦ absurd (not_zero s.timestep_seconds timed zero) | inr e ↦ e ]

  allowed : is_allowed s.parsed_max_domains ≡ true
  allowed = elim r.counted [
    | inl zero ↦ absurd (not_zero s.parsed_max_domains counted zero)
    | inr e ↦ e
  ]

  abbrev configured : ℤ → WrfControl
  configured output = record (domains_set s) {
    output_interval = output;
    step0_datetime = s.start_datetime;
  }

  configured-IsRunning : (output : ℤ) → IsValid s.start_datetime → IsRunning (configured output)
  configured-IsRunning output v = record {
    ready = record { allowed = allowed; output_ready = refl; restart_ready = refl };
    timestep = pos_part s.timestep_seconds;
    timed = same ∙ (positive_timestep s.timestep_seconds timed).0;
    timestep_pos = (positive_timestep s.timestep_seconds timed).1;
    start_valid = v;
  }

  input_data-IsConfigured :
      (output restart : ℤ) (n : ℕ)
      → datetime_duration_seconds s.start_datetime s.end_datetime ≡ pos n
      → n % pos_part s.timestep_seconds ≡ 0
      → IsConfigured lines (input_data s output restart n) (configured output)
  input_data-IsConfigured output restart n e k =
      let (start, end, seconds) = duration-valid s.start_datetime s.end_datetime n e in
      record {
        running = configured-IsRunning output (is_valid_datetime-IsValid s.start_datetime start);
        timestep_read = stepped;
        same_timestep = same;
        same_interval = refl;
        end = s.end_datetime;
        start_read = started;
        end_read = ended;
        end_valid = is_valid_datetime-IsValid s.end_datetime end;
        whole = omega (
          arith,
          seconds,
          whole_steps n (pos_part s.timestep_seconds) k,
          ap (λ z. n / pos_part s.timestep_seconds * pos_part z) same,
        );
      }

  total_of-Configures :
      (output restart z : ℤ)
      → datetime_duration_seconds s.start_datetime s.end_datetime ≡ z
      → Configures lines (total_of s output restart (configured output) z)
  total_of-Configures output restart (negsuc n) e = tt
  total_of-Configures output restart (pos n) e =
      elim (Bool-cases (n % pos_part s.timestep_seconds == 0)) [
        | inl exact ↦ rw exact (input_data-IsConfigured output restart n e (ground arith))
        | inr inexact ↦ rw inexact tt
      ]

  finish_intervals-Configures :
      (history frames : Option ℤ)
      → Configures lines (finish_intervals s (domains_set s) history frames)
  finish_intervals-Configures none frames = tt
  finish_intervals-Configures (some history) none = tt
  finish_intervals-Configures (some history) (some frames) =
      elim (Bool-cases (not s.have_start_datetime || not s.have_end_datetime)) [
        | inl incomplete ↦ rw incomplete tt
        | inr complete ↦ rw complete (total_of-Configures _ _ _ refl)
      ]

finish_input-Configures :
    (lines : List Bytes) (result : ScanResult)
    → Keeps result
    → ((s : InputScan)
        → result ≡ scanned s
        → IsDateOf true lines s.start_datetime
          × IsDateOf false lines s.end_datetime
          × (seconds_of (last_value (codes "time_step") lines (codes "0"))
              ≡ some s.timestep_seconds))
    → Configures lines (finish_input result)
unfolding finish_input
finish_input-Configures lines (failed step c) k dates = tt
finish_input-Configures lines (scanned s) k dates =
    elim (Bool-cases (leb_ℤ s.timestep_seconds (pos 0))) [
      | inl untimed ↦ rw untimed tt
      | inr timed ↦ elim (Bool-cases (leb_ℤ s.parsed_max_domains (pos 0))) [
        | inl uncounted ↦ rw (timed, uncounted) tt
        | inr counted ↦
            rw (timed, counted)
              (finish_intervals-Configures lines s k.read_by (dates s refl).0 (dates s refl).1
                (dates s refl).2 timed counted _ _)
      ]
    ]

parse_source-Configures :
    (file : ControlFile) (c : WrfControl) → Configures (lines_of file) (parse_source file c)
parse_source-Configures missing c = tt
parse_source-Configures closed c = tt
parse_source-Configures (opened lines) c =
    finish_input-Configures lines _
      (read_input_lines-Keeps lines (start_scan c) (start_scan-IsRead c))
      (λ s e. (
        read_input_lines-IsDateOf true lines c s e,
        read_input_lines-IsDateOf false lines c s e,
        read_input_lines-timestep lines c s e,
      ))

IsConfigured-by :
    (lines : List Bytes) (r : InputResult × WrfControl) (data_read : ModelControlInputData)
    → Configures lines r
    → r.0 ≡ parsed_input data_read
    → IsConfigured lines data_read r.1
IsConfigured-by lines (input_error step, c) data_read k h = absurd (ground (arith, h))
IsConfigured-by lines (parsed_input d, c) data_read k h = let e : d ≡ data_read = cc in rw (sym e) k

-- If the namelist is read without an error, the control is set up to follow the run: the number of
-- domains is supported and their prefixes are built, the time step is positive, the one returned,
-- and the whole number in front of the point in the last time_step entry of the lines read, the
-- output interval is the one returned, the start and the end of the run are valid dates, each field
-- of which is the number in the last entry of the lines read that has the field's name, such as
-- start_year and end_hour (0 where there is no such entry), and the end lies the number of steps
-- returned after the start. The lines are those of the copy of the first start's namelist, where
-- there is one, and of the namelist otherwise. This holds whatever the files contain and whatever
-- the control was before.
pub parse_control_input-IsConfigured :
    (step0 namelist : ControlFile) (c : WrfControl) (data_read : ModelControlInputData)
    → (parse_control_input step0 namelist c).0 ≡ parsed_input data_read
    → IsConfigured
        (lines_of (source_file step0 namelist))
        data_read
        (parse_control_input step0 namelist c).1
unfolding parse_control_input
parse_control_input-IsConfigured step0 namelist c data_read h =
    IsConfigured-by _ _ data_read (parse_source-Configures (source_file step0 namelist) c) h
