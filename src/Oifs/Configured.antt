-- ===== src/Oifs/Configured.antt =====
-- What `parse_control_input` of the OpenIFS control leaves (models/openifs/oifs_control.cpp).
use cpdn_control.Prelude.{
  ℕ, ◌*◌, ◌≤◌, ◌≡◌, true, false, some, List, [], ◌==◌, pos, pos_part, leb_ℤ, length,
}
use cpdn_control.Text.{Bytes, codes, is_empty}
use cpdn_control.Text.Entries.{last_value}
use cpdn_control.Wrf.Input.{ModelControlInputData, InputResult, parsed_input, input_error}
use cpdn_control.Oifs.{OifsControl}
use cpdn_control.Oifs.Input.{OifsScan}
use cpdn_control.Oifs.Stop.{IsRun}
use cpdn_control.Wrf.Input.TimeStep.{seconds_of}

-- The run that was read, and the control that follows it.
pub record IsOifsConfigured (lines : List Bytes) (d : ModelControlInputData) (c : OifsControl)
    : Type 0 where
  pub experiment : length c.experiment_id ≡ 4
  pub timestep_pos : 1 ≤ pos_part d.timestep_seconds
  pub timestep_read :
      seconds_of (last_value (codes "UTSTEP") lines (codes "0")) ≡ some d.timestep_seconds
  pub same_interval : c.output_interval ≡ d.output_interval
  pub no_hours : leb_ℤ (pos 0) d.output_interval ≡ true
  pub run : IsRun (last_value (codes "CUSTOP") lines []) d.timestep_seconds d.total_steps
  pub whole : d.forecast_length_time ≡ d.total_steps * pos_part d.timestep_seconds

abbrev Configures : List Bytes → InputResult × OifsControl → Type 0
Configures lines (input_error step, c) = Unit
Configures lines (parsed_input d, c) = IsOifsConfigured lines d c

record IsComplete (s : OifsScan) (n : ℕ) : Type 0 where
  named : is_empty s.control.experiment_id ≡ false
  timed : leb_ℤ s.timestep_seconds (pos 0) ≡ false
  stopped : (n == 0) ≡ false
