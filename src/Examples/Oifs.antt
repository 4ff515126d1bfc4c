-- ===== src/Examples/Oifs.antt =====
-- The theorems on the OpenIFS control at small inputs.
use cpdn_control.Prelude.{
  ◌≡◌, refl, true, false, not, some, List, [], ◌∷◌, ◌++◌, ◌/◌, ◌+◌, pos, negsuc, All, arith,
}
use cpdn_control.Text.{Bytes, codes, is_empty}
use cpdn_control.Progress.{get_lines}
use cpdn_control.Staging.{all_of}
use cpdn_control.Wrf.Input.{ModelControlInputData}
use cpdn_control.Oifs.{
  OifsControl, isalpha, get_output_filenames, get_copyable_output_filenames,
  parse_oifs_output_filename,
}
use cpdn_control.Oifs.Copyable.{files_of_outputs, oifs_copyable-files_of_outputs}
use cpdn_control.Oifs.Names.{IsExperiment, get_output_filenames-known}
use cpdn_control.Oifs.Tail.{TailState, fread_last_line, last_of}
use cpdn_control.Oifs.Tail.Whole.{HasRead, last_line_of, fread_last_line-whole}

abbrev control : OifsControl
control = record {
  experiment_id = codes "hxy4";
  output_interval = pos 24;
  has_diagnostics = false;
  last_step_tasks_step = negsuc 0;
}

oifs_copyable-files_of_outputs_example :
    get_copyable_output_filenames control (pos 50)
    ≡ some (files_of_outputs control 24 0 (50 / 24 + 1))
oifs_copyable-files_of_outputs_example =
    oifs_copyable-files_of_outputs control 50 24 refl (omega arith)

abbrev lettered : OifsControl
lettered = record control { experiment_id = codes "hxya" }

lettered-IsExperiment : IsExperiment lettered.experiment_id
unfolding all_of isalpha
lettered-IsExperiment = record { four = refl; letters = refl }

get_output_filenames-known_example :
    All (λ filename. parse_oifs_output_filename filename ≡ true) (get_output_filenames lettered 240)
get_output_filenames-known_example =
    get_output_filenames-known lettered 240 lettered-IsExperiment (omega arith)

abbrev first_part : Bytes
first_part = codes "12:00 A CNT3 -999\n12:01 A STEPO 0\n"

abbrev second_part : Bytes
second_part = codes "12:02 A STEPO 1\n12:03 A STEPO 2\n"

abbrev after_first_part : TailState
after_first_part = record { last_offset = 34; last_line = codes "12:01 A STEPO 0" }

first_part-HasRead : HasRead first_part after_first_part
unfolding last_of get_lines
first_part-HasRead = record { offset = refl; line = refl }

fread_last_line-whole_example :
    ((fread_last_line (some (first_part ++ second_part)) after_first_part).0.1
      ≡ last_line_of (first_part ++ second_part))
    × ((fread_last_line (some (first_part ++ second_part)) after_first_part).0.0
        ≡ not (is_empty second_part))
    × HasRead
        (first_part ++ second_part)
        (fread_last_line (some (first_part ++ second_part)) after_first_part).1
fread_last_line-whole_example =
    fread_last_line-whole first_part second_part after_first_part refl first_part-HasRead

-- The stop stands before the time step that it needs.
abbrev namelist : List Bytes
namelist =
    codes "&NAMCT0"
    ∷ codes " CNMEXP=\"hxy4\","
    ∷ codes " CUSTOP='d10', ! ten days"
    ∷ codes " NFRPOS=-24,"
    ∷ codes " NFRRES=48,"
    ∷ codes "/"
    ∷ codes " UTSTEP=3600.0,"
    ∷ []

abbrev ten_days_read : ModelControlInputData
ten_days_read = record {
  timestep_seconds = pos 3600;
  output_interval = pos 24;
  restart_interval = pos 48;
  total_steps = 240;
  forecast_length_time = 864000;
}
