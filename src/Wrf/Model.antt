-- ===== src/Wrf/Model.antt =====
-- models/wrf/wrf_control.cpp: the success of the model, its input archives, its environment and its
-- log files.
use cpdn_control.Prelude.{Bool, true, false, Option, none, some, List, [], ◌∷◌, ◌++◌, if◌then◌else◌}
use cpdn_control.Text.{Bytes, codes, starts_with}
use cpdn_control.Text.Number.{parse_int}
use cpdn_control.Progress.{is_ok}
use cpdn_control.Staging.{ModelInputArchive}
use cpdn_control.Staging.Paths.{FsPath}

abbrev pub success_marker : Bytes
success_marker = codes "wrf: SUCCESS COMPLETE WRF"

-- The loop over the lines.
unfoldable pub has_success_line : List Bytes → Bool
has_success_line [] = false
has_success_line (line ∷ lines) =
    let rest = has_success_line lines in if starts_with success_marker line then true else rest

-- The log: none where it is not there or cannot be opened.
unfoldable pub check_model_success : Option (List Bytes) → Bool
unfolding has_success_line
check_model_success none = false
check_model_success (some lines) = has_success_line lines

abbrev slot_itself : FsPath
slot_itself = record { rooted = false; names = codes "." ∷ [] }

unfoldable pub get_input_manifest : Bytes → List ModelInputArchive
get_input_manifest workunit_id =
    record {
      logical_name = codes "ic_ancil_" ++ (workunit_id ++ codes ".zip");
      unzip_relative_dir = slot_itself;
    }
    ∷ record {
      logical_name = codes "rundata_" ++ (workunit_id ++ codes ".zip");
      unzip_relative_dir = slot_itself;
    }
    ∷ []

unfoldable pub wrf_get_omp_env_vars : Bytes → List Bytes
wrf_get_omp_env_vars nthreads = (codes "OMP_NUM_THREADS=" ++ nthreads) ∷ []

-- none where an error message is set and nothing is returned
unfoldable pub get_env_vars : Bytes → Option (List Bytes)
unfolding wrf_get_omp_env_vars
get_env_vars nthreads =
    if is_ok (parse_int nthreads) then some (wrf_get_omp_env_vars nthreads) else none

abbrev pub get_log_filenames : List Bytes
get_log_filenames = codes "stdout.txt" ∷ []
