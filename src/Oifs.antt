-- ===== src/Oifs.antt =====
-- models/openifs/oifs_control.cpp and oifs_utils.cpp: output file names, the status log, the restart
-- file, the environment and the input archives of the OpenIFS models.
pub mod Tail
pub mod Input
pub mod Stop
pub mod Lines
pub mod Lengths
pub mod Configured
pub mod Names
pub mod Copyable
use cpdn_control.Prelude.{
  ℕ, zero, suc, ◌+◌, ◌-◌, Bool, true, false, not, ◌&&◌, ◌||◌, Option, none, some, List, [], ◌∷◌,
  ◌++◌, ◌==◌, ℤ, pos, pos_part, leb, leb_ℤ, ltb_ℤ, length, take, drop, get_or, replicate,
  if◌then◌else◌,
}
use cpdn_control.Text.{Bytes, codes, is_empty, equal, is_ascii_digit, parse_namelist_key_value}
use cpdn_control.Text.Number.{parse_int, to_string_ℕ}
use cpdn_control.Progress.{is_ok}
use cpdn_control.Staging.{ModelInputArchive, all_of}
use cpdn_control.Staging.Paths.{FsPath}
use cpdn_control.Wrf.Timing.{int_of}

-- The members of OpenIFSControl that change; there is a diagnostics program or not.
pub record OifsControl : Type 0 where
  pub experiment_id : Bytes
  pub output_interval : ℤ
  pub has_diagnostics : Bool
  pub last_step_tasks_step : ℤ

-- std::setw( 6 ) and std::setfill( '0' )
unfoldable pub oifs_get_filename_part : Bytes → Bytes → Bytes
oifs_get_filename_part last_iter exptid =
    exptid ++ (b'+' ∷ (replicate (6 - length last_iter) b'0' ++ last_iter))

-- The names at a step that is not negative.
unfoldable pub get_output_filenames : OifsControl → ℕ → List Bytes
unfolding oifs_get_filename_part
get_output_filenames c step =
    let suffix = oifs_get_filename_part (to_string_ℕ step) c.experiment_id in
    (codes "ICMGG" ++ suffix) ∷ (codes "ICMSH" ++ suffix) ∷ (codes "ICMUA" ++ suffix) ∷ []

-- The loop over the output steps; each round goes at least one step on.
unfoldable pub copyable_from : ℕ → OifsControl → ℕ → ℕ → ℕ → List Bytes → Option (List Bytes)
copyable_from zero c current_step interval output_step output_files = none
copyable_from (suc fuel) c current_step interval output_step output_files =
    let rest =
      copyable_from fuel c current_step interval (output_step + interval)
        (output_files ++ get_output_filenames c output_step) in
    if leb output_step current_step then rest else some output_files

unfoldable pub get_copyable_output_filenames : OifsControl → ℤ → Option (List Bytes)
unfolding copyable_from get_output_filenames
get_copyable_output_filenames c current_step =
    if ltb_ℤ current_step (pos 0) || leb_ℤ c.output_interval (pos 0)
    then some []
    else copyable_from (pos_part current_step + 2) c (pos_part current_step)
        (pos_part c.output_interval) 0 []

-- std::isalpha in the C locale
unfoldable pub isalpha : ℕ → Bool
isalpha c = (leb b'a' c && leb c b'z') || (leb b'A' c && leb c b'Z')

unfoldable pub parse_oifs_output_filename : Bytes → Bool
unfolding isalpha all_of
parse_oifs_output_filename filename =
    let prefix = take 5 filename in
    if not (length filename == 16)
    then false
    else if not (equal prefix (codes "ICMGG"))
        && (not (equal prefix (codes "ICMSH")) && not (equal prefix (codes "ICMUA")))
    then false
    else if not (all_of isalpha (take 4 (drop 5 filename)))
    then false
    else if not (get_or filename 9 0 == b'+')
    then false
    else all_of is_ascii_digit (take 6 (drop 10 filename))

abbrev pub is_restart_filename : Bytes → Bool
is_restart_filename filename = equal filename (codes "rcf")

-- std::isspace in the C locale
unfoldable pub isspace : ℕ → Bool
isspace c = (c == b' ') || (leb b'\t' c && leb c b'\r')

abbrev in_word : ℕ → Bool → List Bytes → List Bytes
in_word c true (word ∷ words) = (c ∷ word) ∷ words
in_word c _ words = (c ∷ []) ∷ words

abbrev starts_word : Bytes → Bool
starts_word [] = false
starts_word (c ∷ s) = not (isspace c)

-- The words that >> reads one by one.
unfoldable pub words : Bytes → List Bytes
unfolding isspace
words [] = []
words (c ∷ s) = let later = words s in if isspace c then later else in_word c (starts_word s) later

-- >> leaves the string as it is when no word is left.
unfoldable pub extract : ℕ → List Bytes → Bytes → Bytes
extract zero words statstr = statstr
extract (suc index) [] statstr = extract index [] statstr
extract (suc index) (word ∷ words) statstr = extract index words word

unfoldable pub oifs_parse_stat : Bytes → ℕ → Option Bytes
unfolding extract words
oifs_parse_stat logline index =
    let statstr = extract index (words logline) [] in
    if is_empty statstr then none else some statstr

abbrev is_cnt0 : Option Bytes → Bool
is_cnt0 none = false
is_cnt0 (some ifs_word) = equal ifs_word (codes "CNT0")

-- From the last line of ifs.stat, which is empty where it has none; none where there is no file.
unfoldable pub check_model_success : Option Bytes → Bool
unfolding oifs_parse_stat
check_model_success none = false
check_model_success (some stat_lastline) = is_cnt0 (oifs_parse_stat stat_lastline 3)

abbrev step_in_range : ℤ → Option ℤ → Option ℤ
step_in_range total_steps none = none
step_in_range total_steps (some parsed_step) =
    if ltb_ℤ parsed_step (pos 0) || ltb_ℤ total_steps parsed_step then none else some parsed_step

abbrev step_of_text : ℤ → Option Bytes → Option ℤ
step_of_text total_steps none = none
step_of_text total_steps (some text) = step_in_range total_steps (int_of text)

-- From what fread_last_line gave: the step, or none where the output argument is left alone.
unfoldable pub get_current_step : ℤ → Bool × Bytes → Option ℤ
unfolding oifs_parse_stat
get_current_step total_steps (false, lastline) = none
get_current_step total_steps (true, lastline) =
    step_of_text total_steps (oifs_parse_stat lastline 4)

abbrev keep_entry : Option (Bytes × Bytes) → Bytes × Bytes → Bytes × Bytes
keep_entry none values = values
keep_entry (some (key, value)) (ctime, cstep) =
    if equal key (codes "CSTEP")
    then (ctime, value)
    else if equal key (codes "CTIME")
    then (value, cstep)
    else (ctime, cstep)

-- The loop over the lines: the values of CTIME and CSTEP.
unfoldable pub read_rcf_lines : List Bytes → Bytes × Bytes → Bytes × Bytes
read_rcf_lines [] values = values
read_rcf_lines (line ∷ lines) values =
    read_rcf_lines lines (keep_entry (parse_namelist_key_value line) values)

abbrev both_values : Bytes × Bytes → Option (Bytes × Bytes)
both_values (ctime_value, cstep_value) =
    if is_empty cstep_value
    then none
    else if is_empty ctime_value
    then none
    else some (ctime_value, cstep_value)

unfoldable pub oifs_read_rcf_file : List Bytes → Option (Bytes × Bytes)
unfolding read_rcf_lines
oifs_read_rcf_file rcf_file = both_values (read_rcf_lines rcf_file ([], []))

abbrev step_value : Option (Bytes × Bytes) → Option Bytes
step_value none = none
step_value (some (ctime, cstep)) = some cstep

-- The lines of rcf; none where it is not there or cannot be opened.
unfoldable pub parse_restart : Option (List Bytes) → Option Bytes
unfolding oifs_read_rcf_file
parse_restart none = none
parse_restart (some lines) = step_value (oifs_read_rcf_file lines)

unfoldable pub get_env_vars : Bytes → Bytes → Option (List Bytes)
get_env_vars slot_path nthreads =
    if not (is_ok (parse_int nthreads))
    then none
    else some (
        codes "OIFS_DUMMY_ACTION=abort"
        ∷ codes "DR_HOOK=1"
        ∷ codes "DR_HOOK_HEAPCHECK=no"
        ∷ codes "DR_HOOK_STACKCHECK=no"
        ∷ codes "EC_MEMINFO=0"
        ∷ codes "EC_PROFILE_HEAP=0"
        ∷ codes "EC_PROFILE_MEM=0"
        ∷ (codes "GRIB_SAMPLES_PATH=" ++ (slot_path ++ codes "/eccodes/ifs_samples/grib1_mlgrib2"))
        ∷ (codes "GRIB_DEFINITION_PATH=" ++ (slot_path ++ codes "/eccodes/definitions"))
        ∷ (codes "OMP_NUM_THREADS=" ++ nthreads)
        ∷ codes "OMP_SCHEDULE=STATIC"
        ∷ codes "OMP_STACKSIZE=128M"
        ∷ [])

abbrev pub archive : Bytes → Bytes → Bytes → ModelInputArchive
archive prefix workunit_id dir = record {
  logical_name = prefix ++ (workunit_id ++ codes ".zip");
  unzip_relative_dir = record { rooted = false; names = dir ∷ [] };
}

unfoldable pub get_input_manifest : Bytes → List ModelInputArchive
get_input_manifest workunit_id =
    archive (codes "ic_ancil_") workunit_id (codes ".")
    ∷ archive (codes "ifsdata_") workunit_id (codes "ifsdata")
    ∷ archive (codes "clim_data_") workunit_id (codes "climdata")
    ∷ []

-- The result, whether the diagnostics program is run, and the control.
pub record StepTasks : Type 0 where
  pub ok : Bool
  pub runs_diagnostics : Bool
  pub control : OifsControl

unfoldable pub do_step_tasks : ℤ → OifsControl → StepTasks
do_step_tasks current_step c =
    if leb_ℤ current_step c.last_step_tasks_step
    then record { ok = false; runs_diagnostics = false; control = c }
    else record {
      ok = true;
      runs_diagnostics = c.has_diagnostics;
      control = record c { last_step_tasks_step = current_step };
    }
