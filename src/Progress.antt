-- ===== src/Progress.antt =====
-- api/progressfile_handler.cpp: the text that `write` writes and the reading of it by `read`. Messages
-- are left out.
pub mod Replace
pub mod Values
pub mod Lines
pub mod RoundTrip
use cpdn_control.Prelude.{
  ℕ, zero, suc, ◌+◌, ◌/◌, ◌%◌, Bool, true, false, not, ◌&&◌, Option, none, some, List, [], ◌∷◌,
  ◌++◌, ◌==◌, ℤ, if◌then◌else◌,
}
use cpdn_control.Text.{Bytes, codes, is_empty, equal, trim_whitespace, parse_namelist_key_value}
use cpdn_control.Text.Number.{IntParse, parse_int, to_string, to_string_ℕ}
use cpdn_control.World.{TaskState}

-- Six decimals of a second.
abbrev six_digits : ℕ → Bytes
six_digits n =
    (b'0' + n / 100000 % 10)
    ∷ (b'0' + n / 10000 % 10)
    ∷ (b'0' + n / 1000 % 10)
    ∷ (b'0' + n / 100 % 10)
    ∷ (b'0' + n / 10 % 10)
    ∷ (b'0' + n % 10)
    ∷ []

-- std::to_string of a double, here a CPU time in microseconds: seconds with six decimals.
unfoldable pub to_string_double : ℕ → Bytes
to_string_double n = to_string_ℕ (n / 1000000) ++ (b'.' ∷ six_digits (n % 1000000))

-- A stream of lines, each ended by '\n'.
unfoldable pub put_lines : List Bytes → Bytes
put_lines [] = []
put_lines (line ∷ lines) = line ++ (b'\n' ∷ put_lines lines)

unfoldable pub progress_lines : ℤ → TaskState → List Bytes
progress_lines control_pid task =
    codes "! CPDN controller progress file & fortran namelist"
    ∷ codes "&CPDN"
    ∷ (codes "control_pid=" ++ to_string control_pid)
    ∷ (codes "prior_acc_cpu_time=" ++ to_string_double task.current_cpu_time)
    ∷ (codes "upload_file_number=" ++ to_string task.upload_file_number)
    ∷ (codes "last_completed_step=" ++ to_string task.last_completed_step)
    ∷ (codes "last_upload_step=" ++ to_string task.last_upload_step)
    ∷ (codes "model_completed=" ++ to_string task.model_completed)
    ∷ codes "/"
    ∷ []

-- What `write` writes.
unfoldable pub progress_content : ℤ → TaskState → Bytes
progress_content control_pid task = put_lines (progress_lines control_pid task)

abbrev pub pushed : ℕ → List Bytes → List Bytes
pushed c [] = (c ∷ []) ∷ []
pushed c (line ∷ lines) = (c ∷ line) ∷ lines

-- std::getline until it fails: no line follows a '\n' at the end.
unfoldable pub get_lines : Bytes → List Bytes
get_lines [] = []
get_lines (c ∷ s) = let rest = get_lines s in if c == b'\n' then [] ∷ rest else pushed c rest

-- std::strtod: what it stores, whether it read any, whether errno is ERANGE, and the text left.
pub record StrtodResult : Type 0 where
  pub value : ℕ
  pub converted : Bool
  pub out_of_range : Bool
  pub rest : Bytes

-- The fields of the file.
pub data Field : Type 0 where
  control_pid prior_acc_cpu_time upload_file_number last_completed_step last_upload_step
        model_completed :
      Field

unfoldable pub field_of : Bytes → Option Field
field_of key =
    if equal key (codes "control_pid")
    then some control_pid
    else if equal key (codes "prior_acc_cpu_time")
    then some prior_acc_cpu_time
    else if equal key (codes "upload_file_number")
    then some upload_file_number
    else if equal key (codes "last_completed_step")
    then some last_completed_step
    else if equal key (codes "last_upload_step")
    then some last_upload_step
    else if equal key (codes "model_completed")
    then some model_completed
    else none

-- The state of the loop: the task, and the flags `saw_...`.
pub record Reading : Type 0 where
  pub task : TaskState
  pub saw_control_pid : Bool
  pub saw_prior_acc_cpu_time : Bool
  pub saw_upload_file_number : Bool
  pub saw_last_completed_step : Bool
  pub saw_last_upload_step : Bool
  pub saw_model_completed : Bool

abbrev pub start_reading : TaskState → Reading
start_reading task = record {
  task = task;
  saw_control_pid = false;
  saw_prior_acc_cpu_time = false;
  saw_upload_file_number = false;
  saw_last_completed_step = false;
  saw_last_upload_step = false;
  saw_model_completed = false;
}

-- What a call of parse_int leaves in its output.
abbrev pub stored : IntParse → ℤ → ℤ
stored p old = elim p.written [ none ↦ old | some z ↦ z ]

abbrev pub is_ok : IntParse → Bool
is_ok p = elim p.error [ none ↦ true | some e ↦ false ]

module _ (strtod : Bytes → StrtodResult) where
  -- The value stored, and whether there was no error.
  unfoldable pub parse_double_value : Bytes → ℕ × Bool
  parse_double_value value =
      let r = strtod value in (r.value, r.converted && not r.out_of_range && is_empty r.rest)

  -- One entry: the state after it, and whether there was no error.
  unfoldable pub read_entry : Field → Bytes → Reading → Reading × Bool
  read_entry control_pid value s = (record s { saw_control_pid = true }, is_ok (parse_int value))
  read_entry prior_acc_cpu_time value s =
      let p = parse_double_value value in
      (
        record s {
          saw_prior_acc_cpu_time = true;
          task = record s.task { prior_acc_cpu_time = p.0 };
        },
        p.1,
      )
  read_entry upload_file_number value s =
      let p = parse_int value in
      (
        record s {
          saw_upload_file_number = true;
          task = record s.task { upload_file_number = stored p s.task.upload_file_number };
        },
        is_ok p,
      )
  read_entry last_completed_step value s =
      let p = parse_int value in
      (
        record s {
          saw_last_completed_step = true;
          task = record s.task { last_completed_step = stored p s.task.last_completed_step };
        },
        is_ok p,
      )
  read_entry last_upload_step value s =
      let p = parse_int value in
      (
        record s {
          saw_last_upload_step = true;
          task = record s.task { last_upload_step = stored p s.task.last_upload_step };
        },
        is_ok p,
      )
  read_entry model_completed value s =
      let p = parse_int value in
      (
        record s {
          saw_model_completed = true;
          task = record s.task { model_completed = stored p s.task.model_completed };
        },
        is_ok p,
      )

  -- A line that holds no entry of the file is passed over.
  read_field : Option Field → Bytes → Reading → Reading × Bool
  unfolding read_entry
  read_field none value s = (s, true)
  read_field (some field) value s = read_entry field value s

  read_parsed : Option (Bytes × Bytes) → Reading → Reading × Bool
  unfolding read_field
  read_parsed none s = (s, true)
  read_parsed (some (key, value)) s = read_field (field_of key) value s

  unfoldable pub read_line : Bytes → Reading → Reading × Bool
  unfolding read_parsed
  read_line line s = read_parsed (parse_namelist_key_value (trim_whitespace line)) s

  -- The loop: an error ends it.
  unfoldable pub read_lines : List Bytes → Reading → Reading × Bool
  read_lines [] s = (s, true)
  read_lines (line ∷ lines) s =
      let (r, ok) = read_line line s in
      let rest = read_lines lines r in if ok then rest else (r, false)

  unfoldable pub saw_all : Reading → Bool
  saw_all s =
      s.saw_control_pid && s.saw_prior_acc_cpu_time && s.saw_upload_file_number
      && s.saw_last_completed_step && s.saw_last_upload_step && s.saw_model_completed

  -- `read` of the file's content, or of a file that cannot be opened: the task after it, and
  -- whether it returns true.
  unfoldable pub read : Option Bytes → TaskState → TaskState × Bool
  read none task = (task, false)
  read (some content) task =
      let r = read_lines (get_lines content) (start_reading task) in
      if is_empty content then (task, false) else (r.0.task, r.1 && saw_all r.0)
