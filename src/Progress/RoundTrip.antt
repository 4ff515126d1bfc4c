-- ===== src/Progress/RoundTrip.antt =====
-- `ProgressFileHandler::read` reads back what `write` writes (api/progressfile_handler.cpp).
use cpdn_control.Prelude.{ℕ, ◌≡◌, ◌≢◌, refl, ◌∙◌, true, false, some, List, [], ◌∷◌, ℤ}
use cpdn_control.World.{TaskState}
use cpdn_control.Text.{
  Bytes, codes, is_empty, is_trimmed_char, trim_whitespace, ltrim, rtrim, parse_namelist_key_value,
  parse_key_value, split_key_value, split_at, cut_at,
}
use cpdn_control.Text.Number.{to_string}
use cpdn_control.Text.Number.RoundTrip.{IsInt, parse_int-to_string, to_string-ne-nil}
use cpdn_control.Progress.{
  to_string_double, put_lines, progress_lines, progress_content, StrtodResult, Field, control_pid,
  prior_acc_cpu_time, upload_file_number, last_completed_step, last_upload_step, model_completed,
  Reading, start_reading, parse_double_value, read_entry, read_parsed, read_line, read_lines,
  saw_all, read,
}
use cpdn_control.Progress.Values.{
  IsPlain, to_string-IsPlain, to_string_double-IsPlain, to_string_double-ne-nil, read_line-entry,
  IsWord-IsKey, IsWord-AllSolid,
}
use cpdn_control.Progress.Lines.{
  key_of, entry, get_lines-put_lines, key_of-ne-nil, key_of-is_word, field_of-key_of,
  progress_lines-NoNewline,
}

-- The values that a printed task is read into.
pub record IsPrintable (task : TaskState) : Type 0 where
  pub upload_file_number : IsInt task.upload_file_number
  pub last_completed_step : IsInt task.last_completed_step
  pub last_upload_step : IsInt task.last_upload_step
  pub model_completed : IsInt task.model_completed

-- The task as it is read back.
abbrev pub restored : TaskState → TaskState → TaskState
restored written task = record task {
  prior_acc_cpu_time = written.current_cpu_time;
  upload_file_number = written.upload_file_number;
  last_completed_step = written.last_completed_step;
  last_upload_step = written.last_upload_step;
  model_completed = written.model_completed;
}

module _ (strtod : Bytes → StrtodResult) where
  -- A printed entry is read as an entry of its field.
  read_line-printed :
      (f : Field) (value : Bytes) (s : Reading)
      → value ≢ []
      → IsPlain value
      → read_line strtod (entry f value) s ≡ read_entry strtod f value s
  read_line-printed f value s n p =
      read_line-entry strtod (key_of f) value f s
        (IsWord-IsKey (key_of f) (key_of-ne-nil f) (key_of-is_word f))
        (IsWord-AllSolid (key_of f) (key_of-is_word f)) (field_of-key_of f) n p

  read_lines-step :
      (line : Bytes) (lines : List Bytes) (s s' : Reading)
      → read_line strtod line s ≡ (s', true)
      → read_lines strtod (line ∷ lines) s ≡ read_lines strtod lines s'
  unfolding read_lines
  read_lines-step line lines s s' e = rw e

  read_line-comment :
      (s : Reading)
      → read_line strtod (codes "! CPDN controller progress file & fortran namelist") s ≡ (s, true)
  unfolding read_line read_parsed parse_namelist_key_value trim_whitespace ltrim rtrim
      is_trimmed_char is_empty
  read_line-comment s = refl

  read_line-group : (s : Reading) → read_line strtod (codes "&CPDN") s ≡ (s, true)
  unfolding read_line read_parsed parse_namelist_key_value trim_whitespace ltrim rtrim
      is_trimmed_char is_empty cut_at parse_key_value split_key_value split_at
  read_line-group s = refl

  read_line-end : (s : Reading) → read_line strtod (codes "/") s ≡ (s, true)
  unfolding read_line read_parsed parse_namelist_key_value trim_whitespace ltrim rtrim
      is_trimmed_char is_empty cut_at parse_key_value split_key_value split_at
  read_line-end s = refl

  read_int :
      (f : Field) (z : ℤ) (s : Reading)
      → read_line strtod (entry f (to_string z)) s ≡ read_entry strtod f (to_string z) s
  read_int f z s = read_line-printed f (to_string z) s (to_string-ne-nil z) (to_string-IsPlain z)

  -- strtod reads the print of `n` back.
  abbrev pub ReadsBack : ℕ → Type 0
  ReadsBack n =
      strtod (to_string_double n)
      ≡ record { value = n; converted = true; out_of_range = false; rest = [] }

  read_double :
      (n : ℕ) (s : Reading)
      → ReadsBack n
      → read_line strtod (entry prior_acc_cpu_time (to_string_double n)) s ≡ (
        record s { saw_prior_acc_cpu_time = true; task = record s.task { prior_acc_cpu_time = n } },
        true,
      )
  unfolding read_entry parse_double_value is_empty
  read_double n s e =
      read_line-printed prior_acc_cpu_time (to_string_double n) s (to_string_double-ne-nil n)
        (to_string_double-IsPlain n)
      ∙ rw e refl

  abbrev all_read : TaskState → TaskState → Reading
  all_read written task = record {
    task = restored written task;
    saw_control_pid = true;
    saw_prior_acc_cpu_time = true;
    saw_upload_file_number = true;
    saw_last_completed_step = true;
    saw_last_upload_step = true;
    saw_model_completed = true;
  }

  read_lines-progress_lines :
      (pid : ℤ) (written task : TaskState)
      → IsInt pid
      → IsPrintable written
      → ReadsBack written.current_cpu_time
      → read_lines strtod (progress_lines pid written) (start_reading task)
        ≡ (all_read written task, true)
  unfolding progress_lines
  read_lines-progress_lines pid written task hp h back =
      let r0 = start_reading task in
      let r1 : Reading = record r0 { saw_control_pid = true } in
      let r2 : Reading = record r1 {
        saw_prior_acc_cpu_time = true;
        task = record r1.task { prior_acc_cpu_time = written.current_cpu_time };
      } in
      let r3 : Reading = record r2 {
        saw_upload_file_number = true;
        task = record r2.task { upload_file_number = written.upload_file_number };
      } in
      let r4 : Reading = record r3 {
        saw_last_completed_step = true;
        task = record r3.task { last_completed_step = written.last_completed_step };
      } in
      let r5 : Reading = record r4 {
        saw_last_upload_step = true;
        task = record r4.task { last_upload_step = written.last_upload_step };
      } in
      let r6 : Reading = record r5 {
        saw_model_completed = true;
        task = record r5.task { model_completed = written.model_completed };
      } in
      read_lines-step _ _ r0 r0 (read_line-comment r0)
      ∙ read_lines-step _ _ r0 r0 (read_line-group r0)
      ∙ read_lines-step _ _ r0 r1 (
          read_int control_pid pid r0
          ∙ (unfold read_entry in rw (parse_int-to_string (pid) hp) refl))
      ∙ read_lines-step _ _ r1 r2 (read_double written.current_cpu_time r1 back)
      ∙ read_lines-step _ _ r2 r3 (
          read_int upload_file_number written.upload_file_number r2
          ∙ (unfold read_entry in
              rw (parse_int-to_string (written.upload_file_number) h.upload_file_number) refl))
      ∙ read_lines-step _ _ r3 r4 (
          read_int last_completed_step written.last_completed_step r3
          ∙ (unfold read_entry in
              rw (parse_int-to_string (written.last_completed_step) h.last_completed_step) refl))
      ∙ read_lines-step _ _ r4 r5 (
          read_int last_upload_step written.last_upload_step r4
          ∙ (unfold read_entry in
              rw (parse_int-to_string (written.last_upload_step) h.last_upload_step) refl))
      ∙ read_lines-step _ _ r5 r6 (
          read_int model_completed written.model_completed r5
          ∙ (unfold read_entry in
              rw (parse_int-to_string (written.model_completed) h.model_completed) refl))
      ∙ read_lines-step _ _ r6 r6 (read_line-end r6)
      ∙ (unfold read_lines in refl)

  content-full : (pid : ℤ) (written : TaskState) → is_empty (progress_content pid written) ≡ false
  unfolding is_empty progress_content progress_lines put_lines
  content-full pid written = refl

  -- What `write` writes, `read` reads back with no error, whatever task it is read into: the CPU
  -- time of the run as the earlier CPU time, the number of the next upload, the steps and the flag.
  -- The numbers are in the range of
  -- an `int`, and strtod reads the printed CPU time back.
  pub read-progress_content :
      (pid : ℤ) (written task : TaskState)
      → IsInt pid
      → IsPrintable written
      → ReadsBack written.current_cpu_time
      → read strtod (some (progress_content pid written)) task ≡ (restored written task, true)
  unfolding read saw_all progress_content
  read-progress_content pid written task hp h back =
      rw
        (
          content-full pid written,
          get_lines-put_lines (progress_lines pid written) (progress_lines-NoNewline pid written),
          read_lines-progress_lines pid written task hp h back,
        )
        refl
