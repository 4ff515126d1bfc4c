-- ===== src/Upload/Process.antt =====
-- The two operations that upload: `process_scheduled_upload` and `finalize_remaining_uploads`
-- (src/upload_manager.cpp).
use cpdn_control.Prelude.{
  ℕ, zero, suc, Bool, true, not, ◌||◌, none, some, List, [], ℤ, pos, pos_part, ◌+ℤ◌, ◌-ℤ◌, ltb_ℤ,
  leb_ℤ, eqb_ℤ, if◌then◌else◌,
}
use cpdn_control.Text.{Bytes, codes}
use cpdn_control.World.{
  TaskState, FilePath, began_critical_section, ended_critical_section, Outside, M, pure, ◌>>=◌,
  ◌>>◌, get_task, put_task, emit,
}
use cpdn_control.Upload.{
  UploadManager, UploadOperationResult, succeeded, failed_with, uploads_enabled,
  expected_upload_file_count, move_copyable_output_files, collect_upload_output_files,
  ensure_nonempty_upload_payload, add_final_log_files,
}
use cpdn_control.Upload.Send.{zip_and_send_upload}

-- The new values of the fields that a sent upload sets.
abbrev pub sent_scheduled : ℤ → TaskState → TaskState
sent_scheduled observed_step t = record t {
  last_upload_step = observed_step;
  upload_file_number = t.upload_file_number +ℤ pos 1;
}

abbrev pub sent_final : ℤ → TaskState → TaskState
sent_final index t = record t { upload_file_number = index +ℤ pos 1 }

abbrev pub int_max_of : ℤ → ℤ → ℤ
int_max_of a b = if ltb_ℤ a b then b else a

abbrev pub scheduled_reason : Bytes
scheduled_reason = codes "scheduled upload interval reached with no model output files ready"

abbrev pub empty_reason : Bytes
empty_reason =
    codes "final upload payload was empty; sending placeholder to satisfy BOINC upload contract"

abbrev pub ended_reason : Bytes
ended_reason = codes "task ended before reaching this scheduled upload interval"

module _ (o : Outside) (u : UploadManager) where
  -- The end of the critical section on every way out of an operation.
  unfoldable pub leave_with : UploadOperationResult → M UploadOperationResult
  leave_with r = do emit ended_critical_section; pure r

  -- Ensures the payload of one upload and sends it; `mark` is what a success does to the state, with
  -- the rest of the operation.
  unfoldable pub send_one :
      ℕ → ℤ → ℤ → Bytes → List FilePath → Bool → M UploadOperationResult → M UploadOperationResult
  send_one fuel number step reason files allow_child_control mark = do
    payload ← ensure_nonempty_upload_payload o u number step reason files
    elim payload [
      | none ↦ leave_with (failed_with (pos 1))
      | some upload_files ↦ (do
        result ← zip_and_send_upload o u fuel number upload_files allow_child_control
        if result.ok then mark else leave_with (failed_with result.finish_code))
    ]

  unfoldable pub mark_scheduled : ℤ → M UploadOperationResult
  mark_scheduled observed_step = do
    t ← get_task
    put_task (sent_scheduled observed_step t)
    leave_with succeeded

  -- The first return of `process_scheduled_upload`, negated.
  unfoldable pub is_upload_due : TaskState → ℤ → Bool
  is_upload_due t observed_step = not (
      not (uploads_enabled u)
      || ltb_ℤ (observed_step -ℤ t.last_upload_step) u.upload_interval
      || leb_ℤ u.total_steps observed_step)

  -- The part inside the critical section.
  unfoldable pub send_scheduled : ℕ → ℤ → ℤ → M UploadOperationResult
  send_scheduled fuel number observed_step = do
    collected ← collect_upload_output_files o u []
    if collected.0.ok
        then send_one fuel number observed_step scheduled_reason collected.1 true
            (mark_scheduled observed_step)
        else leave_with collected.0

  unfoldable pub process_scheduled_upload : ℕ → ℤ → M UploadOperationResult
  process_scheduled_upload fuel observed_step = do
    t ← get_task
    if is_upload_due t observed_step
        then (do
          emit began_critical_section
          send_scheduled fuel t.upload_file_number observed_step)
        else pure succeeded

  abbrev pub mark_final : ℤ → M UploadOperationResult → M UploadOperationResult
  mark_final index rest = do t ← get_task; put_task (sent_final index t); rest

  -- The loop over the upload indices from `index`, `rounds` of them.
  unfoldable pub finalize_uploads :
      ℕ → ℤ → Bool → List FilePath → ℤ → ℕ → ℤ → M UploadOperationResult
  finalize_uploads fuel final_step allow files start zero index = leave_with succeeded
  finalize_uploads fuel final_step allow files start (suc rounds) index =
      let rest = finalize_uploads fuel final_step allow files start rounds (index +ℤ pos 1) in
      send_one fuel index final_step (if eqb_ℤ index start then empty_reason else ended_reason)
        (if eqb_ℤ index start then files else []) allow (mark_final index rest)

  unfoldable pub total_upload_count : ℤ → ℤ
  total_upload_count start =
      int_max_of (expected_upload_file_count u.total_steps u.upload_interval) (start +ℤ pos 1)

  unfoldable pub gather_final : ℤ → Bool → M (UploadOperationResult × List FilePath)
  gather_final final_step include_log_files = do
    move_copyable_output_files o u final_step
    logs ←
        (if include_log_files
          then add_final_log_files o u u.model.get_log_filenames []
          else pure [])
    collect_upload_output_files o u logs

  -- The rounds of the loop that starts at `start`.
  unfoldable pub upload_rounds : ℤ → ℕ
  upload_rounds start = pos_part (total_upload_count start -ℤ start)

  -- The loop, from the number of the next upload; `files` go into its first.
  unfoldable pub finalize_from : ℕ → ℤ → Bool → List FilePath → M UploadOperationResult
  finalize_from fuel final_step allow files = do
    t ← get_task
    let start = t.upload_file_number
    finalize_uploads fuel final_step allow files start (upload_rounds start) start

  -- A failure to collect is only reported.
  unfoldable pub finalize_remaining_uploads : ℕ → ℤ → Bool → Bool → M UploadOperationResult
  finalize_remaining_uploads fuel final_step include_log_files allow_child_control =
      if uploads_enabled u
      then (do
        emit began_critical_section
        collected ← gather_final final_step include_log_files
        finalize_from fuel final_step allow_child_control collected.1)
      else pure succeeded
