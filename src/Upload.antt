-- ===== src/Upload.antt =====
-- src/upload_manager.cpp and src/upload_manager.h, with the file operations of
-- src/cpdn_control.cpp that they call. Messages to stderr are left out.
pub mod Send
pub mod Process
pub mod Ledger
pub mod Delivery
pub mod Contract
pub mod Finalized
pub mod Final
pub mod Ends
use cpdn_control.Prelude.{
  ℕ, zero, suc, ◌+◌, ◌-◌, ◌*◌, ◌/◌, Bool, true, false, not, ◌&&◌, ◌||◌, Option, none, some, List,
  [], ◌∷◌, ◌++◌, ℤ, pos, negsuc, pos_part, ◌+ℤ◌, ◌-ℤ◌, ltb_ℤ, leb_ℤ, eqb_ℤ, if◌then◌else◌, ltb, leb,
}
use cpdn_control.Text.{Bytes, codes, is_empty, contains_embedded_nul}
use cpdn_control.Text.Number.{to_string}
use cpdn_control.World.{
  BoincStatus, stop_requested, TaskState, FilePath, Place, slot, upload_dir, DirEntry, regular_file,
  not_a_file, unreadable, Event, began_critical_section, ended_critical_section, checked, copied,
  removed, listed_upload_dir, removed_upload_dir, wrote_placeholder, zipped, submitted, slept,
  Outside, World, M, pure, ◌>>=◌, ◌>>◌, get_task, put_task, get_status, emit, call,
  boinc_get_status,
}
use cpdn_control.Child.{sleep_with_boinc_poll, apply_boinc_suspend_resume}

-- What the manager asks of `ModelControl` (api/model_control.h).
pub record ModelOutputs : Type 0 where
  pub get_copyable_output_filenames : ℤ → List Bytes
  pub is_output_filename : Bytes → Bool
  pub get_log_filenames : List Bytes

-- `standalone` is the field of its `BoincConfig`; the result base name stands for the path of the
-- archives in the project directory.
pub record UploadManager : Type 0 where
  pub model : ModelOutputs
  pub standalone : Bool
  pub result_base_name : Bytes
  pub total_steps : ℤ
  pub upload_interval : ℤ

pub record UploadOperationResult : Type 0 where
  pub ok : Bool
  pub finish_code : ℤ

abbrev pub succeeded : UploadOperationResult
succeeded = record { ok = true; finish_code = pos 1 }

abbrev pub failed_with : ℤ → UploadOperationResult
failed_with code = record { ok = false; finish_code = code }

-- The step at which a send failed.
pub data SendError : Type 0 where
  zip_error boinc_poll_error upload_error : SendError

pub record UploadSendResult : Type 0 where
  pub ok : Bool
  pub archive_created : Bool
  pub upload_attempted : Bool
  pub error_step : Option SendError
  pub error_code : ℤ
  pub finish_code : ℤ

abbrev pub nothing_sent : UploadSendResult
nothing_sent = record {
  ok = true;
  archive_created = false;
  upload_attempted = false;
  error_step = none;
  error_code = pos 0;
  finish_code = pos 1;
}

-- "upload_file_<number>.zip"
unfoldable pub logical_upload_name : ℤ → Bytes
logical_upload_name number = codes "upload_file_" ++ (to_string number ++ codes ".zip")

-- "<result base name>_<number>.zip"
unfoldable pub archive_path : UploadManager → ℤ → Bytes
archive_path u number = u.result_base_name ++ (b'_' ∷ (to_string number ++ codes ".zip"))

unfoldable pub uploads_enabled : UploadManager → Bool
uploads_enabled u = ltb_ℤ (pos 0) u.upload_interval

-- The quotient is of positive numbers, so it is that of their magnitudes.
unfoldable pub expected_upload_file_count : ℤ → ℤ → ℤ
expected_upload_file_count total_steps upload_interval =
    if leb_ℤ total_steps (pos 0) || leb_ℤ upload_interval (pos 0)
    then pos 0
    else pos ((pos_part total_steps + pos_part upload_interval - 1) / pos_part upload_interval)

module _ (o : Outside) where
  -- cpdn_control.cpp: zero, or the code of boinc_copy(). A failure to remove is only reported.
  unfoldable pub move_result_file : Bytes → M ℤ
  move_result_file result =
      if is_empty result || contains_embedded_nul result then pure (pos 1) else do
        let source : FilePath = record { place = slot; name = result }
        let target : FilePath = record { place = upload_dir; name = result }
        found ← call (λ h. o.exists h source) (checked source)
        if found
            then (do
              retval ← call (λ h. o.copy h source target) (copied source target)
              if eqb_ℤ retval (pos 0) then (do emit (removed source); pure retval) else pure retval)
            else pure (pos 0)

  -- cpdn_control.cpp: the removals after a successful zip.
  unfoldable pub delete_files : List FilePath → M (Unit {0})
  delete_files [] = pure tt
  delete_files (f ∷ fs) = do emit (removed f); delete_files fs

  unfoldable pub zip_and_delete : Bytes → List FilePath → M ℤ
  zip_and_delete upload_file zfl = do
    outcome ← call (λ h. o.zip h upload_file zfl) (zipped upload_file zfl)
    if outcome then (do delete_files zfl; pure (pos 0)) else pure (pos 1)

  -- cpdn_control.cpp: the name of the placeholder, if it could be written.
  unfoldable pub create_upload_placeholder_file : ℤ → ℤ → ℤ → Bytes → M (Option FilePath)
  create_upload_placeholder_file number current_step total_steps reason = do
    let name = codes "cpdn_upload_placeholder_" ++ (to_string number ++ codes ".txt")
    let content =
        codes "CPDN controller upload placeholder\nupload_file_number="
        ++ (to_string number
            ++ (codes "\ncurrent_step="
                ++ (to_string current_step
                    ++ (codes "\ntotal_steps="
                        ++ (to_string total_steps
                            ++ (codes "\nreason=" ++ (reason ++ (b'\n' ∷ []))))))))
    written ← call (λ h. o.write_placeholder h name content) (wrote_placeholder name content)
    pure (if written then some (record { place = upload_dir; name = name }) else none)

  module _ (u : UploadManager) where
    unfoldable pub move_files : List Bytes → M (Unit {0})
    move_files [] = pure tt
    move_files (f ∷ fs) = do move_result_file f; move_files fs

    unfoldable pub move_copyable_output_files : ℤ → M (Unit {0})
    move_copyable_output_files step = move_files (u.model.get_copyable_output_filenames step)

    -- The loop over the entries: the result, and the files found up to its end.
    unfoldable pub collect_entries :
        List DirEntry → List FilePath → UploadOperationResult × List FilePath
    collect_entries [] out = (succeeded, out)
    collect_entries (unreadable code ∷ entries) out = (failed_with code, out)
    collect_entries (not_a_file ∷ entries) out = collect_entries entries out
    collect_entries (regular_file name ∷ entries) out = collect_entries entries (
        if u.model.is_output_filename name
        then out ++ record { place = upload_dir; name = name } ∷ []
        else out)

    -- An iterator that cannot be made is the end iterator, and the loop has no round.
    unfoldable pub collect_listing :
        Option (List DirEntry) → List FilePath → UploadOperationResult × List FilePath
    collect_listing none out = (succeeded, out)
    collect_listing (some entries) out = collect_entries entries out

    unfoldable pub collect_upload_output_files :
        List FilePath → M (UploadOperationResult × List FilePath)
    collect_upload_output_files out = do
      listing ← call (λ h. o.upload_entries h) listed_upload_dir
      pure (collect_listing listing out)

    -- The files to zip, or none where the placeholder could not be written.
    unfoldable pub ensure_nonempty_upload_payload :
        ℤ → ℤ → Bytes → List FilePath → M (Option (List FilePath))
    ensure_nonempty_upload_payload number current_step reason (f ∷ fs) = pure (some (f ∷ fs))
    ensure_nonempty_upload_payload number current_step reason [] = do
      placeholder ← create_upload_placeholder_file number current_step u.total_steps reason
      pure (elim placeholder [ none ↦ none | some p ↦ some (p ∷ []) ])

    unfoldable pub add_final_log_files : List Bytes → List FilePath → M (List FilePath)
    add_final_log_files [] out = pure out
    add_final_log_files (name ∷ names) out = do
      let log : FilePath = record { place = slot; name = name }
      found ← call (λ h. o.exists h log) (checked log)
      add_final_log_files names (if found then out ++ log ∷ [] else out)

    unfoldable pub cleanup_upload_dir : M Bool
    cleanup_upload_dir = call (λ h. o.remove_upload_dir h) removed_upload_dir
