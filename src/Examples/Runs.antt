-- ===== src/Examples/Runs.antt =====
-- The theorems on uploads and on a whole run, in the scene.
use cpdn_control.Prelude.{ℕ, ◌<◌, ◌≡◌, refl, true, false, [], pos, arith, ◌+ℤ◌, ◌-ℤ◌}
use cpdn_control.World.Total.{Total}
use cpdn_control.World.{
  Outside, World, ◌>>=◌, get_task, put_task, get_status, put_child, emit, call, boinc_get_status,
}
use cpdn_control.Child.{sleep_with_boinc_poll, sleep_until, apply_boinc_suspend_resume}
use cpdn_control.Upload.{
  succeeded, failed_with, uploads_enabled, expected_upload_file_count, move_result_file,
  delete_files, zip_and_delete, move_files, move_copyable_output_files, collect_listing,
  collect_entries, collect_upload_output_files, ensure_nonempty_upload_payload,
  create_upload_placeholder_file, add_final_log_files, logical_upload_name, archive_path,
}
use cpdn_control.Upload.Send.{wait_before_upload, submit_upload, zip_and_send_upload}
use cpdn_control.Upload.Process.{
  leave_with, send_one, finalize_uploads, total_upload_count, upload_rounds, gather_final,
  finalize_from, finalize_remaining_uploads, is_upload_due, send_scheduled,
  process_scheduled_upload, mark_scheduled,
}
use cpdn_control.Controller.{run_controller}
use cpdn_control.Text.{is_empty, contains, contains_embedded_nul}
use cpdn_control.Text.Number.{to_string, to_string_ℕ, digits}
use cpdn_control.Upload.Ledger.{ledger, submitted_names, sections_begun, sections_ended}
use cpdn_control.Upload.Contract.{IsScheduled, process_scheduled_upload-IsScheduled}
use cpdn_control.Upload.Finalized.{names_from, IsStoppedAt}
use cpdn_control.Upload.Final.{
  finalize_remaining_uploads-contract, finalize_remaining_uploads-stopped,
  finalize_remaining_uploads-sections,
}
use cpdn_control.Upload.Ends.{process_scheduled_upload-Total, finalize_remaining_uploads-Total}
use cpdn_control.Examples.Scene.{
  smooth, smooth-IsClock, smooth-IsPatient, manager, scene, setup, world_of,
}

abbrev after_run : World
after_run = world_of (run_controller smooth setup 3 40000 scene)

abbrev after_final : World
after_final = world_of (finalize_remaining_uploads smooth manager 40000 (pos 40) true true scene)

finalize_remaining_uploads-contract_example :
    (after_final.task.upload_file_number ≡ total_upload_count smooth manager (pos 2))
    × (submitted_names after_final.history
        ≡ names_from (pos 2) (upload_rounds smooth manager (pos 2)) [])
unfolding ◌>>=◌ get_task put_task get_status put_child emit call boinc_get_status
    sleep_with_boinc_poll sleep_until apply_boinc_suspend_resume uploads_enabled
    expected_upload_file_count move_result_file delete_files zip_and_delete move_files
    move_copyable_output_files collect_listing collect_entries collect_upload_output_files
    ensure_nonempty_upload_payload create_upload_placeholder_file add_final_log_files
    logical_upload_name archive_path wait_before_upload submit_upload zip_and_send_upload leave_with
    send_one finalize_uploads total_upload_count upload_rounds gather_final finalize_from
    finalize_remaining_uploads is_empty contains contains_embedded_nul to_string to_string_ℕ digits
    ◌+ℤ◌ ◌-ℤ◌
finalize_remaining_uploads-contract_example =
    finalize_remaining_uploads-contract smooth manager 40000 (pos 40) true true scene after_final
      succeeded refl refl refl refl

finalize_remaining_uploads-sections_example :
    (sections_begun after_final.history ≡ 1) × (sections_ended after_final.history ≡ 1)
unfolding ◌>>=◌ get_task put_task get_status put_child emit call boinc_get_status
    sleep_with_boinc_poll sleep_until apply_boinc_suspend_resume uploads_enabled
    expected_upload_file_count move_result_file delete_files zip_and_delete move_files
    move_copyable_output_files collect_listing collect_entries collect_upload_output_files
    ensure_nonempty_upload_payload create_upload_placeholder_file add_final_log_files
    logical_upload_name archive_path wait_before_upload submit_upload zip_and_send_upload leave_with
    send_one finalize_uploads total_upload_count upload_rounds gather_final finalize_from
    finalize_remaining_uploads is_empty contains contains_embedded_nul to_string to_string_ℕ digits
    ◌+ℤ◌ ◌-ℤ◌
finalize_remaining_uploads-sections_example =
    finalize_remaining_uploads-sections smooth manager 40000 (pos 40) true true scene after_final
      succeeded refl refl

-- A client that takes no upload.
abbrev refusing : Outside
refusing = record smooth { upload = λ h name. pos 5 }

abbrev after_refusal : World
after_refusal =
    world_of (finalize_remaining_uploads refusing manager 40000 (pos 40) true true scene)

finalize_remaining_uploads-stopped_example :
    (k : ℕ) × (k < upload_rounds refusing manager (pos 2))
    × IsStoppedAt (pos 2) k (ledger scene) (ledger after_refusal)
unfolding ◌>>=◌ get_task put_task get_status put_child emit call boinc_get_status
    sleep_with_boinc_poll sleep_until apply_boinc_suspend_resume uploads_enabled
    expected_upload_file_count move_result_file delete_files zip_and_delete move_files
    move_copyable_output_files collect_listing collect_entries collect_upload_output_files
    ensure_nonempty_upload_payload create_upload_placeholder_file add_final_log_files
    logical_upload_name archive_path wait_before_upload submit_upload zip_and_send_upload leave_with
    send_one finalize_uploads total_upload_count upload_rounds gather_final finalize_from
    finalize_remaining_uploads is_empty contains contains_embedded_nul to_string to_string_ℕ digits
    ◌+ℤ◌ ◌-ℤ◌
finalize_remaining_uploads-stopped_example =
    finalize_remaining_uploads-stopped refusing manager 40000 (pos 40) true true scene after_refusal
      (failed_with (pos 1)) refl refl refl refl

abbrev after_scheduled : World
after_scheduled = world_of (process_scheduled_upload smooth manager 40000 (pos 35) scene)

process_scheduled_upload-IsScheduled_example :
    IsScheduled manager (pos 35) (ledger scene) succeeded (ledger after_scheduled)
unfolding ◌>>=◌ get_task put_task get_status put_child emit call boinc_get_status
    sleep_with_boinc_poll sleep_until apply_boinc_suspend_resume uploads_enabled
    expected_upload_file_count move_result_file delete_files zip_and_delete move_files
    move_copyable_output_files collect_listing collect_entries collect_upload_output_files
    ensure_nonempty_upload_payload create_upload_placeholder_file add_final_log_files
    logical_upload_name archive_path wait_before_upload submit_upload zip_and_send_upload leave_with
    send_one finalize_uploads total_upload_count upload_rounds gather_final finalize_from
    finalize_remaining_uploads is_empty contains contains_embedded_nul to_string to_string_ℕ digits
    ◌+ℤ◌ ◌-ℤ◌ is_upload_due send_scheduled process_scheduled_upload mark_scheduled
process_scheduled_upload-IsScheduled_example =
    process_scheduled_upload-IsScheduled smooth manager 40000 (pos 35) scene after_scheduled
      succeeded refl

process_scheduled_upload-Total_example :
    Total (process_scheduled_upload smooth manager 40000 (pos 35))
process_scheduled_upload-Total_example =
    process_scheduled_upload-Total smooth manager 0 40000 smooth-IsClock smooth-IsPatient
      (omega arith) (omega arith) (pos 35)

finalize_remaining_uploads-Total_example :
    Total (finalize_remaining_uploads smooth manager 40000 (pos 40) true false)
finalize_remaining_uploads-Total_example =
    finalize_remaining_uploads-Total smooth manager 0 40000 smooth-IsClock smooth-IsPatient
      (omega arith) (omega arith) (pos 40) true false
