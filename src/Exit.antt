-- ===== src/Exit.antt =====
-- The exits of src/cpdn_main.cpp. Reports on stderr are left out.
use cpdn_control.Prelude.{ℕ, Bool, true, false, Option, none, some, ℤ, pos, if◌then◌else◌}
use cpdn_control.World.{
  BoincStatus, stop_requested, ended_critical_section, finished, Outside, M, pure, ◌>>=◌, ◌>>◌,
  get_task, get_status, emit,
}
use cpdn_control.Child.{
  sleep_with_boinc_poll, apply_boinc_suspend_resume, terminate_child_process_if_active,
  close_child_process_handle,
}
use cpdn_control.Upload.{UploadManager, cleanup_upload_dir}
use cpdn_control.Upload.Process.{finalize_remaining_uploads}

pub data ExitReason : Type 0 where
  loop_completed boinc_quit boinc_abort boinc_no_heartbeat startup_error controller_error
        upload_failed :
      ExitReason

pub data ExitRoute : Type 0 where
  immediate controller_error_recovery boinc_shutdown task_completed : ExitRoute

pub record ExitDecision : Type 0 where
  pub reason : ExitReason
  pub exit_code : ℤ
  pub route : ExitRoute

abbrev pub make_immediate_exit_decision : ExitReason → ℤ → ExitDecision
make_immediate_exit_decision reason exit_code = record {
  reason = reason;
  exit_code = exit_code;
  route = immediate;
}

abbrev pub make_recovered_exit_decision : ExitReason → ℤ → ExitDecision
make_recovered_exit_decision reason exit_code = record {
  reason = reason;
  exit_code = exit_code;
  route = controller_error_recovery;
}

abbrev pub shutdown_reason : BoincStatus → ExitReason
shutdown_reason s =
    if s.quit_request
    then boinc_quit
    else if s.abort_request
    then boinc_abort
    else if s.no_heartbeat
    then boinc_no_heartbeat
    else controller_error

abbrev pub shutdown_code : ExitReason → ℤ
shutdown_code boinc_quit = pos 0
shutdown_code boinc_no_heartbeat = pos 0
shutdown_code _ = pos 1

unfoldable pub make_boinc_shutdown_exit_decision : BoincStatus → ExitDecision
make_boinc_shutdown_exit_decision s = record {
  reason = shutdown_reason s;
  exit_code = shutdown_code (shutdown_reason s);
  route = boinc_shutdown;
}

abbrev pub make_completion_exit_decision : Bool → ExitDecision
make_completion_exit_decision model_success = record {
  reason = loop_completed;
  exit_code = if model_success then pos 0 else pos 1;
  route = task_completed;
}

module _ (o : Outside) where
  unfoldable pub stop_child_for_shutdown : M (Unit {0})
  stop_child_for_shutdown = do
    t ← get_task
    terminate_child_process_if_active o t.child_status
    pure tt

  unfoldable pub stop_for_route : ExitRoute → M (Unit {0})
  stop_for_route immediate = stop_child_for_shutdown
  stop_for_route task_completed = stop_child_for_shutdown
  stop_for_route controller_error_recovery = pure tt
  stop_for_route boinc_shutdown = pure tt

  unfoldable pub finish_for_route : ExitRoute → ℤ → M (Unit {0})
  finish_for_route task_completed exit_code = emit (finished exit_code)
  finish_for_route _ exit_code = pure tt

  -- boinc_finish() is an event here; it does not return in the source.
  unfoldable pub finish_task_exit : ExitDecision → M ℤ
  finish_task_exit decision = do
    stop_for_route decision.route
    close_child_process_handle
    emit ended_critical_section
    finish_for_route decision.route decision.exit_code
    pure decision.exit_code

  module _ (u : UploadManager) where
    unfoldable pub finalize_after_error : ℕ → ℤ → M ExitDecision
    finalize_after_error fuel exit_code = do
      t ← get_task
      upload_result ← finalize_remaining_uploads o u fuel t.last_completed_step true false
      if upload_result.ok
          then (do
            cleanup_upload_dir o u
            pure (make_recovered_exit_decision controller_error exit_code))
          else pure (make_recovered_exit_decision upload_failed upload_result.finish_code)

    -- FILE_OP_DELAY is 30 seconds.
    unfoldable pub recover_after_controller_error : ℕ → ℤ → M ExitDecision
    recover_after_controller_error fuel exit_code = do
      stop_child_for_shutdown
      undisturbed ← sleep_with_boinc_poll o fuel u.standalone 30000
      status ← get_status
      if undisturbed
          then finalize_after_error fuel exit_code
          else if stop_requested status
          then pure (make_boinc_shutdown_exit_decision status)
          else finalize_after_error fuel exit_code

    unfoldable pub exit_or_recover : ℕ → M (Option ExitDecision)
    exit_or_recover fuel = do
      status ← get_status
      if stop_requested status
          then pure (some (make_boinc_shutdown_exit_decision status))
          else (do decision ← recover_after_controller_error fuel (pos 1); pure (some decision))

    -- The wait in milliseconds.
    unfoldable pub wait_for_boinc_exit : ℕ → ℕ → M (Option ExitDecision)
    wait_for_boinc_exit fuel wait = do
      undisturbed ← sleep_with_boinc_poll o fuel u.standalone wait
      if undisturbed then pure none else (do
        resumed ← apply_boinc_suspend_resume o fuel
        if resumed then pure none else exit_or_recover fuel)
