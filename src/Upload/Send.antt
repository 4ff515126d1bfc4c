-- ===== src/Upload/Send.antt =====
-- `zip_and_send_upload` and what it waits for (src/upload_manager.cpp).
use cpdn_control.Prelude.{
  ℕ, zero, suc, Bool, true, false, not, none, some, List, [], ◌∷◌, ℤ, pos, eqb_ℤ, if◌then◌else◌,
}
use cpdn_control.World.{
  BoincStatus, stop_requested, FilePath, submitted, slept, Outside, M, pure, ◌>>=◌, ◌>>◌,
  get_status, emit, call, boinc_get_status,
}
use cpdn_control.Child.{sleep_with_boinc_poll, apply_boinc_suspend_resume}
use cpdn_control.Upload.{
  UploadManager, UploadSendResult, nothing_sent, zip_error, boinc_poll_error, upload_error,
  logical_upload_name, archive_path, zip_and_delete,
}

module _ (o : Outside) (u : UploadManager) where
  -- The wait of a send that may not touch the child.
  unfoldable pub wait_suspended_out : ℕ → M (Unit {0})
  wait_suspended_out zero = λ w. none
  wait_suspended_out (suc fuel) = do
    status ← get_status
    if status.suspended
        then (do emit (slept 1000); boinc_get_status o; wait_suspended_out fuel)
        else pure tt

  abbrev stop_code : BoincStatus → ℤ
  stop_code s = if s.quit_request then pos 0 else pos 1

  -- The wait before an upload is submitted: whether it may be.
  unfoldable pub wait_before_upload : ℕ → Bool → M Bool
  wait_before_upload fuel allow_child_control = do
    undisturbed ← sleep_with_boinc_poll o fuel u.standalone 20000
    if undisturbed
        then pure true
        else if allow_child_control
        then apply_boinc_suspend_resume o fuel
        else (do wait_suspended_out fuel; status ← get_status; pure (not (stop_requested status)))

  -- boinc_upload_file(), and the result of a send that came so far.
  unfoldable pub submit_upload : ℤ → M UploadSendResult
  submit_upload number = do
    let name = logical_upload_name number
    upload_ret ← call (λ h. o.upload h name) (submitted name)
    pure (
        if eqb_ℤ upload_ret (pos 0)
        then record nothing_sent { archive_created = true; upload_attempted = true }
        else record {
          ok = false;
          archive_created = true;
          upload_attempted = true;
          error_step = some upload_error;
          error_code = upload_ret;
          finish_code = pos 1;
        })

  unfoldable pub zip_and_send_upload : ℕ → ℤ → List FilePath → Bool → M UploadSendResult
  zip_and_send_upload fuel number [] allow_child_control = pure nothing_sent
  zip_and_send_upload fuel number (f ∷ fs) allow_child_control = do
    zip_ret ← zip_and_delete o (archive_path u number) (f ∷ fs)
    if not (eqb_ℤ zip_ret (pos 0))
        then pure
            (record nothing_sent { ok = false; error_step = some zip_error; error_code = zip_ret })
        else if u.standalone
        then pure (record nothing_sent { archive_created = true })
        else (do
          may_submit ← wait_before_upload fuel allow_child_control
          status ← get_status
          if may_submit
              then submit_upload number
              else pure (record {
                ok = false;
                archive_created = true;
                upload_attempted = true;
                error_step = some boinc_poll_error;
                error_code = pos 0;
                finish_code = stop_code status;
              }))
