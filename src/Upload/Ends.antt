-- ===== src/Upload/Ends.antt =====
-- The operations that upload end (src/upload_manager.cpp).
use cpdn_control.Prelude.{
  ℕ, zero, suc, ◌+◌, ◌≤◌, ◌<◌, ◌≡◌, Bool, true, false, ◌||◌, not, Option, none, some, List, [], ◌∷◌,
  ℤ, pos, ◌+ℤ◌, arith, if◌then◌else◌,
}
use cpdn_control.Text.{Bytes}
use cpdn_control.World.{
  FilePath, stop_requested, slept, removed, polled_status, Outside, World, M, ◌>>=◌, get_status,
  emit, boinc_get_status, Ends, IsClock,
}
use cpdn_control.World.Total.{
  Total, total_rules, Total-pure, Total-bind, Total-call, Total-emit, Total-get_task,
  Total-put_task,
}
use cpdn_control.Child.{apply_boinc_suspend_resume, sleep_with_boinc_poll}
use cpdn_control.Child.Suspend.{waited_once, halted}
use cpdn_control.Child.Waiting.{
  waited_for, sleep_with_boinc_poll-Ends, apply_boinc_suspend_resume-Ends,
}
use cpdn_control.Upload.{
  UploadManager, UploadOperationResult, succeeded, failed_with, move_result_file, delete_files,
  zip_and_delete, create_upload_placeholder_file, move_files, move_copyable_output_files,
  collect_upload_output_files, ensure_nonempty_upload_payload, add_final_log_files,
}
use cpdn_control.Upload.Send.{
  wait_suspended_out, wait_before_upload, submit_upload, zip_and_send_upload,
}
use cpdn_control.Upload.Process.{
  leave_with, send_one, mark_scheduled, send_scheduled, process_scheduled_upload, finalize_uploads,
  gather_final, finalize_from, finalize_remaining_uploads,
}

-- The world after a round of the wait of an upload that may not touch the child.
abbrev slept_out : Outside → World → World
slept_out o w = record w {
  client_status = o.status (slept 1000 ∷ w.history);
  history = polled_status ∷ slept 1000 ∷ w.history;
}

abbrev slept_out_for : Outside → ℕ → World → World
slept_out_for o zero w = w
slept_out_for o (suc n) w = slept_out_for o n (slept_out o w)

-- The client does not leave a task suspended for ever: at one of the first `n + 1` polls of a wait it
-- resumes the task, or asks for a stop where the wait heeds that.
pub record IsPatient (o : Outside) (n : ℕ) : Type 0 where
  pub answers :
      (w : World)
      → (k : ℕ) × (k ≤ n)
        × ((stop_requested (waited_for o k (waited_once o w)).client_status
              || not (waited_for o k (waited_once o w)).client_status.suspended)
            ≡ true)
  pub resumes :
      (w : World)
      → (k : ℕ) × (k ≤ n) × ((slept_out_for o k (slept_out o w)).client_status.suspended ≡ false)

wait_suspended_out-Ends :
    (o : Outside) (u : UploadManager) (fuel k : ℕ) (w : World)
    → k + 1 < fuel
    → (slept_out_for o k (slept_out o w)).client_status.suspended ≡ false
    → Ends (wait_suspended_out o u fuel w)
unfolding wait_suspended_out ◌>>=◌ get_status emit boinc_get_status
wait_suspended_out-Ends o u zero k w lt h = elim lt [ ]
wait_suspended_out-Ends o u (suc zero) k w lt h = absurd (omega arith)
wait_suspended_out-Ends o u (suc (suc fuel)) zero w lt h = ground arith
wait_suspended_out-Ends o u (suc (suc fuel)) (suc k) w lt h =
    ground (arith, wait_suspended_out-Ends o u (suc fuel) k (slept_out o w))

module _ (o : Outside) where
  Total-move_result_file : (name : Bytes) → Total (move_result_file o name)
  unfolding move_result_file
  Total-move_result_file name = search total_rules depth 14

  Total-delete_files : (fs : List FilePath) → Total (delete_files o fs)
  unfolding delete_files
  Total-delete_files [] = Total-pure tt
  Total-delete_files (f ∷ fs) = Total-bind _ _ (Total-emit (removed f)) λ a. Total-delete_files fs

  Total-zip_and_delete :
      (archive : Bytes) (fs : List FilePath) → Total (zip_and_delete o archive fs)
  unfolding zip_and_delete
  Total-zip_and_delete archive fs = search (total_rules, Total-delete_files) depth 12

module _ (o : Outside) (u : UploadManager) (n fuel : ℕ) (clock : IsClock o)
    (patient : IsPatient o n) (enough_polls : n + 1 < fuel) (enough_time : 30000 < fuel) where
  Total-sleep :
      (standalone : Bool) (total : ℕ)
      → total ≤ 30000
      → Total (sleep_with_boinc_poll o fuel standalone total)
  Total-sleep standalone total h = record {
    at = λ w. sleep_with_boinc_poll-Ends o fuel standalone total w clock (omega arith);
  }

  Total-suspend : Total (apply_boinc_suspend_resume o fuel)
  Total-suspend = record {
    at = λ w.
        let (k, le, e) = patient.answers (halted w) in
        apply_boinc_suspend_resume-Ends o fuel k w (omega (arith, le)) e;
  }

  Total-wait_suspended_out : Total (wait_suspended_out o u fuel)
  Total-wait_suspended_out = record {
    at = λ w.
        let (k, le, e) = patient.resumes w in
        wait_suspended_out-Ends o u fuel k w (omega (arith, le)) e;
  }

  Total-wait_before_upload : (allow : Bool) → Total (wait_before_upload o u fuel allow)
  unfolding wait_before_upload
  Total-wait_before_upload allow =
      Total-bind _ _ (Total-sleep u.standalone 20000 (omega arith))
        λ undisturbed. search (total_rules, Total-suspend, Total-wait_suspended_out) depth 12

  Total-zip_and_send_upload :
      (number : ℤ) (files : List FilePath) (allow : Bool)
      → Total (zip_and_send_upload o u fuel number files allow)
  unfolding zip_and_send_upload submit_upload
  Total-zip_and_send_upload number [] allow = Total-pure _
  Total-zip_and_send_upload number (f ∷ fs) allow =
      search (total_rules, Total-zip_and_delete, Total-wait_before_upload) depth 14

  Total-leave_with : (r : UploadOperationResult) → Total (leave_with o u r)
  unfolding leave_with
  Total-leave_with r = search total_rules

  Total-payload :
      (number step : ℤ) (reason : Bytes) (files : List FilePath)
      → Total (ensure_nonempty_upload_payload o u number step reason files)
  unfolding ensure_nonempty_upload_payload create_upload_placeholder_file
  Total-payload number step reason [] = search total_rules depth 12
  Total-payload number step reason (f ∷ fs) = Total-pure _

  Total-send_one :
      (number step : ℤ) (reason : Bytes) (files : List FilePath) (allow : Bool)
      (mark : M UploadOperationResult)
      → Total mark
      → Total (send_one o u fuel number step reason files allow mark)
  unfolding send_one
  Total-send_one number step reason files allow mark t =
      Total-bind _ _ (Total-payload number step reason files) go
    where
      go :
          (payload : Option (List FilePath))
          → Total (elim payload [
            | none ↦ leave_with o u (failed_with (pos 1))
            | some upload_files ↦
                zip_and_send_upload o u fuel number upload_files allow >>= λ result.
                if result.ok then mark else leave_with o u (failed_with result.finish_code)
          ])
      go none = Total-leave_with _
      go (some upload_files) = search (total_rules, Total-leave_with, Total-zip_and_send_upload)

  Total-collect : (out : List FilePath) → Total (collect_upload_output_files o u out)
  unfolding collect_upload_output_files
  Total-collect out = search total_rules

  Total-mark_scheduled : (step : ℤ) → Total (mark_scheduled o u step)
  unfolding mark_scheduled
  Total-mark_scheduled step = search (total_rules, Total-leave_with)

  -- With a clock that moves and a client that does not leave the task suspended, a scheduled upload
  -- ends: the fuel of a wait is enough above 30000 rounds and the client's polls.
  pub process_scheduled_upload-Total : (step : ℤ) → Total (process_scheduled_upload o u fuel step)
  unfolding process_scheduled_upload send_scheduled
  process_scheduled_upload-Total step =
      search (total_rules, Total-collect, Total-send_one, Total-leave_with, Total-mark_scheduled)
        depth 14

  Total-finalize_uploads :
      (step : ℤ) (allow : Bool) (files : List FilePath) (start : ℤ) (rounds : ℕ) (index : ℤ)
      → Total (finalize_uploads o u fuel step allow files start rounds index)
  unfolding finalize_uploads
  Total-finalize_uploads step allow files start zero index = Total-leave_with succeeded
  Total-finalize_uploads step allow files start (suc rounds) index =
      Total-send_one index step _ _ allow _ (
        Total-bind _ _ Total-get_task λ t.
          Total-bind _ _ (Total-put_task _)
            λ a. Total-finalize_uploads step allow files start rounds (index +ℤ pos 1))

  Total-move_files : (names : List Bytes) → Total (move_files o u names)
  unfolding move_files
  Total-move_files [] = Total-pure tt
  Total-move_files (f ∷ fs) = Total-bind _ _ (Total-move_result_file o f) λ a. Total-move_files fs

  Total-add_final_log_files :
      (names : List Bytes) (out : List FilePath) → Total (add_final_log_files o u names out)
  unfolding add_final_log_files
  Total-add_final_log_files [] out = Total-pure out
  Total-add_final_log_files (f ∷ fs) out =
      Total-bind _ _ (Total-call _ _) λ found. Total-add_final_log_files fs _

  Total-gather_final : (step : ℤ) (logs : Bool) → Total (gather_final o u step logs)
  unfolding gather_final move_copyable_output_files
  Total-gather_final step logs =
      search (total_rules, Total-move_files, Total-add_final_log_files, Total-collect) depth 12

  -- The final uploads end too, whatever the files and the archives do and whatever the client answers
  -- to an upload, if the clock never goes back and a sleep takes the time asked for or longer
  -- (`IsClock`), if the client does not leave the task suspended for more than `n` polls
  -- (`IsPatient`), and if the fuel of each wait is above 30000 and above n + 1.
  pub finalize_remaining_uploads-Total :
      (step : ℤ) (logs allow : Bool) → Total (finalize_remaining_uploads o u fuel step logs allow)
  unfolding finalize_remaining_uploads finalize_from
  finalize_remaining_uploads-Total step logs allow =
      search (total_rules, Total-gather_final, Total-finalize_uploads) depth 12
