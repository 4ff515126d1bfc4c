-- ===== src/Controller/Unfinished.antt =====
-- No part of the program but its exit calls boinc_finish() (src/cpdn_main.cpp).
use cpdn_control.Prelude.{
  ℕ, zero, suc, ◌≡◌, refl, sym, ap, ◌∙◌, Bool, List, [], ◌∷◌, ℤ, pos, ◌+ℤ◌, if◌then◌else◌, Option,
  none, some,
}
use cpdn_control.Text.{Bytes}
use cpdn_control.World.{
  TaskState, FilePath, Event, finished, began_critical_section, ended_critical_section, submitted,
  History, Outside, World, M, ◌>>=◌, put_task, emit, call,
}
use cpdn_control.World.Leaves.{Leaves, IsBlind, IsQuiet, with_history, Leaves-bind}
use cpdn_control.Child.Quiet.{
  leaves_rules, Leaves-sleep_with_boinc_poll, Leaves-apply_boinc_suspend_resume,
  Leaves-check_child_status, Leaves-terminate_child_process_if_active,
}
use cpdn_control.Upload.{
  UploadManager, UploadOperationResult, succeeded, failed_with, cleanup_upload_dir,
}
use cpdn_control.Upload.Send.{submit_upload, zip_and_send_upload}
use cpdn_control.Upload.Process.{
  leave_with, send_one, mark_scheduled, send_scheduled, process_scheduled_upload, mark_final,
  finalize_uploads, gather_final, finalize_from, finalize_remaining_uploads,
}
use cpdn_control.Upload.Ledger.{
  finish_codes, Leaves-zip_and_delete, Leaves-wait_before_upload,
  Leaves-ensure_nonempty_upload_payload, Leaves-collect_upload_output_files,
  Leaves-move_copyable_output_files, Leaves-add_final_log_files,
}
use cpdn_control.Upload.Delivery.{ended_in}
use cpdn_control.Exit.{
  stop_child_for_shutdown, finalize_after_error, recover_after_controller_error, exit_or_recover,
  wait_for_boinc_exit,
}

abbrev pub finishes : World → List ℤ
finishes w = finish_codes w.history

-- All events but the end of the task.
abbrev IsUnfinished : Event → Type 0
IsUnfinished (finished code) = ⊥
IsUnfinished _ = Unit

finishes-event :
    (e : Event) (w : World)
    → IsUnfinished e
    → finishes (with_history w (e ∷ w.history)) ≡ finishes w
finishes-event (finished code) w q = elim q [ ]
finishes-event _ w q = refl

IsQuiet-IsUnfinished : (e : Event) → IsQuiet e → IsUnfinished e
IsQuiet-IsUnfinished began_critical_section q = tt
IsQuiet-IsUnfinished ended_critical_section q = tt
IsQuiet-IsUnfinished (submitted name) q = tt
IsQuiet-IsUnfinished (finished code) q = q
IsQuiet-IsUnfinished _ q = tt

pub finishes-IsBlind : IsBlind finishes
finishes-IsBlind = record {
  quiet = λ e w q. finishes-event e w (IsQuiet-IsUnfinished e q);
  status = λ s w. refl;
  child = λ c w. refl;
}

pub finishes-put_task : (t : TaskState) → Leaves finishes (put_task t)
unfolding put_task
finishes-put_task t = record { at = λ w w' a e. cc }

pub finishes-emit : (e : Event) → IsUnfinished e → Leaves finishes (emit e)
unfolding emit
finishes-emit e q = record {
  at = λ w w' a p. ap finishes (sym (ended_in p)) ∙ finishes-event e w q;
}

pub finishes-call :
    {A : Type 0} (answer : History → A) (e : Event)
    → IsUnfinished e
    → Leaves finishes (call answer e)
unfolding call
finishes-call answer e q = record {
  at = λ w w' a p. ap finishes (sym (ended_in p)) ∙ finishes-event e w q;
}

pub ruleset finishes_rules =
    (leaves_rules, finishes-IsBlind, finishes-put_task, finishes-emit, finishes-call)

module _ (o : Outside) (u : UploadManager) where
  finishes-leave_with : (r : UploadOperationResult) → Leaves finishes (leave_with o u r)
  unfolding leave_with
  finishes-leave_with r = search (finishes_rules)

  finishes-zip_and_send_upload :
      (fuel : ℕ) (number : ℤ) (files : List FilePath) (allow : Bool)
      → Leaves finishes (zip_and_send_upload o u fuel number files allow)
  unfolding zip_and_send_upload submit_upload
  finishes-zip_and_send_upload fuel number [] allow = search finishes_rules
  finishes-zip_and_send_upload fuel number (f ∷ fs) allow =
      search (finishes_rules, Leaves-zip_and_delete, Leaves-wait_before_upload) depth 14

  finishes-send_one :
      (fuel : ℕ) (number step : ℤ) (reason : Bytes) (files : List FilePath) (allow : Bool)
      (mark : M UploadOperationResult)
      → Leaves finishes mark
      → Leaves finishes (send_one o u fuel number step reason files allow mark)
  unfolding send_one
  finishes-send_one fuel number step reason files allow mark l =
      Leaves-bind _ _
        (Leaves-ensure_nonempty_upload_payload finishes-IsBlind o u number step reason files) go
    where
      go :
          (payload : Option (List FilePath))
          → Leaves finishes (elim payload [
            | none ↦ leave_with o u (failed_with (pos 1))
            | some upload_files ↦
                zip_and_send_upload o u fuel number upload_files allow >>= λ result.
                if result.ok then mark else leave_with o u (failed_with result.finish_code)
          ])
      go none = finishes-leave_with _
      go (some upload_files) =
          search (finishes_rules, finishes-leave_with, finishes-zip_and_send_upload)

  finishes-mark_scheduled : (step : ℤ) → Leaves finishes (mark_scheduled o u step)
  unfolding mark_scheduled
  finishes-mark_scheduled step = search (finishes_rules, finishes-leave_with)

  pub finishes-process_scheduled_upload :
      (fuel : ℕ) (step : ℤ) → Leaves finishes (process_scheduled_upload o u fuel step)
  unfolding process_scheduled_upload send_scheduled
  finishes-process_scheduled_upload fuel step =
      search
        (
          finishes_rules, Leaves-collect_upload_output_files, finishes-send_one,
          finishes-leave_with, finishes-mark_scheduled,
        )
        depth 14

  finishes-mark_final :
      (index : ℤ) (rest : M UploadOperationResult)
      → Leaves finishes rest
      → Leaves finishes (mark_final o u index rest)
  finishes-mark_final index rest l = search finishes_rules

  finishes-finalize_uploads :
      (fuel : ℕ) (step : ℤ) (allow : Bool) (files : List FilePath) (start : ℤ) (rounds : ℕ)
      (index : ℤ)
      → Leaves finishes (finalize_uploads o u fuel step allow files start rounds index)
  unfolding finalize_uploads
  finishes-finalize_uploads fuel step allow files start zero index = finishes-leave_with succeeded
  finishes-finalize_uploads fuel step allow files start (suc rounds) index =
      finishes-send_one fuel index step _ _ allow _ (
        finishes-mark_final index _
          (finishes-finalize_uploads fuel step allow files start rounds (index +ℤ pos 1)))

  finishes-gather_final : (step : ℤ) (logs : Bool) → Leaves finishes (gather_final o u step logs)
  unfolding gather_final
  finishes-gather_final step logs =
      search
        (
          finishes_rules, Leaves-move_copyable_output_files, Leaves-add_final_log_files,
          Leaves-collect_upload_output_files,
        )
        depth 12

  pub finishes-finalize_remaining_uploads :
      (fuel : ℕ) (step : ℤ) (logs allow : Bool)
      → Leaves finishes (finalize_remaining_uploads o u fuel step logs allow)
  unfolding finalize_remaining_uploads finalize_from
  finishes-finalize_remaining_uploads fuel step logs allow =
      search (finishes_rules, finishes-gather_final, finishes-finalize_uploads) depth 12

  pub finishes-cleanup_upload_dir : Leaves finishes (cleanup_upload_dir o u)
  unfolding cleanup_upload_dir
  finishes-cleanup_upload_dir = search finishes_rules

  pub finishes-stop_child_for_shutdown : Leaves finishes (stop_child_for_shutdown o)
  unfolding stop_child_for_shutdown
  finishes-stop_child_for_shutdown =
      search (finishes_rules, Leaves-terminate_child_process_if_active) depth 12

  finishes-finalize_after_error :
      (fuel : ℕ) (code : ℤ) → Leaves finishes (finalize_after_error o u fuel code)
  unfolding finalize_after_error
  finishes-finalize_after_error fuel code =
      search (finishes_rules, finishes-finalize_remaining_uploads, finishes-cleanup_upload_dir)
        depth 12

  pub finishes-recover_after_controller_error :
      (fuel : ℕ) (code : ℤ) → Leaves finishes (recover_after_controller_error o u fuel code)
  unfolding recover_after_controller_error
  finishes-recover_after_controller_error fuel code =
      search
        (
          finishes_rules, finishes-stop_child_for_shutdown, Leaves-sleep_with_boinc_poll,
          finishes-finalize_after_error,
        )
        depth 12

  pub finishes-wait_for_boinc_exit :
      (fuel wait : ℕ) → Leaves finishes (wait_for_boinc_exit o u fuel wait)
  unfolding wait_for_boinc_exit exit_or_recover
  finishes-wait_for_boinc_exit fuel wait =
      search
        (
          finishes_rules, Leaves-sleep_with_boinc_poll, Leaves-apply_boinc_suspend_resume,
          finishes-recover_after_controller_error,
        )
        depth 14
