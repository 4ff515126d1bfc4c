-- ===== src/Controller/Covering.antt =====
-- Every part of src/cpdn_main.cpp keeps it true that the uploads up to the next number have been
-- submitted, in a run under the client.
use cpdn_control.Prelude.{ℕ, zero, suc, ◌≡◌, true, false, Bool, Option, none, some, ℤ, pos}
use cpdn_control.Text.{Bytes}
use cpdn_control.World.{TaskState, Outside, M, pure}
use cpdn_control.World.Leaves.{Leaves, Leaves-pure, Leaves-get_task, Leaves-get_status}
use cpdn_control.Child.Quiet.{
  Leaves-sleep_with_boinc_poll, Leaves-apply_boinc_suspend_resume, Leaves-check_child_status,
  Leaves-terminate_child_process_if_active,
}
use cpdn_control.Upload.{cleanup_upload_dir}
use cpdn_control.Upload.Ledger.{Leaves-move_copyable_output_files}
use cpdn_control.Trickle.{process_trickle, send_message}
use cpdn_control.Child.{close_child_process_handle}
use cpdn_control.Exit.{
  ExitDecision, ExitRoute, immediate, controller_error_recovery, boinc_shutdown, task_completed,
  stop_child_for_shutdown, finalize_after_error, recover_after_controller_error, exit_or_recover,
  wait_for_boinc_exit, stop_for_route, finish_for_route, finish_task_exit,
}
use cpdn_control.Controller.{
  Setup, Next, go_on, leave, refresh_current_cpu_time, refresh_child_status, take_step,
  observe_step, send_trickle, trickle_if_crossed, do_step, step_if_new, mark_restart, save_progress,
  after_step, main_round, wait_or_leave, if_going_on, main_loop, final_trickle, mark_completed,
  check_success, complete, upload_and_complete, unless_leaving, finish_run, decide_exit,
  run_controller,
}
use cpdn_control.Controller.Covered.{
  uploads, uploads-IsBlind, uploads-emit, uploads-call, uploads_rules, KeepsFrom, Keeps,
  Keeps-Leaves, Keeps-bind, Keeps-after, Keeps-get_task, Keeps-put_task, Keeps-if,
  process_scheduled_upload-Keeps, finalize_remaining_uploads-Keeps,
}

module _ (first : ℤ) (o : Outside) (s : Setup) (managed : s.manager.standalone ≡ false) where
  pure-Keeps : {A : Type 0} (n : ℤ) (a : A) → KeepsFrom first n (pure a)
  pure-Keeps n a = Keeps-Leaves first n _ (Leaves-pure a)

  refresh_current_cpu_time-Keeps : Keeps first (refresh_current_cpu_time o s)
  unfolding refresh_current_cpu_time
  refresh_current_cpu_time-Keeps n = Keeps-get_task first n _ λ t p.
      Keeps-after first n _ _ (uploads-call _ _ tt)
        λ time. Keeps-if first n _ _ _ (Keeps-put_task first n _ p) (pure-Keeps n tt)

  refresh_child_status-Keeps : Keeps first (refresh_child_status o s)
  unfolding refresh_child_status
  refresh_child_status-Keeps n = Keeps-get_task first n _ λ t p.
      Keeps-after first n _ _ (Leaves-check_child_status uploads-IsBlind o _ _)
        λ r. Keeps-get_task first n _ λ later q. Keeps-put_task first n _ q

  take_step-Keeps :
      (n : ℤ) (answer : Bool × ℤ) (t : TaskState)
      → t.upload_file_number ≡ n
      → KeepsFrom first n (take_step o s answer t)
  unfolding take_step
  take_step-Keeps n (true, step) t p =
      Keeps-bind first n _ _ (Keeps-put_task first n _ p) λ a n'. pure-Keeps n' step
  take_step-Keeps n (false, step) t p = pure-Keeps n step

  observe_step-Keeps : Keeps first (observe_step o s)
  unfolding observe_step
  observe_step-Keeps n = Keeps-get_task first n _ λ t p.
      Keeps-after first n _ _ (uploads-call _ _ tt)
        λ answer. Keeps-get_task first n _ λ later q. take_step-Keeps n answer later q

  uploads-send_message :
      (variety : Bytes) (message : Option Bytes) → Leaves uploads (send_message o variety message)
  unfolding send_message
  uploads-send_message variety none = search uploads_rules
  uploads-send_message variety (some m) = search uploads_rules depth 12

  send_trickle-Keeps : (step : ℤ) → Keeps first (send_trickle o s step)
  unfolding send_trickle process_trickle
  send_trickle-Keeps step n = Keeps-get_task first n _ λ t p.
      Keeps-after first n _ _ (uploads-call _ _ tt) λ trickle_data.
        Keeps-after first n _ _ (uploads-send_message _ _) λ retval.
          Keeps-get_task first n _
            λ later q. Keeps-if first n _ _ _ (Keeps-put_task first n _ q) (pure-Keeps n tt)

  trickle_if_crossed-Keeps : (step : ℤ) → Keeps first (trickle_if_crossed o s step)
  unfolding trickle_if_crossed
  trickle_if_crossed-Keeps step n =
      Keeps-get_task first n _
        λ t p. Keeps-if first n _ _ _ (send_trickle-Keeps step n) (pure-Keeps n tt)

  do_step-Keeps : (fuel : ℕ) (step : ℤ) → Keeps first (do_step o s fuel step)
  unfolding do_step
  do_step-Keeps fuel step n = Keeps-after first n _ _ (uploads-call _ _ tt) λ start.
      Keeps-after first n _ _ (uploads-emit _ tt) λ a.
        Keeps-after first n _ _ (Leaves-move_copyable_output_files uploads-IsBlind o s.manager step)
          λ b.
            Keeps-bind first n _ _
              (process_scheduled_upload-Keeps first o s.manager managed fuel step n)
              λ upload n'.
                Keeps-if first n' _ _ _
                  (Keeps-bind first n' _ _ (trickle_if_crossed-Keeps step n') λ c k.
                    Keeps-after first k _ _ (uploads-call _ _ tt) λ end.
                      Keeps-get_task first k _ λ t p.
                        Keeps-bind first k _ _ (Keeps-put_task first k _ p) λ d m. pure-Keeps m _)
                  (pure-Keeps n' _)

  step_if_new-Keeps : (fuel : ℕ) (step : ℤ) → Keeps first (step_if_new o s fuel step)
  unfolding step_if_new
  step_if_new-Keeps fuel step n =
      Keeps-get_task first n _
        λ t p. Keeps-if first n _ _ _ (pure-Keeps n _) (do_step-Keeps fuel step n)

  mark_restart-Keeps : Keeps first (mark_restart o s)
  unfolding mark_restart
  mark_restart-Keeps n =
      Keeps-get_task first n _
        λ t p. Keeps-if first n _ _ _ (Keeps-put_task first n _ p) (pure-Keeps n tt)

  uploads-stop_child_for_shutdown : Leaves uploads (stop_child_for_shutdown o)
  unfolding stop_child_for_shutdown
  uploads-stop_child_for_shutdown =
      search (uploads_rules, Leaves-terminate_child_process_if_active) depth 12

  uploads-cleanup_upload_dir : Leaves uploads (cleanup_upload_dir o s.manager)
  unfolding cleanup_upload_dir
  uploads-cleanup_upload_dir = search uploads_rules

  finalize_after_error-Keeps :
      (fuel : ℕ) (code : ℤ) → Keeps first (finalize_after_error o s.manager fuel code)
  unfolding finalize_after_error
  finalize_after_error-Keeps fuel code n = Keeps-get_task first n _ λ t p.
      Keeps-bind first n _ _
        (finalize_remaining_uploads-Keeps first o s.manager managed fuel _ true false n)
        λ r k.
          Keeps-if first k _ _ _
            (Keeps-after first k _ _ uploads-cleanup_upload_dir λ a. pure-Keeps k _)
            (pure-Keeps k _)

  recover-Keeps :
      (fuel : ℕ) (code : ℤ) → Keeps first (recover_after_controller_error o s.manager fuel code)
  unfolding recover_after_controller_error
  recover-Keeps fuel code n = Keeps-after first n _ _ uploads-stop_child_for_shutdown λ a.
      Keeps-after first n _ _ (Leaves-sleep_with_boinc_poll uploads-IsBlind o fuel _ 30000) λ b.
        Keeps-after first n _ _ Leaves-get_status λ status.
          Keeps-if first n _ _ _ (finalize_after_error-Keeps fuel code n)
            (Keeps-if first n _ _ _ (pure-Keeps n _) (finalize_after_error-Keeps fuel code n))

  wait_for_boinc_exit-Keeps :
      (fuel wait : ℕ) → Keeps first (wait_for_boinc_exit o s.manager fuel wait)
  unfolding wait_for_boinc_exit exit_or_recover
  wait_for_boinc_exit-Keeps fuel wait n =
      Keeps-after first n _ _ (Leaves-sleep_with_boinc_poll uploads-IsBlind o fuel _ wait) λ a.
        Keeps-if first n _ _ _ (pure-Keeps n _) (
          Keeps-after first n _ _ (Leaves-apply_boinc_suspend_resume uploads-IsBlind o fuel) λ b.
            Keeps-if first n _ _ _ (pure-Keeps n _) (
              Keeps-after first n _ _ Leaves-get_status λ status.
                Keeps-if first n _ _ _ (pure-Keeps n _)
                  (Keeps-bind first n _ _ (recover-Keeps fuel (pos 1) n) λ d k. pure-Keeps k _)))

  save_progress-Keeps : (fuel delay : ℕ) → Keeps first (save_progress o s fuel delay)
  unfolding save_progress
  save_progress-Keeps fuel delay n = Keeps-get_task first n _ λ t p.
      Keeps-after first n _ _ (uploads-call _ _ tt) λ written.
        Keeps-if first n _ _ _ (Keeps-bind first n _ _ (mark_restart-Keeps n) λ a k. pure-Keeps k _)
          (Keeps-bind first n _ _ (recover-Keeps fuel (pos 1) n) λ d k. pure-Keeps k _)

  after_step-Keeps : (fuel : ℕ) (next : Next) → Keeps first (after_step o s fuel next)
  unfolding after_step
  after_step-Keeps fuel (leave d) n = pure-Keeps n _
  after_step-Keeps fuel (go_on delay) n = save_progress-Keeps fuel delay n

  main_round-Keeps : (fuel : ℕ) → Keeps first (main_round o s fuel)
  unfolding main_round
  main_round-Keeps fuel n = Keeps-bind first n _ _ (refresh_current_cpu_time-Keeps n) λ a i.
      Keeps-bind first i _ _ (refresh_child_status-Keeps i) λ b j.
        Keeps-bind first j _ _ (observe_step-Keeps j) λ step k.
          Keeps-bind first k _ _ (step_if_new-Keeps fuel step k)
            λ next m. after_step-Keeps fuel next m

  wait_or_leave-Keeps : (fuel delay : ℕ) → Keeps first (wait_or_leave o s fuel delay)
  unfolding wait_or_leave
  wait_or_leave-Keeps fuel delay n =
      Keeps-bind first n _ _ (wait_for_boinc_exit-Keeps fuel delay n) λ d k. pure-Keeps k _

  if_going_on-Keeps :
      (next : Next) (k : ℕ → M Next)
      → ((d : ℕ) → Keeps first (k d))
      → Keeps first (if_going_on o s next k)
  unfolding if_going_on
  if_going_on-Keeps (leave d) k h n = pure-Keeps n _
  if_going_on-Keeps (go_on delay) k h n = h delay n

  main_loop-Keeps : (rounds fuel delay : ℕ) → Keeps first (main_loop o s rounds fuel delay)
  unfolding main_loop
  main_loop-Keeps zero fuel delay n = record { at = λ w w' a p e c. absurd cc }
  main_loop-Keeps (suc rounds) fuel delay n = Keeps-get_task first n _ λ t p.
      Keeps-if first n _ _ _
        (Keeps-bind first n _ _ (wait_or_leave-Keeps fuel delay n) λ waited i.
          Keeps-bind first i _ _ (if_going_on-Keeps waited _ (λ d. main_round-Keeps fuel) i)
            λ next j. if_going_on-Keeps next _ (main_loop-Keeps rounds fuel) j)
        (pure-Keeps n _)

  mark_completed-Keeps : Keeps first (mark_completed o s)
  unfolding mark_completed
  mark_completed-Keeps n = Keeps-after first n _ _ (uploads-emit _ tt) λ a.
      Keeps-get_task first n _ λ t p. Keeps-bind first n _ _ (Keeps-put_task first n _ p) λ b k.
        Keeps-after first k _ _ Leaves-get_task λ later. Keeps-Leaves first k _ (uploads-emit _ tt)

  check_success-Keeps : Keeps first (check_success o s)
  unfolding check_success
  check_success-Keeps n =
      Keeps-after first n _ _ (uploads-call _ _ tt)
        λ success. Keeps-get_task first n _ λ t p. Keeps-put_task first n _ p

  final_trickle-Keeps : Keeps first (final_trickle o s)
  unfolding final_trickle
  final_trickle-Keeps n = Keeps-get_task first n _ λ t p.
      Keeps-if first n _ _ _
        (Keeps-bind first n _ _ (refresh_current_cpu_time-Keeps n) λ a k. send_trickle-Keeps _ k)
        (pure-Keeps n tt)

  complete-Keeps : (fuel : ℕ) → Keeps first (complete o s fuel)
  unfolding complete
  complete-Keeps fuel n = Keeps-bind first n _ _ (final_trickle-Keeps n) λ a i.
      Keeps-after first i _ _ uploads-cleanup_upload_dir λ b.
        Keeps-bind first i _ _ (wait_for_boinc_exit-Keeps fuel 30000 i)
          λ waited j. Keeps-after first j _ _ Leaves-get_task λ t. pure-Keeps j _

  upload_and_complete-Keeps : (fuel : ℕ) → Keeps first (upload_and_complete o s fuel)
  unfolding upload_and_complete
  upload_and_complete-Keeps fuel n = Keeps-bind first n _ _ (check_success-Keeps n) λ a i.
      Keeps-after first i _ _ Leaves-get_task λ t.
        Keeps-bind first i _ _
          (finalize_remaining_uploads-Keeps first o s.manager managed fuel _ true true i)
          λ final j. Keeps-if first j _ _ _ (complete-Keeps fuel j) (pure-Keeps j _)

  unless_leaving-Keeps :
      (fuel : ℕ) (waited : Option ExitDecision)
      → Keeps first (unless_leaving o s waited (upload_and_complete o s fuel))
  unfolding unless_leaving
  unless_leaving-Keeps fuel none n = upload_and_complete-Keeps fuel n
  unless_leaving-Keeps fuel (some d) n = pure-Keeps n d

  decide_exit-Keeps : (fuel : ℕ) (next : Next) → Keeps first (decide_exit o s fuel next)
  unfolding decide_exit finish_run
  decide_exit-Keeps fuel (leave d) n = pure-Keeps n d
  decide_exit-Keeps fuel (go_on delay) n = Keeps-bind first n _ _ (mark_completed-Keeps n) λ a i.
      Keeps-bind first i _ _ (wait_for_boinc_exit-Keeps fuel 30000 i)
        λ waited j. unless_leaving-Keeps fuel waited j

  uploads-stop_for_route : (route : ExitRoute) → Leaves uploads (stop_for_route o route)
  unfolding stop_for_route
  uploads-stop_for_route immediate = uploads-stop_child_for_shutdown
  uploads-stop_for_route task_completed = uploads-stop_child_for_shutdown
  uploads-stop_for_route controller_error_recovery = search uploads_rules
  uploads-stop_for_route boinc_shutdown = search uploads_rules

  uploads-finish_for_route :
      (route : ExitRoute) (code : ℤ) → Leaves uploads (finish_for_route o route code)
  unfolding finish_for_route
  uploads-finish_for_route task_completed code = uploads-emit _ tt
  uploads-finish_for_route _ code = search uploads_rules

  uploads-finish_task_exit : (d : ExitDecision) → Leaves uploads (finish_task_exit o d)
  unfolding finish_task_exit close_child_process_handle
  uploads-finish_task_exit d =
      search (uploads_rules, uploads-stop_for_route, uploads-finish_for_route) depth 12

  -- However a run ends, the uploads up to the next number have been submitted, if they were before.
  pub run_controller-Keeps : (rounds fuel : ℕ) → Keeps first (run_controller o s rounds fuel)
  unfolding run_controller
  run_controller-Keeps rounds fuel n =
      Keeps-bind first n _ _ (main_loop-Keeps rounds fuel 5000 n) λ next i.
        Keeps-bind first i _ _ (decide_exit-Keeps fuel next i)
          λ d j. Keeps-Leaves first j _ (uploads-finish_task_exit d)
