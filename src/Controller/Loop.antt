-- ===== src/Controller/Loop.antt =====
-- The main loop of src/cpdn_main.cpp never calls boinc_finish(), and only a task that is completed
-- ends in it.
use cpdn_control.Prelude.{ℕ, zero, suc, ℤ, Bool, true, false, Option, none, some}
use cpdn_control.Text.{Bytes}
use cpdn_control.World.{TaskState, Outside, M, ◌>>=◌}
use cpdn_control.World.Leaves.{Leaves, Leaves-bind, Leaves-if, Leaves-pure, Leaves-get_task}
use cpdn_control.Child.Quiet.{Leaves-check_child_status}
use cpdn_control.Upload.Ledger.{Leaves-move_copyable_output_files}
use cpdn_control.Trickle.{process_trickle, send_message}
use cpdn_control.Controller.{
  Setup, Next, go_on, leave, refresh_current_cpu_time, refresh_child_status, take_step,
  observe_step, send_trickle, trickle_if_crossed, do_step, step_if_new, mark_restart, save_progress,
  after_step, main_round, wait_or_leave, if_going_on, main_loop,
}
use cpdn_control.Controller.Unfinished.{
  finishes, finishes_rules, finishes-process_scheduled_upload,
  finishes-recover_after_controller_error, finishes-wait_for_boinc_exit,
}

module _ (o : Outside) (s : Setup) where
  pub finishes-refresh_current_cpu_time : Leaves finishes (refresh_current_cpu_time o s)
  unfolding refresh_current_cpu_time
  finishes-refresh_current_cpu_time = search finishes_rules depth 12

  finishes-refresh_child_status : Leaves finishes (refresh_child_status o s)
  unfolding refresh_child_status
  finishes-refresh_child_status = search (finishes_rules, Leaves-check_child_status) depth 12

  finishes-take_step :
      (answer : Bool × ℤ) (t : TaskState) → Leaves finishes (take_step o s answer t)
  unfolding take_step
  finishes-take_step (true, step) t = search finishes_rules
  finishes-take_step (false, step) t = search finishes_rules

  finishes-observe_step : Leaves finishes (observe_step o s)
  unfolding observe_step
  finishes-observe_step = search (finishes_rules, finishes-take_step) depth 12

  finishes-send_message :
      (variety : Bytes) (message : Option Bytes) → Leaves finishes (send_message o variety message)
  unfolding send_message
  finishes-send_message variety none = search finishes_rules
  finishes-send_message variety (some m) = search finishes_rules depth 12

  pub finishes-send_trickle : (step : ℤ) → Leaves finishes (send_trickle o s step)
  unfolding send_trickle process_trickle
  finishes-send_trickle step = search (finishes_rules, finishes-send_message) depth 14

  finishes-trickle_if_crossed : (step : ℤ) → Leaves finishes (trickle_if_crossed o s step)
  unfolding trickle_if_crossed
  finishes-trickle_if_crossed step = search (finishes_rules, finishes-send_trickle) depth 12

  finishes-do_step : (fuel : ℕ) (step : ℤ) → Leaves finishes (do_step o s fuel step)
  unfolding do_step
  finishes-do_step fuel step =
      search
        (
          finishes_rules, Leaves-move_copyable_output_files, finishes-process_scheduled_upload,
          finishes-trickle_if_crossed,
        )
        depth 20

  finishes-step_if_new : (fuel : ℕ) (step : ℤ) → Leaves finishes (step_if_new o s fuel step)
  unfolding step_if_new
  finishes-step_if_new fuel step = search (finishes_rules, finishes-do_step) depth 12

  finishes-mark_restart : Leaves finishes (mark_restart o s)
  unfolding mark_restart
  finishes-mark_restart = search finishes_rules depth 12

  finishes-save_progress : (fuel delay : ℕ) → Leaves finishes (save_progress o s fuel delay)
  unfolding save_progress
  finishes-save_progress fuel delay =
      search (finishes_rules, finishes-mark_restart, finishes-recover_after_controller_error) depth
        12

  finishes-after_step : (fuel : ℕ) (next : Next) → Leaves finishes (after_step o s fuel next)
  unfolding after_step
  finishes-after_step fuel (leave d) = search finishes_rules
  finishes-after_step fuel (go_on delay) = finishes-save_progress fuel delay

  finishes-main_round : (fuel : ℕ) → Leaves finishes (main_round o s fuel)
  unfolding main_round
  finishes-main_round fuel =
      search
        (
          finishes_rules, finishes-refresh_current_cpu_time, finishes-refresh_child_status,
          finishes-observe_step, finishes-step_if_new, finishes-after_step,
        )
        depth 14

  finishes-wait_or_leave : (fuel delay : ℕ) → Leaves finishes (wait_or_leave o s fuel delay)
  unfolding wait_or_leave
  finishes-wait_or_leave fuel delay = search (finishes_rules, finishes-wait_for_boinc_exit) depth 12

  finishes-if_going_on :
      (next : Next) (k : ℕ → M Next)
      → ((d : ℕ) → Leaves finishes (k d))
      → Leaves finishes (if_going_on o s next k)
  unfolding if_going_on
  finishes-if_going_on (leave d) k l = search finishes_rules
  finishes-if_going_on (go_on delay) k l = l delay

  finishes-loop_round :
      (fuel delay : ℕ) (again : ℕ → M Next)
      → ((d : ℕ) → Leaves finishes (again d))
      → Leaves finishes (
          wait_or_leave o s fuel delay >>= λ waited.
          if_going_on o s waited (λ d. main_round o s fuel) >>= λ next. if_going_on o s next again)
  finishes-loop_round fuel delay again l =
      Leaves-bind _ _ (finishes-wait_or_leave fuel delay) λ waited.
        Leaves-bind _ _ (finishes-if_going_on waited _ λ d. finishes-main_round fuel)
          λ next. finishes-if_going_on next again l

  -- The main loop, however it ends, does not call boinc_finish().
  pub finishes-main_loop :
      (rounds fuel delay : ℕ) → Leaves finishes (main_loop o s rounds fuel delay)
  unfolding main_loop
  finishes-main_loop zero fuel delay = record { at = λ w w' a e. cc }
  finishes-main_loop (suc rounds) fuel delay = Leaves-bind _ _ Leaves-get_task λ t.
      Leaves-if _ _ _
        (finishes-loop_round fuel delay (main_loop o s rounds fuel)
          (finishes-main_loop rounds fuel))
        (Leaves-pure _)
