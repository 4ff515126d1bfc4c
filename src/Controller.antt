-- ===== src/Controller.antt =====
-- The main loop of src/cpdn_main.cpp, and the steps behind it up to the end of the task.
pub mod Unfinished
pub mod Covered
pub mod Covering
pub mod Loop
pub mod Completion
pub mod Ending
pub mod Finish
pub mod Run
pub mod Finished
use cpdn_control.Prelude.{
  ℕ, zero, suc, ◌+◌, ◌-◌, ◌*◌, ◌==◌, Bool, true, false, not, ◌&&◌, Option, none, some, ℤ, pos,
  ltb_ℤ, eqb_ℤ, ltb, quot, ◌*ℤ◌, abs_ℤ, if◌then◌else◌,
}
use cpdn_control.World.{
  TaskState, asked_model_step, asked_model_success, finalized_model, did_step_tasks, read_cpu_time,
  wrote_progress, read_clock, read_trickle_data, Outside, M, pure, ◌>>=◌, ◌>>◌, get_task, put_task,
  get_status, emit, call,
}
use cpdn_control.Child.{check_child_status}
use cpdn_control.Upload.{
  UploadManager, UploadOperationResult, move_copyable_output_files, cleanup_upload_dir,
}
use cpdn_control.Upload.Process.{process_scheduled_upload, finalize_remaining_uploads}
use cpdn_control.Trickle.{TrickleHandler, process_trickle, crossed_trickle_boundary}
use cpdn_control.Exit.{
  ExitDecision, upload_failed, make_immediate_exit_decision, make_completion_exit_decision,
  finish_task_exit, recover_after_controller_error, wait_for_boinc_exit,
}

-- What the loop is set up with; the delay of LOOP_DELAY_DEFAULT is 5 seconds.
pub record Setup : Type 0 where
  pub manager : UploadManager
  pub trickler : TrickleHandler
  pub trickle_freq : ℤ
  pub ncpus : ℤ
  pub restart_interval_steps : ℤ

-- An answer of a part of the program: it goes on, or the program returns with an exit decision.
pub data Next : Type 0 where
  go_on : ℕ → Next
  leave : ExitDecision → Next

module _ (o : Outside) (s : Setup) where
  unfoldable pub refresh_current_cpu_time : M (Unit {0})
  refresh_current_cpu_time = do
    t ← get_task
    child_cpu_time ←
        call (λ h. o.cpu_time h t.child_process.process_id)
          (read_cpu_time t.child_process.process_id)
    if ltb 0 child_cpu_time
        then put_task (record t { current_cpu_time = t.prior_acc_cpu_time + child_cpu_time })
        else pure tt

  unfoldable pub refresh_child_status : M (Unit {0})
  refresh_child_status = do
    t ← get_task
    (child_status, exit_code) ← check_child_status o t.child_status t.exit_code
    later ← get_task
    put_task (record later { child_status = child_status; exit_code = exit_code })

  unfoldable pub take_step : Bool × ℤ → TaskState → M ℤ
  take_step (true, step) t = do put_task (record t { current_step = step }); pure step
  take_step (false, step) t = pure step

  -- The observed step: last_completed_step, or what the call of the model leaves in its place.
  unfoldable pub observe_step : M ℤ
  observe_step = do
    t ← get_task
    answer ← call (λ h. o.model_step h t.last_completed_step) asked_model_step
    later ← get_task
    take_step answer later

  -- A trickle of the step `step`; a failure leaves last_trickle_step alone.
  unfoldable pub send_trickle : ℤ → M (Unit {0})
  send_trickle step = do
    t ← get_task
    trickle_data ← call (λ h. o.trickle_data h) read_trickle_data
    retval ← process_trickle o s.trickler trickle_data t.current_cpu_time step s.ncpus
    later ← get_task
    if eqb_ℤ retval (pos 0) then put_task (record later { last_trickle_step = step }) else pure tt

  unfoldable pub trickle_if_crossed : ℤ → M (Unit {0})
  trickle_if_crossed observed_step = do
    t ← get_task
    if crossed_trickle_boundary t.last_completed_step observed_step s.trickle_freq
        then send_trickle observed_step
        else pure tt

  -- The tasks of a new step: the delay of the next round, or the exit of an upload that failed.
  unfoldable pub do_step : ℕ → ℤ → M Next
  do_step fuel observed_step = do
    step_start ← call (λ h. o.clock h) read_clock
    emit (did_step_tasks observed_step)
    move_copyable_output_files o s.manager observed_step
    upload ← process_scheduled_upload o s.manager fuel observed_step
    if upload.ok
        then (do
          trickle_if_crossed observed_step
          step_end ← call (λ h. o.clock h) read_clock
          t ← get_task
          put_task (record t { last_completed_step = observed_step })
          pure (go_on (5000 - (step_end - step_start))))
        else pure (leave (make_immediate_exit_decision upload_failed upload.finish_code))

  unfoldable pub step_if_new : ℕ → ℤ → M Next
  step_if_new fuel observed_step = do
    t ← get_task
    if eqb_ℤ observed_step t.last_completed_step
        then pure (go_on 5000)
        else do_step fuel observed_step

  -- current_step % restart_interval_steps == 0; an interval of zero is no divisor.
  unfoldable pub mark_restart : M (Unit {0})
  mark_restart = do
    t ← get_task
    if eqb_ℤ (quot t.current_step s.restart_interval_steps *ℤ s.restart_interval_steps)
          t.current_step
        then put_task (record t { restart_cpu_time = t.current_cpu_time })
        else pure tt

  -- The end of a round: the progress file and the report to the client.
  unfoldable pub save_progress : ℕ → ℕ → M Next
  save_progress fuel delay = do
    t ← get_task
    written ← call (λ h. o.write_progress h t) (wrote_progress t)
    if written then (do mark_restart; pure (go_on delay)) else (do
      decision ← recover_after_controller_error o s.manager fuel (pos 1)
      pure (leave decision))

  unfoldable pub after_step : ℕ → Next → M Next
  after_step fuel (leave decision) = pure (leave decision)
  after_step fuel (go_on delay) = save_progress fuel delay

  -- A round of the loop, after its wait.
  unfoldable pub main_round : ℕ → M Next
  main_round fuel = do
    refresh_current_cpu_time
    refresh_child_status
    observed_step ← observe_step
    next ← step_if_new fuel observed_step
    after_step fuel next

  unfoldable pub wait_or_leave : ℕ → ℕ → M Next
  wait_or_leave fuel delay = do
    decision ← wait_for_boinc_exit o s.manager fuel delay
    pure (elim decision [ none ↦ go_on delay | some d ↦ leave d ])

  unfoldable pub if_going_on : Next → (ℕ → M Next) → M Next
  if_going_on (leave decision) k = pure (leave decision)
  if_going_on (go_on delay) k = k delay

  -- `rounds` bounds the rounds, and `fuel` each wait.
  unfoldable pub main_loop : ℕ → ℕ → ℕ → M Next
  main_loop zero fuel delay = λ w. none
  main_loop (suc rounds) fuel delay = do
    t ← get_task
    if (t.child_status == 0) && eqb_ℤ t.model_completed (pos 0)
        then (do
          waited ← wait_or_leave fuel delay
          next ← if_going_on waited (λ d. main_round fuel)
          if_going_on next (main_loop rounds fuel))
        else pure (go_on delay)

  unfoldable pub final_trickle : M (Unit {0})
  final_trickle = do
    t ← get_task
    if not s.manager.standalone && ltb_ℤ t.last_trickle_step t.current_step
        then (do refresh_current_cpu_time; send_trickle t.current_step)
        else pure tt

  unfoldable pub mark_completed : M (Unit {0})
  mark_completed = do
    emit finalized_model
    t ← get_task
    put_task (record t { model_completed = pos 1 })
    later ← get_task
    emit (wrote_progress later)

  unfoldable pub check_success : M (Unit {0})
  check_success = do
    success ← call (λ h. o.model_success h) asked_model_success
    t ← get_task
    put_task (record t { model_success = success })

  -- The decision of a task whose final uploads are done.
  unfoldable pub complete : ℕ → M ExitDecision
  complete fuel = do
    final_trickle
    cleanup_upload_dir o s.manager
    waited ← wait_for_boinc_exit o s.manager fuel 30000
    t ← get_task
    pure (elim waited [ none ↦ make_completion_exit_decision t.model_success | some d ↦ d ])

  unfoldable pub upload_and_complete : ℕ → M ExitDecision
  upload_and_complete fuel = do
    check_success
    t ← get_task
    final ← finalize_remaining_uploads o s.manager fuel t.last_completed_step true true
    if final.ok
        then complete fuel
        else pure (make_immediate_exit_decision upload_failed final.finish_code)

  unfoldable pub unless_leaving : Option ExitDecision → M ExitDecision → M ExitDecision
  unless_leaving none k = k
  unless_leaving (some decision) k = pure decision

  -- The steps behind the loop, up to the exit decision.
  unfoldable pub finish_run : ℕ → M ExitDecision
  finish_run fuel = do
    mark_completed
    waited ← wait_for_boinc_exit o s.manager fuel 30000
    unless_leaving waited (upload_and_complete fuel)

  unfoldable pub decide_exit : ℕ → Next → M ExitDecision
  decide_exit fuel (leave decision) = pure decision
  decide_exit fuel (go_on delay) = finish_run fuel

  -- The program from the start of its main loop: its exit code.
  unfoldable pub run_controller : ℕ → ℕ → M ℤ
  run_controller rounds fuel = do
    next ← main_loop rounds fuel 5000
    decision ← decide_exit fuel next
    finish_task_exit o decision
