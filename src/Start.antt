-- ===== src/Start.antt =====
-- src/control_start.cpp and src/control_start.h. The texts of the messages are left out.
pub mod Modes
use cpdn_control.Prelude.{
  Bool, true, false, ◌&&◌, not, Option, none, some, ℤ, pos, ◌+ℤ◌, ltb_ℤ, leb_ℤ, if◌then◌else◌,
}
use cpdn_control.Text.{Bytes}
use cpdn_control.Text.Number.{IntParse, parse_int, int_max}
use cpdn_control.Progress.{is_ok, stored}
use cpdn_control.World.{TaskState}

pub data TaskStartupMode : Type 0 where
  fresh_run restart_run invalid : TaskStartupMode

pub record TaskStartupStateResult : Type 0 where
  pub ok : Bool
  pub startup_mode : TaskStartupMode
  pub print_model_logs : Bool

-- What is found in the slot: the progress file, with its `read` of a task, and the restart of the
-- model, with the step that `parse_restart` gives.
pub record Slot : Type 0 where
  pub progress_file_exists : Bool
  pub progress_file_is_empty : Bool
  pub read : TaskState → TaskState × Bool
  pub restart_exists : Bool
  pub parse_restart : Option Bytes

abbrev pub started : TaskStartupMode → TaskStartupStateResult
started mode = record { ok = true; startup_mode = mode; print_model_logs = false }

abbrev pub refused : Bool → TaskStartupStateResult
refused print_logs = record { ok = false; startup_mode = invalid; print_model_logs = print_logs }

-- The check of the restart's step against the progress file's, with `limit` steps to spare.
unfoldable pub restart_at : ℤ → Bytes → TaskState → TaskState × TaskStartupStateResult
restart_at limit step_text tstate =
    let p = parse_int step_text in
    let restart_file_step_value = stored p (pos 0) in
    if not (is_ok p)
    then (tstate, refused false)
    else if ltb_ℤ (tstate.last_completed_step +ℤ limit) restart_file_step_value
    then (tstate, refused false)
    else (record tstate { last_completed_step = restart_file_step_value }, started restart_run)

unfoldable pub restart_from : Slot → ℤ → TaskState → TaskState × TaskStartupStateResult
restart_from slot limit tstate = elim slot.parse_restart [
  | none ↦ (tstate, refused true)
  | some step_text ↦
      let r = slot.read tstate in
      let next = restart_at limit step_text r.0 in if r.1 then next else (r.0, refused false)
]

unfoldable pub start_from : Slot → ℤ → TaskState → TaskState × TaskStartupStateResult
start_from slot restart_interval_steps tstate =
    let r = slot.read tstate in
    if not r.1
    then (r.0, refused false)
    else if leb_ℤ restart_interval_steps r.0.last_completed_step
    then (r.0, refused true)
    else (r.0, started fresh_run)

unfoldable pub initialize_task_state_from_restart :
    Slot → ℤ → TaskState → TaskState × TaskStartupStateResult
initialize_task_state_from_restart slot restart_interval_steps tstate =
    let allowed_restart_step_diff = restart_interval_steps +ℤ pos 2 in
    let progress_file_is_empty = slot.progress_file_exists && slot.progress_file_is_empty in
    if not slot.progress_file_exists && not slot.restart_exists
    then (tstate, started fresh_run)
    else if slot.progress_file_exists && not progress_file_is_empty && slot.restart_exists
    then restart_from slot allowed_restart_step_diff tstate
    else if slot.progress_file_exists && progress_file_is_empty
    then (tstate, refused true)
    else if slot.progress_file_exists && not slot.restart_exists
    then start_from slot restart_interval_steps tstate
    else if not slot.progress_file_exists && slot.restart_exists
    then (tstate, refused true)
    else (tstate, refused false)

unfoldable pub prepare_task_state_for_controller_run : TaskState → TaskState
prepare_task_state_for_controller_run tstate = record tstate {
  model_completed = pos 0;
  current_step = tstate.last_completed_step;
  current_cpu_time = tstate.prior_acc_cpu_time;
}
