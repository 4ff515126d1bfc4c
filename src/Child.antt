-- ===== src/Child.antt =====
-- The model process: lib/process_control_posix.cpp, and the functions of src/cpdn_control.cpp that
-- wait for the BOINC client, suspend, resume and end the child. Error texts are left out.
pub mod Quiet
pub mod Suspend
pub mod Waiting
use cpdn_control.Prelude.{
  ℕ, zero, suc, ◌+◌, ◌-◌, Bool, true, false, not, ◌&&◌, ◌||◌, Option, none, some, List, [], ◌∷◌, ℤ,
  pos, negsuc, ltb, leb, ◌==◌, if◌then◌else◌, min,
}
use cpdn_control.World.{
  BoincStatus, stop_requested, ChildProcessHandle, TaskState, Signal, sigstop, sigcont, sigkill,
  KillOutcome, delivered, no_such_process, refused, WaitOutcome, no_change, wait_error, signaled,
  stopped, continued, other_status, Event, sent_signal, waited, slept, read_clock, Outside, World,
  M, pure, ◌>>=◌, ◌>>◌, get_task, get_status, put_child, emit, call, boinc_get_status,
}

pub data ChildProcessState : Type 0 where
  running exited terminated suspended unavailable : ChildProcessState

unfoldable pub child_process_is_valid : ChildProcessHandle → Bool
child_process_is_valid c = not (c.process_id == 0)

abbrev pub closed_handle : ChildProcessHandle
closed_handle = record {
  process_id = 0;
  native_process_handle = 0;
  native_job_handle = 0;
  suspended = false;
  termination_requested = false;
}

unfoldable pub close_child_process_handle : M (Unit {0})
close_child_process_handle = put_child closed_handle

-- A process that is no longer there counts as signalled.
abbrev kill_succeeded : KillOutcome → Bool
kill_succeeded delivered = true
kill_succeeded no_such_process = true
kill_succeeded refused = false

abbrev child_state : ChildProcessHandle → ChildProcessState
child_state c = if c.suspended then suspended else running

module _ (o : Outside) where
  unfoldable pub send_signal : ℕ → Signal → M Bool
  send_signal pid s = if pid == 0 then pure false else do
    outcome ← call (λ h. o.kill h pid s) (sent_signal pid s)
    pure (kill_succeeded outcome)

  -- What the status of waitpid() says: the state, and the exit code where it is set.
  poll_answer : ChildProcessHandle → ℤ → WaitOutcome → M (ChildProcessState × ℤ)
  unfolding close_child_process_handle
  poll_answer c code no_change = pure (child_state c, code)
  poll_answer c code wait_error = pure (unavailable, code)
  poll_answer c code (WaitOutcome.exited status) = do
    close_child_process_handle
    pure (exited, status)
  poll_answer c code signaled = do close_child_process_handle; pure (terminated, negsuc 0)
  poll_answer c code stopped = do
    put_child (record c { suspended = true })
    pure (suspended, negsuc 0)
  poll_answer c code continued = do put_child (record c { suspended = false }); pure (running, code)
  poll_answer c code other_status = pure (child_state c, code)

  unfoldable pub poll_child_process : ℤ → M (ChildProcessState × ℤ)
  unfolding poll_answer child_process_is_valid
  poll_child_process code = do
    task ← get_task
    if child_process_is_valid task.child_process
        then (do
          outcome ←
              call (λ h. o.waitpid h task.child_process.process_id)
                (waited task.child_process.process_id)
          poll_answer task.child_process code outcome)
        else pure (unavailable, code)

  unfoldable pub terminate_child_process : M Bool
  terminate_child_process = do
    task ← get_task
    put_child (record task.child_process { termination_requested = true })
    send_signal task.child_process.process_id sigkill

  -- The signal, and on success the handle's `suspended`.
  signal_and_mark : Signal → Bool → M Bool
  signal_and_mark s mark = do
    task ← get_task
    sent ← send_signal task.child_process.process_id s
    if sent
        then (do put_child (record task.child_process { suspended = mark }); pure true)
        else pure false

  unfoldable pub suspend_child_process : M Bool
  unfolding signal_and_mark
  suspend_child_process = signal_and_mark sigstop true

  unfoldable pub resume_child_process : M Bool
  unfolding signal_and_mark
  resume_child_process = signal_and_mark sigcont false

  -- A round of the loop of `apply_boinc_suspend_resume`: true when the client lets the model go on.
  wait_round : M Bool → M Bool
  wait_round again = do
    status ← get_status
    if status.suspended
        then (do
          boinc_get_status o
          status' ← get_status
          if stop_requested status' then pure false else (do emit (slept 1000); again))
        else pure true

  unfoldable pub wait_while_suspended : ℕ → M Bool
  unfolding wait_round
  wait_while_suspended zero = λ w. none
  wait_while_suspended (suc fuel) = wait_round (wait_while_suspended fuel)

  unfoldable pub apply_boinc_suspend_resume : ℕ → M Bool
  apply_boinc_suspend_resume fuel = do
    status ← get_status
    if stop_requested status
        then pure false
        else if status.suspended
        then (do
          halted ← suspend_child_process
          if halted
              then (do
                go_on ← wait_while_suspended fuel
                if go_on then resume_child_process else pure false)
              else pure false)
        else pure true

  -- A round of the loop of `sleep_with_boinc_poll`, in milliseconds.
  sleep_round : Bool → ℕ → M Bool → M Bool
  sleep_round standalone deadline again = do
    now ← call (λ h. o.clock h) read_clock
    if ltb now deadline
        then (do
          later ← call (λ h. o.clock h) read_clock
          emit (slept (min 5000 (deadline - later)))
          if standalone then again else (do
            boinc_get_status o
            status ← get_status
            if status.suspended || stop_requested status then pure false else again))
        else pure true

  unfoldable pub sleep_until : ℕ → Bool → ℕ → M Bool
  unfolding sleep_round
  sleep_until zero standalone deadline = λ w. none
  sleep_until (suc fuel) standalone deadline =
      sleep_round standalone deadline (sleep_until fuel standalone deadline)

  unfoldable pub sleep_with_boinc_poll : ℕ → Bool → ℕ → M Bool
  sleep_with_boinc_poll fuel standalone total =
      if total == 0
      then pure true
      else do start ← call (λ h. o.clock h) read_clock; sleep_until fuel standalone (start + total)

-- child_status_from_process_state: 0 running, 1 exited, 3 ended by force, 4 suspended, 5 not found.
unfoldable pub child_status_from_process_state : ChildProcessState → ℕ
child_status_from_process_state running = 0
child_status_from_process_state exited = 1
child_status_from_process_state terminated = 3
child_status_from_process_state suspended = 4
child_status_from_process_state unavailable = 5

module _ (o : Outside) where
  -- The updated child status and exit code.
  unfoldable pub check_child_status : ℕ → ℤ → M (ℕ × ℤ)
  unfolding child_status_from_process_state
  check_child_status child_status code = do
    (state, code') ← poll_child_process o code
    let updated = child_status_from_process_state state
    pure (updated, if not (updated == child_status) && (updated == 5) then negsuc 0 else code')

  abbrev is_over : ChildProcessState → Bool
  is_over exited = true
  is_over terminated = true
  is_over _ = false

  abbrev is_there : ChildProcessState → Bool
  is_there running = true
  is_there suspended = true
  is_there _ = false

  abbrev is_unavailable : ChildProcessState → Bool
  is_unavailable unavailable = true
  is_unavailable _ = false

  -- Success, and whether a termination was requested.
  unfoldable pub terminate_child_process_if_active : ℕ → M (Bool × Bool)
  unfolding child_process_is_valid
  terminate_child_process_if_active child_status = do
    task ← get_task
    if not (child_process_is_valid task.child_process) then pure (true, false) else (do
      (state, code) ← poll_child_process o (pos 0)
      let expected_active = (child_status == 0) || (child_status == 4)
      if is_over state
          then pure (true, false)
          else if not (is_there state) && not (is_unavailable state && expected_active)
          then pure (true, false)
          else (do done ← terminate_child_process o; pure (done, done)))
