-- ===== src/Child/Quiet.antt =====
-- Waiting for the client and handling the child touch nothing but the client's status, the child's
-- handle and the history, where they add quiet events only (src/cpdn_control.cpp).
use cpdn_control.Prelude.{ℕ, zero, suc, Bool, ℤ}
use cpdn_control.World.{Signal, WaitOutcome, no_change, ChildProcessHandle, Outside, World, M}
use cpdn_control.World.Leaves.{
  Leaves, IsBlind, Leaves-pure, Leaves-bind, Leaves-if, Leaves-get_task, Leaves-get_status,
  Leaves-emit, Leaves-call, Leaves-put_child, Leaves-boinc_get_status,
}
use cpdn_control.Child.{
  send_signal, poll_answer, poll_child_process, terminate_child_process, signal_and_mark,
  suspend_child_process, resume_child_process, wait_round, wait_while_suspended,
  apply_boinc_suspend_resume, sleep_round, sleep_until, sleep_with_boinc_poll, check_child_status,
  terminate_child_process_if_active,
}

pub ruleset leaves_rules = (
  Leaves-pure, Leaves-bind, Leaves-if, Leaves-get_task, Leaves-get_status, Leaves-emit, Leaves-call,
  Leaves-put_child, Leaves-boinc_get_status,
)

module _ {X : Type 0} {f : World → X} (blind : IsBlind f) (o : Outside) where
  Leaves-send_signal : (pid : ℕ) (s : Signal) → Leaves f (send_signal o pid s)
  unfolding send_signal
  Leaves-send_signal pid s = search (leaves_rules, blind)

  Leaves-poll_answer :
      (c : ChildProcessHandle) (code : ℤ) (a : WaitOutcome) → Leaves f (poll_answer o c code a)
  unfolding poll_answer
  Leaves-poll_answer c code no_change = search leaves_rules
  Leaves-poll_answer c code _ = search leaves_rules

  pub Leaves-poll_child_process : (code : ℤ) → Leaves f (poll_child_process o code)
  unfolding poll_child_process
  Leaves-poll_child_process code = search (leaves_rules, blind, Leaves-poll_answer)

  Leaves-terminate_child_process : Leaves f (terminate_child_process o)
  unfolding terminate_child_process
  Leaves-terminate_child_process = search (leaves_rules, blind, Leaves-send_signal)

  Leaves-signal_and_mark : (s : Signal) (mark : Bool) → Leaves f (signal_and_mark o s mark)
  unfolding signal_and_mark
  Leaves-signal_and_mark s mark = search (leaves_rules, blind, Leaves-send_signal)

  Leaves-wait_round : (again : M Bool) → Leaves f again → Leaves f (wait_round o again)
  unfolding wait_round
  Leaves-wait_round again l = search (leaves_rules, blind) depth 12

  Leaves-wait_while_suspended : (fuel : ℕ) → Leaves f (wait_while_suspended o fuel)
  unfolding wait_while_suspended
  Leaves-wait_while_suspended zero = record { at = λ w w' a e. cc }
  Leaves-wait_while_suspended (suc fuel) =
      Leaves-wait_round (wait_while_suspended o fuel) (Leaves-wait_while_suspended fuel)

  pub Leaves-apply_boinc_suspend_resume : (fuel : ℕ) → Leaves f (apply_boinc_suspend_resume o fuel)
  unfolding apply_boinc_suspend_resume suspend_child_process resume_child_process
  Leaves-apply_boinc_suspend_resume fuel =
      search (leaves_rules, Leaves-signal_and_mark, Leaves-wait_while_suspended) depth 12

  Leaves-sleep_round :
      (standalone : Bool) (deadline : ℕ) (again : M Bool)
      → Leaves f again
      → Leaves f (sleep_round o standalone deadline again)
  unfolding sleep_round
  Leaves-sleep_round standalone deadline again l = search (leaves_rules, blind) depth 14

  Leaves-sleep_until :
      (fuel : ℕ) (standalone : Bool) (deadline : ℕ)
      → Leaves f (sleep_until o fuel standalone deadline)
  unfolding sleep_until
  Leaves-sleep_until zero standalone deadline = record { at = λ w w' a e. cc }
  Leaves-sleep_until (suc fuel) standalone deadline =
      Leaves-sleep_round standalone deadline _ (Leaves-sleep_until fuel standalone deadline)

  pub Leaves-sleep_with_boinc_poll :
      (fuel : ℕ) (standalone : Bool) (total : ℕ)
      → Leaves f (sleep_with_boinc_poll o fuel standalone total)
  unfolding sleep_with_boinc_poll
  Leaves-sleep_with_boinc_poll fuel standalone total =
      search (leaves_rules, blind, Leaves-sleep_until)

  pub Leaves-check_child_status : (s : ℕ) (code : ℤ) → Leaves f (check_child_status o s code)
  unfolding check_child_status
  Leaves-check_child_status s code = search (leaves_rules, Leaves-poll_child_process)

  pub Leaves-terminate_child_process_if_active :
      (s : ℕ) → Leaves f (terminate_child_process_if_active o s)
  unfolding terminate_child_process_if_active
  Leaves-terminate_child_process_if_active s =
      search (leaves_rules, Leaves-poll_child_process, Leaves-terminate_child_process) depth 12
