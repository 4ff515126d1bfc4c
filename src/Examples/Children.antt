-- ===== src/Examples/Children.antt =====
-- The theorems on suspension and waiting, in the scene.
use cpdn_control.Prelude.{◌≡◌, refl, true, false, arith}
use cpdn_control.World.{
  World, stop_requested, Ends, ◌>>=◌, get_task, get_status, put_child, emit, call, boinc_get_status,
}
use cpdn_control.Child.{
  apply_boinc_suspend_resume, suspend_child_process, resume_child_process, send_signal,
  wait_while_suspended, sleep_with_boinc_poll,
}
use cpdn_control.Child.Suspend.{
  Resumption, ObeysAt, apply_boinc_suspend_resume-Resumption, apply_boinc_suspend_resume-ObeysAt,
}
use cpdn_control.Child.Waiting.{sleep_with_boinc_poll-Ends, apply_boinc_suspend_resume-Ends}
use cpdn_control.Examples.Scene.{smooth, smooth-IsClock, calm, scene, world_of}

-- The client suspends the task, and resumes it at the next poll.
abbrev suspended_scene : World
suspended_scene = record scene { client_status = record calm { suspended = true } }

abbrev resumed_scene : World
resumed_scene = world_of (apply_boinc_suspend_resume smooth 5 suspended_scene)

apply_boinc_suspend_resume-Resumption_example :
    (resumed_scene.client_status.suspended ≡ false)
    × (stop_requested resumed_scene.client_status ≡ false)
    × Resumption suspended_scene resumed_scene
unfolding apply_boinc_suspend_resume suspend_child_process resume_child_process send_signal
    wait_while_suspended ◌>>=◌ get_task get_status put_child emit call boinc_get_status
apply_boinc_suspend_resume-Resumption_example =
    apply_boinc_suspend_resume-Resumption smooth 5 suspended_scene resumed_scene refl

apply_boinc_suspend_resume-ObeysAt_example :
    ObeysAt (apply_boinc_suspend_resume smooth 5 suspended_scene)
apply_boinc_suspend_resume-ObeysAt_example =
    apply_boinc_suspend_resume-ObeysAt smooth 5 suspended_scene
      (record { not_zero = omega arith; not_refused = λ h s. λ e. cc })

sleep_with_boinc_poll-Ends_example : Ends (sleep_with_boinc_poll smooth 40000 false 30000 scene)
sleep_with_boinc_poll-Ends_example =
    sleep_with_boinc_poll-Ends smooth 40000 false 30000 scene smooth-IsClock (omega arith)

apply_boinc_suspend_resume-Ends_example : Ends (apply_boinc_suspend_resume smooth 5 suspended_scene)
apply_boinc_suspend_resume-Ends_example =
    apply_boinc_suspend_resume-Ends smooth 5 0 suspended_scene (omega arith) refl
