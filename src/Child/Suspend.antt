-- ===== src/Child/Suspend.antt =====
-- `apply_boinc_suspend_resume` of src/cpdn_control.cpp: what it does to the model, and that it ends.
use cpdn_control.Prelude.{
  ℕ, zero, suc, ◌≡◌, ◌⊎◌, Bool, true, false, Option, none, some, List, [], ◌∷◌, arith,
}
use cpdn_control.World.{
  BoincStatus, stop_requested, Signal, sigstop, sigcont, sent_signal, polled_status, slept, History,
  Outside, IsReachable, World, ◌>>=◌, get_task, get_status, put_child, emit, call, boinc_get_status,
}
use cpdn_control.Child.{
  send_signal, signal_and_mark, suspend_child_process, resume_child_process, wait_round,
  wait_while_suspended, apply_boinc_suspend_resume,
}

-- The signals sent, latest first.
abbrev pub signals : History → List (ℕ × Signal)
signals [] = []
signals (sent_signal pid s ∷ h) = (pid, s) ∷ signals h
signals (_ ∷ h) = signals h

-- What a wait that lets the model go on leaves behind.
record HasResumed (w w' : World) : Type 0 where
  not_suspended : w'.client_status.suspended ≡ false
  not_stopped : stop_requested w'.client_status ≡ false
  same_task : w'.task ≡ w.task
  same_signals : signals w'.history ≡ signals w.history

abbrev Resumes : World → Option (Bool × World) → Type 0
Resumes w none = Unit
Resumes w (some (false, w')) = Unit
Resumes w (some (true, w')) = HasResumed w w'

-- The world after a round that waits.
abbrev pub waited_once : Outside → World → World
waited_once o w = record w {
  client_status = o.status w.history;
  history = slept 1000 ∷ polled_status ∷ w.history;
}

wait_while_suspended-Resumes :
    (o : Outside) (fuel : ℕ) (w : World)
    → stop_requested w.client_status ≡ false
    → Resumes w (wait_while_suspended o fuel w)
unfolding wait_while_suspended wait_round ◌>>=◌ get_status emit boinc_get_status
wait_while_suspended-Resumes o zero w s = tt
wait_while_suspended-Resumes o (suc fuel) w s =
    ground (arith, wait_while_suspended-Resumes o fuel (waited_once o w))

-- The two ways to go on: the client had not suspended the task, or it had, and then the child was
-- stopped and set going again, in that order.
abbrev pub Resumption : World → World → Type 0
Resumption w w' =
    ((w.client_status.suspended ≡ false) × (w' ≡ w))
    ⊎ ((w.client_status.suspended ≡ true)
        × (w'.task.child_process.suspended ≡ false)
        × (signals w'.history
            ≡ (w.task.child_process.process_id, sigcont)
              ∷ (w.task.child_process.process_id, sigstop)
              ∷ signals w.history))

-- The world once the child is stopped.
abbrev pub halted : World → World
halted w = record w {
  task = record w.task { child_process = record w.task.child_process { suspended = true } };
  history = sent_signal w.task.child_process.process_id sigstop ∷ w.history;
}

-- When `apply_boinc_suspend_resume` lets the controller go on, the client asks neither for a stop
-- nor for a suspension any more, and either nothing was done, or the child was stopped first and
-- continued last and its handle says that it runs.
pub apply_boinc_suspend_resume-Resumption :
    (o : Outside) (fuel : ℕ) (w w' : World)
    → apply_boinc_suspend_resume o fuel w ≡ some (true, w')
    → (w'.client_status.suspended ≡ false)
      × (stop_requested w'.client_status ≡ false)
      × Resumption w w'
unfolding apply_boinc_suspend_resume suspend_child_process resume_child_process signal_and_mark
    send_signal ◌>>=◌ get_status get_task put_child call
apply_boinc_suspend_resume-Resumption o fuel w w' e =
    ground (arith, wait_while_suspended-Resumes o fuel (halted w))

abbrev pub Obeys : BoincStatus → Bool → Type 0
Obeys s true = stop_requested s ≡ false
Obeys s false = stop_requested s ≡ true

abbrev pub ObeysAt : Option (Bool × World) → Type 0
ObeysAt none = Unit
ObeysAt (some (r, w')) = Obeys w'.client_status r

abbrev WaitObeys : World → Option (Bool × World) → Type 0
WaitObeys w none = Unit
WaitObeys w (some (r, w')) = Obeys w'.client_status r × (w'.task ≡ w.task)

wait_while_suspended-WaitObeys :
    (o : Outside) (fuel : ℕ) (w : World)
    → stop_requested w.client_status ≡ false
    → WaitObeys w (wait_while_suspended o fuel w)
unfolding wait_while_suspended wait_round ◌>>=◌ get_status emit boinc_get_status
wait_while_suspended-WaitObeys o zero w s = tt
wait_while_suspended-WaitObeys o (suc fuel) w s =
    ground (arith, wait_while_suspended-WaitObeys o fuel (waited_once o w))

-- Where signals reach the child, the answer is no exactly when the client asks for a stop.
pub apply_boinc_suspend_resume-ObeysAt :
    (o : Outside) (fuel : ℕ) (w : World)
    → IsReachable o w.task.child_process.process_id
    → ObeysAt (apply_boinc_suspend_resume o fuel w)
unfolding apply_boinc_suspend_resume suspend_child_process resume_child_process signal_and_mark
    send_signal ◌>>=◌ get_status get_task put_child call
apply_boinc_suspend_resume-ObeysAt o fuel w r =
    grind (arith, r.not_refused, r.not_zero, wait_while_suspended-WaitObeys o fuel (halted w))
