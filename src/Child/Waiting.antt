-- ===== src/Child/Waiting.antt =====
-- The loops that wait for the BOINC client (src/cpdn_control.cpp) end.
use cpdn_control.Prelude.{
  ℕ, zero, suc, ◌+◌, ◌-◌, ◌<◌, ◌≡◌, min, Bool, true, false, ◌||◌, not, ◌∷◌, arith,
}
use cpdn_control.World.{
  stop_requested, polled_status, read_clock, slept, Outside, World, ◌>>=◌, get_task, get_status,
  put_child, emit, call, boinc_get_status, Ends, IsClock,
}
use cpdn_control.Child.Suspend.{waited_once, halted}
use cpdn_control.Child.{
  send_signal, signal_and_mark, suspend_child_process, resume_child_process, wait_round,
  wait_while_suspended, apply_boinc_suspend_resume, sleep_round, sleep_until, sleep_with_boinc_poll,
}

-- The world after a round that sleeps, up to its poll.
abbrev slept_once : Outside → ℕ → World → World
slept_once o deadline w =
    let h = read_clock ∷ w.history in
    record w { history = slept (min 5000 (deadline - o.clock h)) ∷ read_clock ∷ h }

abbrev polled : Outside → World → World
polled o w = record w { client_status = o.status w.history; history = polled_status ∷ w.history }

-- A round ends the loop or brings the deadline nearer.
slept_once-nearer :
    (o : Outside) (c : IsClock o) (deadline fuel : ℕ) (w : World)
    → o.clock w.history < deadline
    → deadline - o.clock w.history < suc fuel
    → deadline - o.clock (slept_once o deadline w).history < fuel
slept_once-nearer o c deadline fuel w lt h = ground (
  arith,
  c.forward w.history read_clock,
  c.forward (read_clock ∷ w.history) read_clock,
  c.sleeps (read_clock ∷ read_clock ∷ w.history)
      (min 5000 (deadline - o.clock (read_clock ∷ w.history))),
)

polled-nearer :
    (o : Outside) (c : IsClock o) (deadline fuel : ℕ) (w : World)
    → deadline - o.clock w.history < fuel
    → deadline - o.clock (polled o w).history < fuel
polled-nearer o c deadline fuel w h = ground (arith, c.forward w.history polled_status)

sleep_until-Ends :
    (o : Outside) (c : IsClock o) (fuel : ℕ) (standalone : Bool) (deadline : ℕ) (w : World)
    → deadline - o.clock w.history < fuel
    → Ends (sleep_until o fuel standalone deadline w)
unfolding sleep_until sleep_round ◌>>=◌ call emit boinc_get_status get_status
sleep_until-Ends o c zero standalone deadline w h = elim h [ ]
sleep_until-Ends o c (suc fuel) standalone deadline w h =
    let v = slept_once o deadline w in
    ground (
      arith,
      slept_once-nearer o c deadline fuel w,
      polled-nearer o c deadline fuel v,
      sleep_until-Ends o c fuel true deadline v,
      sleep_until-Ends o c fuel false deadline (polled o v),
    )

-- With a clock that moves, a BOINC-aware sleep ends: a fuel above its length in milliseconds is
-- enough, whatever the client answers.
pub sleep_with_boinc_poll-Ends :
    (o : Outside) (fuel : ℕ) (standalone : Bool) (total : ℕ) (w : World)
    → IsClock o
    → total < fuel
    → Ends (sleep_with_boinc_poll o fuel standalone total w)
unfolding sleep_with_boinc_poll ◌>>=◌ call
sleep_with_boinc_poll-Ends o fuel standalone total w c h = ground (
  arith,
  c.forward w.history read_clock,
  sleep_until-Ends o c fuel standalone (o.clock w.history + total)
      (record w { history = read_clock ∷ w.history }),
)

-- The world after `n` rounds of waiting.
abbrev pub waited_for : Outside → ℕ → World → World
waited_for o zero w = w
waited_for o (suc n) w = waited_for o n (waited_once o w)

wait_while_suspended-Ends :
    (o : Outside) (fuel n : ℕ) (w : World)
    → n + 1 < fuel
    → (stop_requested (waited_for o n (waited_once o w)).client_status
        || not (waited_for o n (waited_once o w)).client_status.suspended)
      ≡ true
    → Ends (wait_while_suspended o fuel w)
unfolding wait_while_suspended wait_round ◌>>=◌ get_status emit boinc_get_status
wait_while_suspended-Ends o zero n w lt h = elim lt [ ]
wait_while_suspended-Ends o (suc zero) n w lt h = absurd (omega arith)
wait_while_suspended-Ends o (suc (suc fuel)) zero w lt h = ground arith
wait_while_suspended-Ends o (suc (suc fuel)) (suc n) w lt h =
    ground (arith, wait_while_suspended-Ends o (suc fuel) n (waited_once o w))

-- If at some poll, the `n`-th from 0, the client asks for a stop or no longer suspends the task,
-- `apply_boinc_suspend_resume` ends, with two rounds of fuel more.
pub apply_boinc_suspend_resume-Ends :
    (o : Outside) (fuel n : ℕ) (w : World)
    → n + 1 < fuel
    → (stop_requested (waited_for o n (waited_once o (halted w))).client_status
        || not (waited_for o n (waited_once o (halted w))).client_status.suspended)
      ≡ true
    → Ends (apply_boinc_suspend_resume o fuel w)
unfolding apply_boinc_suspend_resume suspend_child_process resume_child_process signal_and_mark
    send_signal ◌>>=◌ get_status get_task put_child call
apply_boinc_suspend_resume-Ends o fuel n w lt h =
    ground (arith, wait_while_suspended-Ends o fuel n (halted w) lt h)
