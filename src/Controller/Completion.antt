-- ===== src/Controller/Completion.antt =====
-- The decisions of src/cpdn_main.cpp that are no completion.
use cpdn_control.Prelude.{
  ℕ, zero, suc, ◌≡◌, refl, Bool, true, false, Option, none, some, ℤ, pos, if◌then◌else◌,
}
use cpdn_control.World.{BoincStatus, Outside, World, M, ◌>>=◌, pure}
use cpdn_control.World.Leaves.{>>=-eq-some}
use cpdn_control.Upload.{UploadManager}
use mathlib.Core.Path.{subst}
use cpdn_control.Exit.{
  ExitDecision, ExitRoute, task_completed, make_boinc_shutdown_exit_decision, finalize_after_error,
  recover_after_controller_error, exit_or_recover, wait_for_boinc_exit,
}
use cpdn_control.Controller.{
  Setup, Next, go_on, leave, do_step, step_if_new, save_progress, after_step, main_round,
  wait_or_leave, if_going_on, main_loop,
}

abbrev pub is_completion : ExitRoute → Bool
is_completion task_completed = true
is_completion _ = false

abbrev pub NotDone : ExitDecision → Type 0
NotDone d = is_completion d.route ≡ false

abbrev pub NotDoneNext : Next → Type 0
NotDoneNext (leave d) = NotDone d
NotDoneNext (go_on delay) = Unit

abbrev pub NotDoneOption : Option ExitDecision → Type 0
NotDoneOption none = Unit
NotDoneOption (some d) = NotDone d

-- An exit, and no completion.
abbrev pub IsExit : Option ExitDecision → Type 0
IsExit none = ⊥
IsExit (some d) = NotDone d

IsExit-NotDone : (d : Option ExitDecision) → IsExit d → NotDoneOption d
IsExit-NotDone none h = tt
IsExit-NotDone (some d) h = h

-- Wherever `m` ends, `P` holds of its answer.
pub record Returns {A : Type 0} (P : A → Type 0) (m : M A) : Type 0 where
  pub at : (w w' : World) (a : A) → m w ≡ some (a, w') → P a

module _ {A : Type 0} {P : A → Type 0} where
  Returns-pure : (a : A) → P a → Returns P (pure a)
  Returns-pure a p = record { at = λ w w' b e. let q : (a ≡ b) = cc in subst P q p }

  Returns-bind :
      {B : Type 0} (m : M B) (k : B → M A) → ((b : B) → Returns P (k b)) → Returns P (m >>= k)
  Returns-bind m k r = record {
    at = λ w w' a e. let (b, v, p, q) = >>=-eq-some m k w w' a e in (r b).at v w' a q;
  }

  Returns-then :
      {B : Type 0} (Q : B → Type 0) (m : M B) (k : B → M A)
      → Returns Q m
      → ((b : B) → Q b → Returns P (k b))
      → Returns P (m >>= k)
  Returns-then Q m k g r = record {
    at =
        λ w w' a e. let (b, v, p, q) = >>=-eq-some m k w w' a e in (r b (g.at w v b p)).at v w' a q;
  }

  Returns-if : (b : Bool) (m n : M A) → Returns P m → Returns P n → Returns P (if b then m else n)
  Returns-if true m n g h = g
  Returns-if false m n g h = h

Returns-weaken :
    {A : Type 0} {P Q : A → Type 0} {m : M A} → ((a : A) → P a → Q a) → Returns P m → Returns Q m
Returns-weaken c r = record { at = λ w w' a e. c a (r.at w w' a e) }

ruleset returns_rules = (Returns-pure, Returns-bind, Returns-if)

module _ (o : Outside) (u : UploadManager) where
  shutdown-NotDone : (s : BoincStatus) → NotDone (make_boinc_shutdown_exit_decision s)
  unfolding make_boinc_shutdown_exit_decision
  shutdown-NotDone s = refl

  finalize_after_error-NotDone :
      (fuel : ℕ) (code : ℤ) → Returns NotDone (finalize_after_error o u fuel code)
  unfolding finalize_after_error
  finalize_after_error-NotDone fuel code = search (returns_rules) depth 12

  recover-NotDone :
      (fuel : ℕ) (code : ℤ) → Returns NotDone (recover_after_controller_error o u fuel code)
  unfolding recover_after_controller_error
  recover-NotDone fuel code =
      search (returns_rules, finalize_after_error-NotDone, shutdown-NotDone) depth 12

  pub exit_or_recover-IsExit : (fuel : ℕ) → Returns IsExit (exit_or_recover o u fuel)
  unfolding exit_or_recover
  exit_or_recover-IsExit fuel = Returns-bind _ _ λ status.
      Returns-if _ _ _ (Returns-pure _ (shutdown-NotDone status))
        (Returns-then NotDone _ _ (recover-NotDone fuel (pos 1)) λ d n. Returns-pure (some d) n)

  pub wait-NotDone : (fuel wait : ℕ) → Returns NotDoneOption (wait_for_boinc_exit o u fuel wait)
  unfolding wait_for_boinc_exit
  wait-NotDone fuel wait = Returns-bind _ _ λ undisturbed.
      Returns-if undisturbed _ _ (Returns-pure none tt) (
        Returns-bind _ _ λ resumed.
          Returns-if resumed _ _ (Returns-pure none tt)
            (Returns-weaken IsExit-NotDone (exit_or_recover-IsExit fuel)))

module _ (o : Outside) (s : Setup) where
  do_step-NotDone : (fuel : ℕ) (step : ℤ) → Returns NotDoneNext (do_step o s fuel step)
  unfolding do_step
  do_step-NotDone fuel step = search (returns_rules) depth 20

  step_if_new-NotDone : (fuel : ℕ) (step : ℤ) → Returns NotDoneNext (step_if_new o s fuel step)
  unfolding step_if_new
  step_if_new-NotDone fuel step = search (returns_rules, do_step-NotDone) depth 12

  save_progress-NotDone : (fuel delay : ℕ) → Returns NotDoneNext (save_progress o s fuel delay)
  unfolding save_progress
  save_progress-NotDone fuel delay = Returns-bind _ _ λ t. Returns-bind _ _ λ written.
      Returns-if written _ _ (Returns-bind _ _ λ m. Returns-pure (go_on delay) tt) (
        Returns-then NotDone _ _ (recover-NotDone o s.manager fuel (pos 1))
          λ d n. Returns-pure (leave d) n)

  after_step-NotDone :
      (fuel : ℕ) (next : Next) → NotDoneNext next → Returns NotDoneNext (after_step o s fuel next)
  unfolding after_step
  after_step-NotDone fuel (leave d) n = Returns-pure (leave d) n
  after_step-NotDone fuel (go_on delay) n = save_progress-NotDone fuel delay

  main_round-NotDone : (fuel : ℕ) → Returns NotDoneNext (main_round o s fuel)
  unfolding main_round
  main_round-NotDone fuel = Returns-bind _ _ λ a. Returns-bind _ _ λ b. Returns-bind _ _ λ step.
      Returns-then NotDoneNext _ _ (step_if_new-NotDone fuel step)
        λ next n. after_step-NotDone fuel next n

  decision-NotDone :
      (delay : ℕ) (d : Option ExitDecision)
      → NotDoneOption d
      → Returns NotDoneNext (pure (elim d [ none ↦ go_on delay | some d ↦ leave d ]))
  decision-NotDone delay none n = Returns-pure (go_on delay) tt
  decision-NotDone delay (some d) n = Returns-pure (leave d) n

  wait_or_leave-NotDone : (fuel delay : ℕ) → Returns NotDoneNext (wait_or_leave o s fuel delay)
  unfolding wait_or_leave
  wait_or_leave-NotDone fuel delay =
      Returns-then NotDoneOption _ _ (wait-NotDone o s.manager fuel delay) (decision-NotDone delay)

  if_going_on-NotDone :
      (next : Next) (k : ℕ → M Next)
      → NotDoneNext next
      → ((d : ℕ) → Returns NotDoneNext (k d))
      → Returns NotDoneNext (if_going_on o s next k)
  unfolding if_going_on
  if_going_on-NotDone (leave d) k n r = Returns-pure (leave d) n
  if_going_on-NotDone (go_on delay) k n r = r delay

  -- No exit of the main loop is a completion of the task.
  pub main_loop-NotDone :
      (rounds fuel delay : ℕ) → Returns NotDoneNext (main_loop o s rounds fuel delay)
  unfolding main_loop
  main_loop-NotDone zero fuel delay = record { at = λ w w' a e. cc }
  main_loop-NotDone (suc rounds) fuel delay = Returns-bind _ _ λ t.
      Returns-if _ _ _
        (Returns-then NotDoneNext _ _ (wait_or_leave-NotDone fuel delay) λ waited n.
          Returns-then NotDoneNext _ _ (if_going_on-NotDone waited _ n λ d. main_round-NotDone fuel)
            λ next m.
              if_going_on-NotDone next (main_loop o s rounds fuel) m
                (main_loop-NotDone rounds fuel))
        (Returns-pure (go_on delay) tt)
