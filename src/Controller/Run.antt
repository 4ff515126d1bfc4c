-- ===== src/Controller/Run.antt =====
-- When the program calls boinc_finish(), and what it has done by then (src/cpdn_main.cpp).
use cpdn_control.Prelude.{
  ℕ, ◌≡◌, refl, sym, ap, ◌∙◌, ◌⊎◌, inl, inr, Bool, true, false, Option, none, some, List, ◌∷◌, ℤ,
  pos, ◌≤ℤ◌, if◌then◌else◌,
}
use mathlib.Core.Path.{subst}
use cpdn_control.World.{Event, finished, ended_critical_section, Outside, World, ◌>>=◌, pure, emit}
use cpdn_control.World.Leaves.{Leaves, >>=-eq-some, Leaves-put_child}
use cpdn_control.Child.{close_child_process_handle}
use cpdn_control.Child.Quiet.{leaves_rules, Leaves-terminate_child_process_if_active}
use cpdn_control.Upload.{uploads_enabled, expected_upload_file_count}
use cpdn_control.Upload.Ledger.{finish_codes, Gives, Gives-after}
use cpdn_control.Upload.Delivery.{ended_in, gave}
use cpdn_control.Exit.{
  ExitDecision, ExitRoute, immediate, controller_error_recovery, boinc_shutdown, task_completed,
  stop_child_for_shutdown, stop_for_route, finish_for_route, finish_task_exit,
}
use cpdn_control.Controller.{
  Setup, Next, go_on, leave, main_loop, mark_completed, check_success, final_trickle, complete,
  upload_and_complete, unless_leaving, finish_run, decide_exit, run_controller,
}
use cpdn_control.Controller.Unfinished.{
  finishes, finishes_rules, finishes-IsBlind, finishes-emit, finishes-finalize_remaining_uploads,
  finishes-cleanup_upload_dir, finishes-stop_child_for_shutdown, finishes-wait_for_boinc_exit,
}
use cpdn_control.Controller.Loop.{
  finishes-refresh_current_cpu_time, finishes-send_trickle, finishes-main_loop,
}
use cpdn_control.Controller.Completion.{is_completion, NotDoneNext, main_loop-NotDone}
use cpdn_control.Controller.Ending.{Ending, ending, ending-IsBlind}
use cpdn_control.Controller.Finish.{IsDone, finish_run-IsDone, not_done}

module _ (o : Outside) (s : Setup) where
  finishes-mark_completed : Leaves finishes (mark_completed o s)
  unfolding mark_completed
  finishes-mark_completed = search finishes_rules depth 14

  finishes-complete : (fuel : ℕ) → Leaves finishes (complete o s fuel)
  unfolding complete final_trickle
  finishes-complete fuel =
      search
        (
          finishes_rules, finishes-refresh_current_cpu_time, finishes-send_trickle,
          finishes-cleanup_upload_dir, finishes-wait_for_boinc_exit,
        )
        depth 14

  finishes-upload_and_complete : (fuel : ℕ) → Leaves finishes (upload_and_complete o s fuel)
  unfolding upload_and_complete check_success
  finishes-upload_and_complete fuel =
      search (finishes_rules, finishes-finalize_remaining_uploads, finishes-complete) depth 14

  finishes-unless_leaving :
      (fuel : ℕ) (waited : Option ExitDecision)
      → Leaves finishes (unless_leaving o s waited (upload_and_complete o s fuel))
  unfolding unless_leaving
  finishes-unless_leaving fuel none = finishes-upload_and_complete fuel
  finishes-unless_leaving fuel (some d) = search finishes_rules

  finishes-finish_run : (fuel : ℕ) → Leaves finishes (finish_run o s fuel)
  unfolding finish_run
  finishes-finish_run fuel =
      search
        (
          finishes_rules, finishes-mark_completed, finishes-wait_for_boinc_exit,
          finishes-unless_leaving,
        )
        depth 12

  -- What an exit by the decision `d` adds to the calls of boinc_finish().
  abbrev FinishedAs : ExitDecision → ℤ → List ℤ → List ℤ → Type 0
  FinishedAs d code x y =
      (code ≡ d.exit_code) × (y ≡ (if is_completion d.route then d.exit_code ∷ x else x))

  finishes-stop_for_route : (route : ExitRoute) → Leaves finishes (stop_for_route o route)
  unfolding stop_for_route
  finishes-stop_for_route immediate = finishes-stop_child_for_shutdown o s.manager
  finishes-stop_for_route task_completed = finishes-stop_child_for_shutdown o s.manager
  finishes-stop_for_route controller_error_recovery = search finishes_rules
  finishes-stop_for_route boinc_shutdown = search finishes_rules

  finishes-finish_for_route :
      (route : ExitRoute) (code : ℤ)
      → Gives finishes
          (λ c x y. (c ≡ code) × (y ≡ (if is_completion route then code ∷ x else x)))
          (finish_for_route o route code >>= λ a. pure code)
  unfolding finish_for_route ◌>>=◌ emit
  finishes-finish_for_route task_completed code = record {
    at = λ w w' c e. (sym (gave e), ap finishes (sym (ended_in e)));
  }
  finishes-finish_for_route _ code = record {
    at = λ w w' c e. (sym (gave e), ap finishes (sym (ended_in e)));
  }

  finish_task_exit-Gives : (d : ExitDecision) → Gives finishes (FinishedAs d) (finish_task_exit o d)
  unfolding finish_task_exit close_child_process_handle
  finish_task_exit-Gives d = Gives-after _ _ (finishes-stop_for_route d.route) λ a.
      Gives-after _ _ (Leaves-put_child finishes-IsBlind _) λ b.
        Gives-after _ _ (finishes-emit ended_critical_section tt)
          λ c. finishes-finish_for_route d.route d.exit_code

  ending-emit : (e : Event) → Leaves ending (emit e)
  unfolding emit
  ending-emit e = record { at = λ w w' a p. ap ending (sym (ended_in p)) }

  ending-stop_for_route : (route : ExitRoute) → Leaves ending (stop_for_route o route)
  unfolding stop_for_route stop_child_for_shutdown
  ending-stop_for_route immediate =
      search (leaves_rules, ending-IsBlind, Leaves-terminate_child_process_if_active) depth 12
  ending-stop_for_route task_completed =
      search (leaves_rules, ending-IsBlind, Leaves-terminate_child_process_if_active) depth 12
  ending-stop_for_route controller_error_recovery = search leaves_rules
  ending-stop_for_route boinc_shutdown = search leaves_rules

  ending-finish_for_route :
      (route : ExitRoute) (code : ℤ) → Leaves ending (finish_for_route o route code)
  unfolding finish_for_route
  ending-finish_for_route task_completed code = ending-emit (finished code)
  ending-finish_for_route _ code = search leaves_rules

  ending-finish_task_exit : (d : ExitDecision) → Leaves ending (finish_task_exit o d)
  unfolding finish_task_exit close_child_process_handle
  ending-finish_task_exit d =
      search
        (leaves_rules, ending-IsBlind, ending-emit, ending-stop_for_route, ending-finish_for_route)
        depth 12

  -- The end of a task that is completed.
  abbrev pub IsEnded : ℤ → World → Type 0
  IsEnded code w =
      (w.task.model_completed ≡ pos 1)
      × (code ≡ (if w.task.model_success then pos 0 else pos 1))
      × (uploads_enabled s.manager ≡ true
          → expected_upload_file_count s.manager.total_steps s.manager.upload_interval
            ≤ℤ w.task.upload_file_number)

  -- The decision of a run: no completion, or one that is earned.
  abbrev Earned : ExitDecision → World → Type 0
  Earned d w = is_completion d.route ≡ true → IsDone o s d (ending w)

  decide_exit-Earned :
      (fuel : ℕ) (next : Next) (w w' : World) (d : ExitDecision)
      → decide_exit o s fuel next w ≡ some (d, w')
      → NotDoneNext next
      → Earned d w' × (finishes w' ≡ finishes w)
  unfolding decide_exit
  decide_exit-Earned fuel (leave d) w w' d' e n =
      ((λ q. absurd (not_done o s d d' (gave e) n q)), ap finishes (sym (ended_in e)))
  decide_exit-Earned fuel (go_on delay) w w' d e n =
      ((finish_run-IsDone o s fuel).at w w' d e, (finishes-finish_run fuel).at w w' d e)

  finish-IsEnded :
      (d : ExitDecision) (code : ℤ) (w w' : World)
      → finish_task_exit o d w ≡ some (code, w')
      → Earned d w
      → (finishes w' ≡ finishes w) ⊎ ((finishes w' ≡ code ∷ finishes w) × IsEnded code w')
  finish-IsEnded d code w w' e h =
      let (returned, codes) = (finish_task_exit-Gives d).at w w' code e in
      go (is_completion d.route) refl returned codes ((ending-finish_task_exit d).at w w' code e)
    where
      go :
          (done : Bool)
          → is_completion d.route ≡ done
          → code ≡ d.exit_code
          → finishes w' ≡ (if is_completion d.route then d.exit_code ∷ finishes w else finishes w)
          → ending w' ≡ ending w
          → (finishes w' ≡ finishes w) ⊎ ((finishes w' ≡ code ∷ finishes w) × IsEnded code w')
      go false p c f k = inl (f ∙ ap (λ b. if b then d.exit_code ∷ finishes w else finishes w) p)
      go true p c f k =
          let (flag, success, sent) = h p in
          inr (
            f
                ∙ ap (λ b. if b then d.exit_code ∷ finishes w else finishes w) p
                ∙ ap (λ c. c ∷ finishes w) (sym c),
            (
              ap (λ (x : Ending). x.completed) k ∙ flag,
              c ∙ success ∙ ap (λ (x : Ending). if x.success then pos 0 else pos 1) (sym k),
              λ on.
                  subst
                    (λ (x : Ending).
                      expected_upload_file_count s.manager.total_steps s.manager.upload_interval
                      ≤ℤ x.number)
                    (sym k) (sent on),
            ),
          )

  -- A run that calls boinc_finish() does so once, and the next number is then at least the expected one.
  pub run_controller-IsEnded :
      (rounds fuel : ℕ) (w w' : World) (code : ℤ)
      → run_controller o s rounds fuel w ≡ some (code, w')
      → (finish_codes w'.history ≡ finish_codes w.history)
        ⊎ ((finish_codes w'.history ≡ code ∷ finish_codes w.history) × IsEnded code w')
  unfolding run_controller
  run_controller-IsEnded rounds fuel w w' code e =
      let (next, v, p, q) = >>=-eq-some (main_loop o s rounds fuel 5000) _ w w' code e in
      let (d, v', p', q') = >>=-eq-some (decide_exit o s fuel next) _ v w' code q in
      let (earned, same) =
        decide_exit-Earned fuel next v v' d p'
          ((main_loop-NotDone o s rounds fuel 5000).at w v next p) in
      let before = same ∙ (finishes-main_loop o s rounds fuel 5000).at w v next p in
      subst
        (λ x.
          (finish_codes w'.history ≡ x) ⊎ ((finish_codes w'.history ≡ code ∷ x) × IsEnded code w'))
        before (finish-IsEnded d code v' w' q' earned)
