-- ===== src/Controller/Finish.antt =====
-- What a decision of completion says of the run before it (src/cpdn_main.cpp).
use cpdn_control.Prelude.{
  ℕ, ◌≡◌, refl, sym, ap, ◌∙◌, true, Option, none, some, pos, ◌≤ℤ◌, if◌then◌else◌,
}
use mathlib.Core.Path.{subst}
use cpdn_control.World.{Outside, ◌>>=◌, pure, get_task}
use cpdn_control.World.Leaves.{Leaves-get_task}
use cpdn_control.Upload.{UploadOperationResult, uploads_enabled, expected_upload_file_count}
use cpdn_control.Upload.Ledger.{Gives, Gives-after, Gives-then, Gives-pure, Gives-if, Gives-weaken}
use cpdn_control.Upload.Delivery.{ended_in, gave}
use cpdn_control.Exit.{
  ExitDecision, make_completion_exit_decision, make_immediate_exit_decision, upload_failed,
}
use cpdn_control.Controller.{Setup, complete, upload_and_complete, unless_leaving, finish_run}
use cpdn_control.Controller.Completion.{is_completion, NotDone}
use cpdn_control.Controller.Ending.{
  Ending, ending, ending-final_trickle, ending-cleanup_upload_dir, Waited, wait-Waited,
  mark_completed-Gives, check_success-Gives, Uploaded, finalize-Uploaded,
}

module _ (o : Outside) (s : Setup) where
  -- A task that is completed: its flag is set, its code says whether the model succeeded, and every
  -- upload that the client expects was sent.
  abbrev pub IsDone : ExitDecision → Ending → Type 0
  IsDone d y =
      (y.completed ≡ pos 1)
      × (d.exit_code ≡ (if y.success then pos 0 else pos 1))
      × (uploads_enabled s.manager ≡ true
          → expected_upload_file_count s.manager.total_steps s.manager.upload_interval ≤ℤ y.number)

  -- A decision of completion leaves the ending alone.
  abbrev Completes : ExitDecision → Ending → Ending → Type 0
  Completes d x y =
      is_completion d.route ≡ true → (y ≡ x) × (d.exit_code ≡ (if x.success then pos 0 else pos 1))

  abbrev AfterWait : Option ExitDecision → ExitDecision → Ending → Ending → Type 0
  AfterWait none d x y = Completes d x y
  AfterWait (some d') d x y = d' ≡ d

  completes :
      (waited : Option ExitDecision)
      → Gives ending (AfterWait waited) (
          get_task >>= λ t.
          pure (elim waited [ none ↦ make_completion_exit_decision t.model_success | some d ↦ d ]))
  unfolding ◌>>=◌ get_task
  completes none = record {
    at = λ w w' d e q.
        (ap ending (sym (ended_in e)), ap (λ (d : ExitDecision). d.exit_code) (sym (gave e)));
  }
  completes (some d) = record { at = λ w w' d' e. gave e }

  pub not_done : (d d' : ExitDecision) → d ≡ d' → NotDone d → is_completion d'.route ≡ true → ⊥
  not_done d d' e n q = let p = ap (λ (d : ExitDecision). is_completion d.route) e in cc

  after_wait :
      (waited : Option ExitDecision) (d : ExitDecision) (x y z : Ending)
      → Waited o s waited x y
      → AfterWait waited d y z
      → Completes d x z
  after_wait none d x y z e h q =
      let (a, b) = h q in (a ∙ e, b ∙ ap (λ (x : Ending). if x.success then pos 0 else pos 1) e)
  after_wait (some d') d x y z n h q = absurd (not_done d' d h n q)

  complete-Completes : (fuel : ℕ) → Gives ending Completes (complete o s fuel)
  unfolding complete
  complete-Completes fuel = Gives-after _ _ (ending-final_trickle o s) λ a.
      Gives-after _ _ (ending-cleanup_upload_dir o s)
        λ b. Gives-then AfterWait _ _ (wait-Waited o s fuel 30000) completes after_wait

  -- Where the decision is a completion, the flag is as before, and the rest is done.
  abbrev Concludes : ExitDecision → Ending → Ending → Type 0
  Concludes d x y =
      is_completion d.route ≡ true
      → (y.completed ≡ x.completed)
        × (d.exit_code ≡ (if y.success then pos 0 else pos 1))
        × (uploads_enabled s.manager ≡ true
            → expected_upload_file_count s.manager.total_steps s.manager.upload_interval
              ≤ℤ y.number)

  abbrev AfterUploads : UploadOperationResult → ExitDecision → Ending → Ending → Type 0
  AfterUploads r d x y = is_completion d.route ≡ true → (r.ok ≡ true) × Completes d x y

  after_uploads :
      (final : UploadOperationResult) (d : ExitDecision) (x y z : Ending)
      → Uploaded o s final x y
      → AfterUploads final d y z
      → Concludes d x z
  after_uploads final d x y z (a, b) h q =
      let (ok, c) = h q in
      let (p, code) = c q in
      (
        ap (λ (x : Ending). x.completed) p ∙ a,
        code ∙ ap (λ (x : Ending). if x.success then pos 0 else pos 1) (sym p),
        λ on.
            subst
              (λ n. expected_upload_file_count s.manager.total_steps s.manager.upload_interval ≤ℤ n)
              (ap (λ (x : Ending). x.number) (sym p)) (b ok on),
      )

  rest_of_uploads :
      (fuel : ℕ) (final : UploadOperationResult)
      → Gives ending (AfterUploads final) (
          if final.ok
          then complete o s fuel
          else pure (make_immediate_exit_decision upload_failed final.finish_code))
  rest_of_uploads fuel final =
      Gives-if final.ok _ _ (λ ok. Gives-weaken (λ d x y c q. (ok, c)) (complete-Completes fuel))
        λ no. Gives-pure _ λ x q. absurd cc

  upload_and_complete-Concludes : (fuel : ℕ) → Gives ending Concludes (upload_and_complete o s fuel)
  unfolding upload_and_complete
  upload_and_complete-Concludes fuel =
      Gives-then (λ a. Concludes) _ _ (check_success-Gives o s)
        (λ a. Gives-after _ _ Leaves-get_task λ t.
          Gives-then AfterUploads _ _ (finalize-Uploaded o s fuel t.last_completed_step true true)
            (rest_of_uploads fuel) after_uploads)
        (λ a d x y z c h q. let (p, code, n) = h q in (p ∙ c, code, n))

  abbrev AfterPause : Option ExitDecision → ExitDecision → Ending → Ending → Type 0
  AfterPause none d x y = Concludes d x y
  AfterPause (some d') d x y = d' ≡ d

  unless_leaving-Gives :
      (fuel : ℕ) (waited : Option ExitDecision)
      → Gives ending (AfterPause waited) (unless_leaving o s waited (upload_and_complete o s fuel))
  unfolding unless_leaving
  unless_leaving-Gives fuel none = upload_and_complete-Concludes fuel
  unless_leaving-Gives fuel (some d) = Gives-pure d λ x. refl

  after_pause :
      (waited : Option ExitDecision) (d : ExitDecision) (x y z : Ending)
      → Waited o s waited x y
      → AfterPause waited d y z
      → Concludes d x z
  after_pause none d x y z e h q =
      let (p, r, n) = h q in (p ∙ ap (λ (x : Ending). x.completed) e, r, n)
  after_pause (some d') d x y z n h q = absurd (not_done d' d h n q)

  pub finish_run-IsDone :
      (fuel : ℕ)
      → Gives ending (λ d x y. is_completion d.route ≡ true → IsDone d y) (finish_run o s fuel)
  unfolding finish_run
  finish_run-IsDone fuel =
      Gives-then (λ a. Concludes) _ _ (mark_completed-Gives o s)
        (λ a.
          Gives-then AfterPause _ _ (wait-Waited o s fuel 30000) (unless_leaving-Gives fuel)
            after_pause)
        (λ a d x y z c h q. let (p, code, n) = h q in (p ∙ c, code, n))
