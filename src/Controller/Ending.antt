-- ===== src/Controller/Ending.antt =====
-- What the waits, the trickle and the final uploads behind the main loop (src/cpdn_main.cpp) do to
-- the fields that the end of the task is judged by.
use cpdn_control.Prelude.{
  ℕ, ◌+◌, ltb, eqb_ℤ, ◌+ℤ◌, Bool-cases, ◌≡◌, refl, sym, ap, ◌∙◌, inl, inr, Bool, true, false,
  Option, none, some, ◌∷◌, ℤ, pos, ◌≤ℤ◌, if◌then◌else◌,
}
use mathlib.Core.Path.{subst}
use cpdn_control.Text.{Bytes}
use cpdn_control.World.{
  read_cpu_time, read_trickle_data, Outside, World, M, ◌>>=◌, pure, get_task, put_task, emit, call,
}
use cpdn_control.World.Leaves.{Leaves, IsBlind, Leaves-bind, Leaves-get_task, Leaves-call}
use cpdn_control.Child.Quiet.{
  leaves_rules, Leaves-sleep_with_boinc_poll, Leaves-apply_boinc_suspend_resume,
}
use cpdn_control.Upload.{
  UploadOperationResult, uploads_enabled, expected_upload_file_count, cleanup_upload_dir,
}
use cpdn_control.Upload.Process.{finalize_remaining_uploads, upload_rounds}
use cpdn_control.Upload.Ledger.{ledger, Gives, Gives-after, Gives-pure, Gives-if, Gives-weaken}
use cpdn_control.Upload.Delivery.{ended_in, entered}
use cpdn_control.Upload.Finalized.{IsFinalized-kept}
use cpdn_control.Upload.Final.{
  finalize_remaining_uploads-IsFinalized, finalize_remaining_uploads-disabled, upload_rounds-total,
  expected-total,
}
use cpdn_control.Trickle.{process_trickle, send_message}
use cpdn_control.Exit.{ExitDecision, wait_for_boinc_exit}
use cpdn_control.Controller.{
  Setup, refresh_current_cpu_time, send_trickle, final_trickle, mark_completed, check_success,
}
use cpdn_control.Controller.Completion.{NotDone, IsExit, Returns, exit_or_recover-IsExit}

-- What the end of the task is judged by.
pub record Ending : Type 0 where
  pub completed : ℤ
  pub success : Bool
  pub number : ℤ

abbrev pub ending : World → Ending
ending w = record {
  completed = w.task.model_completed;
  success = w.task.model_success;
  number = w.task.upload_file_number;
}

pub ending-IsBlind : IsBlind ending
ending-IsBlind = record { quiet = λ e w q. refl; status = λ s w. refl; child = λ c w. refl }

pub Gives-Returns :
    {A X : Type 0} {f : World → X} {P : A → Type 0} {m : M A}
    → Returns P m
    → Gives f (λ a x y. P a) m
Gives-Returns r = record { at = r.at }

module _ (o : Outside) (s : Setup) where
  ending-refresh_current_cpu_time : Leaves ending (refresh_current_cpu_time o s)
  unfolding refresh_current_cpu_time ◌>>=◌ get_task call put_task
  ending-refresh_current_cpu_time = record {
    at = λ w w' a e.
        let child_cpu_time = o.cpu_time w.history w.task.child_process.process_id in
        set_time w w' a child_cpu_time (ltb 0 child_cpu_time) e;
  }
    where
      set_time :
          (w w' : World) (a : Unit {0}) (time : ℕ) (there : Bool)
          → (if there
                then put_task
                    (record w.task { current_cpu_time = w.task.prior_acc_cpu_time + time })
                else pure tt)
              (record w { history = read_cpu_time w.task.child_process.process_id ∷ w.history })
            ≡ some (a, w')
          → ending w' ≡ ending w
      set_time w w' a time true e = ap ending (sym (ended_in e))
      set_time w w' a time false e = ap ending (sym (ended_in e))

  ending-send_message :
      (variety : Bytes) (message : Option Bytes) → Leaves ending (send_message o variety message)
  unfolding send_message
  ending-send_message variety none = search leaves_rules
  ending-send_message variety (some m) = search (leaves_rules, ending-IsBlind) depth 12

  ending-mark_trickle :
      (step : ℤ) (sent : Bool)
      → Leaves ending (
          get_task >>= λ t.
          if sent then put_task (record t { last_trickle_step = step }) else pure tt)
  unfolding ◌>>=◌ get_task put_task
  ending-mark_trickle step true = record { at = λ w w' a e. ap ending (sym (ended_in e)) }
  ending-mark_trickle step false = record { at = λ w w' a e. ap ending (sym (ended_in e)) }

  ending-send_trickle : (step : ℤ) → Leaves ending (send_trickle o s step)
  unfolding send_trickle process_trickle
  ending-send_trickle step = Leaves-bind _ _ Leaves-get_task λ t.
      Leaves-bind _ _ (Leaves-call ending-IsBlind _ read_trickle_data tt) λ trickle_data.
        Leaves-bind _ _ (ending-send_message _ _)
          λ retval. ending-mark_trickle step (eqb_ℤ retval (pos 0))

  pub ending-final_trickle : Leaves ending (final_trickle o s)
  unfolding final_trickle
  ending-final_trickle =
      search (leaves_rules, ending-refresh_current_cpu_time, ending-send_trickle) depth 12

  pub ending-cleanup_upload_dir : Leaves ending (cleanup_upload_dir o s.manager)
  unfolding cleanup_upload_dir
  ending-cleanup_upload_dir = search (leaves_rules, ending-IsBlind)

  -- A wait after which the program goes on.
  abbrev pub Waited : Option ExitDecision → Ending → Ending → Type 0
  Waited none x y = y ≡ x
  Waited (some d) x y = NotDone d

  exit-Waited : (d : Option ExitDecision) (x y : Ending) → IsExit d → Waited d x y
  exit-Waited none x y h = elim h [ ]
  exit-Waited (some d) x y h = h

  pub wait-Waited :
      (fuel wait : ℕ) → Gives ending Waited (wait_for_boinc_exit o s.manager fuel wait)
  unfolding wait_for_boinc_exit
  wait-Waited fuel wait =
      Gives-after _ _ (Leaves-sleep_with_boinc_poll ending-IsBlind o fuel s.manager.standalone wait)
        λ undisturbed.
          Gives-if undisturbed _ _ (λ e. Gives-pure none λ x. refl)
            λ e.
              Gives-after _ _ (Leaves-apply_boinc_suspend_resume ending-IsBlind o fuel) λ resumed.
                Gives-if resumed _ _ (λ e. Gives-pure none λ x. refl)
                  λ e.
                    Gives-weaken exit-Waited
                      (Gives-Returns (exit_or_recover-IsExit o s.manager fuel))

  pub mark_completed-Gives : Gives ending (λ a x y. y.completed ≡ pos 1) (mark_completed o s)
  unfolding mark_completed ◌>>=◌ emit get_task put_task
  mark_completed-Gives = record {
    at = λ w w' a e. ap (λ (w : World). w.task.model_completed) (sym (ended_in e));
  }

  pub check_success-Gives : Gives ending (λ a x y. y.completed ≡ x.completed) (check_success o s)
  unfolding check_success ◌>>=◌ call get_task put_task
  check_success-Gives = record {
    at = λ w w' a e. ap (λ (w : World). w.task.model_completed) (sym (ended_in e));
  }

  -- What the final uploads make of it, where they succeed.
  abbrev pub Uploaded : UploadOperationResult → Ending → Ending → Type 0
  Uploaded r x y =
      (y.completed ≡ x.completed)
      × (r.ok ≡ true
          → uploads_enabled s.manager ≡ true
          → expected_upload_file_count s.manager.total_steps s.manager.upload_interval ≤ℤ y.number)

  pub finalize-Uploaded :
      (fuel : ℕ) (step : ℤ) (logs allow : Bool)
      → Gives ending Uploaded (finalize_remaining_uploads o s.manager fuel step logs allow)
  finalize-Uploaded fuel step logs allow = record {
    at = λ w w' r e. elim (Bool-cases (uploads_enabled s.manager)) [
      | inl on ↦ uploaded w w' r (
          IsFinalized-kept s.manager _ w.task.upload_file_number r (entered (ledger w)) (ledger w')
            (finalize_remaining_uploads-IsFinalized o s.manager fuel step logs allow w w' r e on)
            refl)
      | inr off ↦
          let p =
            finalize_remaining_uploads-disabled o s.manager fuel step logs allow w w' r e off in
          (ap (λ (w : World). w.task.model_completed) (sym p), λ ok on. absurd cc)
    ];
  }
    where
      uploaded :
          (w w' : World) (r : UploadOperationResult)
          → (w'.task.model_completed ≡ w.task.model_completed)
            × (w'.task.model_success ≡ w.task.model_success)
            × (r.ok ≡ true
                → w'.task.upload_file_number
                  ≡ w.task.upload_file_number
                    +ℤ pos (upload_rounds o s.manager w.task.upload_file_number))
          → Uploaded r (ending w) (ending w')
      uploaded w w' r (a, b, c) = (
        a,
        λ ok on.
            subst
              (λ n. expected_upload_file_count s.manager.total_steps s.manager.upload_interval ≤ℤ n)
              (sym (c ok ∙ upload_rounds-total o s.manager w.task.upload_file_number))
              (expected-total o s.manager w.task.upload_file_number),
      )
