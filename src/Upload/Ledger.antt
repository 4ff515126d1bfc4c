-- ===== src/Upload/Ledger.antt =====
-- What the outside can tell of the upload operations: the uploads submitted, the critical sections,
-- and the state of the task but for its child. The waits of src/upload_manager.cpp leave it alone.
use cpdn_control.Prelude.{
  ℕ, zero, suc, ◌≡◌, refl, sym, if◌then◌else◌, Bool, true, false, some, List, [], ◌∷◌, ℤ,
}
use cpdn_control.Text.{Bytes}
use mathlib.Core.Path.{subst}
use cpdn_control.World.{
  ChildProcessHandle, TaskState, FilePath, Event, began_critical_section, ended_critical_section,
  submitted, finished, removed, slept, History, Outside, World, M, ◌>>=◌, ◌>>◌, pure, emit,
  get_status, boinc_get_status,
}
use cpdn_control.World.Leaves.{
  Leaves, IsBlind, IsQuiet, >>=-eq-some, with_history, Leaves-bind, Leaves-emit,
}
use cpdn_control.Child.Quiet.{
  leaves_rules, Leaves-sleep_with_boinc_poll, Leaves-apply_boinc_suspend_resume,
}
use cpdn_control.Upload.{
  UploadManager, move_result_file, delete_files, zip_and_delete, create_upload_placeholder_file,
  move_files, move_copyable_output_files, collect_upload_output_files,
  ensure_nonempty_upload_payload, add_final_log_files,
}
use cpdn_control.Upload.Send.{wait_suspended_out, wait_before_upload}

-- The names submitted, the latest first.
abbrev pub submitted_names : History → List Bytes
submitted_names [] = []
submitted_names (submitted name ∷ h) = name ∷ submitted_names h
submitted_names (_ ∷ h) = submitted_names h

abbrev pub sections_begun : History → ℕ
sections_begun [] = 0
sections_begun (began_critical_section ∷ h) = suc (sections_begun h)
sections_begun (_ ∷ h) = sections_begun h

abbrev pub sections_ended : History → ℕ
sections_ended [] = 0
sections_ended (ended_critical_section ∷ h) = suc (sections_ended h)
sections_ended (_ ∷ h) = sections_ended h

abbrev no_child : ChildProcessHandle
no_child = record {
  process_id = 0;
  native_process_handle = 0;
  native_job_handle = 0;
  suspended = false;
  termination_requested = false;
}

-- The exit codes that boinc_finish() was called with.
abbrev pub finish_codes : History → List ℤ
finish_codes [] = []
finish_codes (finished code ∷ h) = code ∷ finish_codes h
finish_codes (_ ∷ h) = finish_codes h

-- `task` is the task's state with its child struck out.
pub record Ledger : Type 0 where
  pub names : List Bytes
  pub begun : ℕ
  pub ended : ℕ
  pub finishes : List ℤ
  pub task : TaskState

abbrev pub ledger : World → Ledger
ledger w = record {
  names = submitted_names w.history;
  begun = sections_begun w.history;
  ended = sections_ended w.history;
  finishes = finish_codes w.history;
  task = record w.task { child_process = no_child };
}

ledger-quiet :
    (e : Event) (w : World) → IsQuiet e → ledger (with_history w (e ∷ w.history)) ≡ ledger w
ledger-quiet began_critical_section w q = elim q [ ]
ledger-quiet ended_critical_section w q = elim q [ ]
ledger-quiet (submitted name) w q = elim q [ ]
ledger-quiet (finished code) w q = elim q [ ]
ledger-quiet _ w q = refl

pub ledger-IsBlind : IsBlind ledger
ledger-IsBlind = record { quiet = ledger-quiet; status = λ s w. refl; child = λ c w. refl }

module _ {X : Type 0} {f : World → X} (blind : IsBlind f) (o : Outside) where
  Leaves-move_result_file : (name : Bytes) → Leaves f (move_result_file o name)
  unfolding move_result_file
  Leaves-move_result_file name = search (leaves_rules, blind) depth 14

  Leaves-delete_files : (fs : List FilePath) → Leaves f (delete_files o fs)
  unfolding delete_files
  Leaves-delete_files [] = search leaves_rules
  Leaves-delete_files (g ∷ gs) =
      Leaves-bind _ _ (Leaves-emit blind (removed g) tt) λ x. Leaves-delete_files gs

  pub Leaves-zip_and_delete :
      (archive : Bytes) (fs : List FilePath) → Leaves f (zip_and_delete o archive fs)
  unfolding zip_and_delete
  Leaves-zip_and_delete archive fs = search (leaves_rules, blind, Leaves-delete_files) depth 12

  module _ (u : UploadManager) where
    Leaves-move_files : (names : List Bytes) → Leaves f (move_files o u names)
    unfolding move_files
    Leaves-move_files [] = search leaves_rules
    Leaves-move_files (n ∷ ns) =
        Leaves-bind _ _ (Leaves-move_result_file n) λ x. Leaves-move_files ns

    pub Leaves-move_copyable_output_files :
        (step : ℤ) → Leaves f (move_copyable_output_files o u step)
    unfolding move_copyable_output_files
    Leaves-move_copyable_output_files step = Leaves-move_files _

    pub Leaves-collect_upload_output_files :
        (out : List FilePath) → Leaves f (collect_upload_output_files o u out)
    unfolding collect_upload_output_files
    Leaves-collect_upload_output_files out = search (leaves_rules, blind)

    pub Leaves-ensure_nonempty_upload_payload :
        (number step : ℤ) (reason : Bytes) (fs : List FilePath)
        → Leaves f (ensure_nonempty_upload_payload o u number step reason fs)
    unfolding ensure_nonempty_upload_payload create_upload_placeholder_file
    Leaves-ensure_nonempty_upload_payload number step reason [] =
        search (leaves_rules, blind) depth 12
    Leaves-ensure_nonempty_upload_payload number step reason (g ∷ gs) = search leaves_rules

    pub Leaves-add_final_log_files :
        (names : List Bytes) (out : List FilePath) → Leaves f (add_final_log_files o u names out)
    unfolding add_final_log_files
    Leaves-add_final_log_files [] out = search leaves_rules
    Leaves-add_final_log_files (n ∷ ns) out =
        search (leaves_rules, blind, Leaves-add_final_log_files ns) depth 12

    Leaves-wait_again :
        (again : M (Unit {0}))
        → Leaves f again
        → Leaves f (
            get_status >>= λ status.
            if status.suspended
            then (emit (slept 1000) >> (boinc_get_status o >> again))
            else pure tt)
    Leaves-wait_again again l = search (leaves_rules, blind) depth 12

    Leaves-wait_suspended_out : (fuel : ℕ) → Leaves f (wait_suspended_out o u fuel)
    unfolding wait_suspended_out
    Leaves-wait_suspended_out zero = record { at = λ w w' a e. cc }
    Leaves-wait_suspended_out (suc fuel) =
        Leaves-wait_again (wait_suspended_out o u fuel) (Leaves-wait_suspended_out fuel)

    pub Leaves-wait_before_upload :
        (fuel : ℕ) (allow : Bool) → Leaves f (wait_before_upload o u fuel allow)
    unfolding wait_before_upload
    Leaves-wait_before_upload fuel allow =
        search
          (
            leaves_rules, blind, Leaves-sleep_with_boinc_poll, Leaves-apply_boinc_suspend_resume,
            Leaves-wait_suspended_out,
          )
          depth 14

-- Wherever `m` ends, its answer and the worlds before and after, seen by `f`, are related.
pub record Gives {A X : Type 0} (f : World → X) (R : A → X → X → Type 0) (m : M A) : Type 0 where
  pub at : (w w' : World) (a : A) → m w ≡ some (a, w') → R a (f w) (f w')

module _ {A X : Type 0} {f : World → X} {R : A → X → X → Type 0} where
  pub Gives-after :
      {B : Type 0} (m : M B) (k : B → M A)
      → Leaves f m
      → ((b : B) → Gives f R (k b))
      → Gives f R (m >>= k)
  Gives-after m k l g = record {
    at = λ w w' a e.
        let (b, v, p, q) = >>=-eq-some m k w w' a e in
        subst (λ x. R a x (f w')) (l.at w v b p) ((g b).at v w' a q);
  }

  pub Gives-if :
      (b : Bool) (m n : M A)
      → (b ≡ true → Gives f R m)
      → (b ≡ false → Gives f R n)
      → Gives f R (if b then m else n)
  Gives-if true m n g h = g refl
  Gives-if false m n g h = h refl

  pub Gives-Leaves : (m : M A) → Leaves f m → ((a : A) (x : X) → R a x x) → Gives f R m
  Gives-Leaves m l r = record {
    at = λ w w' a e. subst (λ x. R a (f w) x) (sym (l.at w w' a e)) (r a (f w));
  }

  pub Gives-pure : (a : A) → ((x : X) → R a x x) → Gives f R (pure a)
  Gives-pure a r = record {
    at = λ w w' b e.
        let p : (a ≡ b) = cc in
        let q : (w ≡ w') = cc in
        subst (λ b. R b (f w) (f w')) p (subst (λ v. R a (f w) (f v)) q (r (f w)));
  }

  pub Gives-weaken :
      {S : A → X → X → Type 0} {m : M A}
      → ((a : A) (x y : X) → R a x y → S a x y)
      → Gives f R m
      → Gives f S m
  Gives-weaken c g = record { at = λ w w' a e. c a (f w) (f w') (g.at w w' a e) }

  pub Gives-then :
      {B : Type 0} (S : A → B → X → X → Type 0) {U : B → X → X → Type 0} (m : M A) (k : A → M B)
      → Gives f R m
      → ((a : A) → Gives f (S a) (k a))
      → ((a : A) (b : B) (x y z : X) → R a x y → S a b y z → U b x z)
      → Gives f U (m >>= k)
  Gives-then S m k g h c = record {
    at = λ w w' b e.
        let (a, v, p, q) = >>=-eq-some m k w w' b e in
        c a b (f w) (f v) (f w') (g.at w v a p) ((h a).at v w' b q);
  }
