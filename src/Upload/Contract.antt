-- ===== src/Upload/Contract.antt =====
-- What `process_scheduled_upload` and `finalize_remaining_uploads` promise the client
-- (src/upload_manager.cpp), stated on the ledger.
use cpdn_control.Prelude.{
  ℕ, ◌≡◌, refl, sym, ap, ◌∙◌, ◌⊎◌, inl, inr, Bool, true, false, ◌&&◌, some, List, [], ℤ, pos, ◌+ℤ◌,
  ltb_ℤ, leb_ℤ, arith, +ℤ_parts, -ℤ_parts, if◌then◌else◌,
}
use mathlib.Core.Path.{subst}
use cpdn_control.World.{
  TaskState, FilePath, began_critical_section, Outside, World, ◌>>=◌, ◌>>◌, pure, emit, get_task,
}
use cpdn_control.Upload.{UploadManager, UploadOperationResult, succeeded, uploads_enabled}
use cpdn_control.Upload.Process.{
  sent_scheduled, leave_with, send_one, scheduled_reason, mark_scheduled, is_upload_due,
  send_scheduled, process_scheduled_upload,
}
use cpdn_control.Upload.Ledger.{
  Ledger, ledger, ledger-IsBlind, Gives, Gives-after, Gives-weaken,
  Leaves-collect_upload_output_files,
}
use cpdn_control.Upload.Delivery.{
  handed_over, left, entered, Abandoned, OneThen, ended_in, gave, leave_with-Gives,
  mark_scheduled-Gives, send_one-Gives,
}

-- What a scheduled upload may do where it is due.
pub data IsScheduled (u : UploadManager) (observed_step : ℤ) (l : Ledger)
    : UploadOperationResult → Ledger → Type 0 where
  -- The upload was handed over, or made ready in a standalone run; the state moves on to the next.
  sent :
      (l' : Ledger)
      → l' ≡ handed_over u l.task.upload_file_number (entered l)
      → IsScheduled u observed_step l succeeded (
          left (record l' {
            task = record l.task {
              last_upload_step = observed_step;
              upload_file_number = l.task.upload_file_number +ℤ pos 1;
            };
          }))
  -- It was not, and the state is as before.
  given_up :
      (r : UploadOperationResult) (l' : Ledger)
      → r.ok ≡ false
      → Abandoned l.task.upload_file_number (entered l) l'
      → IsScheduled u observed_step l r (left l')

-- What goes on in its critical section.
abbrev Scheduling : UploadManager → ℤ → ℤ → UploadOperationResult → Ledger → Ledger → Type 0
Scheduling u number observed_step r l l' =
    OneThen u number
      (λ r v l'.
        (r ≡ succeeded) × (l' ≡ left (record v { task = sent_scheduled observed_step v.task })))
      r l l'
    ⊎ (r.ok ≡ false) × (l' ≡ left l)

handed_over-task :
    (u : UploadManager) (number : ℤ) (l v : Ledger) → v ≡ handed_over u number l → v.task ≡ l.task
handed_over-task u number l v e = ground arith

Scheduling-IsScheduled :
    (u : UploadManager) (observed_step : ℤ) (r : UploadOperationResult) (l l' : Ledger)
    → Scheduling u l.task.upload_file_number observed_step r (entered l) l'
    → IsScheduled u observed_step l r l'
Scheduling-IsScheduled u s r l l' (inl (inl (v, p, (q, e)))) =
    subst (λ r. IsScheduled u s l r l') (sym q)
      (subst (IsScheduled u s l succeeded)
        (ap (λ t. left (record v { task = sent_scheduled s t })) (sym (handed_over-task u _ _ v p))
          ∙ sym e)
        (sent v p))
Scheduling-IsScheduled u s r l l' (inl (inr (q, v, e, a))) =
    subst (IsScheduled u s l r) (sym e) (given_up r v q a)
Scheduling-IsScheduled u s r l l' (inr (q, e)) =
    subst (IsScheduled u s l r) (sym e) (given_up r (entered l) q (inl refl))

module _ (o : Outside) (u : UploadManager) where
  send_scheduled-Gives :
      (fuel : ℕ) (number observed_step : ℤ)
      → Gives ledger
          (Scheduling u number observed_step)
          (send_scheduled o u fuel number observed_step)
  unfolding send_scheduled
  send_scheduled-Gives fuel number observed_step =
      Gives-after _ _ (Leaves-collect_upload_output_files ledger-IsBlind o u [])
        λ collected. go collected.1 collected.0 collected.0.ok refl
    where
      go :
          (files : List FilePath) (c : UploadOperationResult) (ok : Bool)
          → c.ok ≡ ok
          → Gives ledger (Scheduling u number observed_step) (
              if ok
              then send_one o u fuel number observed_step scheduled_reason files true
                  (mark_scheduled o u observed_step)
              else leave_with o u c)
      go files c true e =
          Gives-weaken (λ a x y. inl)
            (send_one-Gives o u fuel number observed_step scheduled_reason files true _ _
              (mark_scheduled-Gives o u observed_step))
      go files c false e =
          Gives-weaken (λ a x y q. inr (ap (λ (r : UploadOperationResult). r.ok) q.0 ∙ e, q.1))
            (leave_with-Gives o u c)

  -- When an upload is due.
  abbrev pub is_due : ℤ → ℤ → Bool
  is_due observed_step last_upload_step =
      ltb_ℤ (pos 0) u.upload_interval
      && (leb_ℤ (last_upload_step +ℤ u.upload_interval) observed_step
          && ltb_ℤ observed_step u.total_steps)

  is_upload_due-eq :
      (t : TaskState) (observed_step : ℤ)
      → is_upload_due o u t observed_step ≡ is_due observed_step t.last_upload_step
  unfolding is_upload_due uploads_enabled
  is_upload_due-eq t observed_step = ground (
    arith,
    +ℤ_parts t.last_upload_step u.upload_interval,
    -ℤ_parts observed_step t.last_upload_step,
  )

  -- An upload is due where the upload interval is positive, at least an interval of steps was made
  -- since the last upload, and the observed step is before the last step.
  -- Where it is not due, nothing is done. Where it is due, the critical section is entered and left
  -- once. If the answer is success, a run under the client has submitted the upload of the next
  -- number, once, and a standalone run has submitted nothing; the observed step is then recorded as
  -- that of the last upload, and the next number is one more. If it is a failure, whatever failed,
  -- the task's state is as before, but for the child, and the upload was submitted once at most.
  pub process_scheduled_upload-IsScheduled :
      (fuel : ℕ) (observed_step : ℤ) (w w' : World) (r : UploadOperationResult)
      → process_scheduled_upload o u fuel observed_step w ≡ some (r, w')
      → if is_due observed_step w.task.last_upload_step
        then IsScheduled u observed_step (ledger w) r (ledger w')
        else ((r ≡ succeeded) × (w' ≡ w))
  unfolding process_scheduled_upload ◌>>=◌ get_task emit
  process_scheduled_upload-IsScheduled fuel observed_step w w' r e =
      subst
        (λ due.
          if due
          then IsScheduled u observed_step (ledger w) r (ledger w')
          else ((r ≡ succeeded) × (w' ≡ w)))
        (is_upload_due-eq w.task observed_step) (go (is_upload_due o u w.task observed_step) e)
    where
      go :
          (due : Bool)
          → (if due
                then emit began_critical_section
                  >> send_scheduled o u fuel w.task.upload_file_number observed_step
                else pure succeeded)
              w
            ≡ some (r, w')
          → if due
            then IsScheduled u observed_step (ledger w) r (ledger w')
            else ((r ≡ succeeded) × (w' ≡ w))
      go true e =
          Scheduling-IsScheduled u observed_step r (ledger w) (ledger w')
            ((send_scheduled-Gives fuel w.task.upload_file_number observed_step).at _ w' r e)
      go false e = (sym (gave e), sym (ended_in e))
