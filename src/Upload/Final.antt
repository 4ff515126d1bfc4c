-- ===== src/Upload/Final.antt =====
-- What `finalize_remaining_uploads` promises the client (src/upload_manager.cpp), stated on the
-- ledger.
use cpdn_control.Prelude.{
  ℕ, zero, suc, ◌≡◌, refl, ◌∙◌, Bool, true, false, some, List, ℤ, pos, ◌+ℤ◌, ◌≤ℤ◌, +ℤ_parts, +ℤ--ℤ,
  ◌<◌, arith, if◌then◌else◌,
}
use cpdn_control.World.{
  FilePath, began_critical_section, Outside, World, M, ◌>>=◌, ◌>>◌, pure, emit, get_task, put_task,
}
use cpdn_control.World.Leaves.{Leaves, Leaves-pure, Leaves-bind, Leaves-if}
use cpdn_control.Upload.{
  UploadManager, UploadOperationResult, succeeded, uploads_enabled, expected_upload_file_count,
}
use cpdn_control.Upload.Process.{
  sent_final, gather_final, upload_rounds, finalize_from, mark_final, finalize_uploads,
  total_upload_count, finalize_remaining_uploads,
}
use cpdn_control.Upload.Ledger.{
  Ledger, ledger, submitted_names, sections_begun, sections_ended, ledger-IsBlind, Gives,
  Gives-after, Leaves-collect_upload_output_files, Leaves-move_copyable_output_files,
  Leaves-add_final_log_files,
}
use cpdn_control.Upload.Delivery.{entered, ended_in, leave_with-Gives, send_one-Gives}
use cpdn_control.Upload.Finalized.{
  IsFinalized, names_from, IsStoppedAt, IsFinalized-ok, IsFinalized-stopped, IsFinalized-sections,
}

module _ (o : Outside) (u : UploadManager) where
  mark_final-Gives :
      (index : ℤ) (rest : M UploadOperationResult)
      (R : UploadOperationResult → Ledger → Ledger → Type 0)
      → Gives ledger R rest
      → Gives ledger
          (λ r v l'. R r (record v { task = sent_final index v.task }) l')
          (mark_final o u index rest)
  unfolding ◌>>=◌ get_task put_task
  mark_final-Gives index rest R g = record { at = λ w w' a e. g.at _ w' a e }

  finalize_uploads-Gives :
      (fuel : ℕ) (step : ℤ) (allow : Bool) (files : List FilePath) (start : ℤ) (rounds : ℕ)
      (index : ℤ)
      → Gives ledger
          (IsFinalized u rounds index)
          (finalize_uploads o u fuel step allow files start rounds index)
  unfolding finalize_uploads
  finalize_uploads-Gives fuel step allow files start zero index = leave_with-Gives o u succeeded
  finalize_uploads-Gives fuel step allow files start (suc rounds) index =
      send_one-Gives o u fuel index step _ _ allow _ _ (
        mark_final-Gives index _ _
          (finalize_uploads-Gives fuel step allow files start rounds (index +ℤ pos 1)))

  gather_final-Leaves : (step : ℤ) (logs : Bool) → Leaves ledger (gather_final o u step logs)
  unfolding gather_final
  gather_final-Leaves step logs =
      search
        (
          Leaves-bind, Leaves-pure, Leaves-if, ledger-IsBlind, Leaves-move_copyable_output_files,
          Leaves-add_final_log_files, Leaves-collect_upload_output_files,
        )
        depth 12

  abbrev pub FinalizedFrom : UploadOperationResult → Ledger → Ledger → Type 0
  FinalizedFrom r l l' =
      IsFinalized u (upload_rounds o u l.task.upload_file_number) l.task.upload_file_number r l l'

  finalize_from-Gives :
      (fuel : ℕ) (step : ℤ) (allow : Bool) (files : List FilePath)
      → Gives ledger FinalizedFrom (finalize_from o u fuel step allow files)
  unfolding finalize_from ◌>>=◌ get_task
  finalize_from-Gives fuel step allow files = record {
    at = λ w w' r e.
        let start = w.task.upload_file_number in
        (finalize_uploads-Gives fuel step allow files start (upload_rounds o u start) start).at w w'
          r e;
  }

  pub finalize_remaining_uploads-IsFinalized :
      (fuel : ℕ) (step : ℤ) (logs allow : Bool) (w w' : World) (r : UploadOperationResult)
      → finalize_remaining_uploads o u fuel step logs allow w ≡ some (r, w')
      → uploads_enabled u ≡ true
      → FinalizedFrom r (entered (ledger w)) (ledger w')
  unfolding finalize_remaining_uploads ◌>>=◌ emit
  finalize_remaining_uploads-IsFinalized fuel step logs allow w w' r = go (uploads_enabled u)
    where
      go :
          (enabled : Bool)
          → (if enabled
                then emit began_critical_section
                  >> (gather_final o u step logs >>= λ collected.
                      finalize_from o u fuel step allow collected.1)
                else pure succeeded)
              w
            ≡ some (r, w')
          → enabled ≡ true
          → FinalizedFrom r (entered (ledger w)) (ledger w')
      go true e on =
          (Gives-after _ _ (gather_final-Leaves step logs)
              λ collected. finalize_from-Gives fuel step allow collected.1).at
            _ w' r e
      go false e on = cc

  pub upload_rounds-total :
      (start : ℤ) → start +ℤ pos (upload_rounds o u start) ≡ total_upload_count o u start
  unfolding upload_rounds total_upload_count
  upload_rounds-total start = +ℤ--ℤ start _ (ground (arith, +ℤ_parts start (pos 1)))

  -- Final uploads that succeed leave no number of the contract out: the next number is the number
  -- of uploads in all, which is the expected one, or one more than the first number here where that
  -- is more, and the uploads submitted, in a run under the client, are those of the numbers from
  -- the next one, each once and in this order.
  pub finalize_remaining_uploads-contract :
      (fuel : ℕ) (step : ℤ) (logs allow : Bool) (w w' : World) (r : UploadOperationResult)
      → finalize_remaining_uploads o u fuel step logs allow w ≡ some (r, w')
      → uploads_enabled u ≡ true
      → u.standalone ≡ false
      → r.ok ≡ true
      → let start = w.task.upload_file_number in
        (w'.task.upload_file_number ≡ total_upload_count o u start)
        × (submitted_names w'.history
            ≡ names_from start (upload_rounds o u start) (submitted_names w.history))
  finalize_remaining_uploads-contract fuel step logs allow w w' r e on s ok =
      let start = w.task.upload_file_number in
      let (a, b) =
        IsFinalized-ok u (upload_rounds o u start) start r (entered (ledger w)) (ledger w')
          (finalize_remaining_uploads-IsFinalized fuel step logs allow w w' r e on) ok s refl in
      (a ∙ upload_rounds-total start, b)

  -- Final uploads that fail, in a run under the client, have sent an initial part of the uploads, in
  -- order; the next number is that of the upload that failed, which may have been submitted and
  -- refused, so that no upload that was sent is sent again.
  pub finalize_remaining_uploads-stopped :
      (fuel : ℕ) (step : ℤ) (logs allow : Bool) (w w' : World) (r : UploadOperationResult)
      → finalize_remaining_uploads o u fuel step logs allow w ≡ some (r, w')
      → uploads_enabled u ≡ true
      → u.standalone ≡ false
      → r.ok ≡ false
      → let start = w.task.upload_file_number in
        (k : ℕ) × (k < upload_rounds o u start) × IsStoppedAt start k (ledger w) (ledger w')
  finalize_remaining_uploads-stopped fuel step logs allow w w' r e on s ok =
      let start = w.task.upload_file_number in
      IsFinalized-stopped u (upload_rounds o u start) start r (entered (ledger w)) (ledger w')
        (finalize_remaining_uploads-IsFinalized fuel step logs allow w w' r e on) ok s refl

  -- However the final uploads end, they enter the critical section once and leave it once.
  pub finalize_remaining_uploads-sections :
      (fuel : ℕ) (step : ℤ) (logs allow : Bool) (w w' : World) (r : UploadOperationResult)
      → finalize_remaining_uploads o u fuel step logs allow w ≡ some (r, w')
      → uploads_enabled u ≡ true
      → (sections_begun w'.history ≡ suc (sections_begun w.history))
        × (sections_ended w'.history ≡ suc (sections_ended w.history))
  finalize_remaining_uploads-sections fuel step logs allow w w' r e on =
      let start = w.task.upload_file_number in
      IsFinalized-sections u (upload_rounds o u start) start r (entered (ledger w)) (ledger w')
        (finalize_remaining_uploads-IsFinalized fuel step logs allow w w' r e on)

  pub finalize_remaining_uploads-disabled :
      (fuel : ℕ) (step : ℤ) (logs allow : Bool) (w w' : World) (r : UploadOperationResult)
      → finalize_remaining_uploads o u fuel step logs allow w ≡ some (r, w')
      → uploads_enabled u ≡ false
      → w ≡ w'
  unfolding finalize_remaining_uploads
  finalize_remaining_uploads-disabled fuel step logs allow w w' r e off =
      ended_in {a = succeeded} {b = r} (rw off at e)

  pub expected-total :
      (start : ℤ)
      → expected_upload_file_count u.total_steps u.upload_interval ≤ℤ total_upload_count o u start
  unfolding total_upload_count
  expected-total start = ground arith
