-- ===== src/Controller/Finished.antt =====
-- What the program has done for the client by the time it calls boinc_finish() (src/cpdn_main.cpp).
use cpdn_control.Prelude.{ℕ, ◌*◌, ◌<◌, ◌≡◌, ◌∷◌, ℤ, pos, pos_part, ◌≤ℤ◌, if◌then◌else◌}
use mathlib.Core.List.{Memᴰ}
use cpdn_control.World.{Outside, World}
use cpdn_control.Upload.{logical_upload_name}
use cpdn_control.Upload.Ledger.{finish_codes, submitted_names}
use cpdn_control.Controller.{Setup}

module _ (o : Outside) (s : Setup) where
  -- The uploads of a run that starts in the world `w` have all been submitted in `w'`: those of the
  -- numbers from the next one at the start, as long as the number times the interval is a step
  -- before the last.
  abbrev pub AllSubmitted : World → World → Type 0
  AllSubmitted w w' =
      (i : ℕ)
      → w.task.upload_file_number ≤ℤ pos i
      → i * pos_part s.manager.upload_interval < pos_part s.manager.total_steps
      → Memᴰ (logical_upload_name (pos i)) (submitted_names w'.history)

  -- The end of a task that was finished with the code `code`.
  pub record IsFinished (code : ℤ) (w w' : World) : Type 0 where
    pub once : finish_codes w'.history ≡ code ∷ finish_codes w.history
    pub completed : w'.task.model_completed ≡ pos 1
    pub told : code ≡ (if w'.task.model_success then pos 0 else pos 1)
    pub all_submitted : AllSubmitted w w'
