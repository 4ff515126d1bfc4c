-- ===== src/Start/Modes.antt =====
-- When a task starts, and from which step (`initialize_task_state_from_restart` of
-- src/control_start.cpp).
use cpdn_control.Prelude.{
  ◌≡◌, refl, Bool, true, false, ◌&&◌, not, Option, none, some, ℤ, pos, ◌+ℤ◌, ◌≤ℤ◌, ◌<ℤ◌, ltb_ℤ,
  leb_ℤ, if◌then◌else◌, arith,
}
use cpdn_control.Text.{Bytes}
use cpdn_control.Text.Number.{parse_int}
use cpdn_control.World.{TaskState}
use cpdn_control.Progress.{is_ok, stored}
use cpdn_control.Start.{
  TaskStartupMode, fresh_run, restart_run, invalid, TaskStartupStateResult, Slot, refused,
  restart_at, restart_from, start_from, initialize_task_state_from_restart,
}

-- The ways to start, with the state that the task starts from.
pub data IsStarted (slot : Slot) (interval : ℤ) (t : TaskState)
    : TaskState → TaskStartupMode → Type 0 where
  -- There is no file of an earlier run.
  new :
      slot.progress_file_exists ≡ false
      → slot.restart_exists ≡ false
      → IsStarted slot interval t t fresh_run
  -- The earlier run did not come to its first restart.
  again :
      slot.progress_file_exists ≡ true
      → slot.restart_exists ≡ false
      → (slot.read t).1 ≡ true
      → (slot.read t).0.last_completed_step <ℤ interval
      → IsStarted slot interval t (slot.read t).0 fresh_run
  -- The step of the restart is not too far ahead of the progress file's.
  resumed :
      slot.progress_file_exists ≡ true
      → slot.progress_file_is_empty ≡ false
      → slot.restart_exists ≡ true
      → (step_text : Bytes) → slot.parse_restart ≡ some step_text
      → (slot.read t).1 ≡ true
      → is_ok (parse_int step_text) ≡ true
      → stored (parse_int step_text) (pos 0)
        ≤ℤ (slot.read t).0.last_completed_step +ℤ (interval +ℤ pos 2)
      → IsStarted slot interval t
          (record (slot.read t).0 { last_completed_step = stored (parse_int step_text) (pos 0) })
          restart_run

-- A result that is no failure is one of those ways.
abbrev pub StartsAs : Slot → ℤ → TaskState → TaskState × TaskStartupStateResult → Type 0
StartsAs slot interval t r =
    if r.1.ok then IsStarted slot interval t r.0 r.1.startup_mode else r.1.startup_mode ≡ invalid

StartsAs-if :
    (slot : Slot) (interval : ℤ) (t : TaskState) (b : Bool)
    (r r' : TaskState × TaskStartupStateResult)
    → (b ≡ true → StartsAs slot interval t r)
    → (b ≡ false → StartsAs slot interval t r')
    → StartsAs slot interval t (if b then r else r')
StartsAs-if slot interval t true r r' h h' = h refl
StartsAs-if slot interval t false r r' h h' = h' refl

module _ (slot : Slot) (interval : ℤ) (t : TaskState) where
  start_from-StartsAs :
      slot.progress_file_exists ≡ true
      → slot.restart_exists ≡ false
      → StartsAs slot interval t (start_from slot interval t)
  unfolding start_from
  start_from-StartsAs p q =
      StartsAs-if slot interval t (not (slot.read t).1) _ _ (λ e. refl)
        λ e.
          StartsAs-if slot interval t (leb_ℤ interval (slot.read t).0.last_completed_step) _ _
            (λ f. refl) λ f. again p q (ground arith) (ground arith)

  restart_at-StartsAs :
      (step_text : Bytes)
      → slot.progress_file_exists ≡ true
      → slot.progress_file_is_empty ≡ false
      → slot.restart_exists ≡ true
      → slot.parse_restart ≡ some step_text
      → (slot.read t).1 ≡ true
      → StartsAs slot interval t (restart_at (interval +ℤ pos 2) step_text (slot.read t).0)
  unfolding restart_at
  restart_at-StartsAs text p q r s e =
      StartsAs-if slot interval t (not (is_ok (parse_int text))) _ _ (λ e. refl)
        λ f.
          StartsAs-if slot interval t
            (ltb_ℤ ((slot.read t).0.last_completed_step +ℤ (interval +ℤ pos 2))
              (stored (parse_int text) (pos 0)))
            _ _ (λ f. refl) λ g. resumed p q r text s e (ground arith) (ground arith)

  restart_from-StartsAs :
      (found : Option Bytes)
      → slot.progress_file_exists ≡ true
      → slot.progress_file_is_empty ≡ false
      → slot.restart_exists ≡ true
      → slot.parse_restart ≡ found
      → StartsAs slot interval t (elim found [
        | none ↦ (t, refused true)
        | some step_text ↦
            let r = slot.read t in
            let next = restart_at (interval +ℤ pos 2) step_text r.0 in
            if r.1 then next else (r.0, refused false)
      ])
  restart_from-StartsAs none p q r s = refl
  restart_from-StartsAs (some text) p q r s =
      StartsAs-if slot interval t (slot.read t).1 _ _ (restart_at-StartsAs text p q r s) λ e. refl

  -- A task starts only afresh, with no file of an earlier run, or again, from a progress file that
  -- was read and is before the first restart, or from a restart whose step was read and lies at most
  -- a restart interval and two steps ahead of the progress file's; the step is then the restart's.
  pub initialize-StartsAs :
      StartsAs slot interval t (initialize_task_state_from_restart slot interval t)
  unfolding initialize_task_state_from_restart restart_from
  initialize-StartsAs =
      StartsAs-if slot interval t (not slot.progress_file_exists && not slot.restart_exists) _ _
        (λ e. new (ground arith) (ground arith))
        λ e.
          StartsAs-if slot interval t
            (slot.progress_file_exists
              && not (slot.progress_file_exists && slot.progress_file_is_empty)
              && slot.restart_exists)
            _ _
            (λ f.
              restart_from-StartsAs slot.parse_restart (ground arith) (ground arith) (ground arith)
                refl)
            λ f.
              StartsAs-if slot interval t
                (slot.progress_file_exists
                  && (slot.progress_file_exists && slot.progress_file_is_empty))
                _ _ (λ g. refl)
                λ g.
                  StartsAs-if slot interval t (slot.progress_file_exists && not slot.restart_exists)
                    _ _ (λ h. start_from-StartsAs (ground arith) (ground arith))
                    λ h.
                      StartsAs-if slot interval t
                        (not slot.progress_file_exists && slot.restart_exists) _ _ (λ i. refl)
                        λ i. refl
