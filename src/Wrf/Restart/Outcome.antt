-- ===== src/Wrf/Restart/Outcome.antt =====
-- What setup() leaves of the namelist (models/wrf/wrf_control.cpp).
use cpdn_control.Prelude.{
  ◌≡◌, refl, sym, ap, ◌∙◌, inl, inr, Bool, true, false, Option, none, some, List, ℤ, pos, negsuc,
  eqb_ℤ, Bool-cases, arith,
}
use cpdn_control.Text.{Bytes}
use cpdn_control.Calendar.{DateTime, datetime_duration_seconds}
use cpdn_control.Calendar.Months.{IsValid, is_valid_datetime-IsValid}
use cpdn_control.Calendar.Seconds.{duration-valid}
use cpdn_control.Wrf.{RestartSet, parse_wrf_timestamp}
use cpdn_control.Wrf.Domains.{WrfControl}
use cpdn_control.Wrf.Scan.{DirEntry, restart_exists}
use cpdn_control.Wrf.Prune.Order.{any}
use cpdn_control.Wrf.Restart.{
  Rewriting, FileOutcome, SetupResult, write_namelist, is_reference, with_reference, commit,
  update_for, update_restart_namelist, update_latest, setup,
}
use cpdn_control.Wrf.Restart.Lines.{mentions_true}
use cpdn_control.Wrf.Restart.Flag.{FlaggedAll, rewritten-IsFlagged}

-- The namelist and the control are set up for a restart: a line of the namelist with the key of the
-- restart flag has the text `.true.` in it, and the start that the namelist had is kept, a valid date.
pub record IsRestarting (r : SetupResult) : Type 0 where
  pub flag : any mentions_true r.namelist ≡ true
  pub kept : r.control.restart_reference_start_valid ≡ true
  pub reference : IsValid r.control.restart_reference_start_datetime

-- What may become of a namelist.
pub data IsSetUp (found : Bool) (outcome : FileOutcome) (before : List Bytes) (r : SetupResult)
    : Type 0 where
  fresh : found ≡ false → r.ok ≡ true → r.namelist ≡ before → IsSetUp found outcome before r
  restarting : found ≡ true → r.ok ≡ true → IsRestarting r → IsSetUp found outcome before r
  refused : r.ok ≡ false → r.namelist ≡ before → IsSetUp found outcome before r
  unflushed :
      r.ok ≡ true
      → outcome.written ≡ true
      → outcome.flushed ≡ false
      → IsSetUp found outcome before r
  damaged :
      r.ok ≡ false
      → outcome.backed_up ≡ true
      → outcome.written ≡ false
      → outcome.restored ≡ false
      → IsSetUp found outcome before r

write_namelist-IsSetUp :
    (outcome : FileOutcome) (before after : List Bytes) (c : WrfControl)
    → any mentions_true after ≡ true
    → c.restart_reference_start_valid ≡ true
    → IsValid c.restart_reference_start_datetime
    → IsSetUp true outcome before (write_namelist outcome before after c)
unfolding write_namelist
write_namelist-IsSetUp outcome before after c flag kept valid =
    elim (Bool-cases outcome.backed_up) [
      | inr failed ↦ rw failed (refused refl refl)
      | inl backed ↦ elim (Bool-cases outcome.reopened) [
        | inr closed ↦ rw (backed, closed) (refused refl refl)
        | inl opened ↦ elim (Bool-cases outcome.written) [
          | inl written ↦ elim (Bool-cases outcome.flushed) [
            | inl flushed ↦
                rw (backed, opened, written, flushed)
                  (restarting refl refl (record { flag = flag; kept = kept; reference = valid }))
            | inr pending ↦ rw (backed, opened, written, pending) (unflushed refl refl refl)
          ]
          | inr broken ↦ elim (Bool-cases outcome.restored) [
            | inl restored ↦ rw (backed, opened, broken, restored) (refused refl refl)
            | inr lost ↦ rw (backed, opened, broken, lost) (damaged refl refl refl refl)
          ]
        ]
      ]
    ]

eqb_ℤ-zero : (z : ℤ) → eqb_ℤ z (pos 0) ≡ true → z ≡ pos 0
eqb_ℤ-zero (pos n) h = ground (arith, h)
eqb_ℤ-zero (negsuc n) h = absurd (ground (arith, h))

commit-IsSetUp :
    (outcome : FileOutcome) (before : List Bytes) (c : WrfControl) (o : Option Rewriting)
    → FlaggedAll before o
    → IsSetUp true outcome before (commit outcome before c o)
commit-IsSetUp outcome before c none f = refused refl refl
commit-IsSetUp outcome before c (some r) f = elim (Bool-cases (is_reference r)) [
  | inr other ↦ rw other (refused refl refl)
  | inl reference ↦ elim (Bool-cases r.file_changed) [
    | inl changed ↦
        rw (reference, changed)
          (write_namelist-IsSetUp outcome before r.lines (with_reference r c) f.flag refl
            (valid r reference))
    | inr same ↦
        rw (reference, same)
          (restarting refl refl (record {
            flag = ap (any mentions_true) (sym (f.same same)) ∙ f.flag;
            kept = refl;
            reference = valid r reference;
          }))
  ]
]
  where
    valid : (r : Rewriting) → is_reference r ≡ true → IsValid r.start_datetime
    valid r h =
        let same : datetime_duration_seconds r.start_datetime r.start_datetime ≡ pos 0 =
          eqb_ℤ-zero _ (ground (arith, h)) in
        is_valid_datetime-IsValid r.start_datetime
          (duration-valid r.start_datetime r.start_datetime 0 same).0

update-IsSetUp :
    (outcome : FileOutcome) (namelist : List Bytes) (c : WrfControl) (date : Option DateTime)
    → IsSetUp true outcome namelist (update_for outcome namelist c date)
update-IsSetUp outcome namelist c none = refused refl refl
update-IsSetUp outcome namelist c (some date) =
    commit-IsSetUp outcome namelist c _ (rewritten-IsFlagged c.max_domains date namelist)

latest-IsSetUp :
    (outcome : FileOutcome) (namelist : List Bytes) (found : Bool × WrfControl)
    (latest : Option RestartSet)
    → IsSetUp found.0 outcome namelist (update_latest outcome namelist found latest)
unfolding update_restart_namelist
latest-IsSetUp outcome namelist (false, c) latest = fresh refl refl refl
latest-IsSetUp outcome namelist (true, c) none = refused refl refl
latest-IsSetUp outcome namelist (true, c) (some s) =
    update-IsSetUp outcome namelist c (parse_wrf_timestamp s.datetime)

-- The set-up ends in one of five ways, whatever the namelist, the directory and the control were and
-- whatever the file operations did. It returns true with the namelist as it was, and then no complete
-- restart was found. It returns true, a complete restart was found, a line of the namelist that
-- has the key `restart` has the text `.true.` in it, be it as the value or in a comment behind the
-- value, and the start that the namelist had is kept as the reference, a valid
-- date. It returns false with the namelist as it was. It returns false after a backup of the namelist
-- was made, its writing failed, and the copy back from the backup failed too. Or it returns true
-- although the flush of the namelist, behind the test of the stream, failed.
pub setup-IsSetUp :
    (preserved : Bool) (outcome : FileOutcome) (scan_dir : Bytes) (entries : List DirEntry)
    (namelist : List Bytes) (c : WrfControl)
    → IsSetUp
        (restart_exists (some namelist) scan_dir entries c).0
        outcome
        namelist
        (setup preserved outcome scan_dir entries namelist c)
unfolding setup
setup-IsSetUp false outcome scan_dir entries namelist c = refused refl refl
setup-IsSetUp true outcome scan_dir entries namelist c = latest-IsSetUp outcome namelist _ _
