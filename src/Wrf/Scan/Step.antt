-- ===== src/Wrf/Scan/Step.antt =====
-- `parse_restart` (models/wrf/wrf_control.cpp).
use cpdn_control.Prelude.{
  ℕ, ◌+◌, ◌*◌, ◌/◌, ◌%◌, ◌≡◌, refl, true, Option, none, some, ℤ, pos, negsuc, pos_part, arith,
}
use cpdn_control.Text.{Bytes}
use cpdn_control.Text.Number.{to_string_ℕ}
use cpdn_control.Calendar.{DateTime, datetime_duration_seconds, datetime_to_absolute_seconds}
use cpdn_control.Calendar.Seconds.{duration-valid, whole_steps}
use cpdn_control.Wrf.{RestartSet, parse_wrf_timestamp}
use cpdn_control.Wrf.Domains.{WrfControl}
use cpdn_control.Wrf.Scan.{latest_of, restart_step_text, step_since, step_of_set, parse_restart}

-- The text is the number of the step that the restart begins at.
pub record IsRestartStep (c : WrfControl) (text : Bytes) : Type 0 where
  pub chosen : RestartSet
  pub is_latest : latest_of c ≡ some chosen
  pub date : DateTime
  pub dated : parse_wrf_timestamp chosen.datetime ≡ some date
  pub step : ℕ
  pub printed : text ≡ to_string_ℕ step
  pub referenced : c.restart_reference_start_valid ≡ true
  pub later :
      datetime_to_absolute_seconds date
      ≡ datetime_to_absolute_seconds c.restart_reference_start_datetime
        + step * pos_part c.timestep_seconds

restart_step_text-whole :
    (timestep : ℕ) (z : ℤ) (text : Bytes)
    → restart_step_text timestep z ≡ some text
    → (n : ℕ) × (z ≡ pos n) × (n % timestep ≡ 0) × (text ≡ to_string_ℕ (n / timestep))
unfolding restart_step_text
restart_step_text-whole timestep (negsuc n) text h = absurd (ground (arith, h))
restart_step_text-whole timestep (pos n) text h = (n, refl, ground arith, ground arith)

step_since-dated :
    (timestep : ℕ) (start : DateTime) (o : Option DateTime) (text : Bytes)
    → step_since timestep start o ≡ some text
    → (date : DateTime) × (o ≡ some date)
      × (restart_step_text timestep (datetime_duration_seconds start date) ≡ some text)
step_since-dated timestep start none text h = absurd (ground (arith, h))
step_since-dated timestep start (some date) text h = (date, refl, h)

guards :
    (c : WrfControl) (text : Bytes)
    → parse_restart c ≡ some text
    → (c.restart_reference_start_valid ≡ true)
      × (step_of_set (pos_part c.timestep_seconds) c.restart_reference_start_datetime (latest_of c)
          ≡ some text)
unfolding parse_restart
guards c text h = (ground arith, ground arith)

-- The step that a restart is said to begin at is counted from the reference start, the start that the
-- namelist had when it was last rewritten: the latest complete restart set has the date that lies
-- that many time steps behind it. After a second restart that is not the step of the whole run.
pub parse_restart-IsRestartStep :
    (c : WrfControl) (text : Bytes) → parse_restart c ≡ some text → IsRestartStep c text
parse_restart-IsRestartStep c text h = from_set (latest_of c) refl (guards c text h).1
  where
    from_set :
        (o : Option RestartSet)
        → latest_of c ≡ o
        → step_of_set (pos_part c.timestep_seconds) c.restart_reference_start_datetime o ≡ some text
        → IsRestartStep c text
    from_set none e k = absurd (ground (arith, k))
    from_set (some s) e k =
        let (date, dated, whole) = step_since-dated _ _ (parse_wrf_timestamp s.datetime) text k in
        let (n, elapsed, exact, printed) = restart_step_text-whole _ _ text whole in
        record {
          chosen = s;
          is_latest = e;
          date = date;
          dated = dated;
          step = n / pos_part c.timestep_seconds;
          printed = printed;
          referenced = (guards c text h).0;
          later = omega (
            arith,
            (duration-valid c.restart_reference_start_datetime date n elapsed).2,
            whole_steps n (pos_part c.timestep_seconds) exact,
          );
        }
