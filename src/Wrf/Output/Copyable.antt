-- ===== src/Wrf/Output/Copyable.antt =====
-- `get_copyable_output_filenames` (models/wrf/wrf_control.cpp).
use cpdn_control.Prelude.{
  ℕ, zero, suc, ◌+◌, ◌-◌, ◌*◌, ◌/◌, ◌<◌, ◌≤◌, ◌≡◌, refl, sym, ap, ◌∙◌, Bool, true, false, Option,
  some, none, List, [], ◌++◌, append-nil, append_assoc, pos, pos_part, ltb, leb_ℤ, ltb_ℤ,
  if◌then◌else◌, Bool-cases, inl, inr, arith,
}
use native.Mathlib.Nat.{suc-mul, le-div_iff_mul-le, div-lt_iff_lt-mul}
use cpdn_control.Text.{Bytes}
use cpdn_control.Calendar.{DateTime, add_duration_to_datetime, secs_to_datetime_duration}
use cpdn_control.Calendar.Months.{IsValid}
use cpdn_control.Calendar.Seconds.{duration_seconds, secs_to_datetime_duration-IsDuration}
use cpdn_control.Calendar.Shift.{IsSecondsAfter, add_duration-IsSecondsAfter}
use cpdn_control.Wrf.Domains.{WrfControl}
use cpdn_control.Wrf.Domains.Prefixes.{IsReady}
use cpdn_control.Wrf.Output.{
  after_files, named, get_output_filenames, copyable_from, get_copyable_output_filenames,
}
use cpdn_control.Wrf.Output.Names.{get_output_filenames-named}

abbrev files_in : Option (List Bytes × WrfControl) → List Bytes
files_in none = []
files_in (some (files, c)) = files

-- The output files of the steps i, i + 1, ..., counted in output intervals, `count` of them.
abbrev pub files_of_intervals : Option (List Bytes) → WrfControl → ℕ → ℕ → ℕ → List Bytes
files_of_intervals namelist c interval i zero = []
files_of_intervals namelist c interval i (suc count) =
    files_in (get_output_filenames namelist (pos (i * interval)) c)
    ++ files_of_intervals namelist c interval (i + 1) count

-- A control that is initialized, with a start and a time step that make sense.
pub record IsRunning (c : WrfControl) : Type 0 where
  pub ready : IsReady c
  pub timestep : ℕ
  pub timed : c.timestep_seconds ≡ pos timestep
  pub timestep_pos : 1 ≤ timestep
  pub start_valid : IsValid c.step0_datetime

named-some :
    (c : WrfControl) (o : Option DateTime) (date : DateTime)
    → o ≡ some date
    → named c o ≡ some (files_in (named c o), c)
named-some c none date h = absurd (ground (arith, h))
named-some c (some d) date h = refl

files_lem :
    (namelist : Option (List Bytes)) (c : WrfControl) (s : ℕ)
    → IsRunning c
    → get_output_filenames namelist (pos s) c
      ≡ some (files_in (get_output_filenames namelist (pos s) c), c)
files_lem namelist c s r =
    rw (get_output_filenames-named c r.ready namelist s r.timestep r.timed r.timestep_pos)
      (named-some c _ after.found after.returns)
  where
    duration : DateTime
    duration = secs_to_datetime_duration (s * r.timestep)

    after :
        IsSecondsAfter
          (duration_seconds duration)
          c.step0_datetime
          (add_duration_to_datetime c.step0_datetime duration)
    after =
        add_duration-IsSecondsAfter c.step0_datetime duration r.start_valid
          (secs_to_datetime_duration-IsDuration (s * r.timestep))

le_mul : (i interval : ℕ) → 1 ≤ interval → i ≤ i * interval
le_mul zero interval h = omega arith
le_mul (suc i) interval h = omega (arith, suc-mul i interval, le_mul i interval h)

-- Where the loop is in its intervals.
done : (current interval i : ℕ) → 1 ≤ interval → current ≤ i * interval → current / interval - i ≡ 0
done current interval i h k =
    let b : (current / interval < i + 1) = (div-lt_iff_lt-mul h).1 (ground (arith, k)) in
    omega (arith, b)

open_interval :
    (current interval i : ℕ)
    → 1 ≤ interval
    → current < i * interval + interval
    → (current / interval - i ≡ 0) × (current / interval - (i + 1) ≡ 0)
open_interval current interval i h k =
    let b : (current / interval < i + 1) = (div-lt_iff_lt-mul h).1 (ground (arith, k)) in
    (omega (arith, b), omega (arith, b))

whole_interval :
    (current interval i : ℕ)
    → 1 ≤ interval
    → i * interval + interval ≤ current
    → current / interval - i ≡ suc (current / interval - (i + 1))
whole_interval current interval i h k =
    let b : (i + 1 ≤ current / interval) = (le-div_iff_mul-le h).1 (ground (arith, k)) in
    omega (arith, b)

module _ (namelist : Option (List Bytes)) (c : WrfControl) (r : IsRunning c) (current interval : ℕ)
    (h : 1 ≤ interval) where
  -- What the loop has still to list at interval `i`.
  abbrev listed_from : ℕ → List Bytes
  listed_from i = files_of_intervals namelist c interval i (current / interval - i)

  listed_from-nil : (i : ℕ) → current / interval - i ≡ 0 → listed_from i ≡ []
  listed_from-nil i e = ap (files_of_intervals namelist c interval i) e

  listed_from-cons :
      (i : ℕ)
      → i * interval + interval ≤ current
      → listed_from i
        ≡ files_in (get_output_filenames namelist (pos (i * interval)) c) ++ listed_from (i + 1)
  listed_from-cons i k =
      ap (files_of_intervals namelist c interval i) (whole_interval current interval i h k)

  abbrev names : ℕ → List Bytes
  names i = files_in (get_output_filenames namelist (pos (i * interval)) c)

  listed :
      (output_step i : ℕ)
      → output_step ≡ i * interval
      → get_output_filenames namelist (pos output_step) c ≡ some (names i, c)
  listed output_step i e =
      ap (λ s. get_output_filenames namelist (pos s) c) e ∙ files_lem namelist c (i * interval) r

  further :
      (i output_step : ℕ) → output_step ≡ i * interval → output_step < current → i + 1 ≤ current
  further i output_step e k = let b : (i ≤ i * interval) = le_mul i interval h in omega (arith, b)

  copyable_from_lem :
      (fuel i output_step : ℕ) (files : List Bytes)
      → output_step ≡ i * interval
      → i ≤ current
      → current < fuel + i
      → copyable_from fuel namelist current interval output_step files c
        ≡ some (files ++ listed_from i, c)
  unfolding copyable_from
  copyable_from_lem zero i output_step files e le enough = absurd (omega arith)
  copyable_from_lem (suc fuel) i output_step files e le enough =
      elim (Bool-cases (ltb output_step current)) [
        | inr ended ↦
            rw
              (
                ended,
                listed_from-nil i (done current interval i h (ground arith)),
                append-nil files,
              )
              refl
        | inl more ↦ elim (Bool-cases (ltb current (output_step + interval))) [
          | inl incomplete ↦
              rw (more, incomplete)
                (copyable_from_lem fuel (i + 1) (output_step + interval) files (ground (arith, e))
                    (further i output_step e (ground arith)) (omega arith)
                  ∙ ap (λ later. some (files ++ later, c))
                      (listed_from-nil (i + 1)
                          (open_interval current interval i h (ground (arith, e))).1
                        ∙ sym (
                            listed_from-nil i
                              (open_interval current interval i h (ground (arith, e))).0)))
          | inr complete ↦
              rw (more, complete, listed output_step i e)
                (copyable_from_lem fuel (i + 1) (output_step + interval) (files ++ names i)
                    (ground (arith, e)) (further i output_step e (ground arith)) (omega arith)
                  ∙ ap (λ all. some (all, c))
                      (append_assoc files (names i) (listed_from (i + 1))
                        ∙ ap (λ later. files ++ later)
                            (sym (listed_from-cons i (ground (arith, e))))))
        ]
      ]

started : (n : ℕ) → ltb_ℤ (pos n) (pos 0) ≡ false
started n = ground arith

positive : (n : ℕ) → 1 ≤ n → leb_ℤ (pos n) (pos 0) ≡ false
positive n h = ground arith

-- The files that are safe to copy at a step are those of the output intervals that are complete by then,
-- in their order: an interval's files are listed if and only if its end is not later than the step.
-- The loop ends within its fuel, and the control is left as it was; it is initialized, with a
-- valid start and a positive time step and output interval.
pub get_copyable_output_filenames_lem :
    (namelist : Option (List Bytes)) (counted : Bool) (c : WrfControl) (current interval : ℕ)
    → IsRunning c
    → c.output_interval ≡ pos interval
    → 1 ≤ interval
    → get_copyable_output_filenames namelist counted (pos current) c
      ≡ some (files_of_intervals namelist c interval 0 (current / interval), c)
unfolding get_copyable_output_filenames
get_copyable_output_filenames_lem namelist counted c current interval r e h =
    rw (started current, some_interval, ap pos_part e) (first counted)
  where
    some_interval : leb_ℤ c.output_interval (pos 0) ≡ false
    some_interval = ap (λ z. leb_ℤ z (pos 0)) e ∙ positive interval h

    loop :
        copyable_from (current + 1) namelist current interval 0 [] c
        ≡ some (files_of_intervals namelist c interval 0 (current / interval), c)
    loop =
        copyable_from_lem namelist c r current interval h (current + 1) 0 0 [] (omega arith)
          (omega arith) (omega arith)
        ∙ ap (λ n. some (files_of_intervals namelist c interval 0 n, c)) (omega arith)

    first :
        (counted : Bool)
        → after_files
            (λ files c. copyable_from (current + 1) namelist current interval 0 [] c)
            (if counted then some ([], c) else get_output_filenames namelist (pos 0) c)
          ≡ some (files_of_intervals namelist c interval 0 (current / interval), c)
    first true = loop
    first false = rw (files_lem namelist c 0 r) loop
