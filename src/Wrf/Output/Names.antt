-- ===== src/Wrf/Output/Names.antt =====
-- `get_output_filenames` and `is_output_filename` (models/wrf/wrf_control.cpp).
use cpdn_control.Prelude.{
  ℕ, zero, suc, ◌+◌, ◌-◌, ◌*◌, ◌<◌, ◌≤◌, ◌≡◌, refl, sym, ap, ◌∙◌, true, false, Option, some, List,
  [], ◌∷◌, ◌++◌, ℤ, pos, pos_part, leb, leb_ℤ, ltb_ℤ, eqb_ℤ, length, get_or, drop, length-append,
  arith,
}
use cpdn_control.Text.{Bytes, codes, starts_with}
use cpdn_control.Text.Number.{print_padded, digits}
use cpdn_control.Calendar.{
  DateTime, add_duration_to_datetime, secs_to_datetime_duration, datetime_to_absolute_seconds,
}
use cpdn_control.Calendar.Months.{IsValid}
use cpdn_control.Calendar.Seconds.{
  duration_seconds, duration_seconds-secs_to_datetime_duration,
  secs_to_datetime_duration-IsDuration,
}
use cpdn_control.Calendar.Shift.{IsSecondsAfter, add_duration-IsSecondsAfter}
use cpdn_control.Wrf.{
  is_wrf_prefixed_datetime_filename, matches_any_wrf_prefix, parse_wrf_timestamp,
}
use cpdn_control.Wrf.Stamps.{
  HasRoom, IsValid-HasRoom, stamp, stamp-suffix, parse_wrf_timestamp-stamp,
}
use cpdn_control.Wrf.Domains.{
  WrfControl, domain_prefix, is_allowed, build_wrf_domain_prefixes, has_all_prefixes,
  ensure_domain_prefixes_initialized, is_output_filename,
}
use cpdn_control.Wrf.Domains.Prefixes.{IsReady, length-build_wrf_domain_prefixes}
use cpdn_control.Wrf.Output.{filenames_at, named, get_output_filenames}
use cpdn_control.Wrf.Output.Padded.{output_timestamp-stamp}

starts_with-append : (p s : Bytes) → starts_with p (p ++ s) ≡ true
unfolding starts_with
starts_with-append [] s = refl
starts_with-append (c ∷ p) s = ground (arith, starts_with-append p s)

drop-append : (p s : Bytes) → drop (length p) (p ++ s) ≡ s
drop-append [] s = refl
drop-append (c ∷ p) s = drop-append p s

pub is_prefixed-stamp :
    (p : Bytes) (d : DateTime) → is_wrf_prefixed_datetime_filename (p ++ stamp d) p ≡ true
unfolding is_wrf_prefixed_datetime_filename
is_prefixed-stamp p d =
    rw
      (
        starts_with-append p (stamp d),
        drop-append p (stamp d),
        stamp-suffix d,
        length-append p (stamp d),
      )
      (ground arith)

matches_any-get_or :
    (d : DateTime) (prefixes : List Bytes) (i : ℕ)
    → i < length prefixes
    → matches_any_wrf_prefix (get_or prefixes i [] ++ stamp d) prefixes ≡ true
unfolding matches_any_wrf_prefix
matches_any-get_or d [] i h = absurd (omega arith)
matches_any-get_or d (p ∷ prefixes) zero h = ground (arith, is_prefixed-stamp p d)
matches_any-get_or d (p ∷ prefixes) (suc i) h =
    ground (arith, matches_any-get_or d prefixes i (omega arith))

pub is_count : (n : ℕ) (z : ℤ) → pos n ≡ z → (leb_ℤ (pos 0) z ≡ true) × (eqb_ℤ (pos n) z ≡ true)
is_count n z h = (ground arith, ground arith)

has_all_prefixes_lem : (c : WrfControl) → IsReady c → has_all_prefixes c ≡ true
has_all_prefixes_lem c r = rw (output_count.0, output_count.1, restart_count.1) refl
  where
    output_count :
        (leb_ℤ (pos 0) c.max_domains ≡ true)
        × (eqb_ℤ (pos (length c.output_prefixes)) c.max_domains ≡ true)
    output_count =
        is_count (length c.output_prefixes) c.max_domains
          (rw r.output_ready (length-build_wrf_domain_prefixes c.max_domains r.allowed).0)

    restart_count :
        (leb_ℤ (pos 0) c.max_domains ≡ true)
        × (eqb_ℤ (pos (length c.restart_prefixes)) c.max_domains ≡ true)
    restart_count =
        is_count (length c.restart_prefixes) c.max_domains
          (rw r.restart_ready (length-build_wrf_domain_prefixes c.max_domains r.allowed).1)

pub ensure-ready :
    (namelist : Option (List Bytes)) (c : WrfControl)
    → IsReady c
    → ensure_domain_prefixes_initialized namelist c ≡ (true, c)
unfolding ensure_domain_prefixes_initialized
ensure-ready namelist c r = rw (r.allowed, has_all_prefixes_lem c r) refl

-- The prefix of the innermost domain.
innermost :
    (m : ℕ)
    → is_allowed (pos m) ≡ true
    → get_or (build_wrf_domain_prefixes (codes "wrfout") (pos m)) (m - 1) []
      ≡ domain_prefix (codes "wrfout") m
unfolding build_wrf_domain_prefixes print_padded digits
innermost zero h = ground arith
innermost (suc zero) h = refl
innermost (suc (suc zero)) h = refl
innermost (suc (suc (suc zero))) h = refl
innermost (suc (suc (suc (suc m)))) h = absurd (ground (arith, h))

allowed_pos : (z : ℤ) → is_allowed z ≡ true → (z ≡ pos (pos_part z)) × (1 ≤ pos_part z)
allowed_pos z h = (ground arith, ground arith)

-- The name of an output file of a control that is ready.
abbrev pub output_filename : WrfControl → DateTime → Bytes
output_filename c date = domain_prefix (codes "wrfout") (pos_part c.max_domains) ++ stamp date

length-stamp : (d : DateTime) → length (stamp d) ≡ 19
length-stamp d = refl

module _ (c : WrfControl) (r : IsReady c) where
  count : ℕ
  count = pos_part c.max_domains

  count_pos : (c.max_domains ≡ pos count) × (1 ≤ count)
  unfolding count
  count_pos = allowed_pos c.max_domains r.allowed

  prefix_count : length c.output_prefixes ≡ count
  unfolding count
  prefix_count =
      let l : pos (length c.output_prefixes) ≡ c.max_domains =
        rw r.output_ready (length-build_wrf_domain_prefixes c.max_domains r.allowed).0 in
      ap pos_part l

  innermost_prefix : get_or c.output_prefixes (count - 1) [] ≡ domain_prefix (codes "wrfout") count
  innermost_prefix =
      let all : c.output_prefixes ≡ build_wrf_domain_prefixes (codes "wrfout") (pos count) =
        rw (sym count_pos.0) r.output_ready in
      ap (λ prefixes. get_or prefixes (count - 1) []) all
      ∙ innermost count (ap is_allowed (sym count_pos.0) ∙ r.allowed)

  pub filenames_at-stamp :
      (date : DateTime) → HasRoom date → filenames_at c date ≡ output_filename c date ∷ []
  unfolding filenames_at count
  filenames_at-stamp date h =
      rw (output_timestamp-stamp date h, prefix_count, below, innermost_prefix) refl
    where
      below : leb count (count - 1) ≡ false
      below = ground (arith, count_pos.1)

  matches-output_filename :
      (date : DateTime) → matches_any_wrf_prefix (output_filename c date) c.output_prefixes ≡ true
  unfolding count
  matches-output_filename date =
      let m : matches_any_wrf_prefix (get_or c.output_prefixes (count - 1) [] ++ stamp date)
            c.output_prefixes
          ≡ true =
        matches_any-get_or date c.output_prefixes (count - 1)
          (omega (arith, prefix_count, count_pos.1)) in
      rw innermost_prefix at m

  pub get_output_filenames-named :
      (namelist : Option (List Bytes)) (step timestep : ℕ)
      → c.timestep_seconds ≡ pos timestep
      → 1 ≤ timestep
      → get_output_filenames namelist (pos step) c
        ≡ named c (
            add_duration_to_datetime c.step0_datetime (secs_to_datetime_duration (step * timestep)))
  unfolding get_output_filenames
  get_output_filenames-named namelist step timestep e h =
      rw (started, timed, ensure-ready namelist c r, counted, seconds) refl
    where
      positive : (n : ℕ) → 1 ≤ n → leb_ℤ (pos n) (pos 0) ≡ false
      positive n h = ground arith

      started : ltb_ℤ (pos step) (pos 0) ≡ false
      started = ground arith

      timed : leb_ℤ c.timestep_seconds (pos 0) ≡ false
      timed = ap (λ z. leb_ℤ z (pos 0)) e ∙ positive timestep h

      seconds : pos_part c.timestep_seconds ≡ timestep
      seconds = ap pos_part e

      counted : leb_ℤ c.max_domains (pos 0) ≡ false
      counted = ap (λ z. leb_ℤ z (pos 0)) count_pos.0 ∙ positive count count_pos.1

  -- The output file of a step is named after the innermost domain and the date that lies the step's time
  -- after the start of the run; that name is recognised as an output file's, and the date is read back
  -- from it. The control is initialized, the time step is positive, the start is a valid date, and the
  -- year of the output has four digits.
  pub get_output_filenames-date :
      (namelist : Option (List Bytes)) (step timestep : ℕ) (date : DateTime)
      → c.timestep_seconds ≡ pos timestep
      → 1 ≤ timestep
      → IsValid c.step0_datetime
      → add_duration_to_datetime c.step0_datetime (secs_to_datetime_duration (step * timestep))
        ≡ some date
      → date.year < 10000
      → (datetime_to_absolute_seconds date
          ≡ datetime_to_absolute_seconds c.step0_datetime + step * timestep)
        × (get_output_filenames namelist (pos step) c ≡ some (output_filename c date ∷ [], c))
        × (is_output_filename namelist (output_filename c date) c ≡ (true, c))
        × (parse_wrf_timestamp (stamp date) ≡ some date)
  unfolding is_output_filename
  get_output_filenames-date namelist step timestep date e h v d y = (
    omega (arith, after.later, duration_seconds-secs_to_datetime_duration (step * timestep), same),
    get_output_filenames-named namelist step timestep e h
        ∙ rw (d, filenames_at-stamp date room) refl,
    rw (ensure-ready namelist c r, matches-output_filename date) refl,
    parse_wrf_timestamp-stamp date room,
  )
    where
      duration : DateTime
      duration = secs_to_datetime_duration (step * timestep)

      after :
          IsSecondsAfter
            (duration_seconds duration)
            c.step0_datetime
            (add_duration_to_datetime c.step0_datetime duration)
      after =
          add_duration-IsSecondsAfter c.step0_datetime duration v
            (secs_to_datetime_duration-IsDuration (step * timestep))

      found : after.found ≡ date
      found = cc after.returns

      same : datetime_to_absolute_seconds after.found ≡ datetime_to_absolute_seconds date
      same = ap datetime_to_absolute_seconds found

      room : HasRoom date
      room = IsValid-HasRoom date (rw found at after.valid) y
