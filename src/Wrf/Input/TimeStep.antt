-- ===== src/Wrf/Input/TimeStep.antt =====
-- The time step that `parse_control_input` (models/wrf/wrf_control.cpp) reads.
use cpdn_control.Prelude.{
  ◌≡◌, refl, inl, inr, Bool, true, false, not, ◌||◌, Option, none, some, List, [], ◌∷◌, ◌==◌, ℤ,
  pos, Bool-cases, if◌then◌else◌,
}
use mathlib.Core.Path.{subst}
use cpdn_control.Text.{
  Bytes, codes, is_empty, front, starts_with, equal, cut_at, trim_whitespace,
  parse_namelist_key_value, ltrim, rtrim, is_trimmed_char, is_ascii_digit, split_at,
}
use cpdn_control.Text.Entries.{entry, value_of, last_value}
use cpdn_control.Text.Number.{parse_int, from_chars, scan_digits}
use cpdn_control.Wrf.Timing.{int_of}
use cpdn_control.Wrf.Domains.{WrfControl, is_allowed}
use cpdn_control.Wrf.Namelist.{Field, get_wrf_datetime_field, extract_namelist_rhs_preserving_list}
use cpdn_control.Wrf.Input.{
  ErrorStep, InputScan, ScanResult, scanned, failed, or_failed, read_time_step, read_field,
  mark_have, key_is, read_date, read_max_dom, read_key, read_pair, read_input_line, after_line,
  read_input_lines, start_scan,
}

-- The whole number of seconds in front of the point.
abbrev pub seconds_of : Bytes → Option ℤ
seconds_of text = int_of (cut_at b'.' text)

-- The time step of a scan is the one that a text gives.
Steps : Bytes → ScanResult → Type 0
Steps text (failed step c) = Unit
Steps text (scanned s) = seconds_of text ≡ some s.timestep_seconds

steps-if :
    (test : Bool) (x y : ScanResult) (text : Bytes)
    → (test ≡ true → Steps text x)
    → (test ≡ false → Steps text y)
    → Steps text (if test then x else y)
steps-if true x y text h k = h refl
steps-if false x y text h k = k refl

module _ (text : Bytes) (s : InputScan) where
  or_failed-Steps :
      {A : Type 0} (o : Option A) (next : A → ScanResult)
      → ((a : A) → o ≡ some a → Steps text (next a))
      → Steps text (or_failed s o next)
  unfolding Steps
  or_failed-Steps none next h = tt
  or_failed-Steps (some a) next h = h a refl

  module _ (before : seconds_of text ≡ some s.timestep_seconds) where
    read_field-Steps :
        (is_start : Bool) (o : Option Field) (value : Bytes)
        → Steps text (read_field is_start o value s)
    unfolding Steps
    read_field-Steps is_start none value = before
    read_field-Steps true (some field) value = or_failed-Steps (int_of value) _ λ z e. before
    read_field-Steps false (some field) value = or_failed-Steps (int_of value) _ λ z e. before

    max_dom-Steps :
        (z : ℤ) (allowed : Bool)
        → Steps text (
            if not allowed
            then failed ErrorStep.validate s.control
            else scanned (record s { parsed_max_domains = z }))
    unfolding Steps
    max_dom-Steps z true = before
    max_dom-Steps z false = tt

read_date-Steps :
    (text : Bytes) (s : InputScan) (is_start : Bool) (key value : Bytes)
    → seconds_of text ≡ some s.timestep_seconds
    → Steps text (read_date is_start key value s)
read_date-Steps text s true key value before =
    read_field-Steps text (mark_have true s) before true (get_wrf_datetime_field key) value
read_date-Steps text s false key value before =
    read_field-Steps text (mark_have false s) before false (get_wrf_datetime_field key) value

read_time_step-Steps : (s : InputScan) (value : Bytes) → Steps value (read_time_step value s)
unfolding Steps
read_time_step-Steps s value = or_failed-Steps value s (seconds_of value) _ λ z e. e

kept :
    (text : Bytes) (s : InputScan)
    → seconds_of text ≡ some s.timestep_seconds
    → Steps text (scanned s)
unfolding Steps
kept text s h = h

rest-Steps :
    (line key value text : Bytes) (s : InputScan)
    → seconds_of text ≡ some s.timestep_seconds
    → Steps text (
        if starts_with (codes "start_") key || starts_with (codes "end_") key
        then read_date (starts_with (codes "start_") key) key value s
        else if key_is key (codes "restart_interval")
        then or_failed s (int_of value) (λ z. scanned (record s { restart_interval_minutes = z }))
        else if key_is key (codes "max_dom")
        then read_max_dom value s
        else if key_is key (codes "history_interval")
        then or_failed s
            (extract_namelist_rhs_preserving_list line)
            (λ rhs. scanned (record s { history_interval = rhs }))
        else if key_is key (codes "frames_per_outfile")
        then or_failed s
            (extract_namelist_rhs_preserving_list line)
            (λ rhs. scanned (record s { frames_per_outfile = rhs }))
        else scanned s)
rest-Steps line key value text s before =
    steps-if (starts_with (codes "start_") key || starts_with (codes "end_") key) _ _ text
      (λ is. read_date-Steps text s _ key value before)
      λ a.
        steps-if (key_is key (codes "restart_interval")) _ _ text
          (λ is.
            or_failed-Steps text s (int_of value) _
              λ z e. kept _ (record s { restart_interval_minutes = z }) before)
          λ b.
            steps-if (key_is key (codes "max_dom")) _ _ text
              (λ is.
                or_failed-Steps text s (int_of value) _
                  λ z e. max_dom-Steps text s before z (is_allowed z))
              λ c.
                steps-if (key_is key (codes "history_interval")) _ _ text
                  (λ is.
                    or_failed-Steps text s rhs _
                      λ z e. kept _ (record s { history_interval = z }) before)
                  λ d.
                    steps-if (key_is key (codes "frames_per_outfile")) _ _ text
                      (λ is.
                        or_failed-Steps text s rhs _
                          λ z e. kept _ (record s { frames_per_outfile = z }) before)
                      (λ f. kept _ s before)
  where
    rhs : Option Bytes
    rhs = extract_namelist_rhs_preserving_list line

read_key-Steps :
    (line key value text : Bytes) (s : InputScan)
    → seconds_of text ≡ some s.timestep_seconds
    → Steps (value_of (codes "time_step") (some (key, value)) text) (read_key line key value s)
unfolding read_key
read_key-Steps line key value text s before = elim (Bool-cases (equal key (codes "time_step"))) [
  | inl is ↦ rw is (read_time_step-Steps s value)
  | inr other ↦ rw other (rest-Steps line key value text s before)
]

read_input_line-Steps :
    (line text : Bytes) (s : InputScan)
    → seconds_of text ≡ some s.timestep_seconds
    → Steps (value_of (codes "time_step") (entry line) text) (read_input_line line s)
unfolding Steps read_input_line
read_input_line-Steps line text s before = elim (Bool-cases (is_empty trimmed)) [
  | inl empty ↦ rw empty before
  | inr more ↦ elim (Bool-cases (front trimmed == b'!')) [
    | inl comment ↦ rw (more, comment) before
    | inr pair ↦ rw (more, pair) (pair_steps (parse_namelist_key_value trimmed))
  ]
]
  where
    trimmed : Bytes
    trimmed = trim_whitespace line

    pair_steps :
        (o : Option (Bytes × Bytes))
        → Steps (value_of (codes "time_step") o text) (read_pair trimmed o s)
    pair_steps none = before
    pair_steps (some (key, value)) = read_key-Steps trimmed key value text s before

read_input_lines-Steps :
    (lines : List Bytes) (text : Bytes) (s : InputScan)
    → seconds_of text ≡ some s.timestep_seconds
    → Steps (last_value (codes "time_step") lines text) (read_input_lines lines s)
unfolding Steps read_input_lines
read_input_lines-Steps [] text s before = before
read_input_lines-Steps (line ∷ lines) text s before =
    rest _ (read_input_line line s) (read_input_line-Steps line text s before)
      (read_input_lines-Steps lines)
  where
    rest :
        (t : Bytes) (result : ScanResult)
        → Steps t result
        → ((t : Bytes) (s : InputScan)
            → seconds_of t ≡ some s.timestep_seconds
            → Steps (last_value (codes "time_step") lines t) (read_input_lines lines s))
        → Steps
            (last_value (codes "time_step") lines t)
            (after_line (λ next. read_input_lines lines next) result)
    rest t (failed step c) h again = tt
    rest t (scanned next) h again = again t next h

pub no_seconds : seconds_of (codes "0") ≡ some (pos 0)
unfolding int_of parse_int trim_whitespace ltrim rtrim is_trimmed_char from_chars scan_digits
    is_ascii_digit cut_at split_at
no_seconds = refl

pub read_input_lines-timestep :
    (lines : List Bytes) (c : WrfControl) (s : InputScan)
    → read_input_lines lines (start_scan c) ≡ scanned s
    → seconds_of (last_value (codes "time_step") lines (codes "0")) ≡ some s.timestep_seconds
unfolding Steps
read_input_lines-timestep lines c s e =
    subst (Steps (last_value (codes "time_step") lines (codes "0"))) e
      (read_input_lines-Steps lines (codes "0") (start_scan c) no_seconds)
