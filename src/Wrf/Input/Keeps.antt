-- ===== src/Wrf/Input/Keeps.antt =====
-- What the loop of `parse_control_input` (models/wrf/wrf_control.cpp) keeps true of the values read.
use cpdn_control.Prelude.{
  ◌≡◌, refl, ◌⊎◌, inl, inr, Bool, true, false, not, ◌||◌, Option, none, some, List, [], ◌∷◌, ◌==◌,
  ℤ, pos, if◌then◌else◌,
}
use cpdn_control.Text.{
  Bytes, codes, is_empty, front, starts_with, cut_at, trim_whitespace, parse_namelist_key_value,
}
use cpdn_control.Wrf.Timing.{int_of}
use cpdn_control.Wrf.Domains.{WrfControl, is_allowed}
use cpdn_control.Wrf.Namelist.{Field, extract_namelist_rhs_preserving_list, get_wrf_datetime_field}
use cpdn_control.Wrf.Input.{
  ErrorStep, InputScan, ScanResult, scanned, failed, or_failed, read_time_step, read_field,
  mark_have, key_is, read_date, read_max_dom, read_key, read_pair, read_input_line, after_line,
  read_input_lines, start_scan,
}

-- A time step or a number of domains that was read is the control's, and one that is supported.
pub record IsRead (s : InputScan) : Type 0 where
  pub timed : (s.timestep_seconds ≡ pos 0) ⊎ (s.control.timestep_seconds ≡ s.timestep_seconds)
  pub counted : (s.parsed_max_domains ≡ pos 0) ⊎ (is_allowed s.parsed_max_domains ≡ true)

abbrev pub ReadBy : ScanResult → Type 0
ReadBy (scanned s) = IsRead s
ReadBy (failed step c) = Unit

pub record Keeps (result : ScanResult) : Type 0 where
  pub read_by : ReadBy result

scanned-Keeps : (s : InputScan) → IsRead s → Keeps (scanned s)
scanned-Keeps s r = record { read_by = r }

failed-Keeps : (step : ErrorStep) (c : WrfControl) → Keeps (failed step c)
failed-Keeps step c = record { read_by = tt }

module _ (s : InputScan) (r : IsRead s) where
  or_failed-Keeps :
      {A : Type 0} (o : Option A) (next : A → ScanResult)
      → ((a : A) → Keeps (next a))
      → Keeps (or_failed s o next)
  or_failed-Keeps none next h = failed-Keeps _ _
  or_failed-Keeps (some a) next h = h a

  read_time_step-Keeps : (value : Bytes) → Keeps (read_time_step value s)
  read_time_step-Keeps value =
      or_failed-Keeps (int_of (cut_at b'.' value)) _
        λ z. scanned-Keeps _ (record { timed = inr refl; counted = r.counted })

  mark_have-IsRead : (is_start : Bool) → IsRead (mark_have is_start s)
  mark_have-IsRead true = record { timed = r.timed; counted = r.counted }
  mark_have-IsRead false = record { timed = r.timed; counted = r.counted }

  read_field-Keeps :
      (is_start : Bool) (field : Option Field) (value : Bytes)
      → Keeps (read_field is_start field value s)
  read_field-Keeps is_start none value = scanned-Keeps _ r
  read_field-Keeps true (some field) value =
      or_failed-Keeps (int_of value) _
        λ z. scanned-Keeps _ (record { timed = r.timed; counted = r.counted })
  read_field-Keeps false (some field) value =
      or_failed-Keeps (int_of value) _
        λ z. scanned-Keeps _ (record { timed = r.timed; counted = r.counted })

  restart_interval-Keeps :
      (o : Option ℤ)
      → Keeps (or_failed s o (λ z. scanned (record s { restart_interval_minutes = z })))
  restart_interval-Keeps none = failed-Keeps _ _
  restart_interval-Keeps (some z) =
      scanned-Keeps _ (record { timed = r.timed; counted = r.counted })

  history_interval-Keeps :
      (o : Option Bytes)
      → Keeps (or_failed s o (λ rhs. scanned (record s { history_interval = rhs })))
  history_interval-Keeps none = failed-Keeps _ _
  history_interval-Keeps (some rhs) =
      scanned-Keeps _ (record { timed = r.timed; counted = r.counted })

  frames_per_outfile-Keeps :
      (o : Option Bytes)
      → Keeps (or_failed s o (λ rhs. scanned (record s { frames_per_outfile = rhs })))
  frames_per_outfile-Keeps none = failed-Keeps _ _
  frames_per_outfile-Keeps (some rhs) =
      scanned-Keeps _ (record { timed = r.timed; counted = r.counted })

  max_dom-Keeps :
      (z : ℤ) (b : Bool)
      → is_allowed z ≡ b
      → Keeps (
          if not b
          then failed ErrorStep.validate s.control
          else scanned (record s { parsed_max_domains = z }))
  max_dom-Keeps z true h = scanned-Keeps _ (record { timed = r.timed; counted = inr h })
  max_dom-Keeps z false h = failed-Keeps _ _

  read_max_dom-Keeps : (value : Bytes) → Keeps (read_max_dom value s)
  read_max_dom-Keeps value =
      or_failed-Keeps (int_of value) _ (λ z. max_dom-Keeps z (is_allowed z) refl)

  kept-if : (b : Bool) (x y : ScanResult) → Keeps x → Keeps y → Keeps (if b then x else y)
  kept-if true x y h k = h
  kept-if false x y h k = k

read_key-Keeps :
    (line key value : Bytes) (s : InputScan) → IsRead s → Keeps (read_key line key value s)
unfolding read_key
read_key-Keeps line key value s r =
    kept-if s r (key_is key (codes "time_step")) _ _ (read_time_step-Keeps s r value) (
      kept-if s r (starts_with (codes "start_") key || starts_with (codes "end_") key) _ _
        (dated (starts_with (codes "start_") key))
        (kept-if s r (key_is key (codes "restart_interval")) _ _
          (restart_interval-Keeps s r (int_of value))
          (kept-if s r (key_is key (codes "max_dom")) _ _ (read_max_dom-Keeps s r value) (
            kept-if s r (key_is key (codes "history_interval")) _ _ (history_interval-Keeps s r rhs)
              (kept-if s r (key_is key (codes "frames_per_outfile")) _ _
                (frames_per_outfile-Keeps s r rhs) (scanned-Keeps s r))))))
  where
    rhs : Option Bytes
    rhs = extract_namelist_rhs_preserving_list line

    dated : (is_start : Bool) → Keeps (read_date is_start key value s)
    dated is_start =
        read_field-Keeps (mark_have is_start s) (mark_have-IsRead s r is_start) is_start
          (get_wrf_datetime_field key) value

read_pair-Keeps :
    (line : Bytes) (pair : Option (Bytes × Bytes)) (s : InputScan)
    → IsRead s
    → Keeps (read_pair line pair s)
read_pair-Keeps line none s r = scanned-Keeps s r
read_pair-Keeps line (some (key, value)) s r = read_key-Keeps line key value s r

read_input_line-Keeps : (line : Bytes) (s : InputScan) → IsRead s → Keeps (read_input_line line s)
unfolding read_input_line
read_input_line-Keeps line s r = kept-if s r (is_empty text) _ _ (scanned-Keeps s r) (
    kept-if s r (front text == b'!') _ _ (scanned-Keeps s r)
      (read_pair-Keeps text (parse_namelist_key_value text) s r))
  where
    text : Bytes
    text = trim_whitespace line

after_line-Keeps :
    (next : InputScan → ScanResult) (result : ScanResult)
    → ((s : InputScan) → IsRead s → Keeps (next s))
    → Keeps result
    → Keeps (after_line next result)
after_line-Keeps next (failed step c) h k = failed-Keeps _ _
after_line-Keeps next (scanned s) h k = h s k.read_by

pub read_input_lines-Keeps :
    (lines : List Bytes) (s : InputScan) → IsRead s → Keeps (read_input_lines lines s)
unfolding read_input_lines
read_input_lines-Keeps [] s r = scanned-Keeps s r
read_input_lines-Keeps (line ∷ lines) s r =
    after_line-Keeps _ (read_input_line line s) (read_input_lines-Keeps lines)
      (read_input_line-Keeps line s r)

pub start_scan-IsRead : (c : WrfControl) → IsRead (start_scan c)
start_scan-IsRead c = record { timed = inl refl; counted = inl refl }
