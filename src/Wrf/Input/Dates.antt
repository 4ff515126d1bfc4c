-- ===== src/Wrf/Input/Dates.antt =====
-- The dates that `parse_control_input` (models/wrf/wrf_control.cpp) reads, field by field.
use cpdn_control.Prelude.{
  ◌≡◌, refl, sym, ap, ◌∙◌, inl, inr, Bool, true, false, not, Option, none, some, List, [], ◌∷◌,
  ◌==◌, ℤ, pos, Bool-cases, arith, if◌then◌else◌,
}
use mathlib.Core.Path.{subst}
use cpdn_control.Text.{
  Bytes, codes, is_empty, front, equal, starts_with, cut_at, trim_whitespace,
  parse_namelist_key_value, is_ascii_digit, rtrim, ltrim, is_trimmed_char,
}
use cpdn_control.Text.Equal.{equal_sound}
use cpdn_control.Text.Entries.{entry, value_of, last_value}
use cpdn_control.Text.Number.{parse_int, from_chars, scan_digits}
use cpdn_control.Calendar.{DateTime}
use cpdn_control.Wrf.Timing.{int_of}
use cpdn_control.Wrf.Domains.{WrfControl, is_allowed}
use cpdn_control.Wrf.Namelist.{
  Field, get_wrf_datetime_field, set_field, extract_namelist_rhs_preserving_list,
}
use cpdn_control.Wrf.Input.{
  ErrorStep, ControlFile, missing, closed, opened, InputScan, ScanResult, scanned, failed,
  or_failed, read_field, mark_have, key_is, read_date, read_max_dom, read_key, read_pair,
  read_input_line, after_line, read_input_lines, start_scan,
}
use cpdn_control.Wrf.Input.Fields.{
  field_name, date_of, start_key, date_key, field_name-date_key, not_name, field_name-other,
  IsField, Reads, scanned-Reads, failed-Reads, reads-if, mark_have-date, new_text, unchanged,
  set_date, no_field,
}

-- The field that a key names is read into the date that it is of.
read_some-Reads :
    (b is_start : Bool) (f g : Field) (key value text : Bytes) (s : InputScan) (o : Option ℤ)
    → int_of value ≡ o
    → start_key key ≡ is_start
    → get_wrf_datetime_field key ≡ some g
    → IsField text f (date_of b s)
    → Reads b f (new_text b f key value text) (elim (is_start) [
      | true ↦
          or_failed s o
            (λ z. scanned (record s { start_datetime = set_field g z s.start_datetime }))
      | false ↦
          or_failed s o (λ z. scanned (record s { end_datetime = set_field g z s.end_datetime }))
    ])
unfolding Reads
read_some-Reads b true f g key value text s none e k named r = tt
read_some-Reads b false f g key value text s none e k named r = tt
read_some-Reads true true f g key value text s (some z) e k named r =
    set_date true f key value text s.start_datetime g z e k named r
read_some-Reads false true f g key value text s (some z) e k named r =
    unchanged false f key value text s (field_name-other key true f k) r
read_some-Reads true false f g key value text s (some z) e k named r =
    unchanged true f key value text s (field_name-other key false f k) r
read_some-Reads false false f g key value text s (some z) e k named r =
    set_date false f key value text s.end_datetime g z e k named r

read_field-Reads :
    (b is_start : Bool) (f : Field) (key value text : Bytes) (s : InputScan) (o : Option Field)
    → get_wrf_datetime_field key ≡ o
    → start_key key ≡ is_start
    → IsField text f (date_of b s)
    → Reads b f (new_text b f key value text) (read_field is_start o value s)
unfolding Reads
read_field-Reads b is_start f key value text s none named k r =
    unchanged b f key value text s (no_field b f key value text named) r
read_field-Reads b true f key value text s (some g) named k r =
    read_some-Reads b true f g key value text s (int_of value) refl k named r
read_field-Reads b false f key value text s (some g) named k r =
    read_some-Reads b false f g key value text s (int_of value) refl k named r

module _ (b : Bool) (f : Field) where
  read_date-Reads :
      (is_start : Bool) (key value text : Bytes) (s : InputScan)
      → start_key key ≡ is_start
      → IsField text f (date_of b s)
      → Reads b f (new_text b f key value text) (read_date is_start key value s)
  read_date-Reads is_start key value text s k r =
      read_field-Reads b is_start f key value text (mark_have is_start s)
        (get_wrf_datetime_field key) refl k
        (subst (IsField text f) (sym (mark_have-date b f is_start s)) r)

  -- A key called `name`, which is no name of a date's field.
  other_key :
      (key name : Bytes)
      → equal key name ≡ true
      → date_key name ≡ false
      → equal key (field_name b f) ≡ false
  other_key key name is undated =
      not_name key _ date_key false (ap date_key (equal_sound key name is) ∙ undated)
        (field_name-date_key b f)

  read_key-Reads :
      (line key value text : Bytes) (s : InputScan)
      → IsField text f (date_of b s)
      → Reads b f (new_text b f key value text) (read_key line key value s)
  unfolding read_key starts_with
  read_key-Reads line key value text s r =
      reads-if b f (key_is key (codes "time_step")) _ _ _
        (λ is. timed (same _ is refl) (int_of (cut_at b'.' value)))
        λ n.
          reads-if b f (date_key key) _ _ _
            (λ is. read_date-Reads (start_key key) key value text s refl r)
            λ undated. undated_key (
              unchanged b f key value text s
                (not_name key _ date_key false undated (field_name-date_key b f)) r)
    where
      same :
          (name : Bytes)
          → equal key name ≡ true
          → date_key name ≡ false
          → IsField (new_text b f key value text) f (date_of b s)
      same name is undated = unchanged b f key value text s (other_key key name is undated) r

      timed :
          IsField (new_text b f key value text) f (date_of b s)
          → (o : Option ℤ)
          → Reads b f (new_text b f key value text) (
              or_failed s o λ z. scanned (record s {
                timestep_seconds = z;
                control = record s.control { timestep_seconds = z };
              }))
      timed off none = failed-Reads b f _ _ _
      timed off (some z) =
          scanned-Reads b f _
            (record s { timestep_seconds = z; control = record s.control { timestep_seconds = z } })
            off

      restart_read :
          IsField (new_text b f key value text) f (date_of b s)
          → (o : Option ℤ)
          → Reads b f
              (new_text b f key value text)
              (or_failed s o (λ z. scanned (record s { restart_interval_minutes = z })))
      restart_read off none = failed-Reads b f _ _ _
      restart_read off (some z) =
          scanned-Reads b f _ (record s { restart_interval_minutes = z }) off

      history_read :
          IsField (new_text b f key value text) f (date_of b s)
          → (o : Option Bytes)
          → Reads b f
              (new_text b f key value text)
              (or_failed s o (λ rhs. scanned (record s { history_interval = rhs })))
      history_read off none = failed-Reads b f _ _ _
      history_read off (some z) = scanned-Reads b f _ (record s { history_interval = z }) off

      frames_read :
          IsField (new_text b f key value text) f (date_of b s)
          → (o : Option Bytes)
          → Reads b f
              (new_text b f key value text)
              (or_failed s o (λ rhs. scanned (record s { frames_per_outfile = rhs })))
      frames_read off none = failed-Reads b f _ _ _
      frames_read off (some z) = scanned-Reads b f _ (record s { frames_per_outfile = z }) off

      domains_read :
          IsField (new_text b f key value text) f (date_of b s)
          → (o : Option ℤ)
          → Reads b f (new_text b f key value text) (
              or_failed s o λ z.
                if not (is_allowed z)
                then failed ErrorStep.validate s.control
                else scanned (record s { parsed_max_domains = z }))
      domains_read off none = failed-Reads b f _ _ _
      domains_read off (some z) =
          reads-if b f (not (is_allowed z)) _ _ _ (λ p. failed-Reads b f _ _ _)
            (λ p. scanned-Reads b f _ (record s { parsed_max_domains = z }) off)

      undated_key :
          IsField (new_text b f key value text) f (date_of b s)
          → Reads b f (new_text b f key value text) (
              if key_is key (codes "restart_interval")
              then or_failed s
                  (int_of value)
                  (λ z. scanned (record s { restart_interval_minutes = z }))
              else if key_is key (codes "max_dom")
              then read_max_dom value s
              else if key_is key (codes "history_interval")
              then or_failed s
                  (extract_namelist_rhs_preserving_list line)
                  (λ rhs. scanned (record s { history_interval = rhs }))
              else if key_is key (codes "frames_per_outfile")
              then or_failed s
                  (extract_namelist_rhs_preserving_list line)
                  (λ rhs. scanned (record s { frames_per_outfile = rhs }))
              else scanned s)
      undated_key off =
          reads-if b f (key_is key (codes "restart_interval")) _ _ _
            (λ p. restart_read off (int_of value))
            λ p.
              reads-if b f (key_is key (codes "max_dom")) _ _ _
                (λ p. domains_read off (int_of value))
                λ p.
                  reads-if b f (key_is key (codes "history_interval")) _ _ _
                    (λ p. history_read off (extract_namelist_rhs_preserving_list line))
                    λ p.
                      reads-if b f (key_is key (codes "frames_per_outfile")) _ _ _
                        (λ p. frames_read off (extract_namelist_rhs_preserving_list line))
                        λ p. scanned-Reads b f _ _ off

  read_input_line-Reads :
      (line text : Bytes) (s : InputScan)
      → IsField text f (date_of b s)
      → Reads b f (value_of (field_name b f) (entry line) text) (read_input_line line s)
  unfolding Reads read_input_line
  read_input_line-Reads line text s r = elim (Bool-cases (is_empty trimmed)) [
    | inl empty ↦ rw empty r
    | inr more ↦ elim (Bool-cases (front trimmed == b'!')) [
      | inl comment ↦ rw (more, comment) r
      | inr pair ↦ rw (more, pair) (pair_read (parse_namelist_key_value trimmed))
    ]
  ]
    where
      trimmed : Bytes
      trimmed = trim_whitespace line

      pair_read :
          (o : Option (Bytes × Bytes))
          → Reads b f (value_of (field_name b f) o text) (read_pair trimmed o s)
      pair_read none = r
      pair_read (some (key, value)) = read_key-Reads trimmed key value text s r

  read_input_lines-Reads :
      (lines : List Bytes) (text : Bytes) (s : InputScan)
      → IsField text f (date_of b s)
      → Reads b f (last_value (field_name b f) lines text) (read_input_lines lines s)
  unfolding Reads read_input_lines
  read_input_lines-Reads [] text s r = r
  read_input_lines-Reads (line ∷ lines) text s r =
      rest _ (read_input_line line s) (read_input_line-Reads line text s r)
        (read_input_lines-Reads lines)
    where
      rest :
          (t : Bytes) (result : ScanResult)
          → Reads b f t result
          → ((t : Bytes) (s : InputScan)
              → IsField t f (date_of b s)
              → Reads b f (last_value (field_name b f) lines t) (read_input_lines lines s))
          → Reads b f
              (last_value (field_name b f) lines t)
              (after_line (λ next. read_input_lines lines next) result)
      rest t (failed step c) h again = tt
      rest t (scanned next) h again = again t next h

  no_date-IsField : (c : WrfControl) → IsField (codes "0") f (date_of b (start_scan c))
  unfolding int_of parse_int trim_whitespace from_chars scan_digits is_ascii_digit rtrim ltrim
      is_trimmed_char
  no_date-IsField c = record { number = pos 0; read = refl; same = ground arith }

-- The lines of a namelist that can be read.
abbrev pub lines_of : ControlFile → List Bytes
lines_of missing = []
lines_of closed = []
lines_of (opened lines) = lines

-- The fields of a date are those that the last entries with their names hold; a field that has none
-- is 0.
abbrev pub IsDateOf : Bool → List Bytes → DateTime → Type 0
IsDateOf b lines d = (f : Field) → IsField (last_value (field_name b f) lines (codes "0")) f d

pub read_input_lines-IsDateOf :
    (b : Bool) (lines : List Bytes) (c : WrfControl) (s : InputScan)
    → read_input_lines lines (start_scan c) ≡ scanned s
    → IsDateOf b lines (date_of b s)
unfolding Reads
read_input_lines-IsDateOf b lines c s e f =
    subst (Reads b f (last_value (field_name b f) lines (codes "0"))) e
      (read_input_lines-Reads b f lines (codes "0") (start_scan c) (no_date-IsField b f c))
