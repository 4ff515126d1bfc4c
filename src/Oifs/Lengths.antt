-- ===== src/Oifs/Lengths.antt =====
-- What the loop of `parse_oifs_control_input` (models/openifs/oifs_control.cpp) makes of UTSTEP.
use cpdn_control.Prelude.{
  ◌≡◌, refl, ap, ◌∙◌, inl, inr, false, Option, none, some, List, [], ◌∷◌, ◌==◌, ℤ, length,
  Bool-cases,
}
use cpdn_control.Text.{
  Bytes, codes, is_empty, front, equal, trim_whitespace, parse_namelist_key_value,
}
use cpdn_control.Text.Entries.{entry, value_of, last_value, value_of-other}
use cpdn_control.Wrf.Timing.{int_of}
use cpdn_control.Wrf.Input.TimeStep.{seconds_of}
use cpdn_control.Oifs.Input.{
  OifsScan, OifsResult, oifs_scanned, oifs_failed, read_int, read_oifs_key, read_oifs_pair,
  read_oifs_line, then_line, read_oifs_lines,
}

-- The time step of a scan is the one that a text gives.
unfoldable pub Steps : Bytes → OifsResult → Type 0
Steps text (oifs_failed step c) = Unit
Steps text (oifs_scanned s) = seconds_of text ≡ some s.timestep_seconds

read_int-Steps :
    (s : OifsScan) (o : Option ℤ) (store : ℤ → OifsScan) (text : Bytes)
    → ((z : ℤ) → o ≡ some z → seconds_of text ≡ some (store z).timestep_seconds)
    → Steps text (read_int s o store)
unfolding Steps
read_int-Steps s none store text h = tt
read_int-Steps s (some z) store text h = h z refl

module _ (key value text : Bytes) (s : OifsScan)
    (before : seconds_of text ≡ some s.timestep_seconds) where
  abbrev new_text : Bytes
  new_text = value_of (codes "UTSTEP") (some (key, value)) text

  same : equal key (codes "UTSTEP") ≡ false → seconds_of new_text ≡ some s.timestep_seconds
  same differ = ap seconds_of (value_of-other (codes "UTSTEP") key value text differ) ∙ before

  read_oifs_key-Steps : Steps new_text (read_oifs_key key value s)
  unfolding Steps read_oifs_key
  read_oifs_key-Steps = elim (Bool-cases (equal key (codes "UTSTEP"))) [
    | inl is ↦ rw is (read_int-Steps s (seconds_of value) _ value (λ z e. e))
    | inr not_step ↦ elim (Bool-cases (equal key (codes "NFRPOS"))) [
      | inl is ↦ rw (not_step, is) (read_int-Steps s (int_of value) _ text (λ z e. before))
      | inr not_output ↦ elim (Bool-cases (equal key (codes "NFRRES"))) [
        | inl is ↦
            rw (not_step, not_output, is) (read_int-Steps s (int_of value) _ text (λ z e. before))
        | inr not_restart ↦ elim (Bool-cases (equal key (codes "CNMEXP"))) [
          | inl is ↦ elim (Bool-cases (length value == 4)) [
            | inl four ↦ rw (not_step, not_output, not_restart, is, four) before
            | inr other ↦ rw (not_step, not_output, not_restart, is, other) tt
          ]
          | inr not_name ↦ elim (Bool-cases (equal key (codes "CUSTOP"))) [
            | inl is ↦ rw (not_step, not_output, not_restart, not_name, is) before
            | inr other ↦ rw (not_step, not_output, not_restart, not_name, other) before
          ]
        ]
      ]
    ]
  ]

read_oifs_line-Steps :
    (line text : Bytes) (s : OifsScan)
    → seconds_of text ≡ some s.timestep_seconds
    → Steps (value_of (codes "UTSTEP") (entry line) text) (read_oifs_line line s)
unfolding Steps read_oifs_line
read_oifs_line-Steps input_line text s before = elim (Bool-cases (is_empty line)) [
  | inl empty ↦ rw empty before
  | inr more ↦ elim (Bool-cases (front line == b'!')) [
    | inl comment ↦ rw (more, comment) before
    | inr pair ↦ rw (more, pair) (pair_steps (parse_namelist_key_value line))
  ]
]
  where
    line : Bytes
    line = trim_whitespace input_line

    pair_steps :
        (o : Option (Bytes × Bytes)) → Steps (value_of (codes "UTSTEP") o text) (read_oifs_pair o s)
    pair_steps none = before
    pair_steps (some (key, value)) = read_oifs_key-Steps key value text s before

pub read_oifs_lines-Steps :
    (lines : List Bytes) (text : Bytes) (s : OifsScan)
    → seconds_of text ≡ some s.timestep_seconds
    → Steps (last_value (codes "UTSTEP") lines text) (read_oifs_lines lines s)
unfolding Steps read_oifs_lines
read_oifs_lines-Steps [] text s before = before
read_oifs_lines-Steps (line ∷ lines) text s before =
    rest _ (read_oifs_line line s) (read_oifs_line-Steps line text s before)
      (read_oifs_lines-Steps lines)
  where
    rest :
        (t : Bytes) (r : OifsResult)
        → Steps t r
        → ((t : Bytes) (s : OifsScan)
            → seconds_of t ≡ some s.timestep_seconds
            → Steps (last_value (codes "UTSTEP") lines t) (read_oifs_lines lines s))
        → Steps
            (last_value (codes "UTSTEP") lines t)
            (then_line (λ next. read_oifs_lines lines next) r)
    rest t (oifs_failed step c) e f = tt
    rest t (oifs_scanned next) e f = f t next e
