-- ===== src/Oifs/Lines.antt =====
-- What the loop of `parse_oifs_control_input` (models/openifs/oifs_control.cpp) keeps: the experiment's
-- name, and the last value of CUSTOP.
use cpdn_control.Prelude.{
  ◌≡◌, refl, sym, ◌⊎◌, inl, inr, true, false, Option, none, some, List, [], ◌∷◌, ◌==◌, ℤ, length,
  Bool-cases, arith,
}
use cpdn_control.Text.{
  Bytes, codes, is_empty, front, equal, trim_whitespace, parse_namelist_key_value,
}
use cpdn_control.Text.Entries.{entry, value_of, last_value, equal-other, value_of-other}
use mathlib.Core.Path.{subst}
use cpdn_control.Oifs.{OifsControl}
use cpdn_control.Oifs.Input.{
  OifsScan, OifsResult, oifs_scanned, oifs_failed, read_int, read_oifs_key, read_oifs_pair,
  read_oifs_line, then_line, read_oifs_lines,
}

-- No experiment is known yet, or one of four characters.
abbrev pub HasExperiment : OifsControl → Type 0
HasExperiment c = (c.experiment_id ≡ []) ⊎ (length c.experiment_id ≡ 4)

unfoldable pub Reads : OifsResult → Type 0
Reads (oifs_failed step c) = Unit
Reads (oifs_scanned s) = HasExperiment s.control

read_int-Reads :
    (s : OifsScan) (o : Option ℤ) (store : ℤ → OifsScan)
    → ((z : ℤ) → HasExperiment (store z).control)
    → Reads (read_int s o store)
unfolding Reads
read_int-Reads s none store h = tt
read_int-Reads s (some z) store h = h z

read_oifs_key-Reads :
    (key value : Bytes) (s : OifsScan) → HasExperiment s.control → Reads (read_oifs_key key value s)
unfolding Reads read_oifs_key
read_oifs_key-Reads key value s h = elim (Bool-cases (equal key (codes "UTSTEP"))) [
  | inl is ↦ rw is (read_int-Reads s _ _ (λ z. h))
  | inr not_step ↦ elim (Bool-cases (equal key (codes "NFRPOS"))) [
    | inl is ↦ rw (not_step, is) (read_int-Reads s _ _ (λ z. h))
    | inr not_output ↦ elim (Bool-cases (equal key (codes "NFRRES"))) [
      | inl is ↦ rw (not_step, not_output, is) (read_int-Reads s _ _ (λ z. h))
      | inr not_restart ↦ elim (Bool-cases (equal key (codes "CNMEXP"))) [
        | inl is ↦ elim (Bool-cases (length value == 4)) [
          | inl four ↦ rw (not_step, not_output, not_restart, is, four) (inr (ground (arith, four)))
          | inr other ↦ rw (not_step, not_output, not_restart, is, other) tt
        ]
        | inr not_name ↦ elim (Bool-cases (equal key (codes "CUSTOP"))) [
          | inl is ↦ rw (not_step, not_output, not_restart, not_name, is) h
          | inr other ↦ rw (not_step, not_output, not_restart, not_name, other) h
        ]
      ]
    ]
  ]
]

read_oifs_pair-Reads :
    (o : Option (Bytes × Bytes)) (s : OifsScan)
    → HasExperiment s.control
    → Reads (read_oifs_pair o s)
unfolding Reads
read_oifs_pair-Reads none s h = h
read_oifs_pair-Reads (some (key, value)) s h = read_oifs_key-Reads key value s h

read_oifs_line-Reads :
    (line : Bytes) (s : OifsScan) → HasExperiment s.control → Reads (read_oifs_line line s)
unfolding Reads read_oifs_line
read_oifs_line-Reads input_line s h = elim (Bool-cases (is_empty line)) [
  | inl empty ↦ rw empty h
  | inr text ↦ elim (Bool-cases (front line == b'!')) [
    | inl comment ↦ rw (text, comment) h
    | inr entry ↦ rw (text, entry) (read_oifs_pair-Reads (parse_namelist_key_value line) s h)
  ]
]
  where
    line : Bytes
    line = trim_whitespace input_line

then_line-Reads :
    (next : OifsScan → OifsResult)
    → ((s : OifsScan) → HasExperiment s.control → Reads (next s))
    → (r : OifsResult) → Reads r
    → Reads (then_line next r)
unfolding Reads
then_line-Reads next f (oifs_failed step c) h = tt
then_line-Reads next f (oifs_scanned s) h = f s h

pub read_oifs_lines-Reads :
    (lines : List Bytes) (s : OifsScan) → HasExperiment s.control → Reads (read_oifs_lines lines s)
unfolding Reads read_oifs_lines
read_oifs_lines-Reads [] s h = h
read_oifs_lines-Reads (line ∷ lines) s h =
    then_line-Reads (read_oifs_lines lines) (read_oifs_lines-Reads lines) (read_oifs_line line s)
      (read_oifs_line-Reads line s h)

-- The value of CUSTOP that a scan leaves.
unfoldable pub Stops : Bytes → OifsResult → Type 0
Stops value (oifs_failed step c) = Unit
Stops value (oifs_scanned s) = s.custop_value ≡ value

read_int-Stops :
    (s : OifsScan) (o : Option ℤ) (store : ℤ → OifsScan) (value : Bytes)
    → ((z : ℤ) → (store z).custop_value ≡ value)
    → Stops value (read_int s o store)
unfolding Stops
read_int-Stops s none store value h = tt
read_int-Stops s (some z) store value h = h z

module _ (key text : Bytes) (s : OifsScan) where
  -- A key that is another name leaves the value of CUSTOP alone.
  another :
      (name : Bytes)
      → equal key name ≡ true
      → equal name (codes "CUSTOP") ≡ false
      → s.custop_value ≡ value_of (codes "CUSTOP") (some (key, text)) s.custop_value
  another name is differ =
      sym
        (value_of-other (codes "CUSTOP") key text s.custop_value (equal-other key name _ is differ))

  read_oifs_key-Stops :
      Stops (value_of (codes "CUSTOP") (some (key, text)) s.custop_value) (read_oifs_key key text s)
  unfolding Stops read_oifs_key equal
  read_oifs_key-Stops = elim (Bool-cases (equal key (codes "UTSTEP"))) [
    | inl is ↦ rw is (read_int-Stops s _ _ _ (λ z. another (codes "UTSTEP") is refl))
    | inr not_step ↦ elim (Bool-cases (equal key (codes "NFRPOS"))) [
      | inl is ↦ rw (not_step, is) (read_int-Stops s _ _ _ (λ z. another (codes "NFRPOS") is refl))
      | inr not_output ↦ elim (Bool-cases (equal key (codes "NFRRES"))) [
        | inl is ↦
            rw (not_step, not_output, is)
              (read_int-Stops s _ _ _ (λ z. another (codes "NFRRES") is refl))
        | inr not_restart ↦ elim (Bool-cases (equal key (codes "CNMEXP"))) [
          | inl is ↦ elim (Bool-cases (length text == 4)) [
            | inl four ↦
                rw (not_step, not_output, not_restart, is, four) (another (codes "CNMEXP") is refl)
            | inr other ↦ rw (not_step, not_output, not_restart, is, other) tt
          ]
          | inr not_name ↦ elim (Bool-cases (equal key (codes "CUSTOP"))) [
            | inl is ↦ rw (not_step, not_output, not_restart, not_name, is) refl
            | inr other ↦ rw (not_step, not_output, not_restart, not_name, other) refl
          ]
        ]
      ]
    ]
  ]

read_oifs_line-Stops :
    (line : Bytes) (s : OifsScan)
    → Stops (value_of (codes "CUSTOP") (entry line) s.custop_value) (read_oifs_line line s)
unfolding Stops read_oifs_line
read_oifs_line-Stops input_line s = elim (Bool-cases (is_empty line)) [
  | inl empty ↦ rw empty refl
  | inr text ↦ elim (Bool-cases (front line == b'!')) [
    | inl comment ↦ rw (text, comment) refl
    | inr pair ↦ rw (text, pair) (pair_stops (parse_namelist_key_value line))
  ]
]
  where
    line : Bytes
    line = trim_whitespace input_line

    pair_stops :
        (o : Option (Bytes × Bytes))
        → Stops (value_of (codes "CUSTOP") o s.custop_value) (read_oifs_pair o s)
    pair_stops none = refl
    pair_stops (some (key, value)) = read_oifs_key-Stops key value s

pub read_oifs_lines-Stops :
    (lines : List Bytes) (s : OifsScan)
    → Stops (last_value (codes "CUSTOP") lines s.custop_value) (read_oifs_lines lines s)
unfolding Stops read_oifs_lines
read_oifs_lines-Stops [] s = refl
read_oifs_lines-Stops (line ∷ lines) s =
    rest _ (read_oifs_line line s) (read_oifs_line-Stops line s) (read_oifs_lines-Stops lines)
  where
    rest :
        (value : Bytes) (r : OifsResult)
        → Stops value r
        → ((s : OifsScan)
            → Stops (last_value (codes "CUSTOP") lines s.custop_value) (read_oifs_lines lines s))
        → Stops
            (last_value (codes "CUSTOP") lines value)
            (then_line (λ next. read_oifs_lines lines next) r)
    rest value (oifs_failed step c) e f = tt
    rest value (oifs_scanned next) e f =
        subst (λ v. Stops (last_value (codes "CUSTOP") lines v) (read_oifs_lines lines next)) e
          (f next)
