-- ===== src/Oifs/Copyable.antt =====
-- `get_copyable_output_filenames` of the OpenIFS control (models/openifs/oifs_control.cpp).
use cpdn_control.Prelude.{
  ℕ, zero, suc, ◌+◌, ◌-◌, ◌*◌, ◌/◌, ◌<◌, ◌≤◌, ◌≡◌, refl, sym, ap, ◌∙◌, inl, inr, false, some, List,
  [], ◌++◌, append-nil, append_assoc, pos, pos_part, leb, leb_ℤ, ltb_ℤ, Bool-cases, arith,
}
use native.Mathlib.Nat.{suc-mul, le-div_iff_mul-le, div-lt_iff_lt-mul}
use cpdn_control.Text.{Bytes}
use cpdn_control.Oifs.{
  OifsControl, get_output_filenames, copyable_from, get_copyable_output_filenames,
}

-- The output files of the output steps i, i + 1, ..., `count` of them.
abbrev pub files_of_outputs : OifsControl → ℕ → ℕ → ℕ → List Bytes
files_of_outputs c interval i zero = []
files_of_outputs c interval i (suc count) =
    get_output_filenames c (i * interval) ++ files_of_outputs c interval (i + 1) count

le_mul : (i interval : ℕ) → 1 ≤ interval → i ≤ i * interval
le_mul zero interval h = omega arith
le_mul (suc i) interval h = omega (arith, suc-mul i interval, le_mul i interval h)

module _ (c : OifsControl) (current interval : ℕ) (h : 1 ≤ interval) where
  abbrev left : ℕ → ℕ
  left i = current / interval + 1 - i

  none_left : (i : ℕ) → current < i * interval → left i ≡ 0
  none_left i k = let b : (current / interval < i) = (div-lt_iff_lt-mul h).1 k in omega (arith, b)

  one_left : (i : ℕ) → i * interval ≤ current → left i ≡ suc (left (i + 1))
  one_left i k = let b : (i ≤ current / interval) = (le-div_iff_mul-le h).1 k in omega (arith, b)

  copyable_from_lem :
      (fuel i output_step : ℕ) (files : List Bytes)
      → output_step ≡ i * interval
      → i ≤ current + 1
      → current + 1 < fuel + i
      → copyable_from fuel c current interval output_step files
        ≡ some (files ++ files_of_outputs c interval i (left i))
  unfolding copyable_from
  copyable_from_lem zero i output_step files e le enough = absurd (omega arith)
  copyable_from_lem (suc fuel) i output_step files e le enough =
      elim (Bool-cases (leb output_step current)) [
        | inr ended ↦
            let nothing : files_of_outputs c interval i (left i) ≡ [] =
              ap (files_of_outputs c interval i) (none_left i (ground (arith, e, ended))) in
            rw (ended, nothing, append-nil files) refl
        | inl more ↦
            let within : i * interval ≤ current = ground (arith, e, more) in
            let below : i ≤ i * interval = le_mul i interval h in
            rw more (
              copyable_from_lem fuel (i + 1) (output_step + interval)
                (files ++ get_output_filenames c output_step) (ground (arith, e))
                (omega (arith, below, within)) (omega arith)
              ∙ ap (λ all. some all)
                  (append_assoc files _ _
                    ∙ ap (λ later. files ++ later)
                        (ap
                            (λ s.
                              get_output_filenames c s
                              ++ files_of_outputs c interval (i + 1) (left (i + 1)))
                            e
                          ∙ sym (ap (files_of_outputs c interval i) (one_left i within)))))
      ]

not_negative : (n : ℕ) → ltb_ℤ (pos n) (pos 0) ≡ false
not_negative n = ground arith

has_interval : (n : ℕ) → 1 ≤ n → leb_ℤ (pos n) (pos 0) ≡ false
has_interval n h = ground arith

-- The files that are safe to copy at a step are those of the output steps up to it, the first at 0 and
-- one for each output interval, in their order and no others. The loop ends within its fuel. The output
-- interval is positive.
pub oifs_copyable-files_of_outputs :
    (c : OifsControl) (current interval : ℕ)
    → c.output_interval ≡ pos interval
    → 1 ≤ interval
    → get_copyable_output_filenames c (pos current)
      ≡ some (files_of_outputs c interval 0 (current / interval + 1))
unfolding get_copyable_output_filenames
oifs_copyable-files_of_outputs c current interval e h =
    rw (not_negative current, ap (λ z. leb_ℤ z (pos 0)) e ∙ has_interval interval h, ap pos_part e)
      (copyable_from_lem c current interval h (current + 2) 0 0 [] (omega arith) (omega arith)
          (omega arith)
        ∙ ap (λ n. some (files_of_outputs c interval 0 n)) (omega arith))
