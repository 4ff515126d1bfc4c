-- ===== src/Oifs/Stop.antt =====
-- The end of a run that CUSTOP sets (models/openifs/oifs_control.cpp).
use cpdn_control.Prelude.{
  ℕ, zero, suc, ◌*◌, ◌/◌, ◌%◌, ◌≤◌, ◌≡◌, refl, sym, ap, ◌∙◌, ◌⊎◌, inl, inr, false, Option, none,
  some, ◌==◌, ℤ, pos, negsuc, pos_part, leb_ℤ, Bool-cases, arith,
}
use native.Mathlib.Nat.{suc-mul}
use cpdn_control.Text.{Bytes}
use cpdn_control.Calendar.Seconds.{whole_steps}
use cpdn_control.Wrf.Timing.{int_of}
use cpdn_control.Oifs.Input.{custop_unit, duration_steps, custop_steps, parse_oifs_custop}

-- The steps of a value: the count itself, or the whole time steps of its hours or days.
pub record IsRun (value : Bytes) (timestep_seconds : ℤ) (steps : ℕ) : Type 0 where
  pub count : ℕ
  pub counted : int_of (custop_unit value).0 ≡ some (pos count)
  pub count_pos : 1 ≤ count
  pub steps_pos : 1 ≤ steps
  pub length :
      (((custop_unit value).1 ≡ 0) × (steps ≡ count))
      ⊎ ((1 ≤ pos_part timestep_seconds)
          × (steps * pos_part timestep_seconds ≡ count * (custop_unit value).1))

positive_count : (z : ℤ) → leb_ℤ z (pos 0) ≡ false → (n : ℕ) × (z ≡ pos n) × (1 ≤ n)
positive_count (pos n) h = (n, refl, ground (arith, h))
positive_count (negsuc n) h = absurd (ground (arith, h))

duration_steps-whole :
    (total timestep steps : ℕ)
    → duration_steps total timestep ≡ some steps
    → steps * timestep ≡ total
unfolding duration_steps
duration_steps-whole total timestep steps h =
    let exact : total % timestep ≡ 0 = ground (arith, h) in
    let same : total / timestep ≡ steps = ground (arith, h) in
    ap (λ n. n * timestep) (sym same) ∙ sym (whole_steps total timestep exact)

unit_pos : (unit : ℕ) → (unit == 0) ≡ false → 1 ≤ unit
unit_pos unit k = ground (arith, k)

some_steps :
    (steps timestep count unit : ℕ)
    → steps * timestep ≡ count * unit
    → 1 ≤ count
    → (unit == 0) ≡ false
    → 1 ≤ steps
some_steps zero timestep zero unit e h k = elim h [ ]
some_steps zero timestep (suc count) unit e h k =
    absurd (omega (arith, e, suc-mul count unit, unit_pos unit k))
some_steps (suc steps) timestep count unit e h k = omega arith

custop_steps-IsRun :
    (value : Bytes) (timestep_seconds : ℤ) (read : Option ℤ) (steps : ℕ)
    → int_of (custop_unit value).0 ≡ read
    → custop_steps timestep_seconds (custop_unit value).1 read ≡ some steps
    → IsRun value timestep_seconds steps
unfolding custop_steps
custop_steps-IsRun value ts none steps e h = absurd (ground (arith, h))
custop_steps-IsRun value ts (some z) steps e h = elim (Bool-cases (leb_ℤ z (pos 0))) [
  | inl none_left ↦ absurd (ground (arith, h, none_left))
  | inr some_left ↦
      let (count, same, positive) = positive_count z some_left in
      let counted : int_of (custop_unit value).0 ≡ some (pos count) = e ∙ ap some same in
      elim (Bool-cases ((custop_unit value).1 == 0)) [
        | inl bare ↦
            let all : steps ≡ count = ground (arith, h, some_left, bare, ap pos_part same) in
            record {
              count = count;
              counted = counted;
              count_pos = positive;
              steps_pos = omega (arith, all, positive);
              length = inl (ground (arith, bare), all);
            }
        | inr unit ↦
            let timed : leb_ℤ ts (pos 0) ≡ false = ground (arith, h, some_left, unit) in
            let found : duration_steps (pos_part z * (custop_unit value).1) (pos_part ts)
                ≡ some steps =
              ground (arith, h, some_left, unit, timed) in
            let whole : steps * pos_part ts ≡ count * (custop_unit value).1 =
              duration_steps-whole _ _ steps found
              ∙ ap (λ z. pos_part z * (custop_unit value).1) same in
            record {
              count = count;
              counted = counted;
              count_pos = positive;
              steps_pos =
                  some_steps steps (pos_part ts) count (custop_unit value).1 whole positive unit;
              length = inr (ground (arith, timed), whole);
            }
      ]
]

-- If the stop of the run is accepted, its value is a positive count, of the unit in front, and the steps
-- are that count where it is of time steps; where it is of hours or days, the time step is
-- positive and the steps take exactly as many seconds as the hours or days.
pub parse_oifs_custop-IsRun :
    (value : Bytes) (timestep_seconds : ℤ) (steps : ℕ)
    → parse_oifs_custop value timestep_seconds ≡ some steps
    → IsRun value timestep_seconds steps
unfolding parse_oifs_custop
parse_oifs_custop-IsRun value ts steps h =
    custop_steps-IsRun value ts (int_of (custop_unit value).0) steps refl (ground (arith, h))
