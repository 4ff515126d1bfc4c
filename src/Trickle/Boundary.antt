-- ===== src/Trickle/Boundary.antt =====
-- `crossed_trickle_boundary` (api/trickle_handler.cpp).
use cpdn_control.Prelude.{
  ℕ, ◌+◌, ◌*◌, ◌/◌, ◌≤◌, ◌<◌, ◌≡◌, ◌↔◌, true, List, [], ◌∷◌, pos, arith, if◌then◌else◌,
}
use cpdn_control.Trickle.{crossed_trickle_boundary}
use native.Mathlib.Nat.{le-div_iff_mul-le, div-lt_iff_lt-mul, lt-div-mul-add, div-mul-le_self}

crossed-quotients :
    (previous observed freq : ℕ)
    → 1 ≤ freq
    → (crossed_trickle_boundary (pos previous) (pos observed) (pos freq) ≡ true)
      ↔ ((previous < observed) × (previous / freq < observed / freq))
unfolding crossed_trickle_boundary
crossed-quotients previous observed freq h = ((λ e. ground arith), λ e. ground arith)

-- A boundary was crossed exactly if a multiple of the frequency is above the earlier step, and not
-- above the step observed.
pub crossed_trickle_boundary_lem :
    (previous observed freq : ℕ)
    → 1 ≤ freq
    → (crossed_trickle_boundary (pos previous) (pos observed) (pos freq) ≡ true)
      ↔ ((k : ℕ) × (previous < k * freq) × (k * freq ≤ observed))
crossed_trickle_boundary_lem previous observed freq h = (
  (λ e.
      let (p, q) = (crossed-quotients previous observed freq h).0 e in
      (observed / freq, (div-lt_iff_lt-mul h).0 q, div-mul-le_self observed freq)),
  λ m.
      let (k, p, q) = m in
      let r = (div-lt_iff_lt-mul h).1 p in
      let s = (le-div_iff_mul-le h).1 q in
      (crossed-quotients previous observed freq h).1 (omega arith, omega (arith, r, s)),
)

-- The trickles of a run that observes the steps `steps` in turn, the first after `previous`.
abbrev pub trickles_at : ℕ → ℕ → List ℕ → ℕ
trickles_at freq previous [] = 0
trickles_at freq previous (step ∷ steps) =
    (if crossed_trickle_boundary (pos previous) (pos step) (pos freq) then 1 else 0)
    + trickles_at freq step steps

-- No step comes before the step observed earlier, or more than `gap` after it.
abbrev pub IsObserved : ℕ → ℕ → List ℕ → Type 0
IsObserved gap previous [] = Unit
IsObserved gap previous (step ∷ steps) =
    (previous ≤ step) × (step ≤ previous + gap) × IsObserved gap step steps

abbrev pub last_observed : ℕ → List ℕ → ℕ
last_observed previous [] = previous
last_observed previous (step ∷ steps) = last_observed step steps

one_trickle :
    (previous step freq : ℕ)
    → 1 ≤ freq
    → previous ≤ step
    → step ≤ previous + freq
    → (if crossed_trickle_boundary (pos previous) (pos step) (pos freq) then 1 else 0)
        + previous / freq
      ≡ step / freq
unfolding crossed_trickle_boundary
one_trickle previous step freq h le gap =
    let a = lt-div-mul-add {a = previous} {b = freq} h in
    let b = div-mul-le_self previous freq in
    let up : (step / freq < previous / freq + 2) = (div-lt_iff_lt-mul h).1 (omega (arith, a)) in
    let down : (previous / freq ≤ step / freq) = (le-div_iff_mul-le h).1 (omega (arith, b)) in
    ground (arith, up, down)

-- However a run observes its steps, with no gap above the frequency, it sends one trickle for each
-- multiple of the frequency that it passes.
pub trickles_at_lem :
    (freq previous : ℕ) (steps : List ℕ)
    → 1 ≤ freq
    → IsObserved freq previous steps
    → trickles_at freq previous steps + previous / freq ≡ last_observed previous steps / freq
trickles_at_lem freq previous [] h o = omega arith
trickles_at_lem freq previous (step ∷ steps) h (le, gap, o) =
    omega (arith, one_trickle previous step freq h le gap, trickles_at_lem freq step steps h o)
