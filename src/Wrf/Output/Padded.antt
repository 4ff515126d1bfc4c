-- ===== src/Wrf/Output/Padded.antt =====
-- What snprintf makes of a number and of a date (models/wrf/wrf_control.cpp).
use cpdn_control.Prelude.{
  ℕ, zero, suc, ◌+◌, ◌-◌, ◌/◌, ◌%◌, ◌<◌, ◌≤◌, ◌≡◌, refl, ap, ◌∙◌, false, [], ◌∷◌, ltb, arith,
  Bool-cases, inl, inr,
}
use cpdn_control.Text.{Bytes}
use cpdn_control.Text.Number.{digits, to_string_ℕ, print_padded}
use cpdn_control.Calendar.{DateTime}
use cpdn_control.Wrf.Stamps.{HasRoom, char, stamp}
use cpdn_control.Wrf.Output.{output_timestamp}

digits_last : (fuel n : ℕ) (out : Bytes) → n < 10 → digits fuel n out ≡ (b'0' + n) ∷ out
unfolding digits
digits_last zero n out h = refl
digits_last (suc fuel) n out h = ground arith

digits_more :
    (fuel n : ℕ) (out : Bytes)
    → 10 ≤ n
    → n ≤ fuel
    → digits fuel n out ≡ digits (fuel - 1) (n / 10) ((b'0' + n % 10) ∷ out)
unfolding digits
digits_more zero n out h k = absurd (omega arith)
digits_more (suc fuel) n out h k =
    rw (ltb_ten n h) (ap (λ f. digits f (n / 10) ((b'0' + n % 10) ∷ out)) (omega arith))
  where
    ltb_ten : (n : ℕ) → 10 ≤ n → ltb n 10 ≡ false
    ltb_ten n h = ground arith

one_printed : (n : ℕ) → n < 10 → to_string_ℕ n ≡ (b'0' + n) ∷ []
unfolding to_string_ℕ
one_printed n h = digits_last n n [] h

two_printed : (n : ℕ) → 10 ≤ n → n < 100 → to_string_ℕ n ≡ char n 10 ∷ char n 1 ∷ []
unfolding to_string_ℕ
two_printed n h k =
    digits_more n n [] h (omega arith) ∙ digits_last (n - 1) (n / 10) _ (omega arith) ∙ ground arith

three_printed :
    (n : ℕ) → 100 ≤ n → n < 1000 → to_string_ℕ n ≡ char n 100 ∷ char n 10 ∷ char n 1 ∷ []
unfolding to_string_ℕ
three_printed n h k =
    digits_more n n [] (omega arith) (omega arith)
    ∙ digits_more (n - 1) (n / 10) _ (omega arith) (omega arith)
    ∙ digits_last (n - 1 - 1) (n / 10 / 10) _ (omega arith)
    ∙ ground arith

four_printed :
    (n : ℕ)
    → 1000 ≤ n
    → n < 10000
    → to_string_ℕ n ≡ char n 1000 ∷ char n 100 ∷ char n 10 ∷ char n 1 ∷ []
unfolding to_string_ℕ
four_printed n h k =
    digits_more n n [] (omega arith) (omega arith)
    ∙ digits_more (n - 1) (n / 10) _ (omega arith) (omega arith)
    ∙ digits_more (n - 1 - 1) (n / 10 / 10) _ (omega arith) (omega arith)
    ∙ digits_last (n - 1 - 1 - 1) (n / 10 / 10 / 10) _ (omega arith)
    ∙ ground arith

pub print_padded-two : (n : ℕ) → n < 100 → print_padded 2 n ≡ char n 10 ∷ char n 1 ∷ []
unfolding print_padded
print_padded-two n h = elim (Bool-cases (ltb n 10)) [
  | inl one ↦ rw (one_printed n (ground arith)) (ground arith)
  | inr two ↦ rw (two_printed n (ground arith) h) refl
]

pub print_padded-four :
    (n : ℕ) → n < 10000 → print_padded 4 n ≡ char n 1000 ∷ char n 100 ∷ char n 10 ∷ char n 1 ∷ []
unfolding print_padded
print_padded-four n h = elim (Bool-cases (ltb n 10)) [
  | inl one ↦ rw (one_printed n (ground arith)) (ground arith)
  | inr more ↦ elim (Bool-cases (ltb n 100)) [
    | inl two ↦ rw (two_printed n (ground arith) (ground arith)) (ground arith)
    | inr more ↦ elim (Bool-cases (ltb n 1000)) [
      | inl three ↦ rw (three_printed n (ground arith) (ground arith)) (ground arith)
      | inr four ↦ rw (four_printed n (ground arith) h) refl
    ]
  ]
]

-- The text that snprintf makes is the time stamp of the date.
pub output_timestamp-stamp : (d : DateTime) → HasRoom d → output_timestamp d ≡ stamp d
unfolding output_timestamp
output_timestamp-stamp d h =
    rw
      (
        print_padded-four d.year h.year,
        print_padded-two d.month h.month,
        print_padded-two d.day h.day,
        print_padded-two d.hour h.hour,
        print_padded-two d.minute h.minute,
        print_padded-two d.second h.second,
      )
      refl
