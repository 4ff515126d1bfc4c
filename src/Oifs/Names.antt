-- ===== src/Oifs/Names.antt =====
-- The names that the OpenIFS control gives and the names that it knows (models/openifs/oifs_control.cpp).
use cpdn_control.Prelude.{
  ℕ, zero, suc, ◌+◌, ◌-◌, ◌*◌, ◌/◌, ◌%◌, ◌<◌, ◌≤◌, ◌≡◌, refl, sym, ap, ◌∙◌, inl, inr, Bool, true,
  ◌||◌, [], ◌∷◌, ◌++◌, All, length, length-append, replicate, ltb, Bool-cases, arith,
}
use cpdn_control.Text.{Bytes, codes, equal, is_ascii_digit}
use cpdn_control.Text.Number.{digits, to_string_ℕ, print_padded}
use cpdn_control.Text.Number.RoundTrip.{IsDigits, print_padded-IsDigits}
use cpdn_control.Staging.{all_of}
use cpdn_control.Oifs.{
  OifsControl, oifs_get_filename_part, get_output_filenames, isalpha, parse_oifs_output_filename,
}

-- The least number of more than k + 1 digits.
abbrev digit_limit : ℕ → ℕ
digit_limit zero = 10
digit_limit (suc k) = 10 * digit_limit k

is_last : (n : ℕ) → n < 10 → ltb n 10 ≡ true
is_last n h = ground arith

length-digits :
    (k fuel n : ℕ) (out : Bytes)
    → n < digit_limit k
    → length (digits fuel n out) ≤ suc k + length out
unfolding digits
length-digits k zero n out h = omega arith
length-digits zero (suc fuel) n out h = rw (is_last n h) (omega arith)
length-digits (suc k) (suc fuel) n out h = elim (Bool-cases (ltb n 10)) [
  | inl last ↦ rw last (omega arith)
  | inr more ↦ rw more (
      let shorter : length (digits fuel (n / 10) ((b'0' + n % 10) ∷ out))
          ≤ suc k + suc (length out) =
        length-digits k fuel (n / 10) ((b'0' + n % 10) ∷ out) (omega arith) in
      omega (arith, shorter))
]

length-replicate : (n : ℕ) (x : ℕ) → length (replicate n x) ≡ n
length-replicate zero x = refl
length-replicate (suc n) x = ap suc (length-replicate n x)

length-print_padded : (n : ℕ) → n < 1000000 → length (print_padded 6 n) ≡ 6
unfolding print_padded to_string_ℕ
length-print_padded n h =
    let short : length (digits n n []) ≤ 6 + 0 = length-digits 5 n n [] h in
    omega (
      arith,
      length-append (replicate (6 - length (digits n n [])) b'0') (digits n n []),
      length-replicate (6 - length (digits n n [])) b'0',
      short,
    )

digits_all : (s : Bytes) → IsDigits s → all_of is_ascii_digit s ≡ true
unfolding all_of
digits_all [] h = refl
digits_all (c ∷ s) h = ground (arith, h.0, digits_all s h.1)

-- An experiment of OpenIFS: four letters.
pub record IsExperiment (id : Bytes) : Type 0 where
  pub four : length id ≡ 4
  pub letters : all_of isalpha id ≡ true

abbrev pub is_prefix : Bytes → Bool
is_prefix p = equal p (codes "ICMGG") || (equal p (codes "ICMSH") || equal p (codes "ICMUA"))

named :
    (p0 p1 p2 p3 p4 a b c d s0 s1 s2 s3 s4 s5 : ℕ)
    → let step = s0 ∷ s1 ∷ s2 ∷ s3 ∷ s4 ∷ s5 ∷ [] in
      is_prefix (p0 ∷ p1 ∷ p2 ∷ p3 ∷ p4 ∷ []) ≡ true
      → all_of isalpha (a ∷ b ∷ c ∷ d ∷ []) ≡ true
      → all_of is_ascii_digit step ≡ true
      → parse_oifs_output_filename (p0 ∷ p1 ∷ p2 ∷ p3 ∷ p4 ∷ a ∷ b ∷ c ∷ d ∷ b'+' ∷ step) ≡ true
unfolding parse_oifs_output_filename
named p0 p1 p2 p3 p4 a b c d s0 s1 s2 s3 s4 s5 known letters digits =
    ground (arith, known, letters, digits)

cons_of :
    (n : ℕ) (s : Bytes) → length s ≡ suc n → (c : ℕ) × (t : Bytes) × (s ≡ c ∷ t) × (length t ≡ n)
cons_of n [] h = absurd (omega (arith, h))
cons_of n (c ∷ t) h = (c, t, refl, omega (arith, h))

nil_of : (s : Bytes) → length s ≡ 0 → s ≡ []
nil_of [] h = refl
nil_of (c ∷ s) h = absurd (omega (arith, h))

four_of :
    (s : Bytes) (n : ℕ)
    → length s ≡ 4 + n
    → (a b c d : ℕ) × (t : Bytes) × (s ≡ a ∷ b ∷ c ∷ d ∷ t) × (length t ≡ n)
four_of s n h =
    let (a, s1, e1, h1) = cons_of (3 + n) s (omega (arith, h)) in
    let (b, s2, e2, h2) = cons_of (2 + n) s1 (omega (arith, h1)) in
    let (c, s3, e3, h3) = cons_of (1 + n) s2 (omega (arith, h2)) in
    let (d, t, e4, h4) = cons_of n s3 (omega (arith, h3)) in (a, b, c, d, t, cc, h4)

known_name :
    (p0 p1 p2 p3 p4 : ℕ) (id step : Bytes)
    → is_prefix (p0 ∷ p1 ∷ p2 ∷ p3 ∷ p4 ∷ []) ≡ true
    → IsExperiment id
    → length step ≡ 6
    → IsDigits step
    → parse_oifs_output_filename (p0 ∷ p1 ∷ p2 ∷ p3 ∷ p4 ∷ (id ++ b'+' ∷ step)) ≡ true
known_name p0 p1 p2 p3 p4 id step known e six all =
    let (a, b, c, d, none, id_eq, no_more) = four_of id 0 e.four in
    let (s0, s1, s2, s3, rest, step_eq, two) = four_of step 2 six in
    let (s4, t, e4, one) = cons_of 1 rest two in
    let (s5, u, e5, none_left) = cons_of 0 t one in
    let id_is : id ≡ a ∷ b ∷ c ∷ d ∷ [] =
      id_eq ∙ ap (λ t. a ∷ b ∷ c ∷ d ∷ t) (nil_of none no_more) in
    let u_is : u ≡ [] = nil_of u none_left in
    let step_is : step ≡ s0 ∷ s1 ∷ s2 ∷ s3 ∷ s4 ∷ s5 ∷ [] = cc in
    ap (λ id. parse_oifs_output_filename (p0 ∷ p1 ∷ p2 ∷ p3 ∷ p4 ∷ (id ++ b'+' ∷ step))) id_is
    ∙ ap (λ step. parse_oifs_output_filename (p0 ∷ p1 ∷ p2 ∷ p3 ∷ p4 ∷ a ∷ b ∷ c ∷ d ∷ b'+' ∷ step))
        step_is
    ∙ named p0 p1 p2 p3 p4 a b c d s0 s1 s2 s3 s4 s5 known
        (ap (all_of isalpha) (sym id_is) ∙ e.letters)
        (ap (all_of is_ascii_digit) (sym step_is) ∙ digits_all step all)

filename_part_eq :
    (id : Bytes) (n : ℕ) → oifs_get_filename_part (to_string_ℕ n) id ≡ id ++ b'+' ∷ print_padded 6 n
unfolding oifs_get_filename_part print_padded
filename_part_eq id n = refl

known_file :
    (p0 p1 p2 p3 p4 : ℕ) (id : Bytes) (n : ℕ)
    → is_prefix (p0 ∷ p1 ∷ p2 ∷ p3 ∷ p4 ∷ []) ≡ true
    → IsExperiment id
    → n < 1000000
    → parse_oifs_output_filename
        (p0 ∷ p1 ∷ p2 ∷ p3 ∷ p4 ∷ oifs_get_filename_part (to_string_ℕ n) id)
      ≡ true
known_file p0 p1 p2 p3 p4 id n known e h =
    ap (λ part. parse_oifs_output_filename (p0 ∷ p1 ∷ p2 ∷ p3 ∷ p4 ∷ part)) (filename_part_eq id n)
    ∙ known_name p0 p1 p2 p3 p4 id (print_padded 6 n) known e (length-print_padded n h)
        (print_padded-IsDigits 6 n)

-- Each name that the control gives for a step is known as one of an output file, so that no output
-- file is taken for something else: the experiment has four letters, and the step is less than a
-- million, which is as many digits as the name has room for.
pub get_output_filenames-known :
    (c : OifsControl) (n : ℕ)
    → IsExperiment c.experiment_id
    → n < 1000000
    → All (λ filename. parse_oifs_output_filename filename ≡ true) (get_output_filenames c n)
unfolding get_output_filenames equal
get_output_filenames-known c n e h = (
  known_file _ _ _ _ _ c.experiment_id n refl e h,
  (
    known_file _ _ _ _ _ c.experiment_id n refl e h,
    (known_file _ _ _ _ _ c.experiment_id n refl e h, tt),
  ),
)
