-- ===== src/Text/Number/RoundTrip.antt =====
-- `parse_int` of lib/utils.cpp reads back what std::to_string prints.
use cpdn_control.Prelude.{
  ℕ, zero, suc, ◌+◌, ◌/◌, ◌%◌, ◌≤◌, ◌<◌, ◌≡◌, refl, ap, ◌∙◌, true, inl, inr, [], ◌∷◌, All, arith,
  Bool-cases, ltb, ℤ, pos, negsuc, ◌≢◌, ◌-◌, ◌++◌, replicate, length,
}
use cpdn_control.Text.{Bytes, is_ascii_digit, is_trimmed_char}
use cpdn_control.Text.Trim.{AllSolid, AllSolid-IsTrimmed, trim_whitespace-eq}
use cpdn_control.Text.Number.{
  parsed, int_max, scan_digits, from_chars, parse_int, digits, to_string_ℕ, to_string, print_padded,
  parse_trimmed,
}

-- Reading the last digit of `n` behind the digits before it gives `n`.
scan_digits_last :
    (n : ℕ) (out : Bytes) → scan_digits ((b'0' + n % 10) ∷ out) (n / 10) ≡ scan_digits out n
unfolding scan_digits
scan_digits_last n out = ground arith

scan_digits_first :
    (n : ℕ) (out : Bytes) → n < 10 → scan_digits ((b'0' + n) ∷ out) 0 ≡ scan_digits out n
unfolding scan_digits
scan_digits_first n out h = ground arith

scan_digits-digits :
    (fuel n : ℕ) (out : Bytes) → n ≤ fuel → scan_digits (digits fuel n out) 0 ≡ scan_digits out n
unfolding digits
scan_digits-digits zero n out h = scan_digits_first n out (omega arith)
scan_digits-digits (suc fuel) n out h = elim (Bool-cases (ltb n 10)) [
  | inl last ↦ rw last (scan_digits_first n out (ground arith))
  | inr more ↦ rw more (
      scan_digits-digits fuel (n / 10) ((b'0' + n % 10) ∷ out) (ground arith)
      ∙ scan_digits_last n out)
]

abbrev pub IsDigits : Bytes → Type 0
IsDigits s = All (λ c. is_ascii_digit c ≡ true) s

pub digits-IsDigits :
    (fuel n : ℕ) (out : Bytes) → n ≤ fuel → IsDigits out → IsDigits (digits fuel n out)
unfolding digits is_ascii_digit
digits-IsDigits zero n out le h = ground arith
digits-IsDigits (suc fuel) n out le h =
    ground (arith, digits-IsDigits fuel (n / 10) ((b'0' + n % 10) ∷ out))

digits-front : (fuel n : ℕ) (out : Bytes) → (c : ℕ) × (s : Bytes) × (digits fuel n out ≡ c ∷ s)
unfolding digits
digits-front zero n out = (_, _, refl)
digits-front (suc fuel) n out = elim (Bool-cases (ltb n 10)) [
  | inl last ↦ rw last (_, _, refl)
  | inr more ↦ rw more (digits-front fuel (n / 10) ((b'0' + n % 10) ∷ out))
]

IsDigits-AllSolid : (s : Bytes) → IsDigits s → AllSolid s
unfolding is_ascii_digit is_trimmed_char
IsDigits-AllSolid [] h = tt
IsDigits-AllSolid (c ∷ s) h = (ground arith, IsDigits-AllSolid s h.1)

pub to_string_ℕ-IsDigits : (n : ℕ) → IsDigits (to_string_ℕ n)
unfolding to_string_ℕ
to_string_ℕ-IsDigits n = digits-IsDigits n n [] (omega arith) tt

pub to_string_ℕ-ne-nil : (n : ℕ) → to_string_ℕ n ≢ []
unfolding to_string_ℕ
to_string_ℕ-ne-nil n = let (c, s, e) = digits-front n n [] in λ p. cc

pub to_string-ne-nil : (z : ℤ) → to_string z ≢ []
unfolding to_string
to_string-ne-nil (pos n) = to_string_ℕ-ne-nil n
to_string-ne-nil (negsuc n) = λ p. cc

pub to_string_ℕ-AllSolid : (n : ℕ) → AllSolid (to_string_ℕ n)
unfolding to_string_ℕ
to_string_ℕ-AllSolid n = IsDigits-AllSolid _ (digits-IsDigits n n [] (omega arith) tt)

pub to_string-AllSolid : (z : ℤ) → AllSolid (to_string z)
unfolding to_string is_trimmed_char
to_string-AllSolid (pos n) = to_string_ℕ-AllSolid n
to_string-AllSolid (negsuc n) = (refl, to_string_ℕ-AllSolid (suc n))

-- What a printed number is made of.
record IsPrinted (n : ℕ) (s : Bytes) : Type 0 where
  head : ℕ
  rest : Bytes
  shape : s ≡ head ∷ rest
  digit : is_ascii_digit head ≡ true
  scanned : scan_digits s 0 ≡ (n, [])

to_string_ℕ-IsPrinted : (n : ℕ) → IsPrinted n (to_string_ℕ n)
unfolding to_string_ℕ
to_string_ℕ-IsPrinted n =
    let (c, s, e) = digits-front n n [] in
    record {
      head = c;
      rest = s;
      shape = e;
      digit = (rw e at (digits-IsDigits n n [] (omega arith) tt)).0;
      scanned = scan_digits-digits n n [] (omega arith) ∙ unfold scan_digits in refl;
    }

abbrev pub IsInt : ℤ → Type 0
IsInt (pos n) = n ≤ int_max
IsInt (negsuc n) = n ≤ int_max

parse_int_solid : (s : Bytes) → AllSolid s → parse_int s ≡ parse_trimmed s
unfolding parse_int
parse_int_solid s h = ap parse_trimmed (trim_whitespace-eq s (AllSolid-IsTrimmed s h))

parse_trimmed_pos :
    (n : ℕ) (s : Bytes) → IsPrinted n s → n ≤ int_max → parse_trimmed s ≡ parsed (pos n)
unfolding parse_trimmed from_chars is_ascii_digit
parse_trimmed_pos n [] p h = absurd (ground (arith, p.shape))
parse_trimmed_pos n (c ∷ s) p h = ground (arith, p.shape, p.digit, p.scanned)

parse_trimmed_neg :
    (n : ℕ) (s : Bytes)
    → IsPrinted (suc n) s
    → n ≤ int_max
    → parse_trimmed (b'-' ∷ s) ≡ parsed (negsuc n)
unfolding parse_trimmed from_chars is_ascii_digit
parse_trimmed_neg n [] p h = absurd (ground (arith, p.shape))
parse_trimmed_neg n (c ∷ s) p h = ground (arith, p.shape, p.digit, p.scanned)

-- Every `int`, of either sign, is read back from its decimal print, with no error.
pub parse_int-to_string : (z : ℤ) → IsInt z → parse_int (to_string z) ≡ parsed z
parse_int-to_string z h = parse_int_solid (to_string z) (to_string-AllSolid z) ∙ read z h
  where
    read : (z : ℤ) → IsInt z → parse_trimmed (to_string z) ≡ parsed z
    read (pos n) h = unfold to_string in parse_trimmed_pos n _ (to_string_ℕ-IsPrinted n) h
    read (negsuc n) h = unfold to_string in parse_trimmed_neg n _ (to_string_ℕ-IsPrinted (suc n)) h

scan_zeros : (k : ℕ) (s : Bytes) → scan_digits (replicate k b'0' ++ s) 0 ≡ scan_digits s 0
unfolding scan_digits is_ascii_digit
scan_zeros zero s = refl
scan_zeros (suc k) s = scan_zeros k s

zeros-IsDigits : (k : ℕ) (s : Bytes) → IsDigits s → IsDigits (replicate k b'0' ++ s)
unfolding is_ascii_digit
zeros-IsDigits zero s h = h
zeros-IsDigits (suc k) s h = (refl, zeros-IsDigits k s h)

zeros-IsPrinted : (k n : ℕ) (s : Bytes) → IsPrinted n s → IsPrinted n (replicate k b'0' ++ s)
unfolding is_ascii_digit
zeros-IsPrinted zero n s p = p
zeros-IsPrinted (suc k) n s p = record {
  head = b'0';
  rest = replicate k b'0' ++ s;
  shape = refl;
  digit = refl;
  scanned = scan_zeros (suc k) s ∙ p.scanned;
}

pub print_padded-IsDigits : (width n : ℕ) → IsDigits (print_padded width n)
unfolding print_padded
print_padded-IsDigits width n = zeros-IsDigits _ _ (to_string_ℕ-IsDigits n)

pub print_padded-front : (width n : ℕ) → (c : ℕ) × (s : Bytes) × (print_padded width n ≡ c ∷ s)
unfolding print_padded
print_padded-front width n =
    let p : IsPrinted n (replicate (width - length (to_string_ℕ n)) b'0' ++ to_string_ℕ n) =
      zeros-IsPrinted (width - length (to_string_ℕ n)) n (to_string_ℕ n)
        (to_string_ℕ-IsPrinted n) in
    (p.head, p.rest, p.shape)

pub IsDigits-solid : (s : Bytes) → IsDigits s → AllSolid s
IsDigits-solid s h = IsDigits-AllSolid s h

-- Zeros in front do not change the number that is read.
pub parse_int-print_padded :
    (width n : ℕ) → n ≤ int_max → parse_int (print_padded width n) ≡ parsed (pos n)
unfolding print_padded
parse_int-print_padded width n h =
    parse_int_solid _ (IsDigits-AllSolid _ (zeros-IsDigits k _ (to_string_ℕ-IsDigits n)))
    ∙ parse_trimmed_pos n _ (zeros-IsPrinted k n _ (to_string_ℕ-IsPrinted n)) h
  where
    k : ℕ
    k = width - length (to_string_ℕ n)
