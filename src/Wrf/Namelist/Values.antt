-- ===== src/Wrf/Namelist/Values.antt =====
-- The list of values that `build_wrf_start_value_list` (models/wrf/wrf_control.cpp) makes, and its parts.
use cpdn_control.Prelude.{
  ℕ, zero, suc, ◌-◌, ◌≤◌, ◌≡◌, ◌≢◌, refl, sym, ap, ◌∙◌, false, ◌==◌, some, [], ◌∷◌, ◌++◌,
  append-nil, append_assoc, All-append, length, length-append, take, pos, arith,
}
use cpdn_control.Text.{
  Bytes, codes, is_empty, back, is_ascii_digit, is_trimmed_char, split_at, cut_at, trim_whitespace,
}
use cpdn_control.Text.Number.{int_max, print_padded}
use cpdn_control.Text.Number.RoundTrip.{
  IsDigits, IsDigits-solid, print_padded-IsDigits, print_padded-front, parse_int-print_padded,
}
use cpdn_control.Text.Trim.{
  AllBlank, SolidFront, SolidBack, IsTrimmed, AllSolid-IsTrimmed, trim_whitespace-eq,
  trim_whitespace_lem,
}
use cpdn_control.Text.KeyValue.{
  Without, AllBlank-Without, split_at-append, cut_at-append, SolidBack-append, SolidFront-append,
  append-ne-nil,
}
use cpdn_control.Wrf.Timing.{int_of}
use cpdn_control.Wrf.Timing.Steps.{is_empty_of_ne}
use cpdn_control.Wrf.Namelist.{
  without_comma, list_token, token_value, then_token, more_values, build_wrf_start_value_list,
}

digits-Without : (d : ℕ) (s : Bytes) → is_ascii_digit d ≡ false → IsDigits s → Without d s
unfolding is_ascii_digit
digits-Without d [] e h = tt
digits-Without d (c ∷ s) e h = (ground arith, digits-Without d s e h.1)

comma_digit : is_ascii_digit b',' ≡ false
unfolding is_ascii_digit
comma_digit = refl

comma_blank : is_trimmed_char b',' ≡ false
unfolding is_trimmed_char
comma_blank = refl

take-append : (s t : Bytes) → take (length s) (s ++ t) ≡ s
take-append [] t = refl
take-append (c ∷ s) t = ap (λ r. c ∷ r) (take-append s t)

take-last : (s : Bytes) (c : ℕ) → take (length (s ++ c ∷ []) - 1) (s ++ c ∷ []) ≡ s
take-last s c =
    ap (λ n. take n (s ++ c ∷ [])) (omega (arith, length-append s (c ∷ [])))
    ∙ take-append s (c ∷ [])

back-last : (s : Bytes) (c : ℕ) → back (s ++ c ∷ []) ≡ c
back-last [] c = refl
back-last (d ∷ []) c = refl
back-last (d ∷ (e ∷ s)) c = back-last (e ∷ s) c

module _ (width v : ℕ) where
  pub printed : Bytes
  printed = print_padded width v

  printed-IsDigits : IsDigits printed
  unfolding printed
  printed-IsDigits = print_padded-IsDigits width v

  -- The values of the domains behind the first, with the first in front.
  pub body : ℕ → Bytes
  body k = printed ++ more_values v width k

  more-suc : (k : ℕ) → more_values v width (suc k) ≡ b',' ∷ (b' ' ∷ body k)
  unfolding body printed
  more-suc k = refl

  blank-Without : (blanks : Bytes) → AllBlank blanks → Without b',' (blanks ++ printed)
  blank-Without blanks h =
      All-append _ blanks printed (AllBlank-Without b',' blanks comma_blank h)
        (digits-Without b',' printed comma_digit printed-IsDigits)

  first_token :
      (blanks : Bytes) (k : ℕ)
      → AllBlank blanks
      → cut_at b',' (blanks ++ body k) ≡ blanks ++ printed
  unfolding body cut_at
  first_token blanks zero h =
      ap (cut_at b',') (sym (append_assoc blanks printed []))
      ∙ cut_at-append b',' (blanks ++ printed) [] (blank-Without blanks h)
      ∙ append-nil (blanks ++ printed)
  first_token blanks (suc k) h =
      ap (cut_at b',') (sym (append_assoc blanks printed _))
      ∙ cut_at-append b',' (blanks ++ printed) _ (blank-Without blanks h)
      ∙ append-nil (blanks ++ printed)

  split-body :
      (blanks : Bytes) (k : ℕ)
      → AllBlank blanks
      → split_at b',' (blanks ++ body (suc k)) ≡ some (blanks ++ printed, b' ' ∷ body k)
  unfolding body
  split-body blanks k h =
      ap (split_at b',')
        (sym (append_assoc blanks printed _) ∙ ap (λ s. (blanks ++ printed) ++ s) (more-suc k))
      ∙ split_at-append b',' (blanks ++ printed) (b' ' ∷ body k) (blank-Without blanks h)

  pub token_at :
      (i k : ℕ) (blanks : Bytes)
      → i ≤ k
      → AllBlank blanks
      → (b : Bytes) × AllBlank b × (list_token i (blanks ++ body k) ≡ some (b ++ printed))
  unfolding list_token is_trimmed_char
  token_at zero k blanks le h = (blanks, h, ap some (first_token blanks k h))
  token_at (suc i) zero blanks le h = absurd (omega arith)
  token_at (suc i) (suc k) blanks le h =
      let (b, hb, e) = token_at i k (b' ' ∷ []) (omega arith) (refl, tt) in
      (b, hb, ap (then_token (λ later. list_token i later)) (split-body blanks k h) ∙ e)

  printed_solid : IsTrimmed printed
  printed_solid = AllSolid-IsTrimmed printed (IsDigits-solid printed printed-IsDigits)

  printed-cons : (c : ℕ) × (s : Bytes) × (printed ≡ c ∷ s)
  unfolding printed
  printed-cons = print_padded-front width v

  printed-ne-nil : printed ≢ []
  printed-ne-nil = let (c, s, e) = printed-cons in λ p. cc

  is_empty-printed : is_empty printed ≡ false
  unfolding is_empty
  is_empty-printed = let (c, s, e) = printed-cons in rw e refl

  int_of-printed : v ≤ int_max → int_of printed ≡ some (pos v)
  unfolding int_of printed
  int_of-printed h = rw (parse_int-print_padded width v h) refl

  pub token_value-printed :
      (b : Bytes) → AllBlank b → v ≤ int_max → token_value (some (b ++ printed)) ≡ some (pos v)
  token_value-printed b hb h = rw (trimmed, is_empty-printed) (int_of-printed h)
    where
      trimmed : trim_whitespace (b ++ printed) ≡ printed
      trimmed =
          ap (λ s. trim_whitespace (b ++ s)) (sym (append-nil printed))
          ∙ (trim_whitespace_lem [] b printed [] hb printed_solid tt).1

  pub body-ne-nil : (k : ℕ) → body k ≢ []
  unfolding body
  body-ne-nil k = append-ne-nil printed _ printed-ne-nil

  body_back : (k : ℕ) → SolidBack (body k)
  unfolding body printed print_padded
  body_back zero = rw (append-nil printed) printed_solid.solid_back
  body_back (suc k) =
      SolidBack-append printed _ (λ p. cc)
        (SolidBack-append (b',' ∷ (b' ' ∷ [])) (body k) (body-ne-nil k) (body_back k))

  body_front : (k : ℕ) → SolidFront (body k)
  unfolding body
  body_front k = SolidFront-append printed _ printed-ne-nil printed_solid.solid_front

  body-IsTrimmed : (k : ℕ) → IsTrimmed (body k)
  body-IsTrimmed k = record { solid_front = body_front k; solid_back = body_back k }

  -- The text behind the `=`.
  pub rhs : ℕ → Bytes
  rhs k = body k ++ codes ","

  pub rhs-IsTrimmed : (k : ℕ) → IsTrimmed (rhs k)
  unfolding rhs is_trimmed_char
  rhs-IsTrimmed k = record {
    solid_front = SolidFront-append (body k) _ (body-ne-nil k) (body_front k);
    solid_back = SolidBack-append (body k) (codes ",") (λ p. cc) refl;
  }

  pub build-rhs : (k : ℕ) → build_wrf_start_value_list v width (pos (suc k)) ≡ rhs k
  unfolding build_wrf_start_value_list rhs body printed
  build-rhs k = refl

  pub without_comma-rhs : (k : ℕ) → without_comma (rhs k) ≡ body k
  unfolding rhs
  without_comma-rhs k =
      let not_empty : is_empty (rhs k) ≡ false =
        is_empty_of_ne (rhs k) (append-ne-nil (body k) _ (body-ne-nil k)) in
      rw (not_empty, back-last (body k) b',')
        (ap trim_whitespace (take-last (body k) b',')
          ∙ trim_whitespace-eq (body k) (body-IsTrimmed k))

  module _ (d : ℕ) (digit : is_ascii_digit d ≡ false) (comma : (b',' == d) ≡ false)
      (blank : (b' ' == d) ≡ false) where
    body-Without : (k : ℕ) → Without d (body k)
    unfolding body printed print_padded
    body-Without zero = rw (append-nil printed) (digits-Without d printed digit printed-IsDigits)
    body-Without (suc k) =
        All-append _ printed _ (digits-Without d printed digit printed-IsDigits)
          (comma, (blank, body-Without k))

    pub rhs-Without : (k : ℕ) → Without d (rhs k)
    unfolding rhs
    rhs-Without k = All-append _ (body k) (codes ",") (body-Without k) (comma, tt)
