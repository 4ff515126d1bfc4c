-- ===== src/Wrf/Namelist/Rewrite.antt =====
-- A date's field that was written into the namelist for every domain is read back for each of them
-- (models/wrf/wrf_control.cpp).
use cpdn_control.Prelude.{
  ℕ, suc, ◌-◌, ◌≤◌, ◌≡◌, refl, ap, ◌∙◌, false, Option, none, some, [], ◌∷◌, ◌++◌, pos, leb_ℤ,
  if◌then◌else◌, arith,
}
use cpdn_control.Text.{
  Bytes, codes, is_ascii_digit, is_trimmed_char, split_at, cut_at, trim_whitespace,
}
use cpdn_control.Text.Number.{int_max}
use cpdn_control.Text.Trim.{AllBlank, trim_whitespace_lem}
use cpdn_control.Text.KeyValue.{Without, split_at-append, cut_at-append}
use cpdn_control.Wrf.Timing.Steps.{is_empty_of_ne}
use cpdn_control.Wrf.Namelist.{
  nonempty, without_comma, value_behind, extract_namelist_rhs_preserving_list, list_token,
  token_value, parse_wrf_domain_list_value, build_wrf_start_value_list, comment_suffix, with_rhs,
  replace_namelist_rhs,
}
use cpdn_control.Wrf.Namelist.Values.{
  printed, body, rhs, token_at, token_value-printed, body-ne-nil, rhs-IsTrimmed, build-rhs,
  without_comma-rhs, rhs-Without,
}

one_blank : AllBlank (b' ' ∷ [])
unfolding is_trimmed_char
one_blank = (refl, tt)

positive : (i : ℕ) → leb_ℤ (pos (suc i)) (pos 0) ≡ false
positive i = ground arith

suffix-blank : (o : Option (Bytes × Bytes)) → AllBlank (cut_at b'!' (comment_suffix o))
unfolding cut_at is_trimmed_char
suffix-blank none = tt
suffix-blank (some (value, comment)) = (refl, tt)

-- The namelist line that a rewritten line is, cut at its comment.
cut-rewritten :
    (key rhs suffix : Bytes)
    → Without b'!' key
    → Without b'!' rhs
    → cut_at b'!' (key ++ (codes "= " ++ (rhs ++ suffix)))
      ≡ key ++ (b'=' ∷ (b' ' ∷ (rhs ++ cut_at b'!' suffix)))
unfolding cut_at
cut-rewritten key rhs suffix hk hr =
    cut_at-append b'!' key _ hk
    ∙ ap (λ s. key ++ (b'=' ∷ (b' ' ∷ s))) (cut_at-append b'!' rhs suffix hr)

no_bang_digit : is_ascii_digit b'!' ≡ false
unfolding is_ascii_digit
no_bang_digit = refl

module _ (width v : ℕ) (k : ℕ) (key value : Bytes) (no_bang : Without b'!' key)
    (no_equals : Without b'=' key) where
  abbrev new_line : Bytes
  new_line =
      replace_namelist_rhs (key ++ b'=' ∷ value) (build_wrf_start_value_list v width (pos (suc k)))

  suffix : Bytes
  suffix = comment_suffix (split_at b'!' value)

  new_line_eq : new_line ≡ key ++ (codes "= " ++ (rhs width v k ++ suffix))
  unfolding replace_namelist_rhs suffix
  new_line_eq =
      rw (build-rhs width v k)
        (ap (with_rhs _ (rhs width v k)) (split_at-append b'=' key value no_equals))

  extract-new_line : extract_namelist_rhs_preserving_list new_line ≡ some (body width v k)
  unfolding extract_namelist_rhs_preserving_list suffix
  extract-new_line =
      ap value_behind (
        ap (split_at b'=') (
          ap (cut_at b'!') new_line_eq
          ∙ cut-rewritten key (rhs width v k) suffix no_bang
              (rhs-Without width v b'!' no_bang_digit refl refl k))
        ∙ split_at-append b'=' key _ no_equals)
      ∙ ap (λ t. nonempty (without_comma t)) trimmed
      ∙ ap nonempty (without_comma-rhs width v k)
      ∙ rw (is_empty_of_ne (body width v k) (body-ne-nil width v k)) refl
    where
      trimmed :
          trim_whitespace
            (b' ' ∷ (rhs width v k ++ cut_at b'!' (comment_suffix (split_at b'!' value))))
          ≡ rhs width v k
      trimmed =
          (trim_whitespace_lem [] (b' ' ∷ []) (rhs width v k)
            (cut_at b'!' (comment_suffix (split_at b'!' value))) one_blank (rhs-IsTrimmed width v k)
            (suffix-blank (split_at b'!' value))).1

  -- A value that the rewrite puts on a line of the namelist, for each of the domains, is read back for every
  -- one of them, whatever value and comment the line had before. The key has no `=` and no
  -- `!` in it, and the value is an int.
  pub parse_wrf_domain_list_value-replace :
      (i : ℕ)
      → v ≤ int_max
      → i ≤ k
      → (text : Bytes) × (extract_namelist_rhs_preserving_list (
            replace_namelist_rhs
              (key ++ b'=' ∷ value)
              (build_wrf_start_value_list v width (pos (suc k))))
          ≡ some text)
        × (parse_wrf_domain_list_value text (pos (suc i)) ≡ some (pos v))
  unfolding parse_wrf_domain_list_value
  parse_wrf_domain_list_value-replace i h le = (body width v k, extract-new_line, read)
    where
      token :
          (b : Bytes) × AllBlank b × (list_token i (body width v k) ≡ some (b ++ printed width v))
      token = token_at width v i k [] le tt

      at_index : list_token (suc i - 1) (body width v k) ≡ some (token.0 ++ printed width v)
      at_index = ap (λ n. list_token n (body width v k)) (omega arith) ∙ token.2

      read :
          (if leb_ℤ (pos (suc i)) (pos 0)
            then none
            else token_value (list_token (suc i - 1) (body width v k)))
          ≡ some (pos v)
      read = rw (positive i, at_index) (token_value-printed width v token.0 token.1 h)
