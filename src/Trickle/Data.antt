-- ===== src/Trickle/Data.antt =====
-- The data of a trickle (`read_trickle_data_file` of api/trickle_handler.cpp).
use cpdn_control.Prelude.{
  ℕ, zero, suc, ◌≤◌, ◌≡◌, ◌⊎◌, refl, ap, Bool, true, false, Option, none, some, [], ◌∷◌, ◌++◌,
  arith, All, length, take, length-take, ltb, ◌∙◌, if◌then◌else◌,
}
use cpdn_control.Text.{Bytes, is_ascii_digit}
use cpdn_control.Trickle.{
  is_kept, cut_to, drop_last_comma, keep_valid, read_trickle_data_file, max_data_len,
}

-- A digit, a comma, a minus sign or a point.
abbrev pub IsKept : ℕ → Type 0
IsKept c = ((b'0' ≤ c) × (c ≤ b'9')) ⊎ (c ≡ b',') ⊎ (c ≡ b'-') ⊎ (c ≡ b'.')

is_kept_sound : (c : ℕ) → is_kept c ≡ true → IsKept c
unfolding is_kept is_ascii_digit
is_kept_sound c h = ground (arith, h)

is_kept_complete : (c : ℕ) → IsKept c → is_kept c ≡ true
unfolding is_kept is_ascii_digit
is_kept_complete c h = ground (arith, h)

keep_valid-All : (s : Bytes) → All IsKept (keep_valid s)
unfolding keep_valid
keep_valid-All [] = tt
keep_valid-All (c ∷ s) = go (is_kept c) refl (keep_valid-All s)
  where
    go :
        (b : Bool)
        → is_kept c ≡ b
        → All IsKept (keep_valid s)
        → All IsKept (if b then c ∷ keep_valid s else keep_valid s)
    go true e h = (is_kept_sound c e, h)
    go false e h = h

All-take : (P : ℕ → Type 0) (n : ℕ) (s : Bytes) → All P s → All P (take n s)
All-take P zero s h = tt
All-take P (suc n) [] h = tt
All-take P (suc n) (c ∷ s) h = (h.0, All-take P n s h.1)

cut_to-length : (n : ℕ) (s : Bytes) → length (cut_to n s) ≤ n
unfolding cut_to
cut_to-length n s = ground (arith, length-take n s)

cut_to-All : (P : ℕ → Type 0) (n : ℕ) (s : Bytes) → All P s → All P (cut_to n s)
unfolding cut_to
cut_to-All P n s h = go (ltb n (length s))
  where
    go : (b : Bool) → All P (if b then take n s else s)
    go true = All-take P n s h
    go false = h

cut_to-id : (n : ℕ) (s : Bytes) → length s ≤ n → cut_to n s ≡ s
unfolding cut_to
cut_to-id n s h = ground arith

-- Whatever the file holds, the data has at most 511 bytes, each a digit, a comma, a minus sign or a
-- point.
pub read_trickle_data_file-IsKept :
    (file : Option Bytes)
    → (length (read_trickle_data_file file) ≤ 511) × All IsKept (read_trickle_data_file file)
unfolding read_trickle_data_file
read_trickle_data_file-IsKept none = (omega arith, tt)
read_trickle_data_file-IsKept (some raw) = (
  cut_to-length max_data_len _,
  cut_to-All IsKept max_data_len _ (keep_valid-All (drop_last_comma raw)),
)

keep_valid-id : (s : Bytes) → All IsKept s → keep_valid s ≡ s
unfolding keep_valid
keep_valid-id [] h = refl
keep_valid-id (c ∷ s) h = ground (arith, is_kept_complete c h.0, keep_valid-id s h.1)

drop_last_comma-append : (s : Bytes) → drop_last_comma (s ++ b',' ∷ []) ≡ s
unfolding drop_last_comma
drop_last_comma-append [] = refl
drop_last_comma-append (c ∷ []) = refl
drop_last_comma-append (c ∷ (d ∷ s)) = ap (λ t. c ∷ t) (drop_last_comma-append (d ∷ s))

-- The data that a model writes comes through unchanged: a text of digits, commas, minus signs and
-- points, of at most 511 bytes, with a comma after it is read as the text.
pub read_trickle_data_file-clean :
    (s : Bytes) → All IsKept s → length s ≤ 511 → read_trickle_data_file (some (s ++ b',' ∷ [])) ≡ s
unfolding read_trickle_data_file
read_trickle_data_file-clean s h l =
    ap (λ t. cut_to max_data_len (keep_valid t)) (drop_last_comma-append s)
    ∙ ap (cut_to max_data_len) (keep_valid-id s h)
    ∙ cut_to-id max_data_len s l
