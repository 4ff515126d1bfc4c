-- ===== src/Launch/Threads.antt =====
-- `get_app_config_nthreads` and `check_model_nthreads` (src/cpdn_main.cpp).
use cpdn_control.Prelude.{
  ◌≡◌, true, false, List, [], ◌∷◌, ◌++◌, some, ℤ, ltb, length, length-append, sym, ap, ℕ, refl,
  arith,
}
use cpdn_control.Text.{
  Bytes, codes, equal, trim_whitespace, ltrim, rtrim, is_trimmed_char, is_ascii_digit,
}
use cpdn_control.Progress.{is_ok}
use cpdn_control.Text.Number.{parsed, to_string, parse_int, from_chars}
use cpdn_control.Text.Number.RoundTrip.{IsInt, parse_int-to_string}
use cpdn_control.Text.Equal.{equal_sound}
use cpdn_control.Launch.{last_two, get_app_config_nthreads}

last_two-append :
    (args : List Bytes) (a b : Bytes) → last_two (args ++ (a ∷ b ∷ [])) ≡ (some a, some b)
last_two-append [] a b = refl
last_two-append (x ∷ []) a b = refl
last_two-append (x ∷ (y ∷ [])) a b = refl
last_two-append (x ∷ (y ∷ (z ∷ args))) a b = last_two-append (y ∷ (z ∷ args)) a b

name-not_read : is_ok (parse_int (codes "--nthreads")) ≡ false
unfolding parse_int trim_whitespace ltrim rtrim is_trimmed_char is_ascii_digit from_chars
name-not_read = refl

name-unread : (z : ℤ) → parse_int (codes "--nthreads") ≡ parsed z → ⊥
name-unread z e = ground (arith, ap is_ok e, name-not_read)

same_name : equal (codes "--nthreads") (codes "--nthreads") ≡ true
unfolding equal
same_name = refl

-- No printed number is the option's name: that does not parse.
to_string-not_nthreads : (z : ℤ) → IsInt z → equal (to_string z) (codes "--nthreads") ≡ false
to_string-not_nthreads z h = ground (arith, differ)
  where
    differ : equal (to_string z) (codes "--nthreads") ≡ true → ⊥
    differ e = name-unread z (rw (sym (equal_sound _ _ e)) (parse_int-to_string z h))

ltb_two : (n : ℕ) → ltb n 3 ≡ false → ltb n 2 ≡ false
ltb_two n h = ground arith

overridden :
    (argv : List Bytes) (value : Bytes) (z nthreads : ℤ)
    → ltb (length argv) 3 ≡ false
    → last_two argv ≡ (some (codes "--nthreads"), some value)
    → equal value (codes "--nthreads") ≡ false
    → parse_int value ≡ parsed z
    → get_app_config_nthreads argv nthreads ≡ some (z, true)
unfolding get_app_config_nthreads
overridden argv value z nthreads h last differ read =
    rw (last, read, differ, h, ltb_two (length argv) h, same_name) refl

-- An integer written after `--nthreads` as the last two arguments overrides the thread count, whatever
-- arguments are in front.
pub get_app_config_nthreads-last :
    (program : Bytes) (args : List Bytes) (z nthreads : ℤ)
    → IsInt z
    → get_app_config_nthreads (program ∷ (args ++ (codes "--nthreads" ∷ to_string z ∷ []))) nthreads
      ≡ some (z, true)
get_app_config_nthreads-last program args z nthreads h =
    overridden _ _ z nthreads
      (ground (arith, length-append args (codes "--nthreads" ∷ to_string z ∷ [])))
      (last_two-append (program ∷ args) _ _) (to_string-not_nthreads z h) (parse_int-to_string z h)
