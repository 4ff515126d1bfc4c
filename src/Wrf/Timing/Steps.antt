-- ===== src/Wrf/Timing/Steps.antt =====
-- `parse_wrf_timing_line` and `get_current_step` (models/wrf/wrf_control.cpp).
use cpdn_control.Prelude.{
  ℕ, suc, ◌+◌, ◌*◌, ◌<◌, ◌≤◌, ◌≤ℤ◌, ◌≡◌, ◌≢◌, refl, sym, ap, ◌∙◌, true, false, Option, none, some,
  List, [], ◌∷◌, ◌++◌, append-nil, append_assoc, All, All-append, ℤ, pos, negsuc, arith,
}
use native.Mathlib.Nat.{mul-mod_left, mul-div_cancel}
use cpdn_control.Text.{
  Bytes, is_empty, is_ascii_digit, is_trimmed_char, starts_with, after_first, split_at,
  trim_whitespace,
}
use cpdn_control.Text.Number.{to_string, to_string_ℕ}
use cpdn_control.Text.Number.RoundTrip.{
  IsInt, IsDigits, parse_int-to_string, to_string_ℕ-IsDigits, to_string-ne-nil, to_string-AllSolid,
}
use cpdn_control.Text.Trim.{AllBlank, AllSolid-IsTrimmed, trim_whitespace_lem}
use cpdn_control.Text.KeyValue.{Without, AllBlank-Without, split_at-append}
use cpdn_control.Calendar.{DateTime, datetime_duration_seconds, datetime_to_absolute_seconds}
use cpdn_control.Calendar.Months.{IsValid, IsValid-is_valid_datetime}
use cpdn_control.Wrf.Stamps.{HasRoom, IsValid-HasRoom, stamp, parse_wrf_timestamp-stamp}
use cpdn_control.Wrf.Timing.{
  timing_prefix, domain_marker, int_of, domain_of, number_before, on_domain1, newer,
  parse_wrf_timing_line, domain1_timestamp, latest_timestamp, step_of_seconds, get_current_step,
}

-- A line as WRF writes it at the end of a step.
abbrev pub timing_line : DateTime → ℤ → Bytes → Bytes → Bytes
timing_line d domain blanks behind =
    timing_prefix ++ (stamp d ++ (domain_marker ++ (blanks ++ (to_string domain ++ b':' ∷ behind))))

pub int_of-to_string : (z : ℤ) → IsInt z → int_of (to_string z) ≡ some z
unfolding int_of
int_of-to_string z h = rw (parse_int-to_string z h) refl

IsDigits-Without : (s : Bytes) → IsDigits s → Without b':' s
unfolding is_ascii_digit
IsDigits-Without [] h = tt
IsDigits-Without (c ∷ s) h = (ground arith, IsDigits-Without s h.1)

to_string-Without : (z : ℤ) → Without b':' (to_string z)
unfolding to_string
to_string-Without (pos n) = IsDigits-Without (to_string_ℕ n) (to_string_ℕ-IsDigits n)
to_string-Without (negsuc n) =
    (refl, IsDigits-Without (to_string_ℕ (suc n)) (to_string_ℕ-IsDigits (suc n)))

pub is_empty_of_ne : (s : Bytes) → s ≢ [] → is_empty s ≡ false
unfolding is_empty
is_empty_of_ne [] h = absurd (h refl)
is_empty_of_ne (c ∷ s) h = refl

blank_colon : is_trimmed_char b':' ≡ false
unfolding is_trimmed_char
blank_colon = refl

domain_of-append :
    (z : ℤ) (blanks behind : Bytes)
    → IsInt z
    → AllBlank blanks
    → domain_of (some (blanks ++ (to_string z ++ b':' ∷ behind))) ≡ some z
unfolding domain_of number_before
domain_of-append z blanks behind h hb =
    ap number_before split
    ∙ rw (trimmed, is_empty_of_ne _ (to_string-ne-nil z)) (int_of-to_string z h)
  where
    split :
        split_at b':' (blanks ++ (to_string z ++ b':' ∷ behind))
        ≡ some (blanks ++ to_string z, behind)
    split = rw (sym (append_assoc blanks (to_string z) (b':' ∷ behind))) (
        split_at-append b':' (blanks ++ to_string z) behind (
          All-append _ blanks (to_string z) (AllBlank-Without b':' blanks blank_colon hb)
            (to_string-Without z)))

    trimmed : trim_whitespace (blanks ++ to_string z) ≡ to_string z
    trimmed =
        ap (λ s. trim_whitespace (blanks ++ s)) (sym (append-nil (to_string z)))
        ∙ (trim_whitespace_lem [] blanks (to_string z) [] hb
            (AllSolid-IsTrimmed _ (to_string-AllSolid z)) tt).1

-- A line that WRF writes at the end of a step gives the domain and the date.
parse_wrf_timing_line-timing_line :
    (d : DateTime) (domain : ℤ) (blanks behind : Bytes)
    → HasRoom d
    → IsInt domain
    → AllBlank blanks
    → parse_wrf_timing_line (timing_line d domain blanks behind) ≡ some (domain, d)
unfolding parse_wrf_timing_line starts_with after_first
parse_wrf_timing_line-timing_line d domain blanks behind h hi hb =
    rw (parse_wrf_timestamp-stamp d h, domain_of-append domain blanks behind hi hb) (ground arith)

latest_timestamp-append :
    (latest : Option DateTime) (xs ys : List Bytes)
    → latest_timestamp latest (xs ++ ys) ≡ latest_timestamp (latest_timestamp latest xs) ys
unfolding latest_timestamp
latest_timestamp-append latest [] ys = refl
latest_timestamp-append latest (x ∷ xs) ys =
    latest_timestamp-append (newer latest (domain1_timestamp x)) xs ys

-- Lines that are not about a step of the outermost domain.
abbrev pub OffDomain : List Bytes → Type 0
OffDomain lines = All (λ line. domain1_timestamp line ≡ none) lines

latest_timestamp-OffDomain :
    (latest : Option DateTime) (lines : List Bytes)
    → OffDomain lines
    → latest_timestamp latest lines ≡ latest
unfolding latest_timestamp
latest_timestamp-OffDomain latest [] h = refl
latest_timestamp-OffDomain latest (line ∷ lines) h =
    rw h.0 (latest_timestamp-OffDomain latest lines h.1)

domain1_timestamp-timing_line :
    (d : DateTime) (blanks behind : Bytes)
    → HasRoom d
    → AllBlank blanks
    → domain1_timestamp (timing_line d (pos 1) blanks behind) ≡ some d
unfolding domain1_timestamp
domain1_timestamp-timing_line d blanks behind h hb =
    ap on_domain1 (parse_wrf_timing_line-timing_line d (pos 1) blanks behind h (omega arith) hb)

latest_timestamp-timing_line :
    (before after : List Bytes) (d : DateTime) (line : Bytes)
    → domain1_timestamp line ≡ some d
    → OffDomain after
    → latest_timestamp none (before ++ line ∷ after) ≡ some d
unfolding latest_timestamp
latest_timestamp-timing_line before after d line e h =
    latest_timestamp-append none before (line ∷ after)
    ∙ rw e (latest_timestamp-OffDomain (some d) after h)

step_of_seconds_lem :
    (timestep k : ℕ) (total_steps : ℤ)
    → 1 ≤ timestep
    → pos k ≤ℤ total_steps
    → step_of_seconds timestep total_steps (pos (k * timestep)) ≡ some k
unfolding step_of_seconds
step_of_seconds_lem timestep k total_steps h le =
    rw (mul-mod_left k timestep, mul-div_cancel k h) (ground arith)

-- The log tells the step: if the last line about the outermost domain is the one that WRF writes at
-- a date that lies `k` time steps after the start, the step is `k`, whatever lines come before it
-- and whatever lines about inner domains or other matters come behind it. The date is valid and its
-- year has four digits.
pub get_current_step-timing_line :
    (timestep : ℕ) (start now : DateTime) (before after : List Bytes) (blanks behind : Bytes)
    (k : ℕ) (total_steps : ℤ)
    → 1 ≤ timestep
    → IsValid start
    → IsValid now
    → now.year < 10000
    → datetime_to_absolute_seconds now ≡ datetime_to_absolute_seconds start + k * timestep
    → AllBlank blanks
    → OffDomain after
    → pos k ≤ℤ total_steps
    → get_current_step
        (pos timestep)
        start
        (some (before ++ timing_line now (pos 1) blanks behind ∷ after))
        total_steps
      ≡ (true, pos k)
unfolding get_current_step
get_current_step-timing_line timestep start now before after blanks behind k total_steps h vs vn y
      later hb off le =
    rw (last, duration, step_of_seconds_lem timestep k total_steps h le) (ground arith)
  where
    last :
        latest_timestamp none (before ++ timing_line now (pos 1) blanks behind ∷ after) ≡ some now
    last =
        latest_timestamp-timing_line before after now _
          (domain1_timestamp-timing_line now blanks behind (IsValid-HasRoom now vn y) hb) off

    duration : datetime_duration_seconds start now ≡ pos (k * timestep)
    duration =
        unfold datetime_duration_seconds in
        ground (arith, IsValid-is_valid_datetime start vs, IsValid-is_valid_datetime now vn)
