-- ===== src/Wrf.antt =====
-- models/wrf/wrf_control.cpp: the time stamps in the names of WRF's files, and the choice of the restart
-- set. Texts of messages are left out, and so is the Windows form of a stamp.
pub mod Stamps
pub mod Timing
pub mod Domains
pub mod Output
pub mod Scan
pub mod Prune
pub mod Namelist
pub mod Input
pub mod Restart
pub mod Model
pub mod Names
pub mod Latest
use cpdn_control.Prelude.{
  ℕ, zero, suc, ◌+◌, ◌-◌, ◌*◌, Bool, true, false, not, ◌&&◌, ◌||◌, Option, none, some, List, [],
  ◌∷◌, ◌++◌, ◌==◌, length, drop, if◌then◌else◌,
}
use cpdn_control.Text.{Bytes, is_ascii_digit, starts_with, lex_lt}
use cpdn_control.Calendar.{DateTime}

-- s[i], which is within the size wherever it is asked for here.
unfoldable pub at : Bytes → ℕ → ℕ
at [] i = 0
at (c ∷ s) zero = c
at (c ∷ s) (suc i) = at s i

abbrev digit_positions : List ℕ
digit_positions = 0 ∷ 1 ∷ 2 ∷ 3 ∷ 5 ∷ 6 ∷ 8 ∷ 9 ∷ 11 ∷ 12 ∷ 14 ∷ 15 ∷ 17 ∷ 18 ∷ []

-- The loop over the positions.
unfoldable pub digits_at : Bytes → List ℕ → Bool
digits_at s [] = true
digits_at s (i ∷ positions) = is_ascii_digit (at s i) && digits_at s positions

unfoldable pub is_wrf_datetime_suffix : Bytes → Bool
unfolding digits_at
is_wrf_datetime_suffix s =
    if not (length s == 19)
    then false
    else if not (digits_at s digit_positions)
    then false
    else (at s 4 == b'-' && at s 7 == b'-' && at s 10 == b'_')
      && (at s 13 == b':' && at s 16 == b':')

unfoldable pub is_wrf_prefixed_datetime_filename : Bytes → Bytes → Bool
is_wrf_prefixed_datetime_filename filename prefix =
    length filename == length prefix + 19
    && starts_with prefix filename
    && is_wrf_datetime_suffix (drop (length prefix) filename)

abbrev digit : Bytes → ℕ → ℕ
digit s i = at s i - b'0'

unfoldable pub parse_wrf_timestamp : Bytes → Option DateTime
parse_wrf_timestamp s =
    if not (is_wrf_datetime_suffix s)
    then none
    else some record {
      year = digit s 0 * 1000 + digit s 1 * 100 + digit s 2 * 10 + digit s 3;
      month = digit s 5 * 10 + digit s 6;
      day = digit s 8 * 10 + digit s 9;
      hour = digit s 11 * 10 + digit s 12;
      minute = digit s 14 * 10 + digit s 15;
      second = digit s 17 * 10 + digit s 18;
    }

unfoldable pub matches_any_wrf_prefix : Bytes → List Bytes → Bool
matches_any_wrf_prefix filename [] = false
matches_any_wrf_prefix filename (prefix ∷ prefixes) =
    is_wrf_prefixed_datetime_filename filename prefix || matches_any_wrf_prefix filename prefixes

-- The time stamp of a restart file whose prefix is known, as the text that it is.
unfoldable pub extract_wrf_restart_timestamp : Bytes → List Bytes → Option Bytes
extract_wrf_restart_timestamp filename [] = none
extract_wrf_restart_timestamp filename (prefix ∷ prefixes) =
    let later = extract_wrf_restart_timestamp filename prefixes in
    let stamp = drop (length prefix) filename in
    if not (is_wrf_prefixed_datetime_filename filename prefix)
    then later
    else elim (parse_wrf_timestamp stamp) [ none ↦ none | some d ↦ some stamp ]

pub record RestartSet : Type 0 where
  pub datetime : Bytes
  pub domains_present : List Bool

unfoldable pub all_present : List Bool → Bool
all_present [] = true
all_present (b ∷ bs) = if not b then false else all_present bs

-- The guards that skip a set.
unfoldable pub is_complete : ℕ → RestartSet → Bool
is_complete max_domains s = length s.domains_present == max_domains && all_present s.domains_present

-- latest_restart_set == nullptr || restart_set.datetime > latest_restart_set->datetime
unfoldable pub is_later : Option RestartSet → RestartSet → Bool
is_later none s = true
is_later (some latest) s = lex_lt latest.datetime s.datetime

-- The loop over the sets.
unfoldable pub latest_from : ℕ → Option RestartSet → List RestartSet → Option RestartSet
latest_from max_domains latest [] = latest
latest_from max_domains latest (s ∷ sets) =
    latest_from max_domains
      (if is_complete max_domains s && is_later latest s then some s else latest) sets

unfoldable pub find_latest_valid_restart_set : ℕ → List RestartSet → Option RestartSet
find_latest_valid_restart_set max_domains sets = latest_from max_domains none sets
