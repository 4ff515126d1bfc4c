-- ===== src/Launch.antt =====
-- What src/cpdn_main.cpp and src/parse_args.cpp make of the command line before the model is started.
-- The parse itself is the CLI11 library's; texts of messages are left out.
pub mod Labels
pub mod Threads
use cpdn_control.Prelude.{
  ℕ, zero, suc, Bool, true, false, not, ◌&&◌, ◌||◌, Option, none, some, List, [], ◌∷◌, ◌==◌, ℤ,
  ltb_ℤ, ltb, leb, length, if◌then◌else◌,
}
use cpdn_control.Text.{Bytes, codes, is_empty, equal, is_ascii_digit}
use cpdn_control.Text.Number.{parse_int}
use cpdn_control.Progress.{is_ok, stored}

-- std::isalnum in the C locale
unfoldable pub is_alnum : ℕ → Bool
is_alnum c = is_ascii_digit c || (leb b'a' c && leb c b'z') || (leb b'A' c && leb c b'Z')

unfoldable pub is_label_char : ℕ → Bool
is_label_char c = is_alnum c || c == b'_' || c == b'-' || c == b'.'

-- label.find( ".." ) != npos
unfoldable pub has_two_points : Bytes → Bool
has_two_points [] = false
has_two_points (c ∷ []) = false
has_two_points (c ∷ (d ∷ s)) = (c == b'.' && d == b'.') || has_two_points (d ∷ s)

-- The loop over the characters.
unfoldable pub all_label_chars : Bytes → Bool
all_label_chars [] = true
all_label_chars (c ∷ s) = is_label_char c && all_label_chars s

unfoldable pub is_valid_filename_label : Bytes → Bool
is_valid_filename_label label =
    if is_empty label
    then false
    else if ltb 32 (length label)
    then false
    else if equal label (codes ".") || has_two_points label
    then false
    else all_label_chars label

-- `TaskConfig`, and the fields of `ParseResult` that become it.
pub record TaskArgs : Type 0 where
  pub filename_label : Bytes
  pub memberid : Bytes
  pub batch : Bytes
  pub workunit : Bytes
  pub upload_interval : ℤ

-- The configuration, or none where it returns false: what was stored is not used then.
unfoldable pub process_args : TaskArgs → Option TaskArgs
process_args a =
    if is_empty a.filename_label || is_empty a.memberid || is_empty a.batch || is_empty a.workunit
    then none
    else if is_valid_filename_label a.filename_label
    then some a
    else none

-- The last two of the arguments, in this order, as far as there are such.
abbrev pub last_two : List Bytes → Option Bytes × Option Bytes
last_two [] = (none, none)
last_two (a ∷ []) = (none, some a)
last_two (a ∷ b ∷ []) = (some a, some b)
last_two (a ∷ b ∷ c ∷ args) = last_two (b ∷ c ∷ args)

abbrev pub is_nthreads : Option Bytes → Bool
is_nthreads none = false
is_nthreads (some a) = equal a (codes "--nthreads")

abbrev pub text_of : Option Bytes → Bytes
text_of none = []
text_of (some a) = a

-- `argv` is all arguments, the program's name first. The thread count and whether it was overridden,
-- or none where the value is no integer.
unfoldable pub get_app_config_nthreads : List Bytes → ℤ → Option (ℤ × Bool)
get_app_config_nthreads argv nthreads =
    let (before, last) = last_two argv in
    let value = parse_int (text_of last) in
    if ltb (length argv) 2
    then some (nthreads, false)
    else if is_nthreads last
    then some (nthreads, false)
    else if ltb (length argv) 3 || not (is_nthreads before)
    then some (nthreads, false)
    else if is_ok value
    then some (stored value nthreads, true)
    else none

-- The thread count, and whether it was changed.
unfoldable pub check_model_nthreads : ℤ → ℤ → ℤ → ℤ × Bool
check_model_nthreads model_min_threads model_max_threads nthreads =
    if ltb_ℤ model_max_threads nthreads
    then (model_max_threads, true)
    else if ltb_ℤ nthreads model_min_threads
    then (model_min_threads, true)
    else (nthreads, false)
