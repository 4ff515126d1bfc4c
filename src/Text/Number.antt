-- ===== src/Text/Number.antt =====
-- `parse_int` of lib/utils.cpp over std::from_chars, and std::to_string of an int.
pub mod RoundTrip
use cpdn_control.Prelude.{
  ℕ, zero, suc, ◌+◌, ◌-◌, ◌*◌, ◌/◌, ◌%◌, ◌^◌, ◌≤◌, ◌<◌, ◌≡◌, refl, Bool, true, false, not, ◌&&◌,
  ◌||◌, Option, none, some, List, [], ◌∷◌, ◌++◌, arith, ltb, leb, ◌==◌, if◌then◌else◌, ℤ, pos,
  length, replicate, negsuc,
}
use cpdn_control.Text.{Bytes, codes, is_empty, is_ascii_digit, trim_whitespace}

pub data IntError : Type 0 where
  empty_value invalid_argument result_out_of_range trailing_characters : IntError

-- What the call leaves in `out`, where it writes to it, and the error if it returns false.
pub record IntParse : Type 0 where
  pub written : Option ℤ
  pub error : Option IntError

abbrev pub parsed : ℤ → IntParse
parsed z = record { written = some z; error = none }

abbrev pub failed : IntError → IntParse
failed e = record { written = none; error = some e }

abbrev pub int_max : ℕ
int_max = 2 ^ 31 - 1

-- The value of the digits at the front, behind the value `n` of those already read, and the rest.
unfoldable pub scan_digits : Bytes → ℕ → ℕ × Bytes
unfolding is_ascii_digit
scan_digits [] n = (n, [])
scan_digits (c ∷ s) n =
    let later = scan_digits s (n * 10 + (c - b'0')) in
    if is_ascii_digit c then later else (n, c ∷ s)

-- The range of an `int`: `limit` is the greatest magnitude that fits.
abbrev in_range : ℕ → ℕ → ℤ → Bytes → IntParse
in_range limit n z rest = if ltb limit n then failed result_out_of_range else record {
  written = some z;
  error = if is_empty rest then none else some trailing_characters;
}

negate : ℕ → ℤ
negate zero = pos 0
negate (suc n) = negsuc n

-- from_chars at the first digit, if there is one; the sign has been read.
from_digits : Bool → Bytes → IntParse
unfolding is_ascii_digit is_empty negate
from_digits negative [] = failed invalid_argument
from_digits negative (c ∷ s) =
    let (n, rest) = scan_digits (c ∷ s) 0 in
    if not (is_ascii_digit c)
    then failed invalid_argument
    else if negative
    then in_range (int_max + 1) n (negate n) rest
    else in_range int_max n (pos n) rest

unfoldable pub from_chars : Bytes → IntParse
unfolding from_digits
from_chars [] = failed invalid_argument
from_chars (c ∷ s) = if c == b'-' then from_digits true s else from_digits false (c ∷ s)

parse_trimmed : Bytes → IntParse
parse_trimmed [] = failed empty_value
parse_trimmed (c ∷ s) = from_chars (c ∷ s)

unfoldable pub parse_int : Bytes → IntParse
unfolding parse_trimmed from_chars
parse_int value = parse_trimmed (trim_whitespace value)

-- The decimal digits of `n`; a fuel of `n` is enough, since each round divides by ten.
unfoldable pub digits : ℕ → ℕ → Bytes → Bytes
digits zero n out = (b'0' + n) ∷ out
digits (suc fuel) n out =
    let later = digits fuel (n / 10) ((b'0' + n % 10) ∷ out) in
    if ltb n 10 then (b'0' + n) ∷ out else later

unfoldable pub to_string_ℕ : ℕ → Bytes
to_string_ℕ n = digits n n []

-- `%0{width}d` of a number that is not negative
unfoldable pub print_padded : ℕ → ℕ → Bytes
unfolding to_string_ℕ
print_padded width n =
    let printed = to_string_ℕ n in replicate (width - length printed) b'0' ++ printed

unfoldable pub to_string : ℤ → Bytes
unfolding to_string_ℕ
to_string (pos n) = to_string_ℕ n
to_string (negsuc n) = b'-' ∷ to_string_ℕ (suc n)

to_string_test : to_string (negsuc 1204) ≡ codes "-1205"
unfolding to_string digits
to_string_test = refl
