-- ===== src/Wrf/Namelist.antt =====
-- models/wrf/wrf_control.cpp: the values of WRF's namelist, which lists one for each domain.
pub mod Values
pub mod Rewrite
use cpdn_control.Prelude.{
  ℕ, zero, suc, ◌+◌, ◌-◌, Bool, true, false, not, ◌&&◌, ◌||◌, Option, none, some, List, [], ◌∷◌,
  ◌++◌, ◌==◌, ℤ, pos, negsuc, pos_part, leb_ℤ, length, take, if◌then◌else◌,
}
use cpdn_control.Text.{Bytes, codes, is_empty, back, equal, split_at, cut_at, trim_whitespace}
use cpdn_control.Text.Number.{print_padded}
use cpdn_control.Calendar.{DateTime}
use cpdn_control.Wrf.Timing.{int_of}

abbrev pub nonempty : Bytes → Option Bytes
nonempty value = if is_empty value then none else some value

-- The value without a comma at its end.
abbrev pub without_comma : Bytes → Bytes
without_comma value =
    if not (is_empty value) && back value == b','
    then trim_whitespace (take (length value - 1) value)
    else value

abbrev pub value_behind : Option (Bytes × Bytes) → Option Bytes
value_behind none = none
value_behind (some (key, value)) = nonempty (without_comma (trim_whitespace value))

unfoldable pub extract_namelist_rhs_preserving_list : Bytes → Option Bytes
extract_namelist_rhs_preserving_list line = value_behind (split_at b'=' (cut_at b'!' line))

abbrev pub then_token : (Bytes → Option Bytes) → Option (Bytes × Bytes) → Option Bytes
then_token next none = none
then_token next (some (token, later)) = next later

-- The text between two commas, `index` of them in front, as far as there is such.
unfoldable pub list_token : ℕ → Bytes → Option Bytes
list_token zero values = some (cut_at b',' values)
list_token (suc index) values = then_token (λ later. list_token index later) (split_at b',' values)

abbrev pub token_value : Option Bytes → Option ℤ
token_value none = none
token_value (some token) =
    let text = trim_whitespace token in if is_empty text then none else int_of text

-- The value, where it returns true.
unfoldable pub parse_wrf_domain_list_value : Bytes → ℤ → Option ℤ
unfolding list_token
parse_wrf_domain_list_value values domain_index =
    if leb_ℤ domain_index (pos 0)
    then none
    else token_value (list_token (pos_part domain_index - 1) values)

pub data Field : Type 0 where
  year month day hour minute second : Field

abbrev names_field : Bytes → Bytes → Bytes → Bool
names_field key start end = equal key start || equal key end

unfoldable pub get_wrf_datetime_field : Bytes → Option Field
get_wrf_datetime_field key =
    if names_field key (codes "start_year") (codes "end_year")
    then some year
    else if names_field key (codes "start_month") (codes "end_month")
    then some month
    else if names_field key (codes "start_day") (codes "end_day")
    then some day
    else if names_field key (codes "start_hour") (codes "end_hour")
    then some hour
    else if names_field key (codes "start_minute") (codes "end_minute")
    then some minute
    else if names_field key (codes "start_second") (codes "end_second")
    then some second
    else none

-- A negative field makes a date invalid; here it becomes a number that does so too.
abbrev pub to_field : Field → ℤ → ℕ
to_field field (pos n) = n
to_field year (negsuc n) = 0
to_field month (negsuc n) = 0
to_field day (negsuc n) = 0
to_field hour (negsuc n) = 60
to_field minute (negsuc n) = 60
to_field second (negsuc n) = 60

-- An assignment through the pointer that `get_wrf_datetime_field` returns, and a read.
abbrev pub set_field : Field → ℤ → DateTime → DateTime
set_field year z d = record d { year = to_field year z }
set_field month z d = record d { month = to_field month z }
set_field day z d = record d { day = to_field day z }
set_field hour z d = record d { hour = to_field hour z }
set_field minute z d = record d { minute = to_field minute z }
set_field second z d = record d { second = to_field second z }

abbrev pub field_of : Field → DateTime → ℕ
field_of year d = d.year
field_of month d = d.month
field_of day d = d.day
field_of hour d = d.hour
field_of minute d = d.minute
field_of second d = d.second

-- The rounds of the loop, `left` to go; the first of them has no comma in front.
abbrev pub more_values : ℕ → ℕ → ℕ → Bytes
more_values value width zero = []
more_values value width (suc left) =
    codes ", " ++ (print_padded width value ++ more_values value width left)

abbrev value_rounds : ℕ → ℕ → ℕ → Bytes
value_rounds value width zero = []
value_rounds value width (suc left) = print_padded width value ++ more_values value width left

-- The value is a date's field, so it is not negative.
unfoldable pub build_wrf_start_value_list : ℕ → ℕ → ℤ → Bytes
build_wrf_start_value_list value width domain_count =
    value_rounds value width (pos_part domain_count) ++ codes ","

abbrev pub comment_suffix : Option (Bytes × Bytes) → Bytes
comment_suffix none = []
comment_suffix (some (value, comment)) = codes " !" ++ comment

abbrev pub with_rhs : Bytes → Bytes → Option (Bytes × Bytes) → Bytes
with_rhs line rhs none = line
with_rhs line rhs (some (key, value)) =
    key ++ (codes "= " ++ (rhs ++ comment_suffix (split_at b'!' value)))

unfoldable pub replace_namelist_rhs : Bytes → Bytes → Bytes
replace_namelist_rhs line rhs = with_rhs line rhs (split_at b'=' line)
