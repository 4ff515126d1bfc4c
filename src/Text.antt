-- ===== src/Text.antt =====
-- The text helpers of lib/utils.cpp, over lists of bytes. A pair of an optional result replaces a
-- Boolean with output arguments, which the source leaves alone when it returns false.
pub mod Equal
pub mod Trim
pub mod KeyValue
pub mod Entries
pub mod Number
use Prim.Native.Char.{code}
use Prim.Native.String.{String}
use cpdn_control.Prelude.{
  ℕ, zero, suc, ◌+◌, ◌-◌, Bool, true, false, not, ◌&&◌, ◌||◌, Option, none, some, List, [], ◌∷◌,
  ltb, leb, ◌==◌, if◌then◌else◌, length, take, drop,
}

abbrev pub Bytes : Type 0
Bytes = List ℕ

-- The bytes of an ASCII text.
abbrev pub codes : String → Bytes
codes String.[] = []
codes (String.◌∷◌ c s) = code c ∷ codes s

unfoldable pub is_empty : Bytes → Bool
is_empty [] = true
is_empty (c ∷ s) = false

-- std::string ==
unfoldable pub equal : Bytes → Bytes → Bool
equal [] [] = true
equal (x ∷ xs) (y ∷ ys) = (x == y) && equal xs ys
equal _ _ = false

-- std::string <, byte by byte
unfoldable pub lex_lt : List ℕ → List ℕ → Bool
lex_lt [] [] = false
lex_lt [] (y ∷ ys) = true
lex_lt (x ∷ xs) [] = false
lex_lt (x ∷ xs) (y ∷ ys) = if ltb x y then true else if ltb y x then false else lex_lt xs ys

-- find( c ) != npos
unfoldable pub contains : ℕ → Bytes → Bool
contains c [] = false
contains c (x ∷ s) = (x == c) || contains c s

-- rfind( prefix, 0 ) == 0
unfoldable pub starts_with : Bytes → Bytes → Bool
starts_with [] s = true
starts_with (p ∷ prefix) [] = false
starts_with (p ∷ prefix) (c ∷ s) = (p == c) && starts_with prefix s

-- The text before and after the first occurrence of a byte: `find` and two calls of `substr`.
unfoldable pub split_at : ℕ → Bytes → Option (Bytes × Bytes)
split_at d [] = none
split_at d (c ∷ s) =
    if c == d
    then some ([], s)
    else elim (split_at d s) [ none ↦ none | some (l, r) ↦ some (c ∷ l, r) ]

-- What follows the first occurrence of a text: `find` and `substr` behind it.
unfoldable pub after_first : Bytes → Bytes → Option Bytes
after_first marker [] = if is_empty marker then some [] else none
after_first marker (c ∷ s) =
    let later = after_first marker s in
    if starts_with marker (c ∷ s) then some (drop (length marker) (c ∷ s)) else later

-- The text before the first occurrence of a byte, or all of it.
unfoldable pub cut_at : ℕ → Bytes → Bytes
cut_at d [] = []
cut_at d (c ∷ s) = if c == d then [] else c ∷ cut_at d s

-- " \t\n\r"
unfoldable pub is_trimmed_char : ℕ → Bool
is_trimmed_char c = (c == b' ') || (c == b'\t') || (c == b'\n') || (c == b'\r')

unfoldable pub ltrim : Bytes → Bytes
ltrim [] = []
ltrim (c ∷ s) = if is_trimmed_char c then ltrim s else c ∷ s

unfoldable pub rtrim : Bytes → Bytes
unfolding is_empty
rtrim [] = []
rtrim (c ∷ s) = let r = rtrim s in if is_empty r && is_trimmed_char c then [] else c ∷ r

unfoldable pub trim_whitespace : Bytes → Bytes
trim_whitespace s = rtrim (ltrim s)

-- front() and back() of a text that is not empty
abbrev pub front : Bytes → ℕ
front [] = 0
front (c ∷ s) = c

abbrev pub back : Bytes → ℕ
back [] = 0
back (c ∷ []) = c
back (c ∷ d ∷ s) = back (d ∷ s)

unfoldable pub strip_quotes_and_trim : Bytes → Bytes
strip_quotes_and_trim s =
    if ltb (length s) 2
    then s
    else if ((front s == b'"') && (back s == b'"')) || ((front s == b'\'') && (back s == b'\''))
    then trim_whitespace (take (length s - 2) (drop 1 s))
    else s

-- A key and a value, of what stands before and after the delimiter; an empty left side is refused.
trimmed_pair : Option (Bytes × Bytes) → Option (Bytes × Bytes)
trimmed_pair none = none
trimmed_pair (some ([], r)) = none
trimmed_pair (some (c ∷ l, r)) = some (trim_whitespace (c ∷ l), trim_whitespace r)

unfoldable pub split_key_value : ℕ → Bytes → Option (Bytes × Bytes)
unfolding trimmed_pair
split_key_value delimiter line = trimmed_pair (split_at delimiter (trim_whitespace line))

strip_value : Option (Bytes × Bytes) → Option (Bytes × Bytes)
strip_value none = none
strip_value (some (key, value)) = some (key, strip_quotes_and_trim value)

unfoldable pub parse_key_value : ℕ → Bytes → Option (Bytes × Bytes)
unfolding strip_value is_empty
parse_key_value delimiter line =
    let work_line = ltrim line in
    if is_empty work_line || (front work_line == b'#')
    then none
    else strip_value (split_key_value delimiter work_line)

unfoldable pub parse_namelist_key_value : Bytes → Option (Bytes × Bytes)
unfolding is_empty
parse_namelist_key_value line =
    let working_line = ltrim line in
    if is_empty working_line || (front working_line == b'!')
    then none
    else parse_key_value b'=' (cut_at b',' (cut_at b'!' working_line))

-- contains_embedded_nul
unfoldable pub contains_embedded_nul : Bytes → Bool
contains_embedded_nul s = contains 0 s

unfoldable pub is_ascii_digit : ℕ → Bool
is_ascii_digit c = leb b'0' c && leb c b'9'
