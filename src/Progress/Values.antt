-- ===== src/Progress/Values.antt =====
-- The printed numbers and the lines of the progress file (api/progressfile_handler.cpp).
use cpdn_control.Prelude.{
  ℕ, suc, ◌+◌, ◌/◌, ◌%◌, ◌≡◌, ◌≢◌, refl, sym, ap, ◌∙◌, Bool, true, false, ◌&&◌, leb, ◌||◌, some, [],
  ◌∷◌, ◌++◌, ◌==◌, All, All-append, append-nil, arith, ℤ, pos, negsuc,
}
use cpdn_control.Text.{
  Bytes, is_ascii_digit, is_trimmed_char, front, trim_whitespace, parse_namelist_key_value,
}
use cpdn_control.Text.Trim.{AllSolid, AllSolid-IsTrimmed, trim_whitespace-eq}
use cpdn_control.Text.Number.{to_string, to_string_ℕ}
use cpdn_control.Text.Number.RoundTrip.{IsDigits, to_string_ℕ-IsDigits, to_string_ℕ-ne-nil}
use cpdn_control.Text.KeyValue.{IsKey, IsValue, Without, parse_namelist_key_value_lem}
use cpdn_control.Progress.{
  to_string_double, Field, field_of, Reading, read_field, read_parsed, read_line, read_entry,
  StrtodResult,
}

-- Small letters and underscores.
abbrev pub is_word : Bytes → Bool
is_word [] = true
is_word (c ∷ s) = ((leb b'a' c && leb c b'z') || c == b'_') && is_word s

pub IsWord-Without :
    (d : ℕ) (s : Bytes)
    → ((leb b'a' d && leb d b'z') || d == b'_') ≡ false
    → is_word s ≡ true
    → Without d s
IsWord-Without d [] h w = tt
IsWord-Without d (c ∷ s) h w = (ground arith, IsWord-Without d s h (ground arith))

pub IsWord-AllSolid : (s : Bytes) → is_word s ≡ true → AllSolid s
unfolding is_trimmed_char
IsWord-AllSolid [] w = tt
IsWord-AllSolid (c ∷ s) w = (ground arith, IsWord-AllSolid s (ground arith))

IsWord-front : (s : Bytes) → is_word s ≡ true → (front s == b'#') ≡ false
IsWord-front [] w = refl
IsWord-front (c ∷ s) w = ground arith

pub IsWord-IsKey : (s : Bytes) → s ≢ [] → is_word s ≡ true → IsKey s
IsWord-IsKey s n w = record {
  ne_nil = n;
  trimmed = AllSolid-IsTrimmed s (IsWord-AllSolid s w);
  no_equals = IsWord-Without b'=' s refl w;
  no_comma = IsWord-Without b',' s refl w;
  no_bang = IsWord-Without b'!' s refl w;
  no_hash = IsWord-front s w;
}

-- Digits, minus signs and points.
abbrev pub IsPlain : Bytes → Type 0
IsPlain s = All (λ c. (is_ascii_digit c || c == b'-' || c == b'.') ≡ true) s

IsDigits-IsPlain : (s : Bytes) → IsDigits s → IsPlain s
unfolding is_ascii_digit
IsDigits-IsPlain [] h = tt
IsDigits-IsPlain (c ∷ s) h = (ground arith, IsDigits-IsPlain s h.1)

pub to_string-IsPlain : (z : ℤ) → IsPlain (to_string z)
unfolding to_string is_ascii_digit
to_string-IsPlain (pos n) = IsDigits-IsPlain _ (to_string_ℕ-IsDigits n)
to_string-IsPlain (negsuc n) = (refl, IsDigits-IsPlain _ (to_string_ℕ-IsDigits (suc n)))

digit-IsPlain :
    (n : ℕ)
    → (is_ascii_digit (b'0' + n % 10) || (b'0' + n % 10) == b'-' || (b'0' + n % 10) == b'.') ≡ true
unfolding is_ascii_digit
digit-IsPlain n = ground arith

point-IsPlain : (is_ascii_digit b'.' || b'.' == b'-' || b'.' == b'.') ≡ true
unfolding is_ascii_digit
point-IsPlain = refl

pub to_string_double-IsPlain : (n : ℕ) → IsPlain (to_string_double n)
unfolding to_string_double
to_string_double-IsPlain n =
    All-append _ (to_string_ℕ (n / 1000000)) _
      (IsDigits-IsPlain _ (to_string_ℕ-IsDigits (n / 1000000)))
      (
        point-IsPlain,
        (
          digit-IsPlain _,
          (
            digit-IsPlain _,
            (digit-IsPlain _, (digit-IsPlain _, (digit-IsPlain _, (digit-IsPlain _, tt)))),
          ),
        ),
      )

pub IsPlain-Without :
    (d : ℕ) (s : Bytes)
    → (is_ascii_digit d || d == b'-' || d == b'.') ≡ false
    → IsPlain s
    → Without d s
unfolding is_ascii_digit
IsPlain-Without d [] h p = tt
IsPlain-Without d (c ∷ s) h p = (ground arith, IsPlain-Without d s h p.1)

pub IsPlain-AllSolid : (s : Bytes) → IsPlain s → AllSolid s
unfolding is_ascii_digit is_trimmed_char
IsPlain-AllSolid [] p = tt
IsPlain-AllSolid (c ∷ s) p = (ground arith, IsPlain-AllSolid s p.1)

IsPlain-unquoted : (s : Bytes) → IsPlain s → ((front s == b'"') || (front s == b'\'')) ≡ false
unfolding is_ascii_digit
IsPlain-unquoted [] p = refl
IsPlain-unquoted (c ∷ s) p = ground arith

pub IsPlain-IsValue : (s : Bytes) → s ≢ [] → IsPlain s → IsValue s
unfolding is_ascii_digit
IsPlain-IsValue s n p = record {
  ne_nil = n;
  trimmed = AllSolid-IsTrimmed s (IsPlain-AllSolid s p);
  no_comma = IsPlain-Without b',' s refl p;
  no_bang = IsPlain-Without b'!' s refl p;
  unquoted = IsPlain-unquoted s p;
}

append-ne-nil : (s r : Bytes) → s ≢ [] → s ++ r ≢ []
append-ne-nil [] r h = absurd (h refl)
append-ne-nil (c ∷ s) r h = λ e. cc

pub to_string_double-ne-nil : (n : ℕ) → to_string_double n ≢ []
unfolding to_string_double
to_string_double-ne-nil n = append-ne-nil _ _ (to_string_ℕ-ne-nil (n / 1000000))

equals-solid : is_trimmed_char b'=' ≡ false
unfolding is_trimmed_char
equals-solid = refl

-- A line of a key, an equals sign and a printed number gives back the key and the number.
entry-line :
    (key value : Bytes)
    → IsKey key
    → AllSolid key
    → value ≢ []
    → IsPlain value
    → parse_namelist_key_value (trim_whitespace (key ++ b'=' ∷ value)) ≡ some (key, value)
entry-line key value k a n p =
    ap parse_namelist_key_value (
      trim_whitespace-eq (key ++ b'=' ∷ value) (
        AllSolid-IsTrimmed (key ++ b'=' ∷ value)
          (All-append _ key (b'=' ∷ value) a (equals-solid, IsPlain-AllSolid value p)))
      ∙ sym (append-nil (key ++ b'=' ∷ value))
      ∙ sym (append-nil ((key ++ b'=' ∷ value) ++ [])))
    ∙ parse_namelist_key_value_lem [] key [] [] value [] [] k (IsPlain-IsValue value n p) tt tt tt
        tt tt

-- `read_line` at such a line reads the entry of the key's field.
pub read_line-entry :
    (strtod : Bytes → StrtodResult) (key value : Bytes) (field : Field) (s : Reading)
    → IsKey key
    → AllSolid key
    → field_of key ≡ some field
    → value ≢ []
    → IsPlain value
    → read_line strtod (key ++ b'=' ∷ value) s ≡ read_entry strtod field value s
unfolding read_line read_parsed read_field
read_line-entry strtod key value field s k a f n p =
    ap (λ r. read_parsed strtod r s) (entry-line key value k a n p)
    ∙ ap (λ r. read_field strtod r value s) f
