-- ===== src/Text/Entries.antt =====
-- The entries of a namelist as the control classes look them up: what the loops over the lines in
-- models/wrf/wrf_control.cpp and models/openifs/oifs_control.cpp have to find.
use cpdn_control.Prelude.{
  ◌≡◌, ap, ◌∙◌, true, false, Option, none, some, List, [], ◌∷◌, ◌==◌, if◌then◌else◌,
}
use cpdn_control.Text.{Bytes, is_empty, front, equal, trim_whitespace, parse_namelist_key_value}
use cpdn_control.Text.Equal.{equal_sound}

-- The key and the value of a line; a line that is empty, or a comment, has none.
abbrev pub entry : Bytes → Option (Bytes × Bytes)
entry line =
    let text = trim_whitespace line in
    if is_empty text
    then none
    else if front text == b'!'
    then none
    else parse_namelist_key_value text

-- The value of an entry called `name`, and `value` for any other.
abbrev pub value_of : Bytes → Option (Bytes × Bytes) → Bytes → Bytes
value_of name none value = value
value_of name (some (key, text)) value = if equal key name then text else value

-- The value of the last entry called `name`, and `value` where there is none.
abbrev pub last_value : Bytes → List Bytes → Bytes → Bytes
last_value name [] value = value
last_value name (line ∷ lines) value = last_value name lines (value_of name (entry line) value)

-- A key that is one name is no other.
pub equal-other :
    (key name other : Bytes)
    → equal key name ≡ true
    → equal name other ≡ false
    → equal key other ≡ false
equal-other key name other is differ = ap (λ k. equal k other) (equal_sound key name is) ∙ differ

pub value_of-other :
    (name key text value : Bytes)
    → equal key name ≡ false
    → value_of name (some (key, text)) value ≡ value
value_of-other name key text value h = ap (λ b. if b then text else value) h

pub value_of-same :
    (name key text value : Bytes)
    → equal key name ≡ true
    → value_of name (some (key, text)) value ≡ text
value_of-same name key text value h = ap (λ b. if b then text else value) h
