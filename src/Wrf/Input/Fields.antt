-- ===== src/Wrf/Input/Fields.antt =====
-- The names of a date's fields in a namelist, and what setting a field of a date does
-- (models/wrf/wrf_control.cpp).
use cpdn_control.Prelude.{
  ◌≡◌, ◌≢◌, refl, sym, ap, ◌∙◌, inl, inr, Bool, true, false, not, ◌||◌, Option, none, some, ℤ,
  Bool-cases, arith, if◌then◌else◌,
}
use mathlib.Core.Path.{subst}
use cpdn_control.Text.{Bytes, codes, equal, starts_with}
use cpdn_control.Text.Equal.{equal_sound}
use cpdn_control.Text.Entries.{value_of, value_of-other, value_of-same}
use cpdn_control.Calendar.{DateTime}
use cpdn_control.Wrf.Timing.{int_of}
use cpdn_control.Wrf.Namelist.{
  Field, year, month, day, hour, minute, second, get_wrf_datetime_field, set_field, field_of,
  to_field,
}
use cpdn_control.Wrf.Domains.{WrfControl}
use cpdn_control.Wrf.Input.{ErrorStep, InputScan, ScanResult, scanned, failed, or_failed, mark_have}

-- The name of a field of the start, or of the end.
abbrev pub field_name : Bool → Field → Bytes
field_name true year = codes "start_year"
field_name true month = codes "start_month"
field_name true day = codes "start_day"
field_name true hour = codes "start_hour"
field_name true minute = codes "start_minute"
field_name true second = codes "start_second"
field_name false year = codes "end_year"
field_name false month = codes "end_month"
field_name false day = codes "end_day"
field_name false hour = codes "end_hour"
field_name false minute = codes "end_minute"
field_name false second = codes "end_second"

abbrev pub date_of : Bool → InputScan → DateTime
date_of b s = if b then s.start_datetime else s.end_datetime

abbrev pub start_key : Bytes → Bool
start_key key = starts_with (codes "start_") key

abbrev pub date_key : Bytes → Bool
date_key key = start_key key || starts_with (codes "end_") key

field_name-starts : (b : Bool) (f : Field) → start_key (field_name b f) ≡ b
unfolding starts_with
field_name-starts true year = refl
field_name-starts true month = refl
field_name-starts true day = refl
field_name-starts true hour = refl
field_name-starts true minute = refl
field_name-starts true second = refl
field_name-starts false year = refl
field_name-starts false month = refl
field_name-starts false day = refl
field_name-starts false hour = refl
field_name-starts false minute = refl
field_name-starts false second = refl

pub field_name-date_key : (b : Bool) (f : Field) → date_key (field_name b f) ≡ true
unfolding starts_with
field_name-date_key true year = refl
field_name-date_key true month = refl
field_name-date_key true day = refl
field_name-date_key true hour = refl
field_name-date_key true minute = refl
field_name-date_key true second = refl
field_name-date_key false year = refl
field_name-date_key false month = refl
field_name-date_key false day = refl
field_name-date_key false hour = refl
field_name-date_key false minute = refl
field_name-date_key false second = refl

field_name-field : (b : Bool) (f : Field) → get_wrf_datetime_field (field_name b f) ≡ some f
unfolding get_wrf_datetime_field equal
field_name-field true year = refl
field_name-field true month = refl
field_name-field true day = refl
field_name-field true hour = refl
field_name-field true minute = refl
field_name-field true second = refl
field_name-field false year = refl
field_name-field false month = refl
field_name-field false day = refl
field_name-field false hour = refl
field_name-field false minute = refl
field_name-field false second = refl

-- Such a key is none of another kind.
pub not_name :
    (key name : Bytes) (test : Bytes → Bool) (b : Bool)
    → test key ≡ b
    → test name ≡ not b
    → equal key name ≡ false
not_name key name test b s t = ground (arith, differ)
  where
    differ : equal key name ≡ true → ⊥
    differ e = ground (arith, sym (ap test (equal_sound key name e)) ∙ s, t)

pub field_name-other :
    (key : Bytes) (b : Bool) (f : Field)
    → start_key key ≡ b
    → equal key (field_name (not b) f) ≡ false
field_name-other key b f s = not_name key _ start_key b s (field_name-starts (not b) f)

-- The field that a key names, where it begins as the names of the start, or of the end, do.
field-field_name :
    (key : Bytes) (b : Bool) (g : Field)
    → start_key key ≡ b
    → get_wrf_datetime_field key ≡ some g
    → equal key (field_name b g) ≡ true
unfolding get_wrf_datetime_field
field-field_name key true g s e = ground (
  arith,
  s,
  e,
  field_name-other key true year s,
  field_name-other key true month s,
  field_name-other key true day s,
  field_name-other key true hour s,
  field_name-other key true minute s,
  field_name-other key true second s,
)
field-field_name key false g s e = ground (
  arith,
  s,
  e,
  field_name-other key false year s,
  field_name-other key false month s,
  field_name-other key false day s,
  field_name-other key false hour s,
  field_name-other key false minute s,
  field_name-other key false second s,
)

set_field-same : (f : Field) (z : ℤ) (d : DateTime) → field_of f (set_field f z d) ≡ to_field f z
set_field-same f z d = ground arith

set_field-other :
    (f g : Field) (z : ℤ) (d : DateTime) → f ≢ g → field_of f (set_field g z d) ≡ field_of f d
set_field-other f g z d h = ground (arith, h)

-- The number that a text holds is a field of the date.
pub record IsField (text : Bytes) (f : Field) (d : DateTime) : Type 0 where
  pub number : ℤ
  pub read : int_of text ≡ some number
  pub same : field_of f d ≡ to_field f number

module _ (b : Bool) (f : Field) where
  -- What a scan makes of it.
  unfoldable pub Reads : Bytes → ScanResult → Type 0
  Reads text (failed step c) = Unit
  Reads text (scanned s) = IsField text f (date_of b s)

  pub scanned-Reads :
      (text : Bytes) (s : InputScan) → IsField text f (date_of b s) → Reads text (scanned s)
  unfolding Reads
  scanned-Reads text s r = r

  pub failed-Reads : (text : Bytes) (step : ErrorStep) (c : WrfControl) → Reads text (failed step c)
  unfolding Reads
  failed-Reads text step c = tt

  pub reads-if :
      (test : Bool) (x y : ScanResult) (text : Bytes)
      → (test ≡ true → Reads text x)
      → (test ≡ false → Reads text y)
      → Reads text (if test then x else y)
  reads-if true x y text h k = h refl
  reads-if false x y text h k = k refl

  -- A step that leaves the dates alone.
  pub kept :
      {A : Type 0} (s : InputScan) (o : Option A) (next : A → ScanResult) (text : Bytes)
      → ((a : A) → Reads text (next a))
      → Reads text (or_failed s o next)
  unfolding Reads
  kept s none next text h = tt
  kept s (some a) next text h = h a

  pub mark_have-date :
      (is_start : Bool) (s : InputScan) → date_of b (mark_have is_start s) ≡ date_of b s
  mark_have-date is_start s = ground arith

  module _ (key value text : Bytes) where
    abbrev pub new_text : Bytes
    new_text = value_of (field_name b f) (some (key, value)) text

    -- A key that is of another kind.
    pub unchanged :
        (s : InputScan)
        → equal key (field_name b f) ≡ false
        → IsField text f (date_of b s)
        → IsField new_text f (date_of b s)
    unchanged s differ r =
        subst (λ t. IsField t f (date_of b s)) (sym (value_of-other _ key value text differ)) r

    pub set_date :
        (d : DateTime) (g : Field) (z : ℤ)
        → int_of value ≡ some z
        → start_key key ≡ b
        → get_wrf_datetime_field key ≡ some g
        → IsField text f d
        → IsField new_text f (set_field g z d)
    set_date d g z e s named r = elim (Bool-cases (equal key (field_name b f))) [
      | inl is ↦
          let same : f ≡ g = some_same (
            sym (field_name-field b f)
            ∙ ap get_wrf_datetime_field (sym (equal_sound key _ is))
            ∙ named) in
          record {
            number = z;
            read = ap int_of (value_of-same _ key value text is) ∙ e;
            same = ap (λ g. field_of f (set_field g z d)) (sym same) ∙ set_field-same f z d;
          }
      | inr other ↦ record {
        number = r.number;
        read = ap int_of (value_of-other _ key value text other) ∙ r.read;
        same =
            set_field-other f g z d (λ same. differs other (field-field_name key b g s named) same)
            ∙ r.same;
      }
    ]
      where
        some_same : {x y : Field} → ◌≡◌ {A = Option Field} (some x) (some y) → x ≡ y
        some_same p = cc

        differs :
            {g : Field}
            → equal key (field_name b f) ≡ false
            → equal key (field_name b g) ≡ true
            → f ≡ g
            → ⊥
        differs p q same = let t = ap (λ g. equal key (field_name b g)) same in cc

    pub no_field : get_wrf_datetime_field key ≡ none → equal key (field_name b f) ≡ false
    no_field h = ground (arith, differ)
      where
        differ : equal key (field_name b f) ≡ true → ⊥
        differ is =
            let e = ap get_wrf_datetime_field (equal_sound key _ is) ∙ field_name-field b f in cc
