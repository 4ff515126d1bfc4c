-- ===== src/Wrf/Stamps.antt =====
-- `parse_wrf_timestamp` (models/wrf/wrf_control.cpp).
use cpdn_control.Prelude.{
  ℕ, ◌+◌, ◌*◌, ◌/◌, ◌%◌, ◌-◌, ◌<◌, ◌≤◌, get_or-All, ◌≡◌, ◌∙◌, refl, true, some, List, [], ◌∷◌,
  arith,
}
use cpdn_control.Text.{Bytes, lex_lt, is_ascii_digit}
use cpdn_control.Calendar.{DateTime, days_in_month, month_lengths}
use cpdn_control.Calendar.Months.{IsValid}
use cpdn_control.Wrf.{
  RestartSet, is_later, at, digits_at, is_wrf_datetime_suffix, parse_wrf_timestamp,
}

-- The decimal digit of `n` for the power `p` of ten.
abbrev pub char : ℕ → ℕ → ℕ
char n p = b'0' + n / p % 10

-- YYYY-MM-DD_hh:mm:ss
abbrev pub stamp : DateTime → Bytes
stamp d =
    char d.year 1000
    ∷ char d.year 100
    ∷ char d.year 10
    ∷ char d.year 1
    ∷ b'-'
    ∷ char d.month 10
    ∷ char d.month 1
    ∷ b'-'
    ∷ char d.day 10
    ∷ char d.day 1
    ∷ b'_'
    ∷ char d.hour 10
    ∷ char d.hour 1
    ∷ b':'
    ∷ char d.minute 10
    ∷ char d.minute 1
    ∷ b':'
    ∷ char d.second 10
    ∷ char d.second 1
    ∷ []

-- Each field has room for its digits.
pub record HasRoom (d : DateTime) : Type 0 where
  pub year : d.year < 10000
  pub month : d.month < 100
  pub day : d.day < 100
  pub hour : d.hour < 100
  pub minute : d.minute < 100
  pub second : d.second < 100

days_in_month_le : (y m : ℕ) → days_in_month y m ≤ 31
unfolding days_in_month
days_in_month_le y m =
    ground (arith, get_or-All (λ n. n ≤ 31) month_lengths (m - 1) 0 (omega arith))

-- A valid date of four digits to the year has room for the other digits.
pub IsValid-HasRoom : (d : DateTime) → IsValid d → d.year < 10000 → HasRoom d
IsValid-HasRoom d v h = record {
  year = h;
  month = omega (arith, v.month_in);
  day = omega (arith, v.day_in, days_in_month_le d.year d.month);
  hour = omega (arith, v.hour_in);
  minute = omega (arith, v.minute_in);
  second = omega (arith, v.second_in);
}

digit_lem : (n : ℕ) → is_ascii_digit (b'0' + n % 10) ≡ true
unfolding is_ascii_digit
digit_lem n = ground arith

pub stamp-suffix : (d : DateTime) → is_wrf_datetime_suffix (stamp d) ≡ true
unfolding is_wrf_datetime_suffix digits_at at
stamp-suffix d = simp digit_lem

two_digits : (n : ℕ) → n < 100 → (char n 10 - b'0') * 10 + (char n 1 - b'0') ≡ n
two_digits n h = omega arith

four_digits :
    (n : ℕ)
    → n < 10000
    → (char n 1000 - b'0') * 1000
        + (char n 100 - b'0') * 100
        + (char n 10 - b'0') * 10
        + (char n 1 - b'0')
      ≡ n
four_digits n h = omega arith

-- A time stamp as WRF writes it is read as the date it was made from, where each field of the date
-- has room for its digits.
pub parse_wrf_timestamp-stamp : (d : DateTime) → HasRoom d → parse_wrf_timestamp (stamp d) ≡ some d
unfolding parse_wrf_timestamp at
parse_wrf_timestamp-stamp d h =
    rw
      (
        stamp-suffix d,
        four_digits d.year h.year,
        two_digits d.month h.month,
        two_digits d.day h.day,
        two_digits d.hour h.hour,
        two_digits d.minute h.minute,
        two_digits d.second h.second,
      )
      refl

-- A date's fields, the greatest unit first.
abbrev pub fields : DateTime → List ℕ
fields d = d.year ∷ d.month ∷ d.day ∷ d.hour ∷ d.minute ∷ d.second ∷ []

lex_lt-same : (c : ℕ) (s t : List ℕ) → lex_lt (c ∷ s) (c ∷ t) ≡ lex_lt s t
unfolding lex_lt
lex_lt-same c s t = ground arith

lex_lt-two :
    (n m : ℕ) (s t s' t' : List ℕ)
    → n < 100
    → m < 100
    → lex_lt s t ≡ lex_lt s' t'
    → lex_lt (char n 10 ∷ char n 1 ∷ s) (char m 10 ∷ char m 1 ∷ t) ≡ lex_lt (n ∷ s') (m ∷ t')
unfolding lex_lt
lex_lt-two n m s t s' t' hn hm h = ground arith

-- Four digits are two times two.
four_chars :
    (n : ℕ) (s : List ℕ)
    → n < 10000
    → char n 1000 ∷ char n 100 ∷ char n 10 ∷ char n 1 ∷ s
      ≡ char (n / 100) 10 ∷ char (n / 100) 1 ∷ char (n % 100) 10 ∷ char (n % 100) 1 ∷ s
four_chars n s h =
    let thousands : char n 1000 ≡ char (n / 100) 10 = omega arith in
    let hundreds : char n 100 ≡ char (n / 100) 1 = omega arith in
    let tens : char n 10 ≡ char (n % 100) 10 = omega arith in
    let ones : char n 1 ≡ char (n % 100) 1 = omega arith in cc

lex_lt-split :
    (n m : ℕ) (s t : List ℕ)
    → lex_lt (n / 100 ∷ n % 100 ∷ s) (m / 100 ∷ m % 100 ∷ t) ≡ lex_lt (n ∷ s) (m ∷ t)
unfolding lex_lt
lex_lt-split n m s t = ground arith

lex_lt-four :
    (n m : ℕ) (s t s' t' : List ℕ)
    → n < 10000
    → m < 10000
    → lex_lt s t ≡ lex_lt s' t'
    → lex_lt
        (char n 1000 ∷ char n 100 ∷ char n 10 ∷ char n 1 ∷ s)
        (char m 1000 ∷ char m 100 ∷ char m 10 ∷ char m 1 ∷ t)
      ≡ lex_lt (n ∷ s') (m ∷ t')
lex_lt-four n m s t s' t' hn hm h =
    rw (four_chars n s hn, four_chars m t hm)
      (lex_lt-two (n / 100) (m / 100) _ _ (n % 100 ∷ s') (m % 100 ∷ t') (omega arith) (omega arith)
          (lex_lt-two (n % 100) (m % 100) s t s' t' (omega arith) (omega arith) h)
        ∙ lex_lt-split n m s' t')

lex_lt-after :
    (c : ℕ) (s t s' t' : List ℕ) → lex_lt s t ≡ lex_lt s' t' → lex_lt (c ∷ s) (c ∷ t) ≡ lex_lt s' t'
lex_lt-after c s t s' t' h = lex_lt-same c s t ∙ h

lex_lt-stamp :
    (a b : DateTime)
    → HasRoom a
    → HasRoom b
    → lex_lt (stamp a) (stamp b) ≡ lex_lt (fields a) (fields b)
lex_lt-stamp a b ha hb = lex_lt-four a.year b.year _ _ _ _ ha.year hb.year (
    lex_lt-after b'-' _ _ _ _ (
      lex_lt-two a.month b.month _ _ _ _ ha.month hb.month (
        lex_lt-after b'-' _ _ _ _ (
          lex_lt-two a.day b.day _ _ _ _ ha.day hb.day (
            lex_lt-after b'_' _ _ _ _ (
              lex_lt-two a.hour b.hour _ _ _ _ ha.hour hb.hour (
                lex_lt-after b':' _ _ _ _ (
                  lex_lt-two a.minute b.minute _ _ _ _ ha.minute hb.minute (
                    lex_lt-after b':' _ _ _ _
                      (lex_lt-two a.second b.second _ _ _ _ ha.second hb.second refl))))))))))

-- A restart set is taken for later than another exactly if its date is later, the fields compared from
-- the year to the second, where the sets have the time stamps that WRF writes for dates with four
-- digits to the year and two to the other fields.
pub is_later-stamp :
    (latest restart_set : RestartSet) (a b : DateTime)
    → HasRoom a
    → HasRoom b
    → latest.datetime ≡ stamp a
    → restart_set.datetime ≡ stamp b
    → is_later (some latest) restart_set ≡ lex_lt (fields a) (fields b)
unfolding is_later
is_later-stamp latest restart_set a b ha hb ea eb = rw (ea, eb) (lex_lt-stamp a b ha hb)
