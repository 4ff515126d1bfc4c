-- ===== src/Text/KeyValue.antt =====
-- `split_key_value`, `parse_key_value` and `parse_namelist_key_value` of lib/utils.cpp.
use cpdn_control.Prelude.{
  ℕ, ◌≡◌, ◌≢◌, refl, sym, ap, ◌∙◌, ◌⊎◌, false, ◌||◌, inl, inr, some, [], ◌∷◌, ◌++◌, All, All-append,
  arith, append-nil, append_assoc, ◌==◌,
}
use cpdn_control.Text.{
  Bytes, is_empty, is_trimmed_char, split_at, cut_at, front, back, ltrim, trim_whitespace,
  strip_quotes_and_trim, split_key_value, parse_key_value, parse_namelist_key_value, strip_value,
  trimmed_pair,
}
use cpdn_control.Text.Trim.{
  AllBlank, IsTrimmed, SolidFront, SolidBack, ltrim-eq, ltrim-append_blank, trim_whitespace_lem,
}

abbrev pub Without : ℕ → Bytes → Type 0
Without d s = All (λ c. (c == d) ≡ false) s

pub AllBlank-Without : (d : ℕ) (s : Bytes) → is_trimmed_char d ≡ false → AllBlank s → Without d s
AllBlank-Without d [] h b = tt
AllBlank-Without d (c ∷ s) h b = (ground arith, AllBlank-Without d s h b.1)

pub cut_at-append :
    (d : ℕ) (s rest : Bytes) → Without d s → cut_at d (s ++ rest) ≡ s ++ cut_at d rest
unfolding cut_at
cut_at-append d [] rest h = refl
cut_at-append d (c ∷ s) rest h = rw (h.0, cut_at-append d s rest h.1)

pub split_at-append : (d : ℕ) (l r : Bytes) → Without d l → split_at d (l ++ d ∷ r) ≡ some (l, r)
unfolding split_at
split_at-append d [] r h = ground arith
split_at-append d (c ∷ l) r h = rw (h.0, split_at-append d l r h.1)

-- What may follow a value on its line: nothing, or a comma or a comment and anything behind it.
abbrev pub IsTail : Bytes → Type 0
IsTail [] = Unit
IsTail (c ∷ s) = (c ≡ b',') ⊎ (c ≡ b'!')

cut_tail : (s : Bytes) → IsTail s → cut_at b',' (cut_at b'!' s) ≡ []
unfolding cut_at
cut_tail [] h = refl
cut_tail (c ∷ s) (inl e) = rw e
cut_tail (c ∷ s) (inr e) = rw e

pub record IsKey (key : Bytes) : Type 0 where
  pub ne_nil : key ≢ []
  pub trimmed : IsTrimmed key
  pub no_equals : Without b'=' key
  pub no_comma : Without b',' key
  pub no_bang : Without b'!' key
  pub no_hash : (front key == b'#') ≡ false

pub record IsValue (value : Bytes) : Type 0 where
  pub ne_nil : value ≢ []
  pub trimmed : IsTrimmed value
  pub no_comma : Without b',' value
  pub no_bang : Without b'!' value
  pub unquoted : ((front value == b'"') || (front value == b'\'')) ≡ false

strip_unquoted :
    (s : Bytes) → ((front s == b'"') || (front s == b'\'')) ≡ false → strip_quotes_and_trim s ≡ s
unfolding strip_quotes_and_trim
strip_unquoted s h = ground arith

back-append : (s r : Bytes) → r ≢ [] → back (s ++ r) ≡ back r
back-append [] r h = refl
back-append (c ∷ []) [] h = absurd (h refl)
back-append (c ∷ []) (d ∷ r) h = refl
back-append (c ∷ d ∷ s) r h = back-append (d ∷ s) r h

pub SolidBack-append : (s r : Bytes) → r ≢ [] → SolidBack r → SolidBack (s ++ r)
SolidBack-append s [] h b = absurd (h refl)
SolidBack-append [] (d ∷ r) h b = b
SolidBack-append (c ∷ s) (d ∷ r) h b = rw (back-append (c ∷ s) (d ∷ r) h) b

SolidBack-append_cons : (s : Bytes) (d : ℕ) (r : Bytes) → SolidBack (d ∷ r) → SolidBack (s ++ d ∷ r)
SolidBack-append_cons s d r b = SolidBack-append s (d ∷ r) (λ e. cc) b

pub SolidFront-append : (s r : Bytes) → s ≢ [] → SolidFront s → SolidFront (s ++ r)
SolidFront-append [] r h f = absurd (h refl)
SolidFront-append (c ∷ s) r h f = f

pub append-ne-nil : (s r : Bytes) → s ≢ [] → s ++ r ≢ []
append-ne-nil [] r h = absurd (h refl)
append-ne-nil (c ∷ s) r h = λ e. cc

front-append : (s r : Bytes) → s ≢ [] → (front (s ++ r) ≡ front s) × (is_empty (s ++ r) ≡ false)
unfolding is_empty
front-append [] r h = absurd (h refl)
front-append (c ∷ s) r h = (refl, refl)

trimmed_pair_lem :
    (l r : Bytes)
    → l ≢ []
    → trimmed_pair (some (l, r)) ≡ some (trim_whitespace l, trim_whitespace r)
unfolding trimmed_pair
trimmed_pair_lem [] r h = absurd (h refl)
trimmed_pair_lem (c ∷ l) r h = refl

Without-front : (d : ℕ) (s : Bytes) → s ≢ [] → Without d s → (front s == d) ≡ false
Without-front d [] h w = absurd (h refl)
Without-front d (c ∷ s) h w = w.0

module _ (key value : Bytes) (before_equals after_equals : Bytes) (k : IsKey key)
    (v : IsValue value) (hb : AllBlank before_equals) (ha : AllBlank after_equals) where
  abbrev core : Bytes
  core = key ++ (before_equals ++ (b'=' ∷ (after_equals ++ value)))

  core-IsTrimmed : IsTrimmed core
  core-IsTrimmed = record {
    solid_front = SolidFront-append key _ k.ne_nil k.trimmed.solid_front;
    solid_back = rw (sym (append_assoc key before_equals (b'=' ∷ (after_equals ++ value)))) (
        SolidBack-append_cons (key ++ before_equals) b'=' (after_equals ++ value)
          (SolidBack-append (b'=' ∷ after_equals) value v.ne_nil v.trimmed.solid_back));
  }

  split-core : split_at b'=' core ≡ some (key ++ before_equals, after_equals ++ value)
  split-core = rw (sym (append_assoc key before_equals (b'=' ∷ (after_equals ++ value)))) (
      split_at-append b'=' (key ++ before_equals) (after_equals ++ value) (
        All-append _ key before_equals k.no_equals
          (AllBlank-Without b'=' before_equals (unfold is_trimmed_char in refl) hb)))

  trimmed_pair-core :
      trimmed_pair (some (key ++ before_equals, after_equals ++ value)) ≡ some (key, value)
  trimmed_pair-core =
      trimmed_pair_lem (key ++ before_equals) (after_equals ++ value) (append-ne-nil key _ k.ne_nil)
      ∙ rw ((trim_whitespace_lem [] [] key before_equals tt k.trimmed hb).1) (
          ap (λ r. some (key, r))
            (ap (λ r. trim_whitespace (after_equals ++ r)) (sym (append-nil value))
              ∙ (trim_whitespace_lem [] after_equals value [] ha v.trimmed tt).1))

  -- Blanks around the line, its `=` and its value, and what follows the value, are dropped.
  split_key_value-core :
      (after_value : Bytes)
      → AllBlank after_value
      → split_key_value b'=' (core ++ after_value) ≡ some (key, value)
  unfolding split_key_value
  split_key_value-core after_value h =
      ap (λ r. trimmed_pair (split_at b'=' r))
        (trim_whitespace_lem [] [] core after_value tt core-IsTrimmed h).1
      ∙ ap trimmed_pair split-core
      ∙ trimmed_pair-core

  front-core : (r : Bytes) → (front (core ++ r) ≡ front key) × (is_empty (core ++ r) ≡ false)
  front-core r =
      let outer = front-append core r (append-ne-nil key _ k.ne_nil) in
      (outer.0 ∙ (front-append key _ k.ne_nil).0, outer.1)

  ltrim-core : (r : Bytes) → ltrim (core ++ r) ≡ core ++ r
  ltrim-core r =
      ltrim-eq (core ++ r)
        (SolidFront-append core r (append-ne-nil key _ k.ne_nil) core-IsTrimmed.solid_front)

  parse_key_value-core :
      (after_value : Bytes)
      → AllBlank after_value
      → parse_key_value b'=' (core ++ after_value) ≡ some (key, value)
  unfolding parse_key_value strip_value
  parse_key_value-core after_value h = rw (
    ltrim-core after_value,
    (front-core after_value).0,
    (front-core after_value).1,
    k.no_hash,
    split_key_value-core after_value h,
    strip_unquoted value v.unquoted,
  )

  Without-core :
      (d : ℕ)
      → is_trimmed_char d ≡ false
      → (b'=' == d) ≡ false
      → Without d key
      → Without d value
      → Without d core
  Without-core d blank equals in_key in_value = All-append _ key _ in_key (
      All-append _ before_equals _ (AllBlank-Without d before_equals blank hb) (
        equals,
        All-append _ after_equals value (AllBlank-Without d after_equals blank ha) in_value,
      ))

  -- The line without what follows the value.
  cut-core :
      (after_value tail : Bytes)
      → AllBlank after_value
      → IsTail tail
      → cut_at b',' (cut_at b'!' ((core ++ after_value) ++ tail)) ≡ core ++ after_value
  unfolding is_trimmed_char
  cut-core after_value tail h t = rw (
    cut_at-append b'!' (core ++ after_value) tail (
        All-append _ core after_value (Without-core b'!' refl refl k.no_bang v.no_bang)
          (AllBlank-Without b'!' after_value refl h)),
    cut_at-append b',' (core ++ after_value) (cut_at b'!' tail) (
        All-append _ core after_value (Without-core b',' refl refl k.no_comma v.no_comma)
          (AllBlank-Without b',' after_value refl h)),
    cut_tail tail t,
    append-nil (core ++ after_value),
  )

  parse_namelist_key_value-core :
      (before after_value tail : Bytes)
      → AllBlank before
      → AllBlank after_value
      → IsTail tail
      → parse_namelist_key_value (before ++ ((core ++ after_value) ++ tail)) ≡ some (key, value)
  unfolding parse_namelist_key_value
  parse_namelist_key_value-core before after_value tail hbefore h t =
      rw (ltrim-append_blank before ((core ++ after_value) ++ tail) hbefore) (
        rw (append_assoc core after_value tail) (
          rw
            (
              ltrim-core (after_value ++ tail),
              (front-core (after_value ++ tail)).0,
              (front-core (after_value ++ tail)).1,
              Without-front b'!' key k.ne_nil k.no_bang,
            )
            (rw (sym (append_assoc core after_value tail))
              (rw (cut-core after_value tail h t) (parse_key_value-core after_value h)))))

-- A namelist line: blanks, the key, blanks, `=`, blanks, the value, blanks, and a tail.
abbrev pub namelist_line : Bytes → Bytes → Bytes → Bytes → Bytes → Bytes → Bytes → Bytes
namelist_line before key before_equals after_equals value after_value tail =
    before
    ++ (((key ++ (before_equals ++ (b'=' ∷ (after_equals ++ value)))) ++ after_value) ++ tail)

-- A namelist line gives back its key and its value, whatever blanks stand around them and whatever
-- follows the value behind a comma or an exclamation mark. The key has no `=`, `,` or `!` in it and
-- does not start with `#`; the value has no `,` or `!` and does not start with a quote.
pub parse_namelist_key_value_lem :
    (before key before_equals after_equals value after_value tail : Bytes)
    → IsKey key
    → IsValue value
    → AllBlank before
    → AllBlank before_equals
    → AllBlank after_equals
    → AllBlank after_value
    → IsTail tail
    → parse_namelist_key_value
        (namelist_line before key before_equals after_equals value after_value tail)
      ≡ some (key, value)
parse_namelist_key_value_lem before key be ae value av tail k v hbefore hb ha hv t =
    parse_namelist_key_value-core key value be ae k v hb ha before av tail hbefore hv t
