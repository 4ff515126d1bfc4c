-- ===== src/Text/Trim.antt =====
-- `ltrim`, `rtrim` and `trim_whitespace` of lib/utils.cpp.
use cpdn_control.Prelude.{
  ℕ, ◌≡◌, refl, sym, ap, ◌∙◌, true, false, ◌&&◌, inl, inr, [], ◌∷◌, ◌++◌, All, arith, Bool-cases,
  append-nil,
}
use cpdn_control.Text.{Bytes, is_empty, is_trimmed_char, back, ltrim, rtrim, trim_whitespace}

abbrev pub AllBlank : Bytes → Type 0
AllBlank s = All (λ c. is_trimmed_char c ≡ true) s

abbrev pub AllSolid : Bytes → Type 0
AllSolid s = All (λ c. is_trimmed_char c ≡ false) s

abbrev pub SolidFront : Bytes → Type 0
SolidFront [] = Unit
SolidFront (c ∷ s) = is_trimmed_char c ≡ false

abbrev pub SolidBack : Bytes → Type 0
SolidBack [] = Unit
SolidBack (c ∷ s) = is_trimmed_char (back (c ∷ s)) ≡ false

-- No blank at either end.
pub record IsTrimmed (s : Bytes) : Type 0 where
  pub solid_front : SolidFront s
  pub solid_back : SolidBack s

SolidBack-cons :
    (c : ℕ) (r : Bytes)
    → SolidBack r
    → (is_empty r && is_trimmed_char c) ≡ false
    → SolidBack (c ∷ r)
unfolding is_empty
SolidBack-cons c [] h e = e
SolidBack-cons c (d ∷ r) h e = h

pub rtrim-SolidBack : (s : Bytes) → SolidBack (rtrim s)
unfolding rtrim
rtrim-SolidBack [] = tt
rtrim-SolidBack (c ∷ s) = elim (Bool-cases (is_empty (rtrim s) && is_trimmed_char c)) [
  | inl drop ↦ rw drop tt
  | inr keep ↦ rw keep (SolidBack-cons c (rtrim s) (rtrim-SolidBack s) keep)
]

pub rtrim-eq : (s : Bytes) → SolidBack s → rtrim s ≡ s
unfolding rtrim
rtrim-eq [] h = refl
rtrim-eq (c ∷ []) h = rw h
rtrim-eq (c ∷ d ∷ s) h = ground (arith, rtrim-eq (d ∷ s) h)

ltrim-SolidFront : (s : Bytes) → SolidFront (ltrim s)
unfolding ltrim
ltrim-SolidFront [] = tt
ltrim-SolidFront (c ∷ s) = elim (Bool-cases (is_trimmed_char c)) [
  | inl blank ↦ rw blank (ltrim-SolidFront s)
  | inr solid ↦ rw solid solid
]

pub ltrim-eq : (s : Bytes) → SolidFront s → ltrim s ≡ s
unfolding ltrim
ltrim-eq [] h = refl
ltrim-eq (c ∷ s) h = rw h

rtrim-SolidFront : (s : Bytes) → SolidFront s → SolidFront (rtrim s)
unfolding rtrim
rtrim-SolidFront [] h = tt
rtrim-SolidFront (c ∷ s) h = elim (Bool-cases (is_empty (rtrim s))) [
  | inl e ↦ rw (e, h) h
  | inr e ↦ rw e h
]

pub trim_whitespace-IsTrimmed : (s : Bytes) → IsTrimmed (trim_whitespace s)
unfolding trim_whitespace
trim_whitespace-IsTrimmed s = record {
  solid_front = rtrim-SolidFront (ltrim s) (ltrim-SolidFront s);
  solid_back = rtrim-SolidBack (ltrim s);
}

pub trim_whitespace-eq : (s : Bytes) → IsTrimmed s → trim_whitespace s ≡ s
unfolding trim_whitespace
trim_whitespace-eq s t = ap rtrim (ltrim-eq s t.solid_front) ∙ rtrim-eq s t.solid_back

pub ltrim-append_blank : (blank s : Bytes) → AllBlank blank → ltrim (blank ++ s) ≡ ltrim s
unfolding ltrim
ltrim-append_blank [] s h = refl
ltrim-append_blank (c ∷ blank) s h = rw h.0 (ltrim-append_blank blank s h.1)

rtrim_blank : (blank : Bytes) → AllBlank blank → rtrim blank ≡ []
unfolding rtrim
rtrim_blank [] h = refl
rtrim_blank (c ∷ blank) h = ground (arith, rtrim_blank blank h.1)

rtrim-append_blank : (s blank : Bytes) → AllBlank blank → rtrim (s ++ blank) ≡ rtrim s
unfolding rtrim
rtrim-append_blank [] blank h = rtrim_blank blank h
rtrim-append_blank (c ∷ s) blank h = rw (rtrim-append_blank s blank h)

trim_whitespace-append_blank :
    (s blank : Bytes) → SolidFront s → AllBlank blank → trim_whitespace (s ++ blank) ≡ rtrim s
unfolding trim_whitespace
trim_whitespace-append_blank [] blank h b =
    ap rtrim (ap ltrim (sym (append-nil blank)) ∙ ltrim-append_blank blank [] b)
    ∙ unfold ltrim in refl
trim_whitespace-append_blank (c ∷ s) blank h b =
    ap rtrim (ltrim-eq (c ∷ s ++ blank) h) ∙ rtrim-append_blank (c ∷ s) blank b

-- Trimming takes off exactly the blanks around a text that has none at its ends, and whatever it
-- is given, what it returns has none at its ends.
pub trim_whitespace_lem :
    (any before s after : Bytes)
    → AllBlank before
    → IsTrimmed s
    → AllBlank after
    → IsTrimmed (trim_whitespace any) × (trim_whitespace (before ++ (s ++ after)) ≡ s)
unfolding trim_whitespace
trim_whitespace_lem any before s after hb t ha = (
  trim_whitespace-IsTrimmed any,
  ap rtrim (ltrim-append_blank before (s ++ after) hb)
      ∙ trim_whitespace-append_blank s after t.solid_front ha
      ∙ rtrim-eq s t.solid_back,
)

AllSolid-SolidBack : (s : Bytes) → AllSolid s → SolidBack s
AllSolid-SolidBack [] h = tt
AllSolid-SolidBack (c ∷ []) h = h.0
AllSolid-SolidBack (c ∷ d ∷ s) h = AllSolid-SolidBack (d ∷ s) h.1

AllSolid-SolidFront : (s : Bytes) → AllSolid s → SolidFront s
AllSolid-SolidFront [] h = tt
AllSolid-SolidFront (c ∷ s) h = h.0

pub AllSolid-IsTrimmed : (s : Bytes) → AllSolid s → IsTrimmed s
AllSolid-IsTrimmed s h = record {
  solid_front = AllSolid-SolidFront s h;
  solid_back = AllSolid-SolidBack s h;
}
