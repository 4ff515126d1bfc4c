-- ===== src/Oifs/Tail/Whole.antt =====
-- Reading a log piece by piece gives the last line of the whole log (lib/utils.cpp).
use cpdn_control.Prelude.{
  ℕ, ◌≡◌, refl, sym, ap, ◌∙◌, Bool, true, false, not, some, List, [], ◌∷◌, ◌++◌, ltb, length,
  length-append, drop, ◌==◌, Bool-cases, inl, inr, arith,
}
use cpdn_control.Text.{Bytes, is_empty}
use cpdn_control.Progress.{get_lines, pushed}
use cpdn_control.Oifs.Tail.{TailState, last_of, truncated, fread_last_line}

-- A text of whole lines: it is empty, or its last byte is '\n'.
abbrev pub ends_line : Bytes → Bool
ends_line [] = true
ends_line (c ∷ []) = c == b'\n'
ends_line (c ∷ d ∷ s) = ends_line (d ∷ s)

-- The last line of a text, or nothing where it has none.
abbrev pub last_line_of : Bytes → Bytes
last_line_of content = (last_of (get_lines content) [] false).0

-- The static variables after the whole of a log was read.
pub record HasRead (content : Bytes) (st : TailState) : Type 0 where
  pub offset : st.last_offset ≡ length content
  pub line : st.last_line ≡ last_line_of content

abbrev is_nil : List Bytes → Bool
is_nil [] = true
is_nil (line ∷ lines) = false

pushed-append :
    (c : ℕ) (lines more : List Bytes)
    → is_nil lines ≡ false
    → pushed c (lines ++ more) ≡ pushed c lines ++ more
pushed-append c [] more h = absurd (ground (arith, h))
pushed-append c (line ∷ lines) more h = refl

pushed_some : (c : ℕ) (lines : List Bytes) → is_nil (pushed c lines) ≡ false
pushed_some c [] = refl
pushed_some c (line ∷ lines) = refl

get_lines_some : (c : ℕ) (s : Bytes) → is_nil (get_lines (c ∷ s)) ≡ false
unfolding get_lines
get_lines_some c s = elim (Bool-cases (c == b'\n')) [
  | inl newline ↦ rw newline refl
  | inr other ↦ rw other (pushed_some c (get_lines s))
]

get_lines-append :
    (a b : Bytes) → ends_line a ≡ true → get_lines (a ++ b) ≡ get_lines a ++ get_lines b
unfolding get_lines
get_lines-append [] b h = refl
get_lines-append (c ∷ []) b h = rw h refl
get_lines-append (c ∷ d ∷ s) b h = elim (Bool-cases (c == b'\n')) [
  | inl newline ↦ rw (newline, get_lines-append (d ∷ s) b h) refl
  | inr other ↦
      rw (other, get_lines-append (d ∷ s) b h)
        (pushed-append c (get_lines (d ∷ s)) (get_lines b) (get_lines_some d s))
]

last_of-append :
    (a b : List Bytes) (line : Bytes) (read : Bool)
    → last_of (a ++ b) line read ≡ last_of b (last_of a line read).0 (last_of a line read).1
unfolding last_of
last_of-append [] b line read = refl
last_of-append (l ∷ a) b line read = last_of-append a b l true

-- The line does not depend on whether one was read before.
last_of_line :
    (lines : List Bytes) (line : Bytes) (r s : Bool)
    → (last_of lines line r).0 ≡ (last_of lines line s).0
unfolding last_of
last_of_line [] line r s = refl
last_of_line (l ∷ lines) line r s = refl

drop-append : (a b : Bytes) → drop (length a) (a ++ b) ≡ b
drop-append [] b = refl
drop-append (x ∷ a) b = drop-append a b

any_read : (lines : List Bytes) (line : Bytes) → (last_of lines line true).1 ≡ true
unfolding last_of
any_read [] line = refl
any_read (l ∷ lines) line = any_read lines l

read-nonempty : (new line : Bytes) → (last_of (get_lines new) line false).1 ≡ not (is_empty new)
unfolding is_empty
read-nonempty [] line = unfold last_of get_lines in refl
read-nonempty (c ∷ s) line = nonempty_read (get_lines (c ∷ s)) (get_lines_some c s)
  where
    nonempty_read :
        (lines : List Bytes) → is_nil lines ≡ false → (last_of lines line false).1 ≡ true
    nonempty_read [] h = absurd (ground (arith, h))
    nonempty_read (l ∷ lines) h = unfold last_of in any_read lines l

module _ (content new : Bytes) (st : TailState) (ended : ends_line content ≡ true)
    (known : HasRead content st) where
  abbrev read : Bytes × Bool
  read = last_of (get_lines new) st.last_line false

  not_truncated : truncated (content ++ new) st ≡ st
  not_truncated = rw (longer) refl
    where
      longer : ltb (length (content ++ new)) st.last_offset ≡ false
      longer = ground (arith, known.offset, length-append content new)

  new_text : drop st.last_offset (content ++ new) ≡ new
  new_text = rw (known.offset) (drop-append content new)

  fread_eq :
      fread_last_line (some (content ++ new)) st
      ≡ ((read.1, read.0), record { last_offset = length (content ++ new); last_line = read.0 })
  unfolding fread_last_line
  fread_eq = rw (not_truncated, new_text) refl

  line_eq : read.0 ≡ last_line_of (content ++ new)
  line_eq =
      ap (λ line. (last_of (get_lines new) line false).0) known.line
      ∙ last_of_line (get_lines new) _ _ _
      ∙ sym (ap (λ r. r.0) (last_of-append (get_lines content) (get_lines new) [] false))
      ∙ sym (ap (λ lines. (last_of lines [] false).0) (get_lines-append content new ended))

  -- Where a log has grown by any text behind whole lines that were read before, the last line of the whole
  -- log is returned, with whether there was any new text, and the next call goes on from there: so
  -- the pieces read one by one give what one reading of the whole log gives.
  pub fread_last_line-whole :
      ((fread_last_line (some (content ++ new)) st).0.1 ≡ last_line_of (content ++ new))
      × ((fread_last_line (some (content ++ new)) st).0.0 ≡ not (is_empty new))
      × HasRead (content ++ new) (fread_last_line (some (content ++ new)) st).1
  fread_last_line-whole = (
    ap (λ r. r.0.1) fread_eq ∙ line_eq,
    ap (λ r. r.0.0) fread_eq ∙ read-nonempty new st.last_line,
    record {
      offset = ap (λ r. r.1.last_offset) fread_eq;
      line = ap (λ r. r.1.last_line) fread_eq ∙ line_eq;
    },
  )
