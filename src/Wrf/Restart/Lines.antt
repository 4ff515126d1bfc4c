-- ===== src/Wrf/Restart/Lines.antt =====
-- The line of the restart flag, in the rewriting of the namelist (models/wrf/wrf_control.cpp).
use cpdn_control.Prelude.{
  ℕ, ◌≡◌, refl, sym, ap, ◌∙◌, inl, inr, Bool, true, false, ◌&&◌, Option, none, some, [], ◌∷◌, ◌++◌,
  ◌==◌, length, drop, if◌then◌else◌, Bool-cases, arith,
}
use cpdn_control.Text.{
  Bytes, codes, is_empty, contains, equal, starts_with, after_first, split_at, cut_at,
  is_trimmed_char, ltrim, rtrim, trim_whitespace,
}
use cpdn_control.Text.Equal.{equal_sound}
use cpdn_control.Wrf.Restart.{in_front, replace_first, is_found}

abbrev pub key_of : Option (Bytes × Bytes) → Option Bytes
key_of none = none
key_of (some (key, value)) = some key

abbrev pub is_restart_key : Option Bytes → Bool
is_restart_key none = false
is_restart_key (some key) = equal (trim_whitespace key) (codes "restart")

-- A line of the namelist with the key of the restart flag and the text `.true.` in it, if only in a
-- comment.
abbrev pub mentions_true : Bytes → Bool
mentions_true line =
    is_restart_key (key_of (split_at b'=' (cut_at b'!' line)))
    && is_found (after_first (codes ".true.") line)

contains-rtrim : (s : Bytes) → contains b'.' (rtrim s) ≡ false → contains b'.' s ≡ false
unfolding contains rtrim is_empty is_trimmed_char
contains-rtrim [] w = refl
contains-rtrim (c ∷ s) w = ground (arith, contains-rtrim s, w)

contains-ltrim : (s : Bytes) → contains b'.' (ltrim s) ≡ false → contains b'.' s ≡ false
unfolding contains ltrim is_trimmed_char
contains-ltrim [] w = refl
contains-ltrim (c ∷ s) w = ground (arith, contains-ltrim s, w)

contains-trim : (s : Bytes) → contains b'.' (trim_whitespace s) ≡ false → contains b'.' s ≡ false
unfolding trim_whitespace
contains-trim s w = contains-ltrim s (contains-rtrim (ltrim s) w)

restart_key-contains : (key : Bytes) → is_restart_key (some key) ≡ true → contains b'.' key ≡ false
unfolding contains
restart_key-contains key h =
    contains-trim key (ap (contains b'.') (equal_sound (trim_whitespace key) (codes "restart") h))

-- What stands before the first `=`, if no `!` is before it.
key_at : Bytes → Option Bytes
key_at [] = none
key_at (c ∷ s) = if c == b'!' then none else if c == b'=' then some [] else in_front c (key_at s)

key_of-key_at : (s : Bytes) → key_of (split_at b'=' (cut_at b'!' s)) ≡ key_at s
unfolding split_at cut_at key_at
key_of-key_at [] = refl
key_of-key_at (c ∷ s) = ground (arith, key_of-key_at s)

in_front_eq :
    (c : ℕ) (rest : Option Bytes) (s : Bytes)
    → in_front c rest ≡ some s
    → (t : Bytes) × (rest ≡ some t) × (s ≡ c ∷ t)
in_front_eq c none s h = absurd (ground (arith, h))
in_front_eq c (some t) s h = (t, refl, cc)

key_at-cons :
    (c : ℕ) (s key : Bytes)
    → (c == b'!') ≡ false
    → (c == b'=') ≡ false
    → key_at s ≡ some key
    → key_at (c ∷ s) ≡ some (c ∷ key)
unfolding key_at
key_at-cons c s key h k e = rw (h, k, e) refl

replace_first-cons :
    (old new : Bytes) (c : ℕ) (line updated : Bytes)
    → starts_with old (c ∷ line) ≡ false
    → replace_first old new (c ∷ line) ≡ some updated
    → (t : Bytes) × (replace_first old new line ≡ some t) × (updated ≡ c ∷ t)
unfolding replace_first
replace_first-cons old new c line updated n h =
    in_front_eq c (replace_first old new line) updated (ground (arith, h, n))

no_point-starts_with :
    (c : ℕ) (line : Bytes) → (c == b'.') ≡ false → starts_with (codes ".false.") (c ∷ line) ≡ false
unfolding starts_with
no_point-starts_with c line h = ground arith

equals-point : (c : ℕ) → (c == b'=') ≡ true → (c == b'.') ≡ false
equals-point c h = ground arith

contains-cons :
    (c : ℕ) (s : Bytes)
    → contains b'.' (c ∷ s) ≡ false
    → ((c == b'.') ≡ false) × (contains b'.' s ≡ false)
unfolding contains
contains-cons c s h = (ground (arith, h), ground (arith, h))

-- A key without a point is the same when ".false." is replaced.
key_at-replace :
    (line updated key : Bytes)
    → key_at line ≡ some key
    → contains b'.' key ≡ false
    → replace_first (codes ".false.") (codes ".true.") line ≡ some updated
    → key_at updated ≡ some key
unfolding replace_first is_empty key_at
key_at-replace [] updated key f w h = absurd (ground (arith, h))
key_at-replace (c ∷ line) updated key f w h = elim (Bool-cases (c == b'!')) [
  | inl comment ↦ absurd (ground (arith, f))
  | inr value ↦ elim (Bool-cases (c == b'=')) [
    | inl equals ↦
        let (t, e, front) =
          replace_first-cons (codes ".false.") (codes ".true.") c line updated
            (no_point-starts_with c line (equals-point c equals)) h in
        rw front (ground (arith, f))
    | inr name ↦
        let (t, e, front) = in_front_eq c (key_at line) key (ground (arith, f)) in
        let (point, points) = contains-cons c t (rw (sym front) w) in
        let (u, g, behind) =
          replace_first-cons (codes ".false.") (codes ".true.") c line updated
            (no_point-starts_with c line point) h in
        rw (front, behind) (key_at-cons c u t value name (key_at-replace line u t e points g))
  ]
]

found_new : (rest : Bytes) → is_found (after_first (codes ".true.") (codes ".true." ++ rest)) ≡ true
unfolding after_first starts_with
found_new rest = refl

found_later :
    (c : ℕ) (u : Bytes)
    → is_found (after_first (codes ".true.") u) ≡ true
    → is_found (after_first (codes ".true.") (c ∷ u)) ≡ true
unfolding after_first
found_later c u h = ground (arith, h)

found_behind :
    (old line updated : Bytes)
    → is_empty old ≡ false
    → replace_first old (codes ".true.") line ≡ some updated
    → is_found (after_first (codes ".true.") updated) ≡ true
unfolding replace_first
found_behind old [] updated n h = absurd (ground (arith, h, n))
found_behind old (c ∷ line) updated n h = elim (Bool-cases (starts_with old (c ∷ line))) [
  | inl here ↦
      let e : updated ≡ codes ".true." ++ drop (length old) (c ∷ line) = ground (arith, h, here) in
      rw e (found_new (drop (length old) (c ∷ line)))
  | inr later ↦
      let (u, g, behind) = replace_first-cons old _ c line updated later h in
      rw behind (found_later c u (found_behind old line u n g))
]

restart_key :
    (o : Option Bytes)
    → is_restart_key o ≡ true
    → (key : Bytes) × (o ≡ some key) × (is_restart_key (some key) ≡ true)
restart_key none h = absurd (ground (arith, h))
restart_key (some key) h = (key, refl, h)

-- The line of the flag still sets it, whether it was false or true before.
pub mentions_true-replace :
    (line updated : Bytes)
    → is_restart_key (key_of (split_at b'=' (cut_at b'!' line))) ≡ true
    → replace_first (codes ".false.") (codes ".true.") line ≡ some updated
    → mentions_true updated ≡ true
unfolding is_empty
mentions_true-replace line updated h e =
    let (key, at, is_key) =
      restart_key (key_at line) (ap is_restart_key (sym (key_of-key_at line)) ∙ h) in
    let kept : key_of (split_at b'=' (cut_at b'!' updated))
        ≡ key_of (split_at b'=' (cut_at b'!' line)) =
      key_of-key_at updated
      ∙ key_at-replace line updated key at (restart_key-contains key is_key) e
      ∙ sym at
      ∙ sym (key_of-key_at line) in
    ground (arith, ap is_restart_key kept, h, found_behind (codes ".false.") line updated refl e)
