-- ===== src/Wrf/Prune/Order.antt =====
-- The order of texts, and the set of time stamps that `do_step_tasks` keeps in it
-- (models/wrf/wrf_control.cpp).
use cpdn_control.Prelude.{
  ◌≡◌, refl, ap, Bool, true, false, ◌||◌, List, [], ◌∷◌, All, Bool-cases, inl, inr, arith,
}
use cpdn_control.Text.{Bytes, equal, lex_lt}
use cpdn_control.Text.Equal.{equal_sound}
use cpdn_control.Wrf.Prune.{RestartFileInfo, insert_timestamp, collect_timestamps}

pub lex_lt_irrefl : (s : Bytes) → lex_lt s s ≡ false
unfolding lex_lt
lex_lt_irrefl [] = refl
lex_lt_irrefl (x ∷ s) = ground (arith, lex_lt_irrefl s)

pub lex_lt_trans : (a b c : Bytes) → lex_lt a b ≡ true → lex_lt b c ≡ true → lex_lt a c ≡ true
unfolding lex_lt
lex_lt_trans [] [] c h k = absurd (ground (arith, h))
lex_lt_trans [] (y ∷ b) [] h k = absurd (ground (arith, k))
lex_lt_trans [] (y ∷ b) (z ∷ c) h k = refl
lex_lt_trans (x ∷ a) [] c h k = absurd (ground (arith, h))
lex_lt_trans (x ∷ a) (y ∷ b) [] h k = absurd (ground (arith, k))
lex_lt_trans (x ∷ a) (y ∷ b) (z ∷ c) h k = ground (arith, lex_lt_trans a b c)

pub lex_lt_asym : (a b : Bytes) → lex_lt a b ≡ true → lex_lt b a ≡ false
unfolding lex_lt
lex_lt_asym [] [] h = refl
lex_lt_asym [] (y ∷ b) h = refl
lex_lt_asym (x ∷ a) [] h = absurd (ground (arith, h))
lex_lt_asym (x ∷ a) (y ∷ b) h = ground (arith, lex_lt_asym a b)

pub lex_lt_total : (a b : Bytes) → lex_lt a b ≡ false → lex_lt b a ≡ false → a ≡ b
unfolding lex_lt
lex_lt_total [] [] h k = refl
lex_lt_total [] (y ∷ b) h k = absurd (ground (arith, h))
lex_lt_total (x ∷ a) [] h k = absurd (ground (arith, k))
lex_lt_total (x ∷ a) (y ∷ b) h k = ground (arith, lex_lt_total a b)

pub lex_gt-equal : (a b : Bytes) → lex_lt a b ≡ true → equal b a ≡ false
lex_gt-equal a b h = elim (Bool-cases (equal b a)) [
  | inl same ↦ absurd (ground (arith, ap (lex_lt a) (equal_sound b a same), lex_lt_irrefl a))
  | inr differ ↦ differ
]

-- In order, and no text twice.
abbrev pub IsSorted : List Bytes → Type 0
IsSorted [] = Unit
IsSorted (t ∷ ts) = All (λ u. lex_lt t u ≡ true) ts × IsSorted ts

abbrev pub any : (Bytes → Bool) → List Bytes → Bool
any p [] = false
any p (t ∷ ts) = p t || any p ts

above-insert :
    (x t : Bytes) (ts : List Bytes)
    → lex_lt x t ≡ true
    → All (λ u. lex_lt x u ≡ true) ts
    → All (λ u. lex_lt x u ≡ true) (insert_timestamp t ts)
unfolding insert_timestamp
above-insert x t [] h a = (h, tt)
above-insert x t (u ∷ ts) h a = elim (Bool-cases (lex_lt t u)) [
  | inl before ↦ rw before (h, a)
  | inr after ↦ elim (Bool-cases (lex_lt u t)) [
    | inl later ↦ rw (after, later) (a.0, above-insert x t ts h a.1)
    | inr same ↦ rw (after, same) a
  ]
]

above_trans :
    (t u : Bytes) (ts : List Bytes)
    → lex_lt t u ≡ true
    → All (λ v. lex_lt u v ≡ true) ts
    → All (λ v. lex_lt t v ≡ true) ts
above_trans t u [] h a = tt
above_trans t u (v ∷ ts) h a = (lex_lt_trans t u v h a.0, above_trans t u ts h a.1)

insert-IsSorted : (t : Bytes) (ts : List Bytes) → IsSorted ts → IsSorted (insert_timestamp t ts)
unfolding insert_timestamp
insert-IsSorted t [] s = (tt, tt)
insert-IsSorted t (u ∷ ts) s = elim (Bool-cases (lex_lt t u)) [
  | inl before ↦ rw before ((before, above_trans t u ts before s.0), s)
  | inr after ↦ elim (Bool-cases (lex_lt u t)) [
    | inl later ↦ rw (after, later) (above-insert u t ts later s.0, insert-IsSorted t ts s.1)
    | inr same ↦ rw (after, same) s
  ]
]

any-insert :
    (p : Bytes → Bool) (t : Bytes) (ts : List Bytes)
    → any p (insert_timestamp t ts) ≡ (p t || any p ts)
unfolding insert_timestamp
any-insert p t [] = refl
any-insert p t (u ∷ ts) = elim (Bool-cases (lex_lt t u)) [
  | inl before ↦ rw before refl
  | inr after ↦ elim (Bool-cases (lex_lt u t)) [
    | inl later ↦ rw (after, later) (ground (arith, any-insert p t ts))
    | inr same ↦ rw (after, same) (ground (arith, ap p (lex_lt_total t u after same)))
  ]
]

abbrev pub stamps : List RestartFileInfo → List Bytes
stamps [] = []
stamps (f ∷ files) = f.timestamp ∷ stamps files

pub collect-IsSorted :
    (files : List RestartFileInfo) (ts : List Bytes)
    → IsSorted ts
    → IsSorted (collect_timestamps files ts)
unfolding collect_timestamps
collect-IsSorted [] ts s = s
collect-IsSorted (f ∷ files) ts s = collect-IsSorted files _ (insert-IsSorted f.timestamp ts s)

pub any-collect :
    (p : Bytes → Bool) (files : List RestartFileInfo) (ts : List Bytes)
    → any p (collect_timestamps files ts) ≡ (any p (stamps files) || any p ts)
unfolding collect_timestamps
any-collect p [] ts = refl
any-collect p (f ∷ files) ts =
    ground
      (arith, any-collect p files (insert_timestamp f.timestamp ts), any-insert p f.timestamp ts)
