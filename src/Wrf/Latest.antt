-- ===== src/Wrf/Latest.antt =====
-- `find_latest_valid_restart_set` (models/wrf/wrf_control.cpp).
use cpdn_control.Prelude.{
  ℕ, ◌≡◌, ◌∙◌, refl, Bool, true, false, ◌&&◌, Option, none, some, List, [], ◌∷◌, All, ◌⊎◌, inl, inr,
  if◌then◌else◌, arith,
}
use cpdn_control.Text.{lex_lt}
use cpdn_control.Wrf.{RestartSet, is_complete, is_later, latest_from, find_latest_valid_restart_set}

-- No set that could be chosen is later than the one that was, if one was.
abbrev pub Bound : ℕ → Option RestartSet → RestartSet → Type 0
Bound m r x = (is_complete m x && is_later r x) ≡ false

abbrev pub IsIn : RestartSet → List RestartSet → Type 0
IsIn r [] = ⊥
IsIn r (s ∷ sets) = (r ≡ s) ⊎ IsIn r sets

-- What was chosen is complete and one of the sets.
abbrev pub IsChosen : ℕ → List RestartSet → Option RestartSet → Type 0
IsChosen m sets none = Unit
IsChosen m sets (some r) = (is_complete m r ≡ true) × IsIn r sets

lex_lt_irrefl : (s : List ℕ) → lex_lt s s ≡ false
unfolding lex_lt
lex_lt_irrefl [] = refl
lex_lt_irrefl (x ∷ s) = ground (arith, lex_lt_irrefl s)

lex_lt_past : (a b x : List ℕ) → lex_lt a b ≡ true → lex_lt a x ≡ false → lex_lt b x ≡ false
unfolding lex_lt
lex_lt_past a [] [] h k = refl
lex_lt_past [] [] (z ∷ x) h k = ground arith
lex_lt_past (y ∷ a) [] (z ∷ x) h k = ground arith
lex_lt_past a (y ∷ b) [] h k = refl
lex_lt_past [] (y ∷ b) (z ∷ x) h k = ground arith
lex_lt_past (w ∷ a) (y ∷ b) (z ∷ x) h k = ground (arith, lex_lt_past a b x)

step : ℕ → Option RestartSet → RestartSet → Option RestartSet
step m latest s = if is_complete m s && is_later latest s then some s else latest

is_later_past :
    (latest : Option RestartSet) (s x : RestartSet)
    → is_later latest s ≡ true
    → is_later latest x ≡ false
    → is_later (some s) x ≡ false
unfolding is_later
is_later_past none s x h k = ground arith
is_later_past (some r) s x h k = lex_lt_past r.datetime s.datetime x.datetime h k

step-Bound :
    (m : ℕ) (latest : Option RestartSet) (s x : RestartSet)
    → Bound m latest x
    → Bound m (step m latest s) x
unfolding step
step-Bound m latest s x h = kept _ refl
  where
    kept :
        (b : Bool)
        → (is_complete m s && is_later latest s) ≡ b
        → Bound m (if b then some s else latest) x
    kept true e = ground (arith, is_later_past latest s x)
    kept false e = h

step-Bound_self :
    (m : ℕ) (latest : Option RestartSet) (s : RestartSet) → Bound m (step m latest s) s
unfolding step
step-Bound_self m latest s = past _ refl
  where
    past :
        (b : Bool)
        → (is_complete m s && is_later latest s) ≡ b
        → Bound m (if b then some s else latest) s
    past true e = unfold is_later in ground (arith, lex_lt_irrefl s.datetime)
    past false e = e

latest_from-Bound :
    (m : ℕ) (latest : Option RestartSet) (sets : List RestartSet) (x : RestartSet)
    → Bound m latest x
    → Bound m (latest_from m latest sets) x
unfolding latest_from step
latest_from-Bound m latest [] x h = h
latest_from-Bound m latest (s ∷ sets) x h =
    latest_from-Bound m (step m latest s) sets x (step-Bound m latest s x h)

latest_from-All :
    (m : ℕ) (latest : Option RestartSet) (sets : List RestartSet)
    → All (Bound m (latest_from m latest sets)) sets
unfolding latest_from step
latest_from-All m latest [] = tt
latest_from-All m latest (s ∷ sets) = (
  latest_from-Bound m (step m latest s) sets s (step-Bound_self m latest s),
  latest_from-All m (step m latest s) sets,
)

IsChosen-later :
    (m : ℕ) (s : RestartSet) (sets : List RestartSet) (r : Option RestartSet)
    → IsChosen m sets r
    → IsChosen m (s ∷ sets) r
IsChosen-later m s sets none h = tt
IsChosen-later m s sets (some r) h = (h.0, inr h.1)

step-IsChosen :
    (m : ℕ) (latest : Option RestartSet) (s : RestartSet)
    → (step m latest s ≡ latest) ⊎ ((step m latest s ≡ some s) × (is_complete m s ≡ true))
unfolding step
step-IsChosen m latest s = which _ refl
  where
    which :
        (b : Bool)
        → (is_complete m s && is_later latest s) ≡ b
        → ((if b then some s else latest) ≡ latest)
          ⊎ (((if b then some s else latest) ≡ some s) × (is_complete m s ≡ true))
    which true e = inr (refl, ground arith)
    which false e = inl refl

-- The set at the end of the loop is the one in front of it, or one of the complete sets.
latest_from-IsChosen :
    (m : ℕ) (latest : Option RestartSet) (sets : List RestartSet)
    → (latest_from m latest sets ≡ latest) ⊎ IsChosen m sets (latest_from m latest sets)
unfolding latest_from step
latest_from-IsChosen m latest [] = inl refl
latest_from-IsChosen m latest (s ∷ sets) = elim (latest_from-IsChosen m (step m latest s) sets) [
  | inr found ↦ inr (IsChosen-later m s sets _ found)
  | inl same ↦ elim (step-IsChosen m latest s) [
    | inl old ↦ inl (same ∙ old)
    | inr new ↦ inr (rw (same ∙ new.0) (new.1, inl refl))
  ]
]

-- The restart set that the model is started from is one of the sets found, with a file for every
-- domain, and no such set has a later time stamp. None is chosen only if no set has a file for every
-- domain.
pub find_latest_valid_restart_set_lem :
    (max_domains : ℕ) (sets : List RestartSet)
    → let r = find_latest_valid_restart_set max_domains sets in
      IsChosen max_domains sets r × All (Bound max_domains r) sets
unfolding find_latest_valid_restart_set
find_latest_valid_restart_set_lem m sets = (
  elim (latest_from-IsChosen m none sets) [ inl same ↦ rw same tt | inr found ↦ found ],
  latest_from-All m none sets,
)
