-- ===== src/Wrf/Scan/Backed.antt =====
-- Each mark that the scan for restart files leaves is of a file (models/wrf/wrf_control.cpp).
use cpdn_control.Prelude.{
  ℕ, ◌<◌, ◌≡◌, refl, ap, ◌∙◌, ◌⊎◌, Bool, true, false, Option, none, some, List, [], ◌∷◌, All,
  length, replicate, get_or, Bool-cases, inl, inr, arith,
}
use cpdn_control.Text.{Bytes, equal}
use cpdn_control.Text.Equal.{equal_sound, equal_refl}
use cpdn_control.Wrf.{RestartSet}
use cpdn_control.Wrf.Scan.{DirEntry, is_scanned, set_present, add_present, scan_entries}
use cpdn_control.Wrf.Scan.Files.{
  is_match, is_restart_file, has_file, add_match, HaveLength, scan_entry, match, match-lt,
  get_or-set_present, get_or-replicate, length-replicate, scan_domains-add_match,
  scan_entry-HaveLength,
}

-- Every mark of a set is of a file.
abbrev pub IsBacked : (Bytes → ℕ → Bool) → List RestartSet → Type 0
IsBacked has sets =
    All (λ s. (i : ℕ) → get_or s.domains_present i false ≡ true → has s.datetime i ≡ true) sets

marked :
    (bs : List Bool) (i j : ℕ)
    → j < length bs
    → get_or (set_present j bs) i false ≡ true
    → (i ≡ j) ⊎ (get_or bs i false ≡ true)
marked bs i j lt h = elim (Bool-cases (get_or bs i false)) [
  | inl old ↦ inr old
  | inr new ↦ inl (ground (arith, get_or-set_present bs i j lt))
]

module _ (has : Bytes → ℕ → Bool) (m : ℕ) where
  add_present-IsBacked :
      (datetime : Bytes) (j : ℕ) (sets : List RestartSet)
      → has datetime j ≡ true
      → j < m
      → HaveLength m sets
      → IsBacked has sets
      → IsBacked has (add_present m datetime j sets)
  unfolding add_present
  add_present-IsBacked datetime j [] t lt l h = (fresh, tt)
    where
      fresh :
          (i : ℕ)
          → get_or (set_present j (replicate m false)) i false ≡ true
          → has datetime i ≡ true
      fresh i e = elim (marked (replicate m false) i j (omega (arith, length-replicate m)) e) [
        | inl same ↦ ap (has datetime) same ∙ t
        | inr old ↦ absurd (ground (arith, old, get_or-replicate m i))
      ]
  add_present-IsBacked datetime j (s ∷ sets) t lt l h =
      elim (Bool-cases (equal s.datetime datetime)) [
        | inl here ↦ rw here (remarked here, h.1)
        | inr later ↦ rw later (h.0, add_present-IsBacked datetime j sets t lt l.1 h.1)
      ]
    where
      remarked :
          equal s.datetime datetime ≡ true
          → (i : ℕ) → get_or (set_present j s.domains_present) i false ≡ true
          → has s.datetime i ≡ true
      remarked here i e = elim (marked s.domains_present i j (omega (arith, l.0)) e) [
        | inl same ↦
            ap (λ x. has x i) (equal_sound s.datetime datetime here) ∙ ap (has datetime) same ∙ t
        | inr old ↦ h.0 i old
      ]

  module _ (prefixes : List Bytes) (all : length prefixes ≡ m) where
    add_match-IsBacked :
        (o : Option (ℕ × Bytes)) (sets : List RestartSet)
        → ((i : ℕ) (u : Bytes) → is_match u i o ≡ true → has u i ≡ true)
        → ((j : ℕ) (datetime : Bytes) → o ≡ some (j, datetime) → j < m)
        → HaveLength m sets
        → IsBacked has sets
        → IsBacked has (add_match m o sets)
    add_match-IsBacked none sets f lt l h = h
    add_match-IsBacked (some (j, datetime)) sets f lt l h =
        add_present-IsBacked datetime j sets (f j datetime (ground (arith, equal_refl datetime)))
          (lt j datetime refl) l h

    scan_entry-IsBacked :
        (e : DirEntry) (sets : List RestartSet)
        → ((i : ℕ) (u : Bytes) → is_restart_file prefixes u i e ≡ true → has u i ≡ true)
        → HaveLength m sets
        → IsBacked has sets
        → IsBacked has (scan_entry m prefixes all e sets)
    scan_entry-IsBacked e sets f l h = elim (Bool-cases (is_scanned e)) [
      | inl scanned ↦
          rw (scanned, scan_domains-add_match m e.filename 0 prefixes sets)
            (add_match-IsBacked (match m prefixes all e) sets (λ i u k. f i u (rw scanned k))
              (match-lt m prefixes all e) l h)
      | inr skipped ↦ rw skipped h
    ]

    pub scan_entries-IsBacked :
        (entries : List DirEntry) (sets : List RestartSet)
        → ((i : ℕ) (u : Bytes) → has_file prefixes entries u i ≡ true → has u i ≡ true)
        → HaveLength m sets
        → IsBacked has sets
        → IsBacked has (scan_entries m prefixes entries sets)
    unfolding scan_entries
    scan_entries-IsBacked [] sets f l h = h
    scan_entries-IsBacked (e ∷ entries) sets f l h =
        scan_entries-IsBacked entries (scan_entry m prefixes all e sets)
          (λ i u k. f i u (ground (arith, k))) (scan_entry-HaveLength m prefixes all e sets l)
          (scan_entry-IsBacked e sets (λ i u k. f i u (ground (arith, k))) l h)
