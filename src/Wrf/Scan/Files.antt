-- ===== src/Wrf/Scan/Files.antt =====
-- What the scan for restart files keeps of the directory (models/wrf/wrf_control.cpp): the sets are a map
-- from a time stamp to the domains that have a file of it.
use cpdn_control.Prelude.{
  ℕ, zero, suc, ◌+◌, ◌<◌, ◌≡◌, refl, ap, ◌∙◌, Bool, false, not, ◌&&◌, ◌||◌, Option, none, some,
  List, [], ◌∷◌, ◌==◌, All, length, drop, replicate, get_or, if◌then◌else◌, Bool-cases, inl, inr,
  arith,
}
use cpdn_control.Text.{Bytes, equal}
use cpdn_control.Text.Equal.{equal_sound, equal_swap}
use cpdn_control.Wrf.{RestartSet, is_wrf_prefixed_datetime_filename}
use cpdn_control.Wrf.Scan.{
  DirEntry, is_scanned, set_present, add_present, scan_domains, scan_entries,
}

-- The first domain whose restart files are named like this, and the text behind its prefix.
abbrev pub domain_of_name : Bytes → ℕ → List Bytes → Option (ℕ × Bytes)
domain_of_name filename i [] = none
domain_of_name filename i (prefix ∷ prefixes) =
    let later = domain_of_name filename (i + 1) prefixes in
    if is_wrf_prefixed_datetime_filename filename prefix
    then some (i, drop (length prefix) filename)
    else later

abbrev pub is_match : Bytes → ℕ → Option (ℕ × Bytes) → Bool
is_match datetime i none = false
is_match datetime i (some (j, text)) = i == j && equal text datetime

-- The entry is a restart file of domain `i` with this time stamp, and not an empty one.
abbrev pub is_restart_file : List Bytes → Bytes → ℕ → DirEntry → Bool
is_restart_file prefixes datetime i e =
    is_scanned e && is_match datetime i (domain_of_name e.filename 0 prefixes)

abbrev pub has_file : List Bytes → List DirEntry → Bytes → ℕ → Bool
has_file prefixes [] datetime i = false
has_file prefixes (e ∷ entries) datetime i =
    is_restart_file prefixes datetime i e || has_file prefixes entries datetime i

abbrev pub add_match : ℕ → Option (ℕ × Bytes) → List RestartSet → List RestartSet
add_match m none sets = sets
add_match m (some (i, datetime)) sets = add_present m datetime i sets

pub scan_domains-add_match :
    (m : ℕ) (filename : Bytes) (i : ℕ) (prefixes : List Bytes) (sets : List RestartSet)
    → scan_domains m filename i prefixes sets
      ≡ add_match m (domain_of_name filename i prefixes) sets
unfolding scan_domains
scan_domains-add_match m filename i [] sets = refl
scan_domains-add_match m filename i (prefix ∷ prefixes) sets =
    elim (Bool-cases (is_wrf_prefixed_datetime_filename filename prefix)) [
      | inl here ↦ rw here refl
      | inr later ↦ rw later (scan_domains-add_match m filename (i + 1) prefixes sets)
    ]

-- The mark of a domain in the first set of a time stamp.
abbrev pub present : List RestartSet → Bytes → ℕ → Bool
present [] datetime i = false
present (s ∷ sets) datetime i =
    if equal s.datetime datetime then get_or s.domains_present i false else present sets datetime i

abbrev pub HaveLength : ℕ → List RestartSet → Type 0
HaveLength m sets = All (λ s. length s.domains_present ≡ m) sets

length-set_present : (i : ℕ) (bs : List Bool) → length (set_present i bs) ≡ length bs
unfolding set_present
length-set_present i [] = refl
length-set_present zero (b ∷ bs) = refl
length-set_present (suc i) (b ∷ bs) = ap suc (length-set_present i bs)

pub length-replicate : (n : ℕ) → length (replicate n false) ≡ n
length-replicate zero = refl
length-replicate (suc n) = ap suc (length-replicate n)

pub get_or-set_present :
    (bs : List Bool) (i j : ℕ)
    → j < length bs
    → get_or (set_present j bs) i false ≡ (i == j || get_or bs i false)
unfolding set_present
get_or-set_present [] i j h = absurd (omega arith)
get_or-set_present (b ∷ bs) zero zero h = refl
get_or-set_present (b ∷ bs) (suc i) zero h = ground arith
get_or-set_present (b ∷ bs) zero (suc j) h = ground arith
get_or-set_present (b ∷ bs) (suc i) (suc j) h =
    ground (arith, get_or-set_present bs i j (omega arith))

pub get_or-replicate : (n i : ℕ) → get_or (replicate n false) i false ≡ false
get_or-replicate zero i = refl
get_or-replicate (suc n) zero = refl
get_or-replicate (suc n) (suc i) = get_or-replicate n i

add_present-HaveLength :
    (m : ℕ) (datetime : Bytes) (j : ℕ) (sets : List RestartSet)
    → HaveLength m sets
    → HaveLength m (add_present m datetime j sets)
unfolding add_present
add_present-HaveLength m datetime j [] h =
    (length-set_present j (replicate m false) ∙ length-replicate m, tt)
add_present-HaveLength m datetime j (s ∷ sets) h = elim (Bool-cases (equal s.datetime datetime)) [
  | inl here ↦ rw here (length-set_present j s.domains_present ∙ h.0, h.1)
  | inr later ↦ rw later (h.0, add_present-HaveLength m datetime j sets h.1)
]

present-add_present :
    (m : ℕ) (datetime : Bytes) (j : ℕ) (sets : List RestartSet) (u : Bytes) (i : ℕ)
    → HaveLength m sets
    → j < m
    → present (add_present m datetime j sets) u i
      ≡ (is_match u i (some (j, datetime)) || present sets u i)
unfolding add_present
present-add_present m datetime j [] u i h lt =
    rw
      (
        get_or-set_present (replicate m false) i j (omega (arith, length-replicate m)),
        get_or-replicate m i,
      )
      (ground arith)
present-add_present m datetime j (s ∷ sets) u i h lt =
    elim (Bool-cases (equal s.datetime datetime)) [
      | inl here ↦
          rw (here, get_or-set_present s.domains_present i j (omega (arith, h.0)))
            (ground (arith, ap (λ x. equal x u) (equal_sound s.datetime datetime here)))
      | inr later ↦
          rw (later, present-add_present m datetime j sets u i h.1 lt)
            (ground (arith, equal_swap s.datetime datetime u later))
    ]

domain_of_name-lt :
    (filename : Bytes) (i : ℕ) (prefixes : List Bytes) (j : ℕ) (datetime : Bytes)
    → domain_of_name filename i prefixes ≡ some (j, datetime)
    → j < i + length prefixes
domain_of_name-lt filename i [] j datetime h = absurd (ground (arith, h))
domain_of_name-lt filename i (prefix ∷ prefixes) j datetime h =
    ground (arith, domain_of_name-lt filename (i + 1) prefixes j datetime)

module _ (m : ℕ) (prefixes : List Bytes) (all : length prefixes ≡ m) where
  abbrev pub match : DirEntry → Option (ℕ × Bytes)
  match e = domain_of_name e.filename 0 prefixes

  abbrev pub scan_entry : DirEntry → List RestartSet → List RestartSet
  scan_entry e sets = if not (is_scanned e) then sets else scan_domains m e.filename 0 prefixes sets

  add_match-HaveLength :
      (o : Option (ℕ × Bytes)) (sets : List RestartSet)
      → HaveLength m sets
      → HaveLength m (add_match m o sets)
  add_match-HaveLength none sets h = h
  add_match-HaveLength (some (j, datetime)) sets h = add_present-HaveLength m datetime j sets h

  pub scan_entry-HaveLength :
      (e : DirEntry) (sets : List RestartSet) → HaveLength m sets → HaveLength m (scan_entry e sets)
  scan_entry-HaveLength e sets h = elim (Bool-cases (is_scanned e)) [
    | inl scanned ↦
        rw (scanned, scan_domains-add_match m e.filename 0 prefixes sets)
          (add_match-HaveLength (match e) sets h)
    | inr skipped ↦ rw skipped h
  ]

  pub scan_entries-HaveLength :
      (entries : List DirEntry) (sets : List RestartSet)
      → HaveLength m sets
      → HaveLength m (scan_entries m prefixes entries sets)
  unfolding scan_entries
  scan_entries-HaveLength [] sets h = h
  scan_entries-HaveLength (e ∷ entries) sets h =
      scan_entries-HaveLength entries (scan_entry e sets) (scan_entry-HaveLength e sets h)

  present-add_match :
      (o : Option (ℕ × Bytes)) (sets : List RestartSet) (u : Bytes) (i : ℕ)
      → ((j : ℕ) (datetime : Bytes) → o ≡ some (j, datetime) → j < m)
      → HaveLength m sets
      → present (add_match m o sets) u i ≡ (is_match u i o || present sets u i)
  present-add_match none sets u i lt h = refl
  present-add_match (some (j, datetime)) sets u i lt h =
      present-add_present m datetime j sets u i h (lt j datetime refl)

  pub match-lt : (e : DirEntry) (j : ℕ) (datetime : Bytes) → match e ≡ some (j, datetime) → j < m
  match-lt e j datetime h = omega (arith, all, domain_of_name-lt e.filename 0 prefixes j datetime h)

  present-scan_entry :
      (e : DirEntry) (sets : List RestartSet) (u : Bytes) (i : ℕ)
      → HaveLength m sets
      → present (scan_entry e sets) u i ≡ (is_restart_file prefixes u i e || present sets u i)
  present-scan_entry e sets u i h = elim (Bool-cases (is_scanned e)) [
    | inl scanned ↦
        rw (scanned, scan_domains-add_match m e.filename 0 prefixes sets)
          (present-add_match (match e) sets u i (match-lt e) h)
    | inr skipped ↦ rw skipped refl
  ]

  -- The scan adds to the map exactly the domains of which the directory has a file.
  pub present-scan_entries :
      (entries : List DirEntry) (sets : List RestartSet) (u : Bytes) (i : ℕ)
      → HaveLength m sets
      → present (scan_entries m prefixes entries sets) u i
        ≡ (has_file prefixes entries u i || present sets u i)
  unfolding scan_entries
  present-scan_entries [] sets u i h = refl
  present-scan_entries (e ∷ entries) sets u i h = ground (
    arith,
    present-scan_entries entries (scan_entry e sets) u i (scan_entry-HaveLength e sets h),
    present-scan_entry e sets u i h,
  )
