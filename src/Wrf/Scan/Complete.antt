-- ===== src/Wrf/Scan/Complete.antt =====
-- The restart set that `restart_exists` finds (models/wrf/wrf_control.cpp), against the directory.
use cpdn_control.Prelude.{
  ℕ, zero, suc, ◌+◌, ◌<◌, ◌≤◌, ◌≡◌, refl, sym, ap, ◌∙◌, Bool, true, false, ◌&&◌, Option, none, some,
  List, [], ◌∷◌, ◌==◌, All, length, get_or, ℤ, pos, pos_part, leb_ℤ, eqb_ℤ, Bool-cases, inl, inr,
  arith, &&-split,
}
use cpdn_control.Text.{Bytes, equal, lex_lt}
use cpdn_control.Text.Equal.{equal_sound, equal_refl}
use cpdn_control.Wrf.{RestartSet, all_present, is_complete, is_later, find_latest_valid_restart_set}
use cpdn_control.Wrf.Latest.{IsIn, IsChosen, Bound, find_latest_valid_restart_set_lem}
use cpdn_control.Wrf.Domains.{WrfControl, is_allowed}
use cpdn_control.Wrf.Domains.Prefixes.{IsReady, length-build_wrf_domain_prefixes}
use cpdn_control.Wrf.Output.Names.{ensure-ready}
use cpdn_control.Wrf.Scan.{
  DirEntry, scan_entries, is_some, latest_of, scan, scan_if_ready, restart_exists,
}
use cpdn_control.Wrf.Scan.Files.{
  has_file, present, HaveLength, scan_entries-HaveLength, present-scan_entries,
}
use cpdn_control.Wrf.Scan.Backed.{IsBacked, scan_entries-IsBacked}

-- Each of the domains i, i + 1, ..., `count` of them, has a file of the time stamp.
abbrev pub all_files : List Bytes → List DirEntry → Bytes → ℕ → ℕ → Bool
all_files prefixes entries datetime i zero = true
all_files prefixes entries datetime i (suc count) =
    has_file prefixes entries datetime i && all_files prefixes entries datetime (i + 1) count

-- `r` is the latest of the time stamps that every domain has a file of, as far as `datetime` shows.
abbrev pub IsLatestOnDisk : ℕ → List Bytes → List DirEntry → Bytes → Option RestartSet → Type 0
IsLatestOnDisk m prefixes entries datetime none = all_files prefixes entries datetime 0 m ≡ false
IsLatestOnDisk m prefixes entries datetime (some r) =
    (all_files prefixes entries r.datetime 0 m ≡ true)
    × ((all_files prefixes entries datetime 0 m && lex_lt r.datetime datetime) ≡ false)

all_present-get_or :
    (bs : List Bool) (i : ℕ) → all_present bs ≡ true → i < length bs → get_or bs i false ≡ true
unfolding all_present
all_present-get_or [] i h lt = absurd (omega arith)
all_present-get_or (b ∷ bs) zero h lt = ground arith
all_present-get_or (b ∷ bs) (suc i) h lt = all_present-get_or bs i (ground arith) (omega arith)

get_or-all_present :
    (bs : List Bool) → ((i : ℕ) → i < length bs → get_or bs i false ≡ true) → all_present bs ≡ true
unfolding all_present
get_or-all_present [] h = refl
get_or-all_present (b ∷ bs) h =
    rw (h 0 (omega arith)) (get_or-all_present bs (λ i lt. h (suc i) (omega arith)))

module _ (prefixes : List Bytes) (entries : List DirEntry) (datetime : Bytes) where
  all_files-of :
      (count i : ℕ)
      → ((j : ℕ) → j < i + count → has_file prefixes entries datetime j ≡ true)
      → all_files prefixes entries datetime i count ≡ true
  all_files-of zero i h = refl
  all_files-of (suc count) i h =
      rw (h i (omega arith)) (all_files-of count (i + 1) (λ j lt. h j (omega arith)))

  all_files-at :
      (count i j : ℕ)
      → all_files prefixes entries datetime i count ≡ true
      → i ≤ j
      → j < i + count
      → has_file prefixes entries datetime j ≡ true
  all_files-at zero i j h le lt = absurd (omega arith)
  all_files-at (suc count) i j h le lt =
      let (first, later) = &&-split (has_file prefixes entries datetime i) _ h in
      elim (Bool-cases (i == j)) [
        | inl same ↦
            let e : j ≡ i = ground arith in ap (has_file prefixes entries datetime) e ∙ first
        | inr next ↦ all_files-at count (i + 1) j later (ground arith) (ground arith)
      ]

All-IsIn :
    (P : RestartSet → Type 0) (sets : List RestartSet) (r : RestartSet)
    → All P sets
    → IsIn r sets
    → P r
All-IsIn P [] r h m = elim m [ ]
All-IsIn P (s ∷ sets) r h (inl same) = rw same h.0
All-IsIn P (s ∷ sets) r h (inr later) = All-IsIn P sets r h.1 later

-- The set that the map finds for a time stamp.
record IsFirst (sets : List RestartSet) (u : Bytes) : Type 0 where
  set : RestartSet
  member : IsIn set sets
  stamped : set.datetime ≡ u
  marks : (i : ℕ) → present sets u i ≡ get_or set.domains_present i false

present-IsFirst :
    (sets : List RestartSet) (u : Bytes) (i : ℕ) → present sets u i ≡ true → IsFirst sets u
present-IsFirst [] u i h = absurd (ground (arith, h))
present-IsFirst (s ∷ sets) u i h = elim (Bool-cases (equal s.datetime u)) [
  | inl here ↦ record {
    set = s;
    member = inl refl;
    stamped = equal_sound s.datetime u here;
    marks = λ i. rw here refl;
  }
  | inr later ↦
      let f : IsFirst sets u = present-IsFirst sets u i (rw later at h) in
      record {
        set = f.set;
        member = inr f.member;
        stamped = f.stamped;
        marks = λ i. rw later (f.marks i);
      }
]

module _ (m : ℕ) (prefixes : List Bytes) (all : length prefixes ≡ m) (m_pos : 1 ≤ m)
    (entries : List DirEntry) where
  abbrev sets : List RestartSet
  sets = scan_entries m prefixes entries []

  sets-HaveLength : HaveLength m sets
  sets-HaveLength = scan_entries-HaveLength m prefixes all entries [] tt

  sets-IsBacked : IsBacked (has_file prefixes entries) sets
  sets-IsBacked =
      scan_entries-IsBacked (has_file prefixes entries) m prefixes all entries [] (λ i u k. k) tt tt

  complete-all_files :
      (r : RestartSet)
      → IsIn r sets
      → is_complete m r ≡ true
      → all_files prefixes entries r.datetime 0 m ≡ true
  unfolding is_complete
  complete-all_files r k c = all_files-of prefixes entries r.datetime m 0 λ i lt.
      All-IsIn _ sets r sets-IsBacked k i (
        all_present-get_or r.domains_present i (&&-split _ _ c).1
          (omega (arith, lt, All-IsIn _ sets r sets-HaveLength k)))

  module _ (u : Bytes) (h : all_files prefixes entries u 0 m ≡ true) where
    present-all : (i : ℕ) → i < m → present sets u i ≡ true
    present-all i lt = ground (
      arith,
      present-scan_entries m prefixes all entries [] u i tt,
      all_files-at prefixes entries u m 0 i h (omega arith) (omega arith),
    )

    first : IsFirst sets u
    first = present-IsFirst sets u 0 (present-all 0 m_pos)

    first_complete : is_complete m first.set ≡ true
    unfolding is_complete
    first_complete =
        let l : length first.set.domains_present ≡ m =
          All-IsIn _ sets first.set sets-HaveLength first.member in
        let p : all_present first.set.domains_present ≡ true =
          get_or-all_present first.set.domains_present
            (λ i lt. sym (first.marks i) ∙ present-all i (omega (arith, lt, l))) in
        ground (arith, l, p)

    not_later : (r : Option RestartSet) → All (Bound m r) sets → is_later r first.set ≡ false
    not_later r b = ground (arith, first_complete, All-IsIn _ sets first.set b first.member)

  latest-IsLatestOnDisk :
      (u : Bytes) (r : Option RestartSet)
      → IsChosen m sets r
      → All (Bound m r) sets
      → IsLatestOnDisk m prefixes entries u r
  unfolding is_later
  latest-IsLatestOnDisk u none c b = elim (Bool-cases (all_files prefixes entries u 0 m)) [
    | inl complete ↦ absurd (ground (arith, not_later u complete none b))
    | inr incomplete ↦ incomplete
  ]
  latest-IsLatestOnDisk u (some r) c b = (
    complete-all_files r c.1 c.0,
    elim (Bool-cases (all_files prefixes entries u 0 m)) [
      | inl complete ↦ rw complete (
          ap (lex_lt r.datetime) (sym (first u complete).stamped) ∙ not_later u complete (some r) b)
      | inr incomplete ↦ rw incomplete refl
    ],
  )

restart_count : (c : WrfControl) → IsReady c → length c.restart_prefixes ≡ pos_part c.max_domains
restart_count c r =
    let l : pos (length c.restart_prefixes) ≡ c.max_domains =
      rw r.restart_ready (length-build_wrf_domain_prefixes c.max_domains r.allowed).1 in
    ap pos_part l

allowed_range : (z : ℤ) → is_allowed z ≡ true → (1 ≤ pos_part z) × (leb_ℤ z (pos 0) ≡ false)
allowed_range z h = (ground arith, ground arith)

restart_exists-scan :
    (namelist : Option (List Bytes)) (scan_dir : Bytes) (entries : List DirEntry) (c : WrfControl)
    → IsReady c
    → c.restart_scan_cached ≡ false
    → restart_exists namelist scan_dir entries c ≡ scan scan_dir entries c
unfolding restart_exists
restart_exists-scan namelist scan_dir entries c r fresh =
    rw (ensure-ready namelist c r, (allowed_range c.max_domains r.allowed).1, fresh) refl

scan-IsReady :
    (scan_dir : Bytes) (entries : List DirEntry) (c : WrfControl)
    → IsReady c
    → IsReady (scan scan_dir entries c).1
unfolding scan
scan-IsReady scan_dir entries c r = record {
  allowed = r.allowed;
  output_ready = r.output_ready;
  restart_ready = r.restart_ready;
}

eqb_ℤ_refl : (z : ℤ) → eqb_ℤ z z ≡ true
eqb_ℤ_refl z = ground arith

scan_if_ready-cached :
    (scan_dir : Bytes) (entries : List DirEntry) (c : WrfControl)
    → leb_ℤ c.max_domains (pos 0) ≡ false
    → c.restart_scan_cached ≡ true
    → equal c.cached_restart_scan_dir scan_dir ≡ true
    → eqb_ℤ c.cached_restart_scan_max_domains c.max_domains ≡ true
    → scan_if_ready scan_dir entries (true, c) ≡ (c.cached_restart_exists, c)
scan_if_ready-cached scan_dir entries c positive cached same_dir same_max =
    rw (positive, cached, same_dir, same_max) refl

restart_exists-cached :
    (namelist : Option (List Bytes)) (scan_dir : Bytes) (entries later_entries : List DirEntry)
    (c : WrfControl)
    → IsReady c
    → restart_exists namelist scan_dir later_entries (scan scan_dir entries c).1
      ≡ scan scan_dir entries c
unfolding restart_exists scan
restart_exists-cached namelist scan_dir entries later_entries c r =
    ap (scan_if_ready scan_dir later_entries)
      (ensure-ready namelist (scan scan_dir entries c).1 (scan-IsReady scan_dir entries c r))
    ∙ scan_if_ready-cached scan_dir later_entries (scan scan_dir entries c).1
        (allowed_range c.max_domains r.allowed).1 refl (equal_refl scan_dir)
        (eqb_ℤ_refl c.max_domains)

-- A scan that is not answered from the cache finds the latest restart that can be started from: the time
-- stamp chosen has a file that is not empty for every domain, and no time stamp `datetime` that has one
-- too is later. If none is chosen, no time stamp has a file for every domain. The control is
-- initialized; the entries of the directory may be any, in any order. A second call in the same
-- directory, whatever has changed there, gives the same answer and changes nothing.
pub restart_exists-IsLatestOnDisk :
    (namelist : Option (List Bytes)) (scan_dir : Bytes) (entries later_entries : List DirEntry)
    (c : WrfControl) (datetime : Bytes)
    → IsReady c
    → c.restart_scan_cached ≡ false
    → let r = restart_exists namelist scan_dir entries c in
      (r.0 ≡ is_some (latest_of r.1))
      × IsLatestOnDisk (pos_part c.max_domains) c.restart_prefixes entries datetime (latest_of r.1)
      × (restart_exists namelist scan_dir later_entries r.1 ≡ r)
restart_exists-IsLatestOnDisk namelist scan_dir entries later_entries c datetime r fresh =
    rw (restart_exists-scan namelist scan_dir entries c r fresh) (
      unfold scan in refl,
      unfold scan in
          latest-IsLatestOnDisk (pos_part c.max_domains) c.restart_prefixes (restart_count c r)
            positive entries datetime _ found.0 found.1,
      restart_exists-cached namelist scan_dir entries later_entries c r,
    )
  where
    positive : 1 ≤ pos_part c.max_domains
    positive = (allowed_range c.max_domains r.allowed).0

    found :
        (let latest =
            find_latest_valid_restart_set
              (pos_part c.max_domains)
              (scan_entries (pos_part c.max_domains) c.restart_prefixes entries []) in
          IsChosen
            (pos_part c.max_domains)
            (scan_entries (pos_part c.max_domains) c.restart_prefixes entries [])
            latest
          × All
              (Bound (pos_part c.max_domains) latest)
              (scan_entries (pos_part c.max_domains) c.restart_prefixes entries []))
    found =
        find_latest_valid_restart_set_lem (pos_part c.max_domains)
          (scan_entries (pos_part c.max_domains) c.restart_prefixes entries [])
