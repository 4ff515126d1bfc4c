-- ===== src/Wrf/Prune/Kept.antt =====
-- `do_step_tasks` (models/wrf/wrf_control.cpp) deletes the restart files that two later ones replace.
use cpdn_control.Prelude.{
  ℕ, ◌≤◌, ◌≡◌, refl, sym, ap, ◌∙◌, Bool, true, false, not, ◌&&◌, Option, some, List, [], ◌∷◌, All,
  length, leb, pos, leb_ℤ, ◌%◌, ◌==◌, if◌then◌else◌, Bool-cases, inl, inr, arith,
}
use cpdn_control.Text.{Bytes, equal, lex_lt}
use cpdn_control.Text.Equal.{equal_sound, equal_refl}
use cpdn_control.Wrf.Domains.{WrfControl}
use cpdn_control.Wrf.Domains.Prefixes.{IsReady}
use cpdn_control.Wrf.Output.Names.{ensure-ready}
use cpdn_control.Wrf.Scan.{DirEntry}
use cpdn_control.Wrf.Prune.{
  RestartFileInfo, restart_files, collect_timestamps, timestamps_to_keep, is_in_set, removed, prune,
  do_step_tasks,
}
use cpdn_control.Wrf.Prune.Order.{
  IsSorted, any, stamps, lex_lt_irrefl, lex_lt_asym, lex_gt-equal, collect-IsSorted, any-collect,
}

-- Two of the time stamps are later, one behind the other.
abbrev pub has_two_later : Bytes → List Bytes → Bool
has_two_later t ts = any (λ u. lex_lt t u && any (lex_lt u) ts) ts

is_in_set-any : (t : Bytes) (ts : List Bytes) → is_in_set t ts ≡ any (λ u. equal u t) ts
unfolding is_in_set
is_in_set-any t [] = refl
is_in_set-any t (u ∷ ts) = ground (arith, is_in_set-any t ts)

any_cong : (p q : Bytes → Bool) (ts : List Bytes) → ((u : Bytes) → p u ≡ q u) → any p ts ≡ any q ts
any_cong p q [] h = refl
any_cong p q (u ∷ ts) h = ground (arith, h u, any_cong p q ts h)

above-in :
    (x t : Bytes) (ts : List Bytes)
    → All (λ u. lex_lt x u ≡ true) ts
    → is_in_set t ts ≡ true
    → lex_lt x t ≡ true
unfolding is_in_set
above-in x t [] a h = absurd (ground (arith, h))
above-in x t (u ∷ ts) a h = elim (Bool-cases (equal u t)) [
  | inl here ↦ ap (lex_lt x) (sym (equal_sound u t here)) ∙ a.0
  | inr later ↦ above-in x t ts a.1 (ground (arith, h))
]

not_kept :
    (x : Bytes) (ts : List Bytes)
    → All (λ u. lex_lt x u ≡ true) ts
    → is_in_set x (timestamps_to_keep ts) ≡ false
unfolding is_in_set timestamps_to_keep
not_kept x [] a = refl
not_kept x (t ∷ []) a = ground (arith, lex_gt-equal x t a.0)
not_kept x (t ∷ (u ∷ [])) a = ground (arith, lex_gt-equal x t a.0, lex_gt-equal x u a.1.0)
not_kept x (t ∷ (u ∷ (v ∷ ts))) a = not_kept x (u ∷ (v ∷ ts)) a.1

-- A text in front of the others is later than none of them.
two_later-cons :
    (t x : Bytes) (ts us : List Bytes)
    → All (λ u. lex_lt x u ≡ true) us
    → any (λ u. lex_lt t u && any (lex_lt u) (x ∷ ts)) us
      ≡ any (λ u. lex_lt t u && any (lex_lt u) ts) us
two_later-cons t x ts [] a = refl
two_later-cons t x ts (u ∷ us) a = ground (arith, lex_lt_asym x u a.0, two_later-cons t x ts us a.1)

kept_lem :
    (t : Bytes) (ts : List Bytes)
    → IsSorted ts
    → is_in_set t ts ≡ true
    → is_in_set t (timestamps_to_keep ts) ≡ not (has_two_later t ts)
unfolding is_in_set timestamps_to_keep
kept_lem t [] s h = absurd (ground (arith, h))
kept_lem t (x ∷ []) s h =
    ground (arith, ap (λ u. lex_lt u x) (equal_sound x t (ground arith)), lex_lt_irrefl x)
kept_lem t (x ∷ (y ∷ [])) s h =
    let irrefl_x : lex_lt x x ≡ false = lex_lt_irrefl x in
    let irrefl_y : lex_lt y y ≡ false = lex_lt_irrefl y in
    let back : lex_lt y x ≡ false = lex_lt_asym x y s.0.0 in
    elim (Bool-cases (equal x t)) [
      | inl here ↦
          let e : x ≡ t = equal_sound x t here in
          ground (arith, ap (λ u. lex_lt u x) e, ap (λ u. lex_lt u y) e)
      | inr later ↦
          let e : y ≡ t = equal_sound y t (ground arith) in
          ground (arith, ap (λ u. lex_lt u x) e, ap (λ u. lex_lt u y) e)
    ]
kept_lem t (x ∷ (y ∷ (z ∷ ts))) s h = elim (Bool-cases (equal x t)) [
  | inl here ↦
      let e : x ≡ t = equal_sound x t here in
      ground (
        arith,
        ap (λ u. is_in_set u (timestamps_to_keep (y ∷ (z ∷ ts)))) e,
        not_kept x (y ∷ (z ∷ ts)) s.0,
        ap (λ u. lex_lt u y) e,
        s.0.0,
        s.1.0.0,
      )
  | inr later ↦
      let in_rest : is_in_set t (y ∷ (z ∷ ts)) ≡ true = ground (arith, h) in
      ground (
        arith,
        kept_lem t (y ∷ (z ∷ ts)) s.1 in_rest,
        two_later-cons t x (y ∷ (z ∷ ts)) (y ∷ (z ∷ ts)) s.0,
        lex_lt_asym x t (above-in x t (y ∷ (z ∷ ts)) s.0 in_rest),
      )
]

-- The files that two later time stamps of the same directory replace.
abbrev pub replaced : List Bytes → List RestartFileInfo → List Bytes
replaced all [] = []
replaced all (f ∷ files) =
    let later = replaced all files in
    if has_two_later f.timestamp all then f.path ∷ later else later

module _ (all : List RestartFileInfo) where
  abbrev set : List Bytes
  set = collect_timestamps all []

  any-set : (p : Bytes → Bool) → any p set ≡ any p (stamps all)
  any-set p = ground (arith, any-collect p all [])

  has_two_later-set : (t : Bytes) → has_two_later t set ≡ has_two_later t (stamps all)
  has_two_later-set t =
      any_cong _ (λ u. lex_lt t u && any (lex_lt u) (stamps all)) set
        (λ u. ap (λ b. lex_lt t u && b) (any-set (lex_lt u)))
      ∙ any-set (λ u. lex_lt t u && any (lex_lt u) (stamps all))

  kept-set :
      (t : Bytes)
      → any (λ u. equal u t) (stamps all) ≡ true
      → is_in_set t (timestamps_to_keep set) ≡ not (has_two_later t (stamps all))
  kept-set t h =
      kept_lem t set (collect-IsSorted all [] tt)
        (is_in_set-any t set ∙ any-set (λ u. equal u t) ∙ h)
      ∙ ap not (has_two_later-set t)

  removed-replaced :
      (files : List RestartFileInfo)
      → ((p : Bytes → Bool) → any p (stamps files) ≡ true → any p (stamps all) ≡ true)
      → removed (timestamps_to_keep set) files ≡ replaced (stamps all) files
  unfolding removed
  removed-replaced [] h = refl
  removed-replaced (f ∷ files) h =
      rw
        (
          kept-set f.timestamp
              (h (λ u. equal u f.timestamp) (ground (arith, equal_refl f.timestamp))),
          removed-replaced files (λ p k. h p (ground (arith, k))),
        )
        (ground arith)

keep_short : (ts : List Bytes) → leb (length ts) 2 ≡ true → timestamps_to_keep ts ≡ ts
unfolding timestamps_to_keep
keep_short [] h = refl
keep_short (t ∷ []) h = refl
keep_short (t ∷ (u ∷ [])) h = refl
keep_short (t ∷ (u ∷ (v ∷ ts))) h = absurd (ground (arith, h))

removed_nil :
    (ts : List Bytes) (files : List RestartFileInfo)
    → ((t : Bytes) → any (λ u. equal u t) (stamps files) ≡ true → is_in_set t ts ≡ true)
    → removed ts files ≡ []
unfolding removed
removed_nil ts [] h = refl
removed_nil ts (f ∷ files) h =
    rw
      (
        h f.timestamp (ground (arith, equal_refl f.timestamp)),
        removed_nil ts files (λ t k. h t (ground (arith, k))),
      )
      refl

prune-replaced :
    (prefixes : List Bytes) (entries : List DirEntry)
    → let files = restart_files prefixes entries in
      prune prefixes entries ≡ replaced (stamps files) files
unfolding prune
prune-replaced prefixes entries = elim (Bool-cases (leb (length ts) 2)) [
  | inl few ↦ rw few (
      sym (removed_nil ts files (λ t k. is_in_set-any t ts ∙ any-set files (λ u. equal u t) ∙ k))
      ∙ ap (λ keep. removed keep files) (sym (keep_short ts few))
      ∙ removed-replaced files files (λ p k. k))
  | inr many ↦ rw many (removed-replaced files files (λ p k. k))
]
  where
    files : List RestartFileInfo
    files = restart_files prefixes entries

    ts : List Bytes
    ts = collect_timestamps files []

-- Every 24 steps the controller deletes exactly the restart files that two later time stamps of the
-- directory replace: so the two latest time stamps stay, and all files of them, whatever the names and
-- the order of the entries are. Empty files and files of other names are neither counted nor
-- deleted. The control is initialized, and is left as it was.
pub do_step_tasks-replaced :
    (namelist : Option (List Bytes)) (step : ℕ) (entries : List DirEntry) (c : WrfControl)
    → IsReady c
    → 1 ≤ step
    → step % 24 ≡ 0
    → let files = restart_files c.restart_prefixes entries in
      do_step_tasks namelist (pos step) (some entries) c
      ≡ record { ok = true; removals = replaced (stamps files) files; control = c }
unfolding do_step_tasks
do_step_tasks-replaced namelist step entries c r h k =
    rw
      (
        started step h,
        due step k,
        ensure-ready namelist c r,
        prune-replaced c.restart_prefixes entries,
      )
      refl
  where
    started : (n : ℕ) → 1 ≤ n → leb_ℤ (pos n) (pos 0) ≡ false
    started n h = ground arith

    due : (n : ℕ) → n % 24 ≡ 0 → (n % 24 == 0) ≡ true
    due n k = ground arith
