-- ===== src/Wrf/Names.antt =====
-- `extract_wrf_restart_timestamp` (models/wrf/wrf_control.cpp).
use cpdn_control.Prelude.{
  ◌≡◌, refl, Bool, true, false, Option, none, some, List, [], ◌∷◌, ◌++◌, ◌⊎◌, inl, inr, drop,
  length, arith,
}
use cpdn_control.Text.{Bytes, starts_with}
use cpdn_control.Wrf.{
  is_wrf_datetime_suffix, is_wrf_prefixed_datetime_filename, parse_wrf_timestamp,
  extract_wrf_restart_timestamp, matches_any_wrf_prefix,
}

-- The name is one of the prefixes with this text behind it.
abbrev pub IsStamped : Bytes → List Bytes → Bytes → Type 0
IsStamped filename [] stamp = ⊥
IsStamped filename (prefix ∷ prefixes) stamp =
    (filename ≡ prefix ++ stamp) ⊎ IsStamped filename prefixes stamp

starts_with-drop :
    (prefix s : Bytes) → starts_with prefix s ≡ true → s ≡ prefix ++ drop (length prefix) s
unfolding starts_with
starts_with-drop [] s h = refl
starts_with-drop (p ∷ prefix) [] h = ground arith
starts_with-drop (p ∷ prefix) (c ∷ s) h = ground (arith, starts_with-drop prefix s)

prefixed :
    (filename prefix : Bytes)
    → is_wrf_prefixed_datetime_filename filename prefix ≡ true
    → (starts_with prefix filename ≡ true)
      × (is_wrf_datetime_suffix (drop (length prefix) filename) ≡ true)
unfolding is_wrf_prefixed_datetime_filename
prefixed filename prefix h = (ground arith, ground arith)

extract-head :
    (filename prefix : Bytes) (prefixes : List Bytes)
    → is_wrf_prefixed_datetime_filename filename prefix ≡ true
    → extract_wrf_restart_timestamp filename (prefix ∷ prefixes)
      ≡ some (drop (length prefix) filename)
unfolding extract_wrf_restart_timestamp parse_wrf_timestamp
extract-head filename prefix prefixes e = rw (e, (prefixed filename prefix e).1) refl

extract-tail :
    (filename prefix : Bytes) (prefixes : List Bytes)
    → is_wrf_prefixed_datetime_filename filename prefix ≡ false
    → extract_wrf_restart_timestamp filename (prefix ∷ prefixes)
      ≡ extract_wrf_restart_timestamp filename prefixes
unfolding extract_wrf_restart_timestamp
extract-tail filename prefix prefixes e = rw e refl

-- A text that was taken out, or that there was none to take.
abbrev pub IsExtracted : Bytes → List Bytes → Option Bytes → Type 0
IsExtracted filename prefixes none = matches_any_wrf_prefix filename prefixes ≡ false
IsExtracted filename prefixes (some stamp) =
    IsStamped filename prefixes stamp × (is_wrf_datetime_suffix stamp ≡ true)

IsExtracted-tail :
    (filename prefix : Bytes) (prefixes : List Bytes) (r : Option Bytes)
    → is_wrf_prefixed_datetime_filename filename prefix ≡ false
    → IsExtracted filename prefixes r
    → IsExtracted filename (prefix ∷ prefixes) r
unfolding matches_any_wrf_prefix
IsExtracted-tail filename prefix prefixes none e h = rw e h
IsExtracted-tail filename prefix prefixes (some stamp) e h = (inr h.0, h.1)

-- What is taken out of a file's name is the text of a time stamp, and the name is one of the prefixes
-- with that text behind it. Nothing is taken only out of a name that matches none of the prefixes.
pub extract_wrf_restart_timestamp-IsExtracted :
    (filename : Bytes) (prefixes : List Bytes)
    → IsExtracted filename prefixes (extract_wrf_restart_timestamp filename prefixes)
unfolding extract_wrf_restart_timestamp matches_any_wrf_prefix
extract_wrf_restart_timestamp-IsExtracted filename [] = refl
extract_wrf_restart_timestamp-IsExtracted filename (prefix ∷ prefixes) =
    which (extract_wrf_restart_timestamp-IsExtracted filename prefixes) _ refl
  where
    which :
        IsExtracted filename prefixes (extract_wrf_restart_timestamp filename prefixes)
        → (b : Bool) → is_wrf_prefixed_datetime_filename filename prefix ≡ b
        → IsExtracted filename
            (prefix ∷ prefixes)
            (extract_wrf_restart_timestamp filename (prefix ∷ prefixes))
    which later true e =
        let (starts, suffix) = prefixed filename prefix e in
        rw (extract-head filename prefix prefixes e)
          (inl (starts_with-drop prefix filename starts), suffix)
    which later false e =
        rw (extract-tail filename prefix prefixes e)
          (IsExtracted-tail filename prefix prefixes _ e later)
