-- ===== src/Wrf/Scan.antt =====
-- models/wrf/wrf_control.cpp: the scan of the slot directory for restart files, with its cache, and the
-- step that a restart begins at.
pub mod Files
pub mod Backed
pub mod Complete
pub mod Step
use cpdn_control.Prelude.{
  ℕ, zero, suc, ◌+◌, ◌/◌, ◌%◌, Bool, true, false, not, ◌&&◌, ◌||◌, Option, none, some, List, [],
  ◌∷◌, ◌==◌, ℤ, pos, negsuc, pos_part, leb_ℤ, eqb_ℤ, length, drop, replicate, if◌then◌else◌,
}
use cpdn_control.Text.{Bytes, equal}
use cpdn_control.Text.Number.{to_string_ℕ}
use cpdn_control.Calendar.{DateTime, datetime_duration_seconds}
use cpdn_control.Wrf.{
  RestartSet, is_wrf_prefixed_datetime_filename, parse_wrf_timestamp, find_latest_valid_restart_set,
}
use cpdn_control.Wrf.Domains.{WrfControl, ensure_domain_prefixes_initialized}

-- A directory entry; its size is none where it cannot be read.
pub record DirEntry : Type 0 where
  pub filename : Bytes
  pub is_regular_file : Bool
  pub file_size : Option ℕ

abbrev pub has_size : Option ℕ → Bool
has_size none = false
has_size (some size) = not (size == 0)

-- The two guards that skip an entry.
abbrev pub is_scanned : DirEntry → Bool
is_scanned e = e.is_regular_file && has_size e.file_size

-- domains_present[i] = true
unfoldable pub set_present : ℕ → List Bool → List Bool
set_present i [] = []
set_present zero (b ∷ bs) = true ∷ bs
set_present (suc i) (b ∷ bs) = b ∷ set_present i bs

-- The loop that looks for the set of a time stamp, the insertion of a new one, and the mark.
unfoldable pub add_present : ℕ → Bytes → ℕ → List RestartSet → List RestartSet
unfolding set_present
add_present max_domains datetime domain_index [] =
    record {
      datetime = datetime;
      domains_present = set_present domain_index (replicate max_domains false);
    }
    ∷ []
add_present max_domains datetime domain_index (s ∷ sets) =
    let later = add_present max_domains datetime domain_index sets in
    if equal s.datetime datetime
    then record s { domains_present = set_present domain_index s.domains_present } ∷ sets
    else s ∷ later

-- The loop over the domains, at the prefix of `domain_index`.
unfoldable pub scan_domains : ℕ → Bytes → ℕ → List Bytes → List RestartSet → List RestartSet
unfolding add_present
scan_domains max_domains filename domain_index [] sets = sets
scan_domains max_domains filename domain_index (prefix ∷ prefixes) sets =
    let later = scan_domains max_domains filename (domain_index + 1) prefixes sets in
    if not (is_wrf_prefixed_datetime_filename filename prefix)
    then later
    else add_present max_domains (drop (length prefix) filename) domain_index sets

-- The loop over the entries.
unfoldable pub scan_entries : ℕ → List Bytes → List DirEntry → List RestartSet → List RestartSet
unfolding scan_domains
scan_entries max_domains prefixes [] sets = sets
scan_entries max_domains prefixes (e ∷ entries) sets =
    scan_entries max_domains prefixes entries
      (if not (is_scanned e) then sets else scan_domains max_domains e.filename 0 prefixes sets)

abbrev pub clear_restart_scan_cache : WrfControl → WrfControl
clear_restart_scan_cache c = record c {
  restart_sets = [];
  restart_scan_cached = false;
  cached_restart_exists = false;
  cached_restart_scan_dir = [];
  cached_restart_scan_max_domains = pos 0;
  restart_reference_start_datetime = record {
    year = 0;
    month = 0;
    day = 0;
    hour = 0;
    minute = 0;
    second = 0;
  };
  restart_reference_start_valid = false;
}

abbrev pub is_some : Option RestartSet → Bool
is_some none = false
is_some (some s) = true

abbrev pub latest_of : WrfControl → Option RestartSet
latest_of c = find_latest_valid_restart_set (pos_part c.max_domains) c.restart_sets

unfoldable pub scan : Bytes → List DirEntry → WrfControl → Bool × WrfControl
unfolding scan_entries
scan scan_dir entries c =
    let cleared = clear_restart_scan_cache c in
    let scanned = record cleared {
      restart_sets = scan_entries (pos_part c.max_domains) c.restart_prefixes entries [];
    } in
    (
      is_some (latest_of scanned),
      record scanned {
        cached_restart_exists = is_some (latest_of scanned);
        restart_scan_cached = true;
        cached_restart_scan_dir = scan_dir;
        cached_restart_scan_max_domains = c.max_domains;
      },
    )

abbrev pub scan_if_ready : Bytes → List DirEntry → Bool × WrfControl → Bool × WrfControl
scan_if_ready scan_dir entries (ready, c) =
    if not ready || leb_ℤ c.max_domains (pos 0)
    then (false, c)
    else if c.restart_scan_cached
        && equal c.cached_restart_scan_dir scan_dir
        && eqb_ℤ c.cached_restart_scan_max_domains c.max_domains
    then (c.cached_restart_exists, c)
    else scan scan_dir entries c

-- `scan_dir` is the current directory and `entries` are its entries, in any order.
unfoldable pub restart_exists :
    Option (List Bytes) → Bytes → List DirEntry → WrfControl → Bool × WrfControl
unfolding scan
restart_exists namelist scan_dir entries c =
    scan_if_ready scan_dir entries (ensure_domain_prefixes_initialized namelist c)

-- The text of the step, for an elapsed time.
unfoldable pub restart_step_text : ℕ → ℤ → Option Bytes
restart_step_text timestep (negsuc n) = none
restart_step_text timestep (pos n) =
    if not (n % timestep == 0) then none else some (to_string_ℕ (n / timestep))

abbrev step_since : ℕ → DateTime → Option DateTime → Option Bytes
step_since timestep start none = none
step_since timestep start (some date) =
    restart_step_text timestep (datetime_duration_seconds start date)

abbrev step_of_set : ℕ → DateTime → Option RestartSet → Option Bytes
step_of_set timestep start none = none
step_of_set timestep start (some s) = step_since timestep start (parse_wrf_timestamp s.datetime)

abbrev is_nil : List RestartSet → Bool
is_nil [] = true
is_nil (s ∷ sets) = false

unfoldable pub parse_restart : WrfControl → Option Bytes
unfolding restart_step_text
parse_restart c =
    if is_nil c.restart_sets
    then none
    else if not c.restart_reference_start_valid
    then none
    else if leb_ℤ c.timestep_seconds (pos 0)
    then none
    else step_of_set (pos_part c.timestep_seconds) c.restart_reference_start_datetime (latest_of c)
