-- ===== src/Wrf/Prune.antt =====
-- models/wrf/wrf_control.cpp: do_step_tasks, which deletes old restart files.
pub mod Order
pub mod Kept
use cpdn_control.Prelude.{
  ℕ, zero, suc, ◌%◌, Bool, true, false, not, ◌||◌, Option, none, some, List, [], ◌∷◌, ◌==◌, ℤ, pos,
  pos_part, leb, leb_ℤ, length, if◌then◌else◌,
}
use cpdn_control.Text.{Bytes, equal, lex_lt}
use cpdn_control.Wrf.{extract_wrf_restart_timestamp}
use cpdn_control.Wrf.Domains.{WrfControl, ensure_domain_prefixes_initialized}
use cpdn_control.Wrf.Scan.{DirEntry, is_scanned}

-- The file in the directory, and the time stamp of its name.
pub record RestartFileInfo : Type 0 where
  pub path : Bytes
  pub timestamp : Bytes

abbrev with_file : Bytes → Option Bytes → List RestartFileInfo → List RestartFileInfo
with_file path none files = files
with_file path (some timestamp) files = record { path = path; timestamp = timestamp } ∷ files

-- The loop over the entries, for the vector of files.
unfoldable pub restart_files : List Bytes → List DirEntry → List RestartFileInfo
restart_files prefixes [] = []
restart_files prefixes (e ∷ entries) =
    let later = restart_files prefixes entries in
    if not (is_scanned e)
    then later
    else with_file e.filename (extract_wrf_restart_timestamp e.filename prefixes) later

-- insert() of a std::set, which is in order and holds no text twice.
unfoldable pub insert_timestamp : Bytes → List Bytes → List Bytes
insert_timestamp t [] = t ∷ []
insert_timestamp t (u ∷ timestamps) =
    let later = insert_timestamp t timestamps in
    if lex_lt t u then t ∷ u ∷ timestamps else if lex_lt u t then u ∷ later else u ∷ timestamps

-- The same loop, for the set of time stamps.
unfoldable pub collect_timestamps : List RestartFileInfo → List Bytes → List Bytes
unfolding insert_timestamp
collect_timestamps [] timestamps = timestamps
collect_timestamps (f ∷ files) timestamps =
    collect_timestamps files (insert_timestamp f.timestamp timestamps)

-- The last two of the set, which the loop from rbegin() takes.
unfoldable pub timestamps_to_keep : List Bytes → List Bytes
timestamps_to_keep [] = []
timestamps_to_keep (t ∷ []) = t ∷ []
timestamps_to_keep (t ∷ (u ∷ [])) = t ∷ u ∷ []
timestamps_to_keep (t ∷ (u ∷ (v ∷ timestamps))) = timestamps_to_keep (u ∷ (v ∷ timestamps))

-- find( t ) != end()
unfoldable pub is_in_set : Bytes → List Bytes → Bool
is_in_set t [] = false
is_in_set t (u ∷ timestamps) = equal u t || is_in_set t timestamps

-- The files that fs::remove is called for; a failure is only reported.
unfoldable pub removed : List Bytes → List RestartFileInfo → List Bytes
unfolding is_in_set
removed keep [] = []
removed keep (f ∷ files) =
    let later = removed keep files in if is_in_set f.timestamp keep then later else f.path ∷ later

unfoldable pub prune : List Bytes → List DirEntry → List Bytes
unfolding restart_files collect_timestamps timestamps_to_keep removed
prune prefixes entries =
    let files = restart_files prefixes entries in
    let timestamps = collect_timestamps files [] in
    if leb (length timestamps) 2 then [] else removed (timestamps_to_keep timestamps) files

pub record StepTasks : Type 0 where
  pub ok : Bool
  pub removals : List Bytes
  pub control : WrfControl

abbrev prune_if_ready : Option (List DirEntry) → Bool × WrfControl → StepTasks
prune_if_ready entries (false, c) = record { ok = false; removals = []; control = c }
prune_if_ready none (true, c) = record { ok = false; removals = []; control = c }
prune_if_ready (some entries) (true, c) = record {
  ok = true;
  removals = prune c.restart_prefixes entries;
  control = c;
}

-- `entries` is none where the directory cannot be read.
unfoldable pub do_step_tasks :
    Option (List Bytes) → ℤ → Option (List DirEntry) → WrfControl → StepTasks
unfolding prune
do_step_tasks namelist current_step entries c =
    if leb_ℤ current_step (pos 0) || not (pos_part current_step % 24 == 0)
    then record { ok = true; removals = []; control = c }
    else prune_if_ready entries (ensure_domain_prefixes_initialized namelist c)
