-- ===== src/Wrf/Output.antt =====
-- models/wrf/wrf_control.cpp: the names of the output files of a step. The branch for the names of all
-- domains is left out: the constant that chooses it is false.
pub mod Padded
pub mod Names
pub mod Copyable
use cpdn_control.Prelude.{
  ℕ, zero, suc, ◌+◌, ◌-◌, ◌*◌, Bool, true, false, not, ◌||◌, Option, none, some, List, [], ◌∷◌,
  ◌++◌, ◌==◌, ℤ, pos, pos_part, leb, ltb, leb_ℤ, ltb_ℤ, length, get_or, if◌then◌else◌,
}
use cpdn_control.Text.{Bytes}
use cpdn_control.Text.Number.{print_padded}
use cpdn_control.Calendar.{DateTime, secs_to_datetime_duration, add_duration_to_datetime}
use cpdn_control.Wrf.Domains.{WrfControl, ensure_domain_prefixes_initialized}

-- `%04d-%02d-%02d_%02d:%02d:%02d`
unfoldable pub output_timestamp : DateTime → Bytes
output_timestamp d =
    print_padded 4 d.year
    ++ (b'-'
        ∷ (print_padded 2 d.month
            ++ (b'-'
                ∷ (print_padded 2 d.day
                    ++ (b'_'
                        ∷ (print_padded 2 d.hour
                            ++ (b':'
                                ∷ (print_padded 2 d.minute
                                    ++ (b':' ∷ print_padded 2 d.second)))))))))

-- The name on the innermost domain; a text that overflows the buffer gives none.
unfoldable pub filenames_at : WrfControl → DateTime → List Bytes
filenames_at c output_date =
    let timestamp = output_timestamp output_date in
    let domain_index = pos_part c.max_domains - 1 in
    if not (length timestamp == 19)
    then []
    else if leb (length c.output_prefixes) domain_index
    then []
    else (get_or c.output_prefixes domain_index [] ++ timestamp) ∷ []

abbrev named : WrfControl → Option DateTime → Option (List Bytes × WrfControl)
named c none = none
named c (some output_date) = some (filenames_at c output_date, c)

abbrev names_if_ready : ℕ → Bool × WrfControl → Option (List Bytes × WrfControl)
names_if_ready elapsed_seconds (ready, c) =
    if not ready || leb_ℤ c.max_domains (pos 0)
    then some ([], c)
    else named c
        (add_duration_to_datetime c.step0_datetime (secs_to_datetime_duration elapsed_seconds))

-- `none` only where the loop over the days does not end within its fuel.
unfoldable pub get_output_filenames :
    Option (List Bytes) → ℤ → WrfControl → Option (List Bytes × WrfControl)
get_output_filenames namelist step c =
    if ltb_ℤ step (pos 0) || leb_ℤ c.timestep_seconds (pos 0)
    then some ([], c)
    else names_if_ready (pos_part step * pos_part c.timestep_seconds)
        (ensure_domain_prefixes_initialized namelist c)

-- One more round behind those that ended with these files.
abbrev after_files :
    (List Bytes → WrfControl → Option (List Bytes × WrfControl))
    → Option (List Bytes × WrfControl)
    → Option (List Bytes × WrfControl)
after_files next none = none
after_files next (some (files, c)) = next files c

-- The loop over the steps, at `output_step`.
unfoldable pub copyable_from :
    ℕ → Option (List Bytes) → ℕ → ℕ → ℕ → List Bytes → WrfControl → Option (List Bytes × WrfControl)
copyable_from zero namelist current_step interval output_step output_files c = none
copyable_from (suc fuel) namelist current_step interval output_step output_files c =
    let skipped =
      copyable_from fuel namelist current_step interval (output_step + interval) output_files c in
    let listed =
      after_files
        (λ files c.
          copyable_from fuel namelist current_step interval (output_step + interval)
            (output_files ++ files) c)
        (get_output_filenames namelist (pos output_step) c) in
    if not (ltb output_step current_step)
    then some (output_files, c)
    else if ltb current_step (output_step + interval)
    then skipped
    else listed

-- `counted` is whether the static variable with the number of files of a step is set already. Each
-- round goes at least one step on.
unfoldable pub get_copyable_output_filenames :
    Option (List Bytes) → Bool → ℤ → WrfControl → Option (List Bytes × WrfControl)
unfolding copyable_from
get_copyable_output_filenames namelist counted current_step c =
    let current = pos_part current_step in
    let interval = pos_part c.output_interval in
    if ltb_ℤ current_step (pos 0) || leb_ℤ c.output_interval (pos 0)
    then some ([], c)
    else after_files (λ files c. copyable_from (current + 1) namelist current interval 0 [] c)
        (if counted then some ([], c) else get_output_filenames namelist (pos 0) c)
