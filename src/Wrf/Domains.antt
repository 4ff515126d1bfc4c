-- ===== src/Wrf/Domains.antt =====
-- models/wrf/wrf_control.cpp and wrf_control.h: the state of the WRF control, the number of domains read
-- from the namelist, and the prefixes of the file names that follow from it.
pub mod Prefixes
use cpdn_control.Prelude.{
  ℕ, zero, suc, ◌+◌, ◌-◌, Bool, true, false, not, ◌&&◌, ◌||◌, Option, none, some, List, [], ◌∷◌,
  ◌++◌, ◌==◌, ℤ, pos, pos_part, ltb, ltb_ℤ, leb_ℤ, eqb_ℤ, length, if◌then◌else◌,
}
use cpdn_control.Text.{
  Bytes, codes, is_empty, front, equal, trim_whitespace, parse_namelist_key_value,
}
use cpdn_control.Text.Number.{parse_int, print_padded}
use cpdn_control.Calendar.{DateTime}
use cpdn_control.Progress.{is_ok, stored}
use cpdn_control.Wrf.{RestartSet, matches_any_wrf_prefix}

pub record WrfControl : Type 0 where
  pub timestep_seconds : ℤ
  pub output_interval : ℤ
  pub step0_datetime : DateTime
  pub restart_reference_start_datetime : DateTime
  pub restart_reference_start_valid : Bool
  pub max_domains : ℤ
  pub output_prefixes : List Bytes
  pub restart_prefixes : List Bytes
  pub restart_sets : List RestartSet
  pub restart_scan_cached : Bool
  pub cached_restart_exists : Bool
  pub cached_restart_scan_dir : Bytes
  pub cached_restart_scan_max_domains : ℤ

abbrev pub max_dom_allowed : ℤ
max_dom_allowed = pos 3

-- `%.*s_d%02d_`
abbrev pub domain_prefix : Bytes → ℕ → Bytes
domain_prefix file_stem domain_index =
    file_stem ++ (codes "_d" ++ (print_padded 2 domain_index ++ codes "_"))

abbrev with_prefix : Bytes → Option (List Bytes) → Option (List Bytes)
with_prefix prefix none = none
with_prefix prefix (some prefixes) = some (prefix ∷ prefixes)

-- The loop, `left` rounds to go; a prefix that overflows its buffer ends it with nothing.
unfoldable pub build_prefixes_from : Bytes → ℕ → ℕ → Option (List Bytes)
build_prefixes_from file_stem domain_index zero = some []
build_prefixes_from file_stem domain_index (suc left) =
    let prefix = domain_prefix file_stem domain_index in
    let later = with_prefix prefix (build_prefixes_from file_stem (domain_index + 1) left) in
    if ltb (length prefix) 16 then later else none

abbrev or_empty : Option (List Bytes) → List Bytes
or_empty none = []
or_empty (some prefixes) = prefixes

-- No round runs for a count that is not positive.
unfoldable pub build_wrf_domain_prefixes : Bytes → ℤ → List Bytes
unfolding build_prefixes_from
build_wrf_domain_prefixes file_stem domain_count =
    or_empty (build_prefixes_from file_stem 1 (pos_part domain_count))

abbrev pub is_allowed : ℤ → Bool
is_allowed domains = not (leb_ℤ domains (pos 0) || ltb_ℤ max_dom_allowed domains)

-- The value of `max_dom` on a line; none for a line to go on from.
unfoldable pub max_dom_value : Option (Bytes × Bytes) → Option Bytes
max_dom_value none = none
max_dom_value (some (key, value)) = if equal key (codes "max_dom") then some value else none

unfoldable pub max_dom_line : Bytes → Option Bytes
unfolding max_dom_value
max_dom_line input_line =
    let line = trim_whitespace input_line in
    if is_empty line
    then none
    else if front line == b'!'
    then none
    else max_dom_value (parse_namelist_key_value line)

unfoldable pub validated : Bytes → Option ℤ
validated value_text =
    let domains = stored (parse_int value_text) (pos 0) in
    if not (is_ok (parse_int value_text))
    then none
    else if not (is_allowed domains)
    then none
    else some domains

abbrev or_validated : Option ℤ → Option Bytes → Option ℤ
or_validated later none = later
or_validated later (some value) = validated value

-- The loop over the lines ends at the first that sets the number.
unfoldable pub max_domains_in : List Bytes → Option ℤ
max_domains_in [] = none
max_domains_in (line ∷ lines) = or_validated (max_domains_in lines) (max_dom_line line)

-- The lines of the namelist are none where it does not exist or cannot be opened.
unfoldable pub read_validated_max_domains : Option (List Bytes) → Option ℤ
read_validated_max_domains none = none
read_validated_max_domains (some lines) = max_domains_in lines

abbrev pub set_domain_prefixes : ℤ → WrfControl → WrfControl
set_domain_prefixes domain_count c = record c {
  output_prefixes = build_wrf_domain_prefixes (codes "wrfout") domain_count;
  restart_prefixes = build_wrf_domain_prefixes (codes "wrfrst") domain_count;
}

-- Each of the lists has as many prefixes as there are domains, the count being converted to size_t.
abbrev pub has_all_prefixes : WrfControl → Bool
has_all_prefixes c =
    leb_ℤ (pos 0) c.max_domains
    && eqb_ℤ (pos (length c.output_prefixes)) c.max_domains
    && eqb_ℤ (pos (length c.restart_prefixes)) c.max_domains

abbrev with_domains : Option ℤ → WrfControl → Bool × WrfControl
with_domains none c = (false, c)
with_domains (some domains) c =
    let initialized = set_domain_prefixes domains (record c { max_domains = domains }) in
    (has_all_prefixes initialized, initialized)

unfoldable pub ensure_domain_prefixes_initialized :
    Option (List Bytes) → WrfControl → Bool × WrfControl
ensure_domain_prefixes_initialized namelist c =
    if is_allowed c.max_domains && has_all_prefixes c
    then (true, c)
    else with_domains (read_validated_max_domains namelist) c

abbrev when_ready : (WrfControl → Bool) → Bool × WrfControl → Bool × WrfControl
when_ready test (ready, c) = (ready && test c, c)

unfoldable pub is_output_filename : Option (List Bytes) → Bytes → WrfControl → Bool × WrfControl
is_output_filename namelist filename c =
    when_ready (λ c. matches_any_wrf_prefix filename c.output_prefixes)
      (ensure_domain_prefixes_initialized namelist c)

unfoldable pub is_restart_filename : Option (List Bytes) → Bytes → WrfControl → Bool × WrfControl
is_restart_filename namelist filename c =
    when_ready (λ c. matches_any_wrf_prefix filename c.restart_prefixes)
      (ensure_domain_prefixes_initialized namelist c)
