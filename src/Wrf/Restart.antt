-- ===== src/Wrf/Restart.antt =====
-- models/wrf/wrf_control.cpp: setup(), and the rewriting of the namelist for a restart. A file is the list
-- of its lines. The outcomes of the file operations come from outside.
pub mod Lines
pub mod Flag
pub mod Outcome
use cpdn_control.Prelude.{
  ℕ, zero, suc, ◌+◌, Bool, true, false, not, ◌&&◌, Option, none, some, List, [], ◌∷◌, ◌++◌, ◌==◌, ℤ,
  pos, eqb_ℤ, length, take, drop, if◌then◌else◌,
}
use cpdn_control.Text.{
  Bytes, codes, is_empty, equal, starts_with, after_first, split_at, cut_at, trim_whitespace,
}
use cpdn_control.Calendar.{DateTime, datetime_duration_seconds}
use cpdn_control.Wrf.{RestartSet, parse_wrf_timestamp}
use cpdn_control.Wrf.Domains.{WrfControl}
use cpdn_control.Wrf.Namelist.{
  Field, extract_namelist_rhs_preserving_list, parse_wrf_domain_list_value, set_field, field_of,
  build_wrf_start_value_list, replace_namelist_rhs,
}
use cpdn_control.Wrf.Namelist
use cpdn_control.Wrf.Scan.{DirEntry, latest_of, restart_exists}

abbrev pub in_front : ℕ → Option Bytes → Option Bytes
in_front c none = none
in_front c (some s) = some (c ∷ s)

-- find() and replace() of the first occurrence.
unfoldable pub replace_first : Bytes → Bytes → Bytes → Option Bytes
replace_first old new [] = if is_empty old then some new else none
replace_first old new (c ∷ s) =
    let later = in_front c (replace_first old new s) in
    if starts_with old (c ∷ s) then some (new ++ drop (length old) (c ∷ s)) else later

abbrev pub is_found : Option Bytes → Bool
is_found none = false
is_found (some s) = true

-- The fields of a start date, with the chain of tests on the key.
unfoldable pub start_field : Bytes → Option Field
start_field lhs =
    if equal lhs (codes "start_year")
    then some Namelist.year
    else if equal lhs (codes "start_month")
    then some Namelist.month
    else if equal lhs (codes "start_day")
    then some Namelist.day
    else if equal lhs (codes "start_hour")
    then some Namelist.hour
    else if equal lhs (codes "start_minute")
    then some Namelist.minute
    else if equal lhs (codes "start_second")
    then some Namelist.second
    else none

abbrev pub field_width : Field → ℕ
field_width Namelist.year = 4
field_width Namelist.month = 2
field_width Namelist.day = 2
field_width Namelist.hour = 2
field_width Namelist.minute = 2
field_width Namelist.second = 2

-- The local variables of the loop.
pub record Rewriting : Type 0 where
  pub lines : List Bytes
  pub restart_key_found : Bool
  pub file_changed : Bool
  pub time_control_line_index : Option ℕ
  pub original_start_fields_parsed : ℕ
  pub start_datetime : DateTime

abbrev pub push : Bytes → Rewriting → Rewriting
push line r = record r { lines = r.lines ++ line ∷ [] }

-- Where the value that the line had is read, for a restart after this one.
abbrev pub keep_original : Field → Option ℤ → Rewriting → Rewriting
keep_original field none r = r
keep_original field (some z) r = record r {
  start_datetime = set_field field z r.start_datetime;
  original_start_fields_parsed = r.original_start_fields_parsed + 1;
}

abbrev pub first_value : Option Bytes → Option ℤ
first_value none = none
first_value (some rhs) = parse_wrf_domain_list_value rhs (pos 1)

abbrev pub push_changed : Bytes → Bytes → Rewriting → Rewriting
push_changed line rewritten r =
    if equal rewritten line then push line r else push rewritten (record r { file_changed = true })

abbrev pub rewritten_field : ℤ → DateTime → Bytes → Field → Bytes
rewritten_field max_domains date line field =
    replace_namelist_rhs line
      (build_wrf_start_value_list (field_of field date) (field_width field) max_domains)

abbrev pub rewrite_field : ℤ → DateTime → Bytes → Option Field → Rewriting → Rewriting
rewrite_field max_domains date line none r = push line r
rewrite_field max_domains date line (some field) r =
    push_changed line (rewritten_field max_domains date line field)
      (keep_original field (first_value (extract_namelist_rhs_preserving_list line)) r)

-- The line that sets the restart flag; none where its value is neither of the two.
abbrev pub rewrite_flag : Bytes → Option Bytes → Rewriting → Option Rewriting
rewrite_flag line (some updated) r =
    some (push updated (record r { restart_key_found = true; file_changed = true }))
rewrite_flag line none r =
    if is_found (after_first (codes ".true.") line)
    then some (push line (record r { restart_key_found = true }))
    else none

abbrev pub rewrite_key :
    ℤ → DateTime → Bytes → Option (Bytes × Bytes) → Rewriting → Option Rewriting
rewrite_key max_domains date line none r = some (push line r)
rewrite_key max_domains date line (some (key, value)) r =
    let lhs = trim_whitespace key in
    if equal lhs (codes "restart")
    then rewrite_flag line (replace_first (codes ".false.") (codes ".true.") line) r
    else some (rewrite_field max_domains date line (start_field lhs) r)

abbrev pub note_at : Bytes → Rewriting → Option ℕ → Rewriting
note_at line r (some index) = r
note_at line r none =
    if equal (trim_whitespace line) (codes "&time_control")
    then record r { time_control_line_index = some (length r.lines) }
    else r

abbrev pub note_time_control : Bytes → Rewriting → Rewriting
note_time_control line r = note_at line r r.time_control_line_index

unfoldable pub rewrite_line : ℤ → DateTime → Bytes → Rewriting → Option Rewriting
unfolding start_field replace_first
rewrite_line max_domains date line r =
    rewrite_key max_domains date line (split_at b'=' (cut_at b'!' line)) (note_time_control line r)

abbrev pub and_then : (Rewriting → Option Rewriting) → Option Rewriting → Option Rewriting
and_then next none = none
and_then next (some r) = next r

-- The loop over the lines of the namelist.
unfoldable pub rewrite_lines : ℤ → DateTime → List Bytes → Rewriting → Option Rewriting
unfolding rewrite_line
rewrite_lines max_domains date [] r = some r
rewrite_lines max_domains date (line ∷ lines) r =
    and_then (λ next. rewrite_lines max_domains date lines next)
      (rewrite_line max_domains date line r)

abbrev pub flag_line : Bytes
flag_line = codes " restart = .true.,"

abbrev pub insert_behind : Rewriting → Option ℕ → Option Rewriting
insert_behind r none = none
insert_behind r (some index) = some (record r {
  lines = take (index + 1) r.lines ++ flag_line ∷ drop (index + 1) r.lines;
  file_changed = true;
})

-- The flag is put behind the line `&time_control` where no line sets it.
unfoldable pub insert_flag : Rewriting → Option Rewriting
insert_flag r = if r.restart_key_found then some r else insert_behind r r.time_control_line_index

-- What the operations on the files do: the copy to the backup, the opening for writing, the
-- writing as far as good() tells, the flush when the stream is closed behind that test, the
-- copy back, and what a failed writing leaves.
pub record FileOutcome : Type 0 where
  pub backed_up : Bool
  pub reopened : Bool
  pub written : Bool
  pub flushed : Bool
  pub restored : Bool
  pub left_behind : List Bytes

pub record SetupResult : Type 0 where
  pub ok : Bool
  pub namelist : List Bytes
  pub control : WrfControl

unfoldable pub write_namelist : FileOutcome → List Bytes → List Bytes → WrfControl → SetupResult
write_namelist outcome before after c =
    if not outcome.backed_up
    then record { ok = false; namelist = before; control = c }
    else if not outcome.reopened
    then record { ok = false; namelist = before; control = c }
    else if outcome.written
    then record {
      ok = true;
      namelist = if outcome.flushed then after else outcome.left_behind;
      control = c;
    }
    else if outcome.restored
    then record { ok = false; namelist = before; control = c }
    else record { ok = false; namelist = outcome.left_behind; control = c }

abbrev pub is_reference : Rewriting → Bool
is_reference r =
    r.original_start_fields_parsed == 6
    && eqb_ℤ (datetime_duration_seconds r.start_datetime r.start_datetime) (pos 0)

abbrev pub with_reference : Rewriting → WrfControl → WrfControl
with_reference r c = record c {
  restart_reference_start_datetime = r.start_datetime;
  restart_reference_start_valid = true;
}

abbrev pub commit : FileOutcome → List Bytes → WrfControl → Option Rewriting → SetupResult
commit outcome before c none = record { ok = false; namelist = before; control = c }
commit outcome before c (some r) =
    if not (is_reference r)
    then record {
      ok = false;
      namelist = before;
      control = record c { restart_reference_start_valid = false };
    }
    else if not r.file_changed
    then record { ok = true; namelist = before; control = with_reference r c }
    else write_namelist outcome before r.lines (with_reference r c)

abbrev no_date : DateTime
no_date = record { year = 0; month = 0; day = 0; hour = 0; minute = 0; second = 0 }

abbrev pub start_rewriting : Rewriting
start_rewriting = record {
  lines = [];
  restart_key_found = false;
  file_changed = false;
  time_control_line_index = none;
  original_start_fields_parsed = 0;
  start_datetime = no_date;
}

abbrev pub update_for : FileOutcome → List Bytes → WrfControl → Option DateTime → SetupResult
update_for outcome namelist c none = record { ok = false; namelist = namelist; control = c }
update_for outcome namelist c (some date) =
    commit outcome namelist c
      (and_then insert_flag (rewrite_lines c.max_domains date namelist start_rewriting))

-- The namelist can be opened for reading: where it cannot, nothing is changed and false is returned.
unfoldable pub update_restart_namelist :
    FileOutcome → RestartSet → List Bytes → WrfControl → SetupResult
unfolding write_namelist
update_restart_namelist outcome restart_set namelist c =
    update_for outcome namelist c (parse_wrf_timestamp restart_set.datetime)

abbrev pub update_latest :
    FileOutcome → List Bytes → Bool × WrfControl → Option RestartSet → SetupResult
update_latest outcome namelist (false, c) latest = record {
  ok = true;
  namelist = namelist;
  control = c;
}
update_latest outcome namelist (true, c) none = record {
  ok = false;
  namelist = namelist;
  control = c;
}
update_latest outcome namelist (true, c) (some s) = update_restart_namelist outcome s namelist c

-- `preserved` is whether the copy of the first start's namelist is there or could be made.
unfoldable pub setup :
    Bool → FileOutcome → Bytes → List DirEntry → List Bytes → WrfControl → SetupResult
setup preserved outcome scan_dir entries namelist c =
    if not preserved
    then record { ok = false; namelist = namelist; control = c }
    else let (found, scanned) = restart_exists (some namelist) scan_dir entries c in
      update_latest outcome namelist (found, scanned) (latest_of scanned)
