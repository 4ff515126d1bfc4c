-- ===== src/Staging.antt =====
-- The staging of the model's input archives: src/cpdn_control.cpp, and `ensure_directory` of
-- lib/utils.cpp. The BOINC client, the file system, the MD5 library and the unzip are outside; what
-- reads or changes a file there is an event of the history, the latest first. Messages are left out.
pub mod Paths
pub mod Verified
pub mod Trusted
pub mod Unpacked
use cpdn_control.Prelude.{
  ℕ, ◌+◌, Bool, true, false, not, ◌&&◌, ◌||◌, Option, none, some, List, [], ◌∷◌, ◌++◌, ◌==◌, ℤ, pos,
  eqb_ℤ, leb, length, drop, if◌then◌else◌,
}
use cpdn_control.Text.{Bytes, codes, is_empty, equal, starts_with, is_ascii_digit}
use cpdn_control.Staging.Paths.{
  FsPath, join, child, filename, parent_path, lexically_normal, same_path,
}

pub data StageEvent : Type 0 where
  digested created_directories removed_file : FsPath → StageEvent
  copied_file unzipped : FsPath → FsPath → StageEvent

abbrev pub Stages : Type 0
Stages = List StageEvent

-- The answers, each of which may depend on what was done before.
pub record Files : Type 0 where
  pub exists : Stages → FsPath → Bool
  pub is_directory : Stages → FsPath → Bool
  pub create_directories : Stages → FsPath → Bool
  pub is_symlink : Stages → FsPath → Bool
  pub read_symlink : Stages → FsPath → FsPath
  -- boinc_resolve_filename_s(): the error code and the path
  pub resolve : Stages → FsPath → ℤ × FsPath
  -- md5_file(): none for an error
  pub md5_file : Stages → FsPath → Option Bytes
  pub copy_file : Stages → FsPath → FsPath → Bool
  -- cpdn_unzip()
  pub unzip : Stages → FsPath → FsPath → Bool

pub record ModelInputArchive : Type 0 where
  pub logical_name : Bytes
  pub unzip_relative_dir : FsPath

pub data StageStep : Type 0 where
  staged resolve_boinc_input_file_failed verify_project_zip_md5_failed ensure_directory_failed
        copy_file_failed cpdn_unzip_failed :
      StageStep

-- `ok` of an InputStageResult
abbrev pub is_staged : StageStep → Bool
is_staged staged = true
is_staged _ = false

-- std::tolower in the C locale
unfoldable pub tolower : ℕ → ℕ
tolower c = if leb b'A' c && leb c b'Z' then c + 32 else c

unfoldable pub lowercase_copy : Bytes → Bytes
unfolding tolower
lowercase_copy [] = []
lowercase_copy (c ∷ s) = tolower c ∷ lowercase_copy s

-- std::isxdigit
unfoldable pub isxdigit : ℕ → Bool
isxdigit c = is_ascii_digit c || (leb b'a' c && leb c b'f') || (leb b'A' c && leb c b'F')

unfoldable pub all_of : (ℕ → Bool) → Bytes → Bool
all_of test [] = true
all_of test (c ∷ s) = test c && all_of test s

unfoldable pub extract_expected_md5 : FsPath → Option Bytes
unfolding lowercase_copy all_of isxdigit
extract_expected_md5 project_file =
    let name = filename project_file in
    if not (length name == 35) || not (starts_with (codes "jf_") name)
    then none
    else if not (all_of isxdigit (drop 3 name))
    then none
    else some (lowercase_copy (drop 3 name))

abbrev pub unzip_dir : FsPath → FsPath → FsPath
unzip_dir slot_path relative_dir =
    if same_path relative_dir (record { rooted = false; names = [] })
      || same_path relative_dir (record { rooted = false; names = codes "." ∷ [] })
    then slot_path
    else lexically_normal (join slot_path relative_dir)

module _ (o : Files) where
  -- The path behind a symbolic link, and the path from the directory of the logical file.
  unfoldable pub candidate : Stages → FsPath → FsPath → FsPath
  candidate h logical_file resolved =
      let target =
        if same_path resolved logical_file && o.is_symlink h logical_file
        then o.read_symlink h logical_file
        else resolved in
      lexically_normal (if target.rooted then target else join (parent_path logical_file) target)

  abbrev pub existing : Stages → FsPath → Option FsPath
  existing h p = if o.exists h p then some p else none

  abbrev pub resolved_path : Stages → FsPath → ℤ × FsPath → Option FsPath
  resolved_path h logical_file (retval, resolved) =
      if not (eqb_ℤ retval (pos 0)) then none else existing h (candidate h logical_file resolved)

  unfoldable pub resolve_boinc_input_file : Stages → FsPath → Option FsPath
  unfolding candidate
  resolve_boinc_input_file h logical_file =
      if not (o.exists h logical_file)
      then none
      else resolved_path h logical_file (o.resolve h logical_file)

  abbrev pub same_digest : Bytes → Option Bytes → Bool
  same_digest expected none = false
  same_digest expected (some actual) = equal (lowercase_copy actual) expected

  abbrev pub compare_md5 : Stages → FsPath → Option Bytes → Bool × Stages
  compare_md5 h project_file none = (false, h)
  compare_md5 h project_file (some expected) =
      (same_digest expected (o.md5_file h project_file), digested project_file ∷ h)

  unfoldable pub verify_project_zip_md5 : Stages → FsPath → Bool × Stages
  unfolding extract_expected_md5
  verify_project_zip_md5 h project_file =
      compare_md5 h project_file (extract_expected_md5 project_file)

  unfoldable pub ensure_directory : Stages → FsPath → Bool × Stages
  ensure_directory h dir =
      if o.exists h dir
      then (o.is_directory h dir, h)
      else (o.create_directories h dir, created_directories dir ∷ h)

  unfoldable pub copy_and_unzip : FsPath → FsPath → Bool × Stages → StageStep × Stages
  copy_and_unzip source dir (false, h) = (ensure_directory_failed, h)
  copy_and_unzip source dir (true, h) =
      let destination = child dir (filename source) in
      let copied = copied_file source destination ∷ h in
      if not (o.copy_file h source destination)
      then (copy_file_failed, copied)
      else if not (o.unzip copied destination dir)
      then (cpdn_unzip_failed, unzipped destination dir ∷ copied)
      else (staged, unzipped destination dir ∷ copied)

  unfoldable pub stage_model_input_archive : Stages → FsPath → FsPath → FsPath → StageStep × Stages
  unfolding ensure_directory copy_and_unzip
  stage_model_input_archive h source slot_path relative_dir =
      let dir = unzip_dir slot_path relative_dir in
      copy_and_unzip source dir (ensure_directory h dir)

  abbrev pub stage_verified : FsPath → FsPath → FsPath → Bool × Stages → StageStep × Stages
  stage_verified source slot_path relative_dir (false, h) = (verify_project_zip_md5_failed, h)
  stage_verified source slot_path relative_dir (true, h) =
      stage_model_input_archive h source slot_path relative_dir

  abbrev pub stage_resolved : FsPath → FsPath → Stages → Option FsPath → StageStep × Stages
  stage_resolved slot_path relative_dir h none = (resolve_boinc_input_file_failed, h)
  stage_resolved slot_path relative_dir h (some project_file) =
      stage_verified project_file slot_path relative_dir (verify_project_zip_md5 h project_file)

  unfoldable pub stage_boinc_input_file : Stages → FsPath → FsPath → FsPath → StageStep × Stages
  unfolding resolve_boinc_input_file verify_project_zip_md5 stage_model_input_archive
  stage_boinc_input_file h logical_file slot_path relative_dir =
      stage_resolved slot_path relative_dir h (resolve_boinc_input_file h logical_file)

  -- The loop goes on only behind an archive that was staged.
  abbrev pub go_on : (Stages → StageStep × Stages) → StageStep × Stages → StageStep × Stages
  go_on next (step, h) = if is_staged step then next h else (step, h)

  unfoldable pub stage_model_input_manifest :
      List ModelInputArchive → FsPath → Stages → StageStep × Stages
  unfolding stage_boinc_input_file
  stage_model_input_manifest [] slot_path h = (staged, h)
  stage_model_input_manifest (archive ∷ manifest) slot_path h =
      go_on (λ h. stage_model_input_manifest manifest slot_path h)
        (stage_boinc_input_file h (child slot_path archive.logical_name) slot_path
          archive.unzip_relative_dir)

  -- The application's archive, whose sum is not checked: the return value is 0 or 1. The
  -- removal may fail, which is only reported.
  unfoldable pub stage_and_unzip_app_file : Bytes → FsPath → FsPath → Stages → ℕ × Stages
  stage_and_unzip_app_file app_file project_path slot_path h =
      let source = child project_path app_file in
      let destination = child slot_path app_file in
      let copied = copied_file source destination ∷ h in
      let extracted = unzipped destination slot_path ∷ copied in
      if not (o.copy_file h source destination)
      then (1, copied)
      else if not (o.unzip copied destination slot_path)
      then (1, extracted)
      else (0, removed_file destination ∷ extracted)

-- The name of the archive, for the platform that the build sets.
unfoldable pub app_file_name : Bytes → Bytes → Bytes → Bytes
app_file_name platform app_name version =
    app_name ++ (codes "_app_" ++ (version ++ (b'_' ∷ (platform ++ codes ".zip"))))
