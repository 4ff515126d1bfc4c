-- ===== src/Staging/Verified.antt =====
-- What a history of the staging tells of the files that were copied and unzipped.
use cpdn_control.Prelude.{◌≡◌, some, [], ◌∷◌, ◌++◌}
use cpdn_control.Text.{Bytes}
use cpdn_control.Staging.Paths.{FsPath}
use cpdn_control.Staging.{
  digested, created_directories, copied_file, unzipped, Stages, Files, lowercase_copy,
  extract_expected_md5,
}

-- The MD5 sum of a file, when it was computed, is the one that the file's name tells.
pub record HasDigest (o : Files) (h : Stages) (p : FsPath) : Type 0 where
  pub expected : Bytes
  pub named : extract_expected_md5 p ≡ some expected
  pub actual : Bytes
  pub computed : o.md5_file h p ≡ some actual
  pub same : lowercase_copy actual ≡ expected

-- Its sum was computed before, and was right.
pub record WasVerified (o : Files) (h : Stages) (p : FsPath) : Type 0 where
  pub newer : Stages
  pub older : Stages
  pub split : h ≡ newer ++ digested p ∷ older
  pub digest : HasDigest o older p

-- Every file copied was verified before, and what is unzipped is what was just copied.
pub data Trusted (o : Files) : Stages → Type 0 where
  clean : Trusted o []
  digest : {p : FsPath} {h : Stages} → Trusted o h → Trusted o (digested p ∷ h)
  directory : {d : FsPath} {h : Stages} → Trusted o h → Trusted o (created_directories d ∷ h)
  copy :
      {p a : FsPath} {h : Stages}
      → WasVerified o h p
      → Trusted o h
      → Trusted o (copied_file p a ∷ h)
  unzip :
      {p a d : FsPath} {h : Stages}
      → Trusted o (copied_file p a ∷ h)
      → Trusted o (unzipped a d ∷ copied_file p a ∷ h)
