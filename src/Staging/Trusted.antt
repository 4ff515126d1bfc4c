-- ===== src/Staging/Trusted.antt =====
-- Only archives whose MD5 sum was right are copied and unzipped (src/cpdn_control.cpp).
use cpdn_control.Prelude.{
  ◌≡◌, refl, ap, inl, inr, Bool, true, false, Option, none, some, List, [], ◌∷◌, Bool-cases, arith,
}
use cpdn_control.Text.{Bytes}
use cpdn_control.Text.Equal.{equal_sound}
use cpdn_control.Staging.Paths.{FsPath, child, filename}
use cpdn_control.Staging.Verified.{WasVerified, Trusted, clean, digest, directory, copy, unzip}
use cpdn_control.Staging.{
  StageEvent, digested, created_directories, copied_file, Stages, Files, ModelInputArchive,
  StageStep, staged, lowercase_copy, extract_expected_md5, same_digest, compare_md5,
  verify_project_zip_md5, ensure_directory, copy_and_unzip, unzip_dir, stage_model_input_archive,
  stage_verified, stage_resolved, stage_boinc_input_file, go_on, stage_model_input_manifest,
}

module _ (o : Files) where
  -- What a step leaves.
  abbrev Leaves : StageStep × Stages → Type 0
  Leaves r = Trusted o r.1

  copy_and_unzip-Trusted :
      (source dir : FsPath) (ready : Bool) (g : Stages)
      → WasVerified o g source
      → Trusted o g
      → Leaves (copy_and_unzip o source dir (ready, g))
  unfolding copy_and_unzip
  copy_and_unzip-Trusted source dir false g v t = t
  copy_and_unzip-Trusted source dir true g v t =
      elim (Bool-cases (o.copy_file g source destination)) [
        | inr missing ↦ rw missing copied
        | inl here ↦
            elim (Bool-cases (o.unzip (copied_file source destination ∷ g) destination dir)) [
              | inr broken ↦ rw (here, broken) (unzip copied)
              | inl done ↦ rw (here, done) (unzip copied)
            ]
      ]
    where
      destination : FsPath
      destination = child dir (filename source)

      copied : Trusted o (copied_file source destination ∷ g)
      copied = copy v t

  later : (h : Stages) (p : FsPath) (e : StageEvent) → WasVerified o h p → WasVerified o (e ∷ h) p
  later h p e v = record {
    newer = e ∷ v.newer;
    older = v.older;
    split = ap (λ h. e ∷ h) v.split;
    digest = v.digest;
  }

  archive-Trusted :
      (h : Stages) (source slot_path relative_dir : FsPath)
      → WasVerified o h source
      → Trusted o h
      → Leaves (stage_model_input_archive o h source slot_path relative_dir)
  unfolding ensure_directory stage_model_input_archive
  archive-Trusted h source slot_path relative_dir v t = elim (Bool-cases (o.exists h dir)) [
    | inl here ↦ rw here (copy_and_unzip-Trusted source dir _ h v t)
    | inr missing ↦ rw missing (
        copy_and_unzip-Trusted source dir _ (created_directories dir ∷ h) (later h source _ v)
          (directory t))
  ]
    where
      dir : FsPath
      dir = unzip_dir slot_path relative_dir

  stage_verified-Trusted :
      (source slot_path relative_dir : FsPath) (verified : Bool × Stages)
      → (verified.0 ≡ true → WasVerified o verified.1 source)
      → Trusted o verified.1
      → Leaves (stage_verified o source slot_path relative_dir verified)
  stage_verified-Trusted source slot_path relative_dir (false, g) v t = t
  stage_verified-Trusted source slot_path relative_dir (true, g) v t =
      archive-Trusted g source slot_path relative_dir (v refl) t

  has_digest :
      (h : Stages) (p : FsPath) (expected : Bytes) (actual : Option Bytes)
      → extract_expected_md5 p ≡ some expected
      → o.md5_file h p ≡ actual
      → same_digest o expected actual ≡ true
      → WasVerified o (digested p ∷ h) p
  has_digest h p expected none named computed same = absurd (ground (arith, same))
  has_digest h p expected (some actual) named computed same = record {
    newer = [];
    older = h;
    split = refl;
    digest = record {
      expected = expected;
      named = named;
      actual = actual;
      computed = computed;
      same = equal_sound (lowercase_copy actual) expected same;
    };
  }

  compare_md5-Trusted :
      (h : Stages) (source slot_path relative_dir : FsPath) (expected : Option Bytes)
      → extract_expected_md5 source ≡ expected
      → Trusted o h
      → Leaves (stage_verified o source slot_path relative_dir (compare_md5 o h source expected))
  compare_md5-Trusted h source slot_path relative_dir none named t = t
  compare_md5-Trusted h source slot_path relative_dir (some expected) named t =
      stage_verified-Trusted source slot_path relative_dir _
        (has_digest h source expected (o.md5_file h source) named refl) (digest t)

  stage_resolved-Trusted :
      (h : Stages) (slot_path relative_dir : FsPath) (found : Option FsPath)
      → Trusted o h
      → Leaves (stage_resolved o slot_path relative_dir h found)
  unfolding verify_project_zip_md5
  stage_resolved-Trusted h slot_path relative_dir none t = t
  stage_resolved-Trusted h slot_path relative_dir (some source) t =
      compare_md5-Trusted h source slot_path relative_dir (extract_expected_md5 source) refl t

  go_on-Trusted :
      (next : Stages → StageStep × Stages)
      → ((g : Stages) → Trusted o g → Leaves (next g))
      → (r : StageStep × Stages) → Leaves r
      → Leaves (go_on o next r)
  go_on-Trusted next f (staged, g) t = f g t
  go_on-Trusted next f (_, g) t = t

  manifest-Trusted :
      (manifest : List ModelInputArchive) (slot_path : FsPath) (h : Stages)
      → Trusted o h
      → Leaves (stage_model_input_manifest o manifest slot_path h)
  unfolding stage_model_input_manifest stage_boinc_input_file
  manifest-Trusted [] slot_path h t = t
  manifest-Trusted (archive ∷ manifest) slot_path h t =
      go_on-Trusted (stage_model_input_manifest o manifest slot_path)
        (manifest-Trusted manifest slot_path) _
        (stage_resolved-Trusted h slot_path archive.unzip_relative_dir _ t)

  -- However the staging of a manifest ends, every file that was copied had its MD5 sum computed before,
  -- and it was the one that the file's name tells; and whatever was unzipped is what was copied right
  -- before. This holds whatever the client, the file system and the unzip answer.
  pub stage_model_input_manifest-Trusted :
      (manifest : List ModelInputArchive) (slot_path : FsPath)
      → Trusted o (stage_model_input_manifest o manifest slot_path []).1
  stage_model_input_manifest-Trusted manifest slot_path =
      manifest-Trusted manifest slot_path [] clean
