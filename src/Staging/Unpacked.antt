-- ===== src/Staging/Unpacked.antt =====
-- What a staging that succeeds has done with every archive of the manifest (src/cpdn_control.cpp).
use cpdn_control.Prelude.{◌≡◌, ◌⊎◌, true, List, [], ◌∷◌, pos}
use cpdn_control.Staging.Paths.{FsPath, child, filename}
use cpdn_control.Staging.{
  digested, created_directories, copied_file, unzipped, Stages, Files, ModelInputArchive, unzip_dir,
  candidate,
}

module _ (o : Files) where
  -- The client resolves the logical file to a file that is there.
  pub record ResolvesTo (h : Stages) (logical_file source : FsPath) : Type 0 where
    pub listed : o.exists h logical_file ≡ true
    pub resolved : FsPath
    pub answered : o.resolve h logical_file ≡ (pos 0, resolved)
    pub followed : source ≡ candidate o h logical_file resolved
    pub there : o.exists h source ≡ true

  -- The file `source` was copied into `dir`, which was there or was created, and unzipped there,
  -- and nothing else was done but to compute its MD5 sum.
  abbrev pub IsUnpacked : FsPath → FsPath → Stages → Stages → Type 0
  IsUnpacked source dir h h' =
      let copy = child dir (filename source) in
      (h' ≡ unzipped copy dir ∷ copied_file source copy ∷ digested source ∷ h)
      ⊎ (h'
          ≡ unzipped copy dir
            ∷ copied_file source copy
            ∷ created_directories dir
            ∷ digested source
            ∷ h)

  -- The archives of a manifest, each resolved from its own name and unpacked, one after the other.
  pub data IsStaged (slot_path : FsPath) : List ModelInputArchive → Stages → Stages → Type 0 where
    nothing : {h : Stages} → IsStaged slot_path [] h h
    then :
        {archive : ModelInputArchive} {manifest : List ModelInputArchive} {h g h' : Stages}
        (source : FsPath)
        → ResolvesTo h (child slot_path archive.logical_name) source
        → IsUnpacked source (unzip_dir slot_path archive.unzip_relative_dir) h g
        → IsStaged slot_path manifest g h'
        → IsStaged slot_path (archive ∷ manifest) h h'
