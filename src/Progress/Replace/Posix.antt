-- ===== src/Progress/Replace/Posix.antt =====
-- The documented behaviour of the file system calls of `write` (api/progressfile_handler.cpp), and what
-- it promises of the progress file.
use cpdn_control.Prelude.{◌≡◌, ◌⊎◌, true, false, Option, some, [], ◌∷◌, All}
use cpdn_control.Text.{Bytes}
use cpdn_control.Progress.Replace.{FileSystem, Writing}

-- Neither the progress file nor what is found of it after a stop is touched.
pub record Keeps {D : Type 0} (fs : FileSystem D) (d e : D) : Type 0 where
  pub same : fs.content e ≡ fs.content d
  pub same_later : fs.after_crash e ≡ fs.after_crash d

-- The documented behaviour of the operations. Those on the temporary file leave the progress file alone.
-- `HoldsText d s` is that the temporary file holds the text s, `IsOnDisk d s` that it does so on the
-- disk. A rename replaces the file in one step, and may be found done or not
-- after a stop, until the directory is forced to the disk.
pub record IsPosix {D : Type 0} (fs : FileSystem D) (HoldsText IsOnDisk : D → Bytes → Type 0)
    : Type 0 where
  pub open_keeps : (d : D) → Keeps fs d (fs.open_temp d).1
  pub put_keeps : (s : Bytes) (d : D) → Keeps fs d (fs.put s d).1
  pub close_keeps : (d : D) → Keeps fs d (fs.close d).1
  pub sync_keeps : (d : D) → Keeps fs d (fs.sync_temp d).1
  pub remove_keeps : (d : D) → Keeps fs d (fs.remove_temp d)
  pub failed_rename_keeps : (d : D) → (fs.rename d).0 ≡ false → Keeps fs d (fs.rename d).1
  pub put_holds :
      (s : Bytes) (d : D)
      → (fs.open_temp d).0 ≡ true
      → (fs.put s (fs.open_temp d).1).0 ≡ true
      → HoldsText (fs.put s (fs.open_temp d).1).1 s
  pub close_holds :
      (s : Bytes) (d : D) → HoldsText d s → (fs.close d).0 ≡ true → HoldsText (fs.close d).1 s
  pub sync_stores :
      (s : Bytes) (d : D)
      → HoldsText d s
      → (fs.sync_temp d).0 ≡ true
      → IsOnDisk (fs.sync_temp d).1 s
  pub rename_replaces :
      (s : Bytes) (d : D)
      → IsOnDisk d s
      → (fs.rename d).0 ≡ true
      → fs.content (fs.rename d).1 ≡ some s
  pub rename_later :
      (s : Bytes) (d : D)
      → IsOnDisk d s
      → (fs.rename d).0 ≡ true
      → fs.after_crash (fs.rename d).1 ≡ some s ∷ fs.after_crash d
  pub directory_keeps : (d : D) → fs.content (fs.sync_parent_directory d).1 ≡ fs.content d
  pub directory_stores :
      (d : D)
      → (fs.sync_parent_directory d).0 ≡ true
      → fs.after_crash (fs.sync_parent_directory d).1 ≡ fs.content d ∷ []
  pub failed_directory_keeps :
      (d : D)
      → (fs.sync_parent_directory d).0 ≡ false
      → fs.after_crash (fs.sync_parent_directory d).1 ≡ fs.after_crash d

-- The old file or the new one, whole.
abbrev pub IsOldOrNew : Option Bytes → Bytes → Option Bytes → Type 0
IsOldOrNew old text o = (o ≡ old) ⊎ (o ≡ some text)

-- So it is now, and so it will be found after a stop.
pub record IsSafe {D : Type 0} (fs : FileSystem D) (old : Option Bytes) (text : Bytes) (d : D)
    : Type 0 where
  pub now : IsOldOrNew old text (fs.content d)
  pub later : All (IsOldOrNew old text) (fs.after_crash d)

-- The new file is there, and nothing else will be found after a stop.
pub record IsReplaced {D : Type 0} (fs : FileSystem D) (text : Bytes) (d : D) : Type 0 where
  pub now : fs.content d ≡ some text
  pub later : fs.after_crash d ≡ some text ∷ []

pub record IsSafeWriting {D : Type 0} (fs : FileSystem D) (old : Option Bytes) (text : Bytes)
    (w : Writing D) : Type 0 where
  pub safe : All (IsSafe fs old text) w.passed
  pub replaced : (w.ok ≡ false) ⊎ IsReplaced fs text w.final
