-- ===== src/Progress/Replace.antt =====
-- `write` of api/progressfile_handler.cpp: a temporary file is written, forced to the disk, renamed to
-- the progress file, and the directory is forced to the disk. The file system is a parameter, as
-- the operations that `write` calls and what may be found of the progress file after the host stops.
pub mod Posix
pub mod Crash
use cpdn_control.Prelude.{◌≡◌, Bool, true, false, Option, some, List, [], ◌∷◌}
use cpdn_control.Text.{Bytes}

-- Each operation tells whether it succeeded.
pub record FileSystem (D : Type 0) : Type 1 where
  -- what the progress file holds, if it is there
  pub content : D → Option Bytes
  -- what it may hold after the host stops and starts again
  pub after_crash : D → List (Option Bytes)
  pub open_temp : D → Bool × D
  -- the operators << up to std::endl, which flushes
  pub put : Bytes → D → Bool × D
  pub close : D → Bool × D
  -- sync_file_to_disk
  pub sync_temp : D → Bool × D
  -- fs::rename of the temporary file to the progress file
  pub rename : D → Bool × D
  pub sync_parent_directory : D → Bool × D
  pub remove_temp : D → D

-- The states behind the operations, in their order; the last one is that at the return.
pub record Writing (D : Type 0) : Type 0 where
  pub ok : Bool
  pub passed : List D
  pub final : D

module _ {D : Type 0} (fs : FileSystem D) where
  abbrev pub passing : D → Writing D → Writing D
  passing d w = record w { passed = d ∷ w.passed }

  abbrev pub ends : Bool → D → Writing D
  ends ok d = record { ok = ok; passed = d ∷ []; final = d }

  -- The temporary file is removed, and false is returned.
  abbrev pub give_up : D → Writing D
  give_up d = passing d (ends false (fs.remove_temp d))

  abbrev pub directory_synced : Bool × D → Writing D
  directory_synced (ok, d) = ends ok d

  abbrev pub renamed : Bool × D → Writing D
  renamed (false, d) = give_up d
  renamed (true, d) = passing d (directory_synced (fs.sync_parent_directory d))

  abbrev pub synced : Bool × D → Writing D
  synced (false, d) = give_up d
  synced (true, d) = passing d (renamed (fs.rename d))

  abbrev pub temp_closed : Bool × D → Writing D
  temp_closed (false, d) = give_up d
  temp_closed (true, d) = passing d (synced (fs.sync_temp d))

  abbrev pub put_all : Bool × D → Writing D
  put_all (false, d) = passing d (give_up (fs.close d).1)
  put_all (true, d) = passing d (temp_closed (fs.close d))

  abbrev pub temp_opened : Bytes → Bool × D → Writing D
  temp_opened text (false, d) = ends false d
  temp_opened text (true, d) = passing d (put_all (fs.put text d))

  -- `text` is the content for the task, `progress_content`.
  unfoldable pub write : Bytes → D → Writing D
  write text d = temp_opened text (fs.open_temp d)
