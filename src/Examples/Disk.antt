-- ===== src/Examples/Disk.antt =====
-- The replacement of the progress file on a disk in memory.
use cpdn_control.Prelude.{◌≡◌, refl, ap, true, false, Option, some, List, [], ◌∷◌, arith}
use cpdn_control.Text.{Bytes, codes}
use cpdn_control.Progress.Replace.{FileSystem, write}
use cpdn_control.Progress.Replace.Posix.{IsPosix, IsSafeWriting}
use cpdn_control.Progress.Replace.Crash.{write-IsSafeWriting}

-- The progress file, what it may be after a stop, and the temporary file.
record Disk : Type 0 where
  file : Option Bytes
  later : List (Option Bytes)
  temp : Bytes

abbrev disk : FileSystem Disk
disk = record {
  content = λ d. d.file;
  after_crash = λ d. d.later;
  open_temp = λ d. (true, record d { temp = [] });
  put = λ s d. (true, record d { temp = s });
  close = λ d. (true, d);
  sync_temp = λ d. (true, d);
  rename = λ d. (true, record d { file = some d.temp; later = some d.temp ∷ d.later });
  sync_parent_directory = λ d. (true, record d { later = d.file ∷ [] });
  remove_temp = λ d. record d { temp = [] };
}

abbrev HasTemp : Disk → Bytes → Type 0
HasTemp d s = d.temp ≡ s

never : true ≡ false → ⊥
never h = ground (arith, h)

disk-IsPosix : IsPosix disk HasTemp HasTemp
disk-IsPosix = record {
  open_keeps = λ d. record { same = refl; same_later = refl };
  put_keeps = λ s d. record { same = refl; same_later = refl };
  close_keeps = λ d. record { same = refl; same_later = refl };
  sync_keeps = λ d. record { same = refl; same_later = refl };
  remove_keeps = λ d. record { same = refl; same_later = refl };
  failed_rename_keeps = λ d h. absurd (never h);
  put_holds = λ s d h k. refl;
  close_holds = λ s d h k. h;
  sync_stores = λ s d h k. h;
  rename_replaces = λ s d h k. ap (λ t. some t) h;
  rename_later = λ s d h k. ap (λ t. some t ∷ d.later) h;
  directory_keeps = λ d. refl;
  directory_stores = λ d h. refl;
  failed_directory_keeps = λ d h. absurd (never h);
}

abbrev start : Disk
start = record { file = some (codes "old"); later = some (codes "old") ∷ []; temp = [] }

write-IsSafeWriting_example :
    IsSafeWriting disk (some (codes "old")) (codes "new") (write disk (codes "new") start)
write-IsSafeWriting_example =
    write-IsSafeWriting disk HasTemp HasTemp disk-IsPosix (codes "new") start refl
