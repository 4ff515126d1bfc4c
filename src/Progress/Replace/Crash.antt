-- ===== src/Progress/Replace/Crash.antt =====
-- A host that stops while the progress file is replaced finds the old one or the new one
-- (api/progressfile_handler.cpp).
use cpdn_control.Prelude.{◌≡◌, refl, ap, ◌∙◌, inl, inr, Bool, true, false, Option, some, [], ◌∷◌}
use cpdn_control.Text.{Bytes}
use cpdn_control.Progress.Replace.Posix.{Keeps, IsPosix, IsSafe, IsReplaced, IsSafeWriting}
use cpdn_control.Progress.Replace.{
  FileSystem, Writing, passing, ends, give_up, directory_synced, renamed, synced, temp_closed,
  put_all, temp_opened, write,
}

module _ {D : Type 0} (fs : FileSystem D) (HoldsText IsOnDisk : D → Bytes → Type 0)
    (posix : IsPosix fs HoldsText IsOnDisk) (old : Option Bytes) (text : Bytes) where
  abbrev Safe : D → Type 0
  Safe = IsSafe fs old text

  abbrev Good : Writing D → Type 0
  Good = IsSafeWriting fs old text

  kept : (d e : D) → Keeps fs d e → Safe d → Safe e
  kept d e k s = record { now = rw k.same s.now; later = rw k.same_later s.later }

  passing-Good : (d : D) (w : Writing D) → Safe d → Good w → Good (passing fs d w)
  passing-Good d w s g = record { safe = (s, g.safe); replaced = g.replaced }

  ends-Good : (d : D) → Safe d → Good (ends fs false d)
  ends-Good d s = record { safe = (s, tt); replaced = inl refl }

  give_up-Good : (d : D) → Safe d → Good (give_up fs d)
  give_up-Good d s =
      passing-Good d _ s (ends-Good (fs.remove_temp d) (kept d _ (posix.remove_keeps d) s))

  directory_synced-Good :
      (d : D) (ok : Bool)
      → Safe d
      → fs.content d ≡ some text
      → (fs.sync_parent_directory d).0 ≡ ok
      → Good (directory_synced fs (ok, (fs.sync_parent_directory d).1))
  directory_synced-Good d true s new e = record { safe = (safe, tt); replaced = inr there }
    where
      there : IsReplaced fs text (fs.sync_parent_directory d).1
      there = record {
        now = posix.directory_keeps d ∙ new;
        later = posix.directory_stores d e ∙ ap (λ o. o ∷ []) new;
      }

      safe : Safe (fs.sync_parent_directory d).1
      safe = record { now = inr there.now; later = rw there.later (inr refl, tt) }
  directory_synced-Good d false s new e = ends-Good _ (record {
    now = rw (posix.directory_keeps d) s.now;
    later = rw (posix.failed_directory_keeps d e) s.later;
  })

  renamed-Good :
      (d : D) (ok : Bool)
      → Safe d
      → IsOnDisk d text
      → (fs.rename d).0 ≡ ok
      → Good (renamed fs (ok, (fs.rename d).1))
  renamed-Good d false s on_disk e = give_up-Good _ (kept d _ (posix.failed_rename_keeps d e) s)
  renamed-Good d true s on_disk e =
      passing-Good _ _ safe (directory_synced-Good (fs.rename d).1 _ safe new refl)
    where
      new : fs.content (fs.rename d).1 ≡ some text
      new = posix.rename_replaces text d on_disk e

      safe : Safe (fs.rename d).1
      safe = record {
        now = inr new;
        later = rw (posix.rename_later text d on_disk e) (inr refl, s.later);
      }

  synced-Good :
      (d : D) (ok : Bool)
      → Safe d
      → HoldsText d text
      → (fs.sync_temp d).0 ≡ ok
      → Good (synced fs (ok, (fs.sync_temp d).1))
  synced-Good d ok s holds e = go ok e
    where
      safe : Safe (fs.sync_temp d).1
      safe = kept d _ (posix.sync_keeps d) s

      go : (ok : Bool) → (fs.sync_temp d).0 ≡ ok → Good (synced fs (ok, (fs.sync_temp d).1))
      go false e = give_up-Good _ safe
      go true e =
          passing-Good _ _ safe (renamed-Good _ _ safe (posix.sync_stores text d holds e) refl)

  temp_closed-Good :
      (d : D) (ok : Bool)
      → Safe d
      → HoldsText d text
      → (fs.close d).0 ≡ ok
      → Good (temp_closed fs (ok, (fs.close d).1))
  temp_closed-Good d ok s holds e = go ok e
    where
      safe : Safe (fs.close d).1
      safe = kept d _ (posix.close_keeps d) s

      go : (ok : Bool) → (fs.close d).0 ≡ ok → Good (temp_closed fs (ok, (fs.close d).1))
      go false e = give_up-Good _ safe
      go true e =
          passing-Good _ _ safe (synced-Good _ _ safe (posix.close_holds text d holds e) refl)

  temp_opened-Good :
      (d : D) (opened : Bool)
      → Safe d
      → (fs.open_temp d).0 ≡ opened
      → Good (temp_opened fs text (opened, (fs.open_temp d).1))
  temp_opened-Good d false s e = ends-Good _ (kept d _ (posix.open_keeps d) s)
  temp_opened-Good d true s e = passing-Good _ _ open_safe (go _ refl)
    where
      open_safe : Safe (fs.open_temp d).1
      open_safe = kept d _ (posix.open_keeps d) s

      put_safe : Safe (fs.put text (fs.open_temp d).1).1
      put_safe = kept _ _ (posix.put_keeps text (fs.open_temp d).1) open_safe

      go :
          (put : Bool)
          → (fs.put text (fs.open_temp d).1).0 ≡ put
          → Good (put_all fs (put, (fs.put text (fs.open_temp d).1).1))
      go false k =
          passing-Good _ _ put_safe (give_up-Good _ (kept _ _ (posix.close_keeps _) put_safe))
      go true k =
          passing-Good _ _ put_safe
            (temp_closed-Good _ _ put_safe (posix.put_holds text d e k) refl)

-- The progress file is never lost or cut: behind each operation of a writing, whether it succeeds or
-- fails, and after a stop of the host there, the progress file is the old one or the new one,
-- whole. If the writing returns true, it is the new one, and stays so after a stop. The operations
-- behave as in `IsPosix`, and what would be found after a stop at the start is the old file.
pub write-IsSafeWriting :
    {D : Type 0}
    → (fs : FileSystem D) (HoldsText IsOnDisk : D → Bytes → Type 0) → IsPosix fs HoldsText IsOnDisk
    → (text : Bytes) (d : D) → fs.after_crash d ≡ fs.content d ∷ []
    → IsSafeWriting fs (fs.content d) text (write fs text d)
unfolding write
write-IsSafeWriting fs HoldsText IsOnDisk posix text d stable =
    temp_opened-Good fs HoldsText IsOnDisk posix (fs.content d) text d _
      (record { now = inl refl; later = rw stable (inl refl, tt) }) refl
