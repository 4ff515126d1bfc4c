-- ===== src/Oifs/Tail.antt =====
-- `fread_last_line` of lib/utils.cpp, which reads what a log has got since the last call.
pub mod Whole
use cpdn_control.Prelude.{
  ℕ, ◌+◌, ◌≡◌, refl, sym, ap, ◌∙◌, Bool, true, false, Option, none, some, List, [], ◌∷◌, ◌++◌, ltb,
  length, drop, if◌then◌else◌, ◌==◌, Bool-cases, inl, inr, arith,
}
use cpdn_control.Text.{Bytes}
use cpdn_control.Progress.{get_lines}

-- The static variables.
pub record TailState : Type 0 where
  pub last_offset : ℕ
  pub last_line : Bytes

abbrev pub fresh_tail : TailState
fresh_tail = record { last_offset = 0; last_line = [] }

-- The loop over the lines: the last one, and whether there was one.
unfoldable pub last_of : List Bytes → Bytes → Bool → Bytes × Bool
last_of [] last_line new_line_read = (last_line, new_line_read)
last_of (line ∷ lines) last_line new_line_read = last_of lines line true

abbrev pub truncated : Bytes → TailState → TailState
truncated content st = if ltb (length content) st.last_offset then fresh_tail else st

abbrev read_tail : Bytes → TailState → (Bool × Bytes) × TailState
read_tail content st =
    let (line, read) = last_of (get_lines (drop st.last_offset content)) st.last_line false in
    ((read, line), record { last_offset = length content; last_line = line })

-- `content` is none where the file cannot be opened. The loop ends at the end of the file, where the
-- offset is set to the file's size.
unfoldable pub fread_last_line : Option Bytes → TailState → (Bool × Bytes) × TailState
unfolding last_of
fread_last_line none st = ((false, []), fresh_tail)
fread_last_line (some content) st = read_tail content (truncated content st)
