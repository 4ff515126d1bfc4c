-- ===== src/Wrf/Restart/Flag.antt =====
-- What setup() leaves of the namelist (models/wrf/wrf_control.cpp).
use cpdn_control.Prelude.{
  ℕ, ◌+◌, ◌≡◌, refl, sym, ap, ◌∙◌, inl, inr, Bool, true, false, ◌||◌, Option, none, some, List, [],
  ◌∷◌, ◌++◌, append-nil, append_assoc, ℤ, take, if◌then◌else◌, Bool-cases, arith,
}
use cpdn_control.Text.{
  Bytes, codes, equal, after_first, split_at, cut_at, trim_whitespace, ltrim, rtrim, is_empty,
  is_trimmed_char, starts_with,
}
use cpdn_control.Calendar.{DateTime}
use cpdn_control.Wrf.Namelist.{Field}
use cpdn_control.Wrf.Prune.Order.{any}
use cpdn_control.Wrf.Restart.{
  replace_first, is_found, Rewriting, push, keep_original, push_changed, rewrite_field,
  rewrite_flag, rewrite_key, note_at, insert_behind, rewrite_line, and_then, rewrite_lines,
  flag_line, insert_flag, start_rewriting,
}
use cpdn_control.Wrf.Restart.Lines.{mentions_true, is_restart_key, key_of, mentions_true-replace}

-- The local variables after some lines: a flag that was found is true in the lines kept, and where
-- nothing was changed they are the lines read.
record Follows (done : List Bytes) (r : Rewriting) : Type 0 where
  flagged : r.restart_key_found ≡ true → any mentions_true r.lines ≡ true
  same : r.file_changed ≡ false → r.lines ≡ done

any_last :
    (p : Bytes → Bool) (ls : List Bytes) (l : Bytes) → any p (ls ++ l ∷ []) ≡ (any p ls || p l)
any_last p [] l = ground arith
any_last p (x ∷ ls) l = ground (arith, any_last p ls l)

-- The line is kept as it is.
push-Follows :
    (done : List Bytes) (line : Bytes) (r : Rewriting)
    → Follows done r
    → Follows (done ++ line ∷ []) (push line r)
push-Follows done line r f = record {
  flagged = λ h. any_last mentions_true r.lines line ∙ ground (arith, f.flagged h);
  same = λ h. ap (λ ls. ls ++ line ∷ []) (f.same h);
}

-- Another line takes its place.
changed-Follows :
    (done : List Bytes) (line updated : Bytes) (r : Rewriting)
    → Follows done r
    → Follows (done ++ line ∷ []) (push updated (record r { file_changed = true }))
changed-Follows done line updated r f = record {
  flagged = λ h. any_last mentions_true r.lines updated ∙ ground (arith, f.flagged h);
  same = λ h. absurd (ground (arith, h));
}

keep_original-Follows :
    (done : List Bytes) (field : Field) (value : Option ℤ) (r : Rewriting)
    → Follows done r
    → Follows done (keep_original field value r)
keep_original-Follows done field none r f = f
keep_original-Follows done field (some z) r f = record { flagged = f.flagged; same = f.same }

push_changed-Follows :
    (done : List Bytes) (line rewritten : Bytes) (r : Rewriting)
    → Follows done r
    → Follows (done ++ line ∷ []) (push_changed line rewritten r)
push_changed-Follows done line rewritten r f = elim (Bool-cases (equal rewritten line)) [
  | inl equals ↦ rw equals (push-Follows done line r f)
  | inr differs ↦ rw differs (changed-Follows done line rewritten r f)
]

rewrite_field-Follows :
    (max_domains : ℤ) (date : DateTime) (done : List Bytes) (line : Bytes) (o : Option Field)
    (r : Rewriting)
    → Follows done r
    → Follows (done ++ line ∷ []) (rewrite_field max_domains date line o r)
rewrite_field-Follows max_domains date done line none r f = push-Follows done line r f
rewrite_field-Follows max_domains date done line (some field) r f =
    push_changed-Follows done line _ _ (keep_original-Follows done field _ r f)

note-Follows :
    (done : List Bytes) (line : Bytes) (r : Rewriting) (index : Option ℕ)
    → Follows done r
    → Follows done (note_at line r index)
note-Follows done line r (some index) f = f
note-Follows done line r none f =
    elim (Bool-cases (equal (trim_whitespace line) (codes "&time_control"))) [
      | inl here ↦ rw here (record { flagged = f.flagged; same = f.same })
      | inr other ↦ rw other f
    ]

FollowsAll : List Bytes → Option Rewriting → Type 0
FollowsAll done none = Unit
FollowsAll done (some r) = Follows done r

flag_found-Follows :
    (done : List Bytes) (line kept : Bytes) (r changed : Rewriting)
    → mentions_true kept ≡ true
    → changed.lines ≡ r.lines ++ kept ∷ []
    → (changed.file_changed ≡ false → r.lines ++ kept ∷ [] ≡ done ++ line ∷ [])
    → Follows (done ++ line ∷ []) changed
flag_found-Follows done line kept r changed h e k = record {
  flagged =
      λ found. ap (any mentions_true) e ∙ any_last mentions_true r.lines kept ∙ ground (arith, h);
  same = λ u. e ∙ k u;
}

rewrite_flag-Follows :
    (done : List Bytes) (line : Bytes) (o : Option Bytes) (r : Rewriting)
    → is_restart_key (key_of (split_at b'=' (cut_at b'!' line))) ≡ true
    → replace_first (codes ".false.") (codes ".true.") line ≡ o
    → Follows done r
    → FollowsAll (done ++ line ∷ []) (rewrite_flag line o r)
unfolding FollowsAll
rewrite_flag-Follows done line (some updated) r h e f =
    flag_found-Follows done line updated r _ (mentions_true-replace line updated h e) refl
      (λ u. absurd (ground (arith, u)))
rewrite_flag-Follows done line none r h e f =
    elim (Bool-cases (is_found (after_first (codes ".true.") line))) [
      | inl set ↦ rw set (
          flag_found-Follows done line line r _ (ground (arith, h, set)) refl
            (λ u. ap (λ ls. ls ++ line ∷ []) (f.same u)))
      | inr unset ↦ rw unset tt
    ]

rewrite_key-Follows :
    (max_domains : ℤ) (date : DateTime) (done : List Bytes) (line : Bytes)
    (o : Option (Bytes × Bytes)) (r : Rewriting)
    → split_at b'=' (cut_at b'!' line) ≡ o
    → Follows done r
    → FollowsAll (done ++ line ∷ []) (rewrite_key max_domains date line o r)
unfolding FollowsAll
rewrite_key-Follows max_domains date done line none r e f = push-Follows done line r f
rewrite_key-Follows max_domains date done line (some (key, value)) r e f =
    elim (Bool-cases (equal (trim_whitespace key) (codes "restart"))) [
      | inl flag ↦
          rw flag (
            rewrite_flag-Follows done line _ r (ap (λ o. is_restart_key (key_of o)) e ∙ flag) refl
              f)
      | inr other ↦ rw other (rewrite_field-Follows max_domains date done line _ r f)
    ]

rewrite_line-Follows :
    (max_domains : ℤ) (date : DateTime) (done : List Bytes) (line : Bytes) (r : Rewriting)
    → Follows done r
    → FollowsAll (done ++ line ∷ []) (rewrite_line max_domains date line r)
unfolding rewrite_line
rewrite_line-Follows max_domains date done line r f =
    rewrite_key-Follows max_domains date done line _ _ refl (note-Follows done line r _ f)

and_then-Follows :
    (done all : List Bytes) (next : Rewriting → Option Rewriting)
    → ((r : Rewriting) → Follows done r → FollowsAll all (next r))
    → (o : Option Rewriting) → FollowsAll done o
    → FollowsAll all (and_then next o)
unfolding FollowsAll
and_then-Follows done all next h none f = tt
and_then-Follows done all next h (some r) f = h r f

rewrite_lines-Follows :
    (max_domains : ℤ) (date : DateTime) (done lines : List Bytes) (r : Rewriting)
    → Follows done r
    → FollowsAll (done ++ lines) (rewrite_lines max_domains date lines r)
unfolding FollowsAll rewrite_lines
rewrite_lines-Follows max_domains date done [] r f = rw (append-nil done) f
rewrite_lines-Follows max_domains date done (line ∷ lines) r f =
    and_then-Follows (done ++ line ∷ []) (done ++ line ∷ lines)
      (rewrite_lines max_domains date lines)
      (λ r f.
        rw (sym (append_assoc done (line ∷ []) lines))
          (rewrite_lines-Follows max_domains date (done ++ line ∷ []) lines r f))
      (rewrite_line max_domains date line r) (rewrite_line-Follows max_domains date done line r f)

any_middle :
    (p : Bytes → Bool) (before after : List Bytes) (l : Bytes)
    → p l ≡ true
    → any p (before ++ l ∷ after) ≡ true
any_middle p [] after l h = ground (arith, h)
any_middle p (x ∷ before) after l h = ground (arith, any_middle p before after l h)

flag_line-mentions_true : mentions_true flag_line ≡ true
unfolding split_at cut_at equal after_first trim_whitespace ltrim rtrim is_empty is_trimmed_char
    starts_with
flag_line-mentions_true = refl

-- The lines that are written, or that stay when nothing was changed, set the flag.
pub record IsFlagged (before : List Bytes) (r : Rewriting) : Type 0 where
  pub flag : any mentions_true r.lines ≡ true
  pub same : r.file_changed ≡ false → r.lines ≡ before

abbrev pub FlaggedAll : List Bytes → Option Rewriting → Type 0
FlaggedAll before none = Unit
FlaggedAll before (some r) = IsFlagged before r

insert_behind-IsFlagged :
    (before : List Bytes) (r : Rewriting) (index : Option ℕ)
    → FlaggedAll before (insert_behind r index)
insert_behind-IsFlagged before r none = tt
insert_behind-IsFlagged before r (some index) = record {
  flag = any_middle mentions_true (take (index + 1) r.lines) _ flag_line flag_line-mentions_true;
  same = λ h. absurd (ground (arith, h));
}

insert_flag-IsFlagged :
    (before : List Bytes) (o : Option Rewriting)
    → FollowsAll before o
    → FlaggedAll before (and_then insert_flag o)
unfolding FollowsAll insert_flag
insert_flag-IsFlagged before none f = tt
insert_flag-IsFlagged before (some r) f = by_found r.restart_key_found refl
  where
    by_found :
        (found : Bool)
        → r.restart_key_found ≡ found
        → FlaggedAll before (if found then some r else insert_behind r r.time_control_line_index)
    by_found true h = record { flag = f.flagged h; same = f.same }
    by_found false h = insert_behind-IsFlagged before r r.time_control_line_index

-- Whatever the lines of the namelist are, they set the flag after the rewriting.
pub rewritten-IsFlagged :
    (max_domains : ℤ) (date : DateTime) (namelist : List Bytes)
    → FlaggedAll namelist
        (and_then insert_flag (rewrite_lines max_domains date namelist start_rewriting))
rewritten-IsFlagged max_domains date namelist = insert_flag-IsFlagged namelist _ (
    rewrite_lines-Follows max_domains date [] namelist start_rewriting
      (record { flagged = λ h. absurd (ground (arith, h)); same = λ h. refl }))
