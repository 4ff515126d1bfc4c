-- ===== src/Launch/Labels.antt =====
-- `is_valid_filename_label` and `process_args` (src/parse_args.cpp).
use cpdn_control.Prelude.{
  ◌≤◌, ◌≡◌, true, false, ◌||◌, refl, some, [], ◌∷◌, ◌==◌, All, length, arith,
}
use cpdn_control.Text.{Bytes, codes, is_empty, equal, is_ascii_digit}
use cpdn_control.Launch.{
  is_alnum, is_label_char, has_two_points, all_label_chars, is_valid_filename_label, TaskArgs,
  process_args,
}

-- One component of a path that stays in its directory: no separator of either kind, no end of a C
-- string, and not the directory itself or the one above it.
pub record IsComponent (s : Bytes) : Type 0 where
  pub ne_nil : is_empty s ≡ false
  pub short : length s ≤ 32
  pub no_separator : All (λ c. (c == b'/' || c == b'\\' || c == 0) ≡ false) s
  pub not_here : equal s (codes ".") ≡ false
  pub not_above : equal s (codes "..") ≡ false

all_label_chars-All :
    (s : Bytes)
    → all_label_chars s ≡ true
    → All (λ c. (c == b'/' || c == b'\\' || c == 0) ≡ false) s
unfolding all_label_chars is_label_char is_alnum is_ascii_digit
all_label_chars-All [] h = tt
all_label_chars-All (c ∷ s) h = (ground arith, all_label_chars-All s (ground arith))

two_points : has_two_points (codes "..") ≡ true
unfolding has_two_points
two_points = refl

valid-not_above : (s : Bytes) → has_two_points s ≡ false → equal s (codes "..") ≡ false
unfolding equal has_two_points
valid-not_above [] h = refl
valid-not_above (c ∷ []) h = ground arith
valid-not_above (c ∷ (d ∷ [])) h = ground arith
valid-not_above (c ∷ (d ∷ (e ∷ s))) h = ground arith

valid-IsComponent : (s : Bytes) → is_valid_filename_label s ≡ true → IsComponent s
unfolding is_valid_filename_label
valid-IsComponent s h = record {
  ne_nil = ground arith;
  short = ground arith;
  no_separator = all_label_chars-All s (ground arith);
  not_here = ground arith;
  not_above = valid-not_above s (ground arith);
}

accepted :
    (a config : TaskArgs)
    → process_args a ≡ some config
    → (config ≡ a) × (is_valid_filename_label a.filename_label ≡ true)
unfolding process_args
accepted a config h = (ground arith, ground arith)

-- The command line is accepted only with a label that is one component of a path in its directory,
-- and then the configuration is what was given.
pub process_args-IsComponent :
    (a config : TaskArgs)
    → process_args a ≡ some config
    → IsComponent config.filename_label × (config ≡ a)
process_args-IsComponent a config h =
    let (kept, valid) = accepted a config h in
    (rw kept (valid-IsComponent a.filename_label valid), kept)
