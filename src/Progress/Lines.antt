-- ===== src/Progress/Lines.antt =====
-- The lines of the progress file, apart and together (api/progressfile_handler.cpp).
use cpdn_control.Prelude.{
  ◌≡◌, ◌≢◌, refl, ap, ◌∙◌, true, false, some, List, [], ◌∷◌, ◌++◌, All, All-append, arith, ℤ,
}
use cpdn_control.World.{TaskState}
use cpdn_control.Text.{Bytes, codes, contains, is_ascii_digit, equal}
use cpdn_control.Text.Number.{to_string}
use cpdn_control.Text.KeyValue.{Without}
use cpdn_control.Progress.{
  put_lines, progress_lines, get_lines, Field, control_pid, prior_acc_cpu_time, upload_file_number,
  last_completed_step, last_upload_step, model_completed, field_of,
}
use cpdn_control.Progress.Values.{
  IsPlain, to_string-IsPlain, to_string_double-IsPlain, is_word, IsWord-Without, IsPlain-Without,
}

abbrev pub NoNewline : Bytes → Type 0
NoNewline = Without b'\n'

get_line-append :
    (line s : Bytes) → NoNewline line → get_lines (line ++ b'\n' ∷ s) ≡ line ∷ get_lines s
unfolding get_lines
get_line-append [] s h = refl
get_line-append (c ∷ line) s h = rw (h.0, get_line-append line s h.1)

pub get_lines-put_lines : (ls : List Bytes) → All NoNewline ls → get_lines (put_lines ls) ≡ ls
unfolding get_lines put_lines
get_lines-put_lines [] h = refl
get_lines-put_lines (l ∷ ls) h =
    get_line-append l (put_lines ls) h.0 ∙ ap (λ r. l ∷ r) (get_lines-put_lines ls h.1)

-- The keys of the file, by their fields.
abbrev pub key_of : Field → Bytes
key_of control_pid = codes "control_pid"
key_of prior_acc_cpu_time = codes "prior_acc_cpu_time"
key_of upload_file_number = codes "upload_file_number"
key_of last_completed_step = codes "last_completed_step"
key_of last_upload_step = codes "last_upload_step"
key_of model_completed = codes "model_completed"

pub key_of-ne-nil : (f : Field) → key_of f ≢ []
key_of-ne-nil control_pid = λ e. cc
key_of-ne-nil prior_acc_cpu_time = λ e. cc
key_of-ne-nil upload_file_number = λ e. cc
key_of-ne-nil last_completed_step = λ e. cc
key_of-ne-nil last_upload_step = λ e. cc
key_of-ne-nil model_completed = λ e. cc

pub key_of-is_word : (f : Field) → is_word (key_of f) ≡ true
key_of-is_word control_pid = refl
key_of-is_word prior_acc_cpu_time = refl
key_of-is_word upload_file_number = refl
key_of-is_word last_completed_step = refl
key_of-is_word last_upload_step = refl
key_of-is_word model_completed = refl

pub field_of-key_of : (f : Field) → field_of (key_of f) ≡ some f
unfolding field_of equal
field_of-key_of control_pid = refl
field_of-key_of prior_acc_cpu_time = refl
field_of-key_of upload_file_number = refl
field_of-key_of last_completed_step = refl
field_of-key_of last_upload_step = refl
field_of-key_of model_completed = refl

abbrev pub entry : Field → Bytes → Bytes
entry f value = key_of f ++ b'=' ∷ value

NoNewline-contains : (s : Bytes) → contains b'\n' s ≡ false → NoNewline s
unfolding contains
NoNewline-contains [] h = tt
NoNewline-contains (c ∷ s) h = (ground arith, NoNewline-contains s (ground arith))

NoNewline-entry : (f : Field) (value : Bytes) → IsPlain value → NoNewline (entry f value)
unfolding is_ascii_digit
NoNewline-entry f value p =
    All-append _ (key_of f) (b'=' ∷ value) (IsWord-Without b'\n' (key_of f) refl (key_of-is_word f))
      (refl, IsPlain-Without b'\n' value refl p)

NoNewline-int : (f : Field) (z : ℤ) → NoNewline (entry f (to_string z))
NoNewline-int f z = NoNewline-entry f (to_string z) (to_string-IsPlain z)

pub progress_lines-NoNewline :
    (pid : ℤ) (written : TaskState) → All NoNewline (progress_lines pid written)
unfolding progress_lines contains
progress_lines-NoNewline pid written = (
  NoNewline-contains (codes "! CPDN controller progress file & fortran namelist") refl,
  (
    NoNewline-contains (codes "&CPDN") refl,
    (
      NoNewline-int control_pid pid,
      (
        NoNewline-entry prior_acc_cpu_time _ (to_string_double-IsPlain written.current_cpu_time),
        (
          NoNewline-int upload_file_number written.upload_file_number,
          (
            NoNewline-int last_completed_step written.last_completed_step,
            (
              NoNewline-int last_upload_step written.last_upload_step,
              (
                NoNewline-int model_completed written.model_completed,
                (NoNewline-contains (codes "/") refl, tt),
              ),
            ),
          ),
        ),
      ),
    ),
  ),
)
