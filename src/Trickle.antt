-- ===== src/Trickle.antt =====
-- api/trickle_handler.cpp and api/trickle_handler.h. Warnings on stderr are left out.
pub mod Data
pub mod Boundary
pub mod Frequency
use cpdn_control.Prelude.{
  ℕ, zero, suc, ◌+◌, ◌*◌, ◌/◌, Bool, true, false, not, ◌&&◌, ◌||◌, Option, none, some, List, [],
  ◌∷◌, ◌++◌, ◌==◌, ℤ, pos, negsuc, quot, ◌*ℤ◌, ltb_ℤ, leb_ℤ, eqb_ℤ, if◌then◌else◌, take, ltb,
  length,
}
use cpdn_control.Text.{Bytes, codes, equal, is_ascii_digit}
use cpdn_control.Text.Number.{to_string}
use cpdn_control.World.{Outside, M, pure, ◌>>=◌, ◌>>◌, call, emit, sent_trickle, slept}

abbrev pub max_data_len : ℕ
max_data_len = 511

-- isdigit( c ) || c == ',' || c == '-' || c == '.'
unfoldable pub is_kept : ℕ → Bool
is_kept c = is_ascii_digit c || c == b',' || c == b'-' || c == b'.'

-- `raw_data` less a comma at its end.
unfoldable pub drop_last_comma : Bytes → Bytes
drop_last_comma [] = []
drop_last_comma (c ∷ []) = if c == b',' then [] else c ∷ []
drop_last_comma (c ∷ (d ∷ cs)) = c ∷ drop_last_comma (d ∷ cs)

unfoldable pub keep_valid : Bytes → Bytes
keep_valid [] = []
keep_valid (c ∷ cs) = if is_kept c then c ∷ keep_valid cs else keep_valid cs

-- The check of the size limit.
unfoldable pub cut_to : ℕ → Bytes → Bytes
cut_to n s = if ltb n (length s) then take n s else s

-- The file's content, or none where it cannot be opened.
unfoldable pub read_trickle_data_file : Option Bytes → Bytes
read_trickle_data_file none = []
read_trickle_data_file (some raw_data) = cut_to max_data_len (keep_valid (drop_last_comma raw_data))

pub record TrickleHandler : Type 0 where
  pub wu_name : Bytes
  pub result_base_name : Bytes
  pub variety : Bytes

-- ORIG_TRICKLE_FORMAT, with `ph` and `vr` empty.
unfoldable pub orig_trickle : TrickleHandler → ℤ → ℤ → Bytes
orig_trickle t current_step cpu_time =
    codes "<wu>"
    ++ (t.wu_name
        ++ (codes "</wu>\n<result>"
            ++ (t.result_base_name
                ++ (codes "</result>\n<ph></ph>\n<ts>"
                    ++ (to_string current_step
                        ++ (codes "</ts>\n<cp>"
                            ++ (to_string cpu_time ++ codes "</cp>\n<vr></vr>\n")))))))

-- GENERAL_TRICKLE_FORMAT, with `ph` and `vr` empty.
unfoldable pub general_trickle : TrickleHandler → ℤ → ℤ → ℤ → Bytes → Bytes
general_trickle t current_step cpu_time nthreads trickle_data =
    codes "<wu>"
    ++ (t.wu_name
        ++ (codes "</wu>\n<result>"
            ++ (t.result_base_name
                ++ (codes "</result>\n<ph></ph>\n<ts>"
                    ++ (to_string current_step
                        ++ (codes "</ts>\n<cp>"
                            ++ (to_string cpu_time
                                ++ (codes "</cp>\n<ncpus>"
                                    ++ (to_string nthreads
                                        ++ (codes "</ncpus>\n<vr></vr>\n<data>"
                                            ++ (trickle_data ++ codes "</data>\n")))))))))))

-- The message of the handler's variety, if there is one.
unfoldable pub trickle_message : TrickleHandler → ℤ → ℤ → ℤ → Bytes → Option Bytes
trickle_message t current_step cpu_time nthreads trickle_data =
    if equal t.variety (codes "orig")
    then some (orig_trickle t current_step cpu_time)
    else if equal t.variety (codes "general")
    then some (general_trickle t current_step cpu_time nthreads trickle_data)
    else none

-- No message is an unrecognized variety.
unfoldable pub send_message : Outside → Bytes → Option Bytes → M ℤ
send_message o variety none = pure (negsuc 0)
send_message o variety (some trickle_msg) = do
  retval ← call (λ h. o.trickle h variety trickle_msg) (sent_trickle variety trickle_msg)
  emit (slept 10)
  pure retval

-- `data_file` is the content of the file trickle_data. The CPU time is in microseconds.
unfoldable pub process_trickle : Outside → TrickleHandler → Option Bytes → ℕ → ℤ → ℤ → M ℤ
process_trickle o t data_file current_cpu_time current_step nthreads = send_message o t.variety (
    trickle_message t current_step (pos (current_cpu_time / 1000000)) nthreads
      (read_trickle_data_file data_file))

-- The number of the double that is 6 % of the steps, cut to an int, is the quotient: six times an
-- int is a double, and no quotient of it by 100 that is not whole rounds to a whole number. None
-- is a division by zero.
unfoldable pub get_trickle_frequency : ℤ → ℤ → Option ℤ
get_trickle_frequency timestep total_timesteps =
    let freq_min = quot (pos 86400) timestep in
    let trickle_freq = quot (total_timesteps *ℤ pos 6) (pos 100) in
    if eqb_ℤ timestep (pos 0)
    then none
    else some (
        if ltb_ℤ trickle_freq freq_min || leb_ℤ trickle_freq (pos 0)
        then freq_min
        else trickle_freq)

unfoldable pub crossed_trickle_boundary : ℤ → ℤ → ℤ → Bool
crossed_trickle_boundary previous_step observed_step trickle_freq =
    if leb_ℤ trickle_freq (pos 0) || leb_ℤ observed_step previous_step
    then false
    else ltb_ℤ (quot previous_step trickle_freq) (quot observed_step trickle_freq)
