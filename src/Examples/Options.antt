-- ===== src/Examples/Options.antt =====
-- The theorems on the command line, at small inputs.
use cpdn_control.Prelude.{◌≡◌, refl, some, pos}
use cpdn_control.Text.{codes, is_empty, equal, is_ascii_digit}
use cpdn_control.Launch.{
  is_alnum, is_label_char, has_two_points, all_label_chars, is_valid_filename_label, TaskArgs,
  process_args,
}
use cpdn_control.Launch.Labels.{IsComponent, process_args-IsComponent}

abbrev some_args : TaskArgs
some_args = record {
  filename_label = codes "wrf_eu.25";
  memberid = codes "a00b";
  batch = codes "d972";
  workunit = codes "12034567";
  upload_interval = pos 30;
}

some_args_taken : process_args some_args ≡ some some_args
unfolding process_args is_valid_filename_label is_empty equal has_two_points all_label_chars
    is_label_char is_alnum is_ascii_digit
some_args_taken = refl

process_args-IsComponent_example : IsComponent some_args.filename_label × (some_args ≡ some_args)
process_args-IsComponent_example = process_args-IsComponent some_args some_args some_args_taken
