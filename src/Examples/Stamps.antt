-- ===== src/Examples/Stamps.antt =====
-- The theorems on WRF's time stamps and restart sets, at small inputs.
use cpdn_control.Prelude.{◌≡◌, refl, some, true, false, List, ◌∷◌, [], arith}
use cpdn_control.Text.{Bytes, codes}
use cpdn_control.Calendar.{DateTime}
use cpdn_control.Wrf.{RestartSet, parse_wrf_timestamp}
use cpdn_control.Wrf.Stamps.{HasRoom, stamp, parse_wrf_timestamp-stamp}

abbrev pub new_year : DateTime
new_year = record { year = 2024; month = 1; day = 1; hour = 0; minute = 30; second = 0 }

abbrev pub eve : DateTime
eve = record { year = 2023; month = 12; day = 31; hour = 23; minute = 59; second = 59 }

new_year-HasRoom : HasRoom new_year
new_year-HasRoom = record {
  year = omega arith;
  month = omega arith;
  day = omega arith;
  hour = omega arith;
  minute = omega arith;
  second = omega arith;
}

eve-HasRoom : HasRoom eve
eve-HasRoom = record {
  year = omega arith;
  month = omega arith;
  day = omega arith;
  hour = omega arith;
  minute = omega arith;
  second = omega arith;
}

stamp_test : stamp eve ≡ codes "2023-12-31_23:59:59"
stamp_test = refl

parse_wrf_timestamp-stamp_example : parse_wrf_timestamp (codes "2023-12-31_23:59:59") ≡ some eve
parse_wrf_timestamp-stamp_example = parse_wrf_timestamp-stamp eve eve-HasRoom

abbrev prefixes : List Bytes
prefixes = codes "wrfrst_d01_" ∷ codes "wrfrst_d02_" ∷ []

abbrev restart_file : Bytes
restart_file = codes "wrfrst_d02_2023-12-31_23:59:59"

abbrev some_set : DateTime → RestartSet
some_set d = record { datetime = stamp d; domains_present = true ∷ true ∷ [] }

abbrev found_sets : List RestartSet
found_sets =
    record { datetime = stamp new_year; domains_present = true ∷ false ∷ [] } ∷ some_set eve ∷ []
