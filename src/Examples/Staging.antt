-- ===== src/Examples/Staging.antt =====
-- The staging of the WRF's two archives.
use cpdn_control.Prelude.{true, false, some, [], ◌∷◌, pos}
use cpdn_control.Text.{codes}
use cpdn_control.Staging.Paths.{FsPath}
use cpdn_control.Staging.{Stages, StageStep, Files, stage_model_input_manifest}
use cpdn_control.Staging.Verified.{Trusted}
use cpdn_control.Staging.Trusted.{stage_model_input_manifest-Trusted}
use cpdn_control.Wrf.Model.{get_input_manifest}

abbrev slot : FsPath
slot = record { rooted = true; names = codes "slots" ∷ codes "1" ∷ [] }

-- A project directory where every logical file stands for one whose sum is right.
abbrev files : Files
files = record {
  exists = λ h p. true;
  is_directory = λ h p. true;
  create_directories = λ h p. true;
  is_symlink = λ h p. false;
  read_symlink = λ h p. p;
  resolve = λ h p. (
    pos 0,
    record {
      rooted = true;
      names = codes "project" ∷ codes "jf_0123456789abcdef0123456789ABCDEF" ∷ [];
    },
  );
  md5_file = λ h p. some (codes "0123456789abcdef0123456789abcdef");
  copy_file = λ h p q. true;
  unzip = λ h p q. true;
}

stage_model_input_manifest-Trusted_example :
    Trusted files (stage_model_input_manifest files (get_input_manifest (codes "w1")) slot []).1
stage_model_input_manifest-Trusted_example =
    stage_model_input_manifest-Trusted files (get_input_manifest (codes "w1")) slot

abbrev after_staging : StageStep × Stages
after_staging = stage_model_input_manifest files (get_input_manifest (codes "w1")) slot []
