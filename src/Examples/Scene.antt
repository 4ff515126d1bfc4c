-- ===== src/Examples/Scene.antt =====
-- A client, files and a model for the examples: no call fails, and the client asks for nothing.
use cpdn_control.Prelude.{ℕ, ◌+◌, ◌≤◌, refl, true, false, Option, none, some, [], ◌∷◌, pos, arith}
use cpdn_control.Text.{codes}
use cpdn_control.World.{
  BoincStatus, ChildProcessHandle, TaskState, delivered, no_change, regular_file, not_a_file, slept,
  Event, History, Outside, World, IsClock,
}
use cpdn_control.Upload.{UploadManager}
use cpdn_control.Upload.Ends.{IsPatient}
use cpdn_control.Controller.{Setup}

abbrev pub calm : BoincStatus
calm = record {
  suspended = false;
  quit_request = false;
  abort_request = false;
  no_heartbeat = false;
}

-- The time is what was slept.
abbrev pub time_slept : History → ℕ
time_slept [] = 0
time_slept (slept n ∷ h) = time_slept h + n
time_slept (_ ∷ h) = time_slept h

abbrev pub smooth : Outside
smooth = record {
  status = λ h. calm;
  clock = time_slept;
  kill = λ h pid s. delivered;
  waitpid = λ h pid. no_change;
  exists = λ h f. true;
  copy = λ h from to. pos 0;
  upload_entries = λ h. some (regular_file (codes "wrfout_1") ∷ not_a_file ∷ []);
  write_placeholder = λ h name content. true;
  zip = λ h archive fs. true;
  upload = λ h name. pos 0;
  trickle = λ h variety message. pos 0;
  remove_upload_dir = λ h. true;
  cpu_time = λ h pid. 5000000;
  write_progress = λ h t. true;
  trickle_data = λ h. none;
  model_step = λ h step. (false, step);
  model_success = λ h. true;
}

smooth-forward : (h : History) (e : Event) → time_slept h ≤ time_slept (e ∷ h)
smooth-forward h (slept n) = omega arith
smooth-forward h _ = omega arith

pub smooth-IsClock : IsClock smooth
smooth-IsClock = record { forward = smooth-forward; sleeps = λ h n. omega arith }

pub smooth-IsPatient : IsPatient smooth 0
smooth-IsPatient = record {
  answers = λ w. (0, omega arith, refl);
  resumes = λ w. (0, omega arith, refl);
}

-- Four uploads of ten steps each.
abbrev pub manager : UploadManager
manager = record {
  model = record {
    get_copyable_output_filenames = λ step. codes "wrfout_1" ∷ [];
    is_output_filename = λ name. true;
    get_log_filenames = codes "rsl.out" ∷ [];
  };
  standalone = false;
  result_base_name = codes "wrf_1";
  total_steps = pos 40;
  upload_interval = pos 10;
}

abbrev pub child : ChildProcessHandle
child = record {
  process_id = 7;
  native_process_handle = 0;
  native_job_handle = 0;
  suspended = false;
  termination_requested = false;
}

-- A task whose model has ended at its last step, with two uploads sent.
abbrev pub ended_task : TaskState
ended_task = record {
  prior_acc_cpu_time = 0;
  upload_file_number = pos 2;
  last_completed_step = pos 40;
  last_upload_step = pos 20;
  model_completed = pos 0;
  model_success = false;
  current_step = pos 40;
  last_trickle_step = pos 20;
  child_process = child;
  child_status = 1;
  exit_code = pos 0;
  current_cpu_time = 0;
  restart_cpu_time = 0;
}

abbrev pub scene : World
scene = record { client_status = calm; task = ended_task; history = [] }

abbrev pub setup : Setup
setup = record {
  manager = manager;
  trickler = record {
    wu_name = codes "wu";
    result_base_name = codes "wrf_1";
    variety = codes "general";
  };
  trickle_freq = pos 2;
  ncpus = pos 1;
  restart_interval_steps = pos 10;
}

-- The world and the answer that an action ends with.
abbrev pub world_of : {A : Type 0} → Option (A × World) → World
world_of none = scene
world_of (some (a, w)) = w

abbrev pub answer_of : {A : Type 0} → A → Option (A × World) → A
answer_of d none = d
answer_of d (some (a, w)) = a
