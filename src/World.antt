-- ===== src/World.antt =====
-- The controller's mutable state and the outside that it acts on. `TaskState`, `BoincConfig` and
-- `BoincRuntime` of src/cpdn_control.h and `ChildProcessHandle` of lib/process_control.h are the
-- state. The BOINC client, the kernel, the file system and the zip library are outside: each call of
-- theirs is an event of the history, and its answer is a function of the history before it, so that
-- an answer may be any, and may change from call to call.
pub mod Leaves
pub mod Total
use cpdn_control.Prelude.{
  ℕ, ◌+◌, ◌≤◌, ◌≢◌, Bool, true, false, ◌||◌, Option, none, some, List, [], ◌∷◌, ℤ, pos,
}
use cpdn_control.Text.{Bytes}

-- BOINC_STATUS, as far as the controller reads it.
pub record BoincStatus : Type 0 where
  pub suspended : Bool
  pub quit_request : Bool
  pub abort_request : Bool
  pub no_heartbeat : Bool

-- quit_request || abort_request || no_heartbeat
abbrev pub stop_requested : BoincStatus → Bool
stop_requested s = s.quit_request || s.abort_request || s.no_heartbeat

pub record ChildProcessHandle : Type 0 where
  pub process_id : ℕ
  pub native_process_handle : ℕ
  pub native_job_handle : ℕ
  pub suspended : Bool
  pub termination_requested : Bool

-- CPU times are counted in microseconds, which is what the progress file keeps of them.
-- `fraction_done`, a report to the client that nothing else reads, is left out.
pub record TaskState : Type 0 where
  pub prior_acc_cpu_time : ℕ
  pub upload_file_number : ℤ
  pub last_completed_step : ℤ
  pub last_upload_step : ℤ
  pub model_completed : ℤ
  pub model_success : Bool
  pub current_step : ℤ
  pub last_trickle_step : ℤ
  pub child_process : ChildProcessHandle
  pub child_status : ℕ
  pub exit_code : ℤ
  pub current_cpu_time : ℕ
  pub restart_cpu_time : ℕ

pub data Signal : Type 0 where
  sigstop sigcont sigkill : Signal

-- kill(): 0, or -1 with errno ESRCH, or -1 with another errno.
pub data KillOutcome : Type 0 where
  delivered no_such_process refused : KillOutcome

-- waitpid(): 0, -1, or the child's status as its macros tell it.
pub data WaitOutcome : Type 0 where
  no_change wait_error : WaitOutcome
  exited : ℤ → WaitOutcome
  signaled stopped continued other_status : WaitOutcome

-- The two directories whose files the controller moves and packs.
pub data Place : Type 0 where
  slot upload_dir : Place

pub record FilePath : Type 0 where
  pub place : Place
  pub name : Bytes

-- An entry of a directory: `unreadable` is one whose type could not be read, with the error code.
pub data DirEntry : Type 0 where
  regular_file : Bytes → DirEntry
  not_a_file : DirEntry
  unreadable : ℤ → DirEntry

pub data Event : Type 0 where
  began_critical_section ended_critical_section : Event
  polled_status read_clock : Event
  slept : ℕ → Event
  sent_signal : ℕ → Signal → Event
  waited : ℕ → Event
  checked : FilePath → Event
  copied : FilePath → FilePath → Event
  removed : FilePath → Event
  listed_upload_dir removed_upload_dir : Event
  wrote_placeholder : Bytes → Bytes → Event
  zipped : Bytes → List FilePath → Event
  submitted : Bytes → Event
  sent_trickle : Bytes → Bytes → Event
  -- the model's own calls
  read_trickle_data asked_model_step asked_model_success finalized_model : Event
  did_step_tasks : ℤ → Event
  read_cpu_time : ℕ → Event
  -- the progress file, written from this state
  wrote_progress : TaskState → Event
  finished : ℤ → Event

-- The latest event stands first.
abbrev pub History : Type 0
History = List Event

pub record Outside : Type 0 where
  pub status : History → BoincStatus
  -- steady_clock::now() in milliseconds
  pub clock : History → ℕ
  pub kill : History → ℕ → Signal → KillOutcome
  pub waitpid : History → ℕ → WaitOutcome
  pub exists : History → FilePath → Bool
  -- boinc_copy()
  pub copy : History → FilePath → FilePath → ℤ
  -- the entries, or none where the iterator cannot be made
  pub upload_entries : History → Option (List DirEntry)
  pub write_placeholder : History → Bytes → Bytes → Bool
  -- cpdn_zip()
  pub zip : History → Bytes → List FilePath → Bool
  -- boinc_upload_file()
  pub upload : History → Bytes → ℤ
  -- boinc_send_trickle_up()
  pub trickle : History → Bytes → Bytes → ℤ
  pub remove_upload_dir : History → Bool
  -- cpdn_cpu_time(), in microseconds
  pub cpu_time : History → ℕ → ℕ
  -- ProgressFileHandler::write()
  pub write_progress : History → TaskState → Bool
  -- the file trickle_data
  pub trickle_data : History → Option Bytes
  -- ModelControl::get_current_step(): from the value of its output argument before the call, the
  -- result and the value after it
  pub model_step : History → ℤ → Bool × ℤ
  -- ModelControl::check_model_success()
  pub model_success : History → Bool

pub record World : Type 0 where
  pub client_status : BoincStatus
  pub task : TaskState
  pub history : History

-- `none` is a loop that is still waiting for the client when its fuel runs out.
abbrev pub M : Type 0 → Type 0
M A = World → Option (A × World)

abbrev pub pure : {A : Type 0} → A → M A
pure a w = some (a, w)

infixl 5 ◌>>=◌ ◌>>◌
unfoldable pub ◌>>=◌ : {A B : Type 0} → M A → (A → M B) → M B
◌>>=◌ m f w = elim (m w) [ none ↦ none | some (a, w') ↦ f a w' ]

abbrev pub ◌>>◌ : {A B : Type 0} → M A → M B → M B
m >> k = m >>= λ _. k

unfoldable pub get_task : M TaskState
get_task w = some (w.task, w)

unfoldable pub put_task : TaskState → M (Unit {0})
put_task t w = some (tt, record w { task = t })

unfoldable pub get_status : M BoincStatus
get_status w = some (w.client_status, w)

unfoldable pub put_child : ChildProcessHandle → M (Unit {0})
put_child c w = some (tt, record w { task = record w.task { child_process = c } })

-- An event whose answer nothing waits for.
unfoldable pub emit : Event → M (Unit {0})
emit e w = some (tt, record w { history = e ∷ w.history })

-- A call to the outside: its answer, and the event.
unfoldable pub call : {A : Type 0} → (History → A) → Event → M A
call answer e w = some (answer w.history, record w { history = e ∷ w.history })

-- boinc_get_status( &runtime.client_status )
unfoldable pub boinc_get_status : Outside → M (Unit {0})
boinc_get_status o w =
    some (tt, record w { client_status = o.status w.history; history = polled_status ∷ w.history })

-- The action ended.
abbrev pub Ends : {A : Type 0} → Option (A × World) → Type 0
Ends none = ⊥
Ends (some r) = Unit

-- The clock never goes back, and a sleep takes the time that it is asked for, or longer.
pub record IsClock (o : Outside) : Type 0 where
  pub forward : (h : History) (e : Event) → o.clock h ≤ o.clock (e ∷ h)
  pub sleeps : (h : History) (n : ℕ) → o.clock h + n ≤ o.clock (slept n ∷ h)

-- Every signal to the process is delivered, or the process is gone.
pub record IsReachable (o : Outside) (pid : ℕ) : Type 0 where
  pub not_zero : 1 ≤ pid
  pub not_refused : (h : History) (s : Signal) → o.kill h pid s ≢ refused
