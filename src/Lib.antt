-- ===== src/Lib.antt =====
-- Verification of the CPDN controller.
--
-- The controller is a BOINC task: it starts a weather model as a child process, follows its steps,
-- packs its output files into archives and hands these to the BOINC client as uploads, sends
-- trickles of its progress, keeps a progress file for a restart, and obeys the client, which may
-- suspend the task, ask it to quit, or abort it. The parts and the files that model them:
--   World        the state: `TaskState` and the BOINC status of src/cpdn_control.h, the child's handle
--                of lib/process_control.h, and the history of calls to the outside
--   Child        lib/process_control_posix.cpp, and of src/cpdn_control.cpp the waits, the suspension
--                and the supervision of the child
--   Upload       src/upload_manager.cpp, with the file operations of src/cpdn_control.cpp
--   Trickle      api/trickle_handler.cpp
--   Progress     api/progressfile_handler.cpp
--   Start        src/control_start.cpp
--   Launch       src/parse_args.cpp behind the parse, and the thread count of src/cpdn_main.cpp
--   Staging      the staging of the archives of src/cpdn_control.cpp
--   Exit         the exits of src/cpdn_main.cpp
--   Controller   the main loop of src/cpdn_main.cpp and the steps behind it
--   Calendar     models/wrf/wrf_datetime.cpp
--   Wrf          models/wrf/wrf_control.cpp: domains, output files, progress from the log, the restart
--                scan, the pruning, the namelist and its rewriting, setup
--   Oifs         models/openifs/oifs_control.cpp and oifs_utils.cpp, and the reading of a log's end
--   Text         the text helpers of lib/utils.cpp; Text.Entries says which entry of a namelist counts
--   Prelude      integers, lists and tests that these share
--   Examples     the theorems at concrete inputs
-- A definition has the name of the function that it models. A part of a function that is a
-- definition of its own, such as a loop or its round, says so in its comment.
--
-- Operations that change the state are actions `M A = World → Option (A × World)`. The BOINC client,
-- the kernel, the file system, the clock, the zip library and the model are outside: each call is an
-- event of the history, and its answer is a function (`Outside`) of the history before it. So an
-- answer may be any and may change from call to call, and no theorem supposes that a call succeeds
-- unless it says so. `IsClock` is the documented behaviour of a steady clock and of a sleep,
-- `IsReachable` that of kill() for a process of one's own, `IsPatient` that of a client that does not
-- leave a task suspended for ever, `IsPosix` that of fsync() and rename().
--
-- `none` is a loop whose fuel has run out while it was waiting. A wait takes its time in
-- milliseconds, a round of it takes one or more of them, so a fuel above the milliseconds is enough,
-- 30000 for the longest; the wait of a suspension takes one round for each poll. The loop over the
-- days of a date has the days as fuel, the digits of a number the number. The rounds of the main loop
-- are a bound of its own, since only the model ends it.
--
-- An `int` is an integer with no bound, except where parse_int reads one: steps, counts and codes of a
-- run are far from 2^31, and the additions made of them are not checked for overflow. CPU times
-- are microseconds, which is what the progress file keeps. Messages on stderr are left out, and so are
-- the fraction done and its report to the client. boinc_finish() is an event, behind which the
-- program returns as it does with the library's stand-in.
--
-- Not modelled: the set-up before the main loop, the start of the child process and its environment,
-- the parse of the command line, the printing of logs, and the links and the diagnostics program
-- of the OpenIFS control; and, being no part of its logic, Windows code, logging, tests, and the
-- vendored libraries, whose calls are parameters.
mod Prelude
pub mod Calendar
pub mod Text
pub mod World
pub mod Child
pub mod Upload
pub mod Trickle
pub mod Progress
pub mod Start
pub mod Launch
pub mod Staging
pub mod Wrf
pub mod Oifs
pub mod Exit
pub mod Controller
pub mod Examples
