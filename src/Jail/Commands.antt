-- ===== src/Jail/Commands.antt =====
-- The commands of src/jail.cpp on a task that is there: commandRunning, commandGetResult, commandStop,
-- and the order of commandRequest in the child that compiles and runs.
pub mod Stopped
pub mod Whole
use vpl_jail_system.Prelude.{
  ◌==◌, if◌then◌else◌, Bytes, codes, ℕ, Bool, true, false, not, List, [], ◌&&◌, ◌||◌, ◌∷◌,
}
use vpl_jail_system.Prelude.Maps.{bytes_eq, nat_eq, Map}
use vpl_jail_system.Task.{
  execute, ExecutionLimits, Info, Disk, Settings, Outcome, returned, thrown, Store, chain,
  set_runner, set_compiler, set_extra_info, file_exists, set_home,
}
use vpl_jail_system.Task.Tickets.{open_ticket}
use vpl_jail_system.Task.State.{ProcessState, starting, compiling, before_running, Seen, is_running}
use vpl_jail_system.Task.Clean.{clean_task}
use vpl_jail_system.Task.Results.{Result, get_result, set_compilation_output, set_execution_output}

-- How a cleaning of the task ends: whether a process is left, and whether its home and its directory
-- could be removed.
pub record Cleaning : Type 0 where
  pub active : Bool
  pub home_gone : Bool
  pub dir_gone : Bool

unfoldable pub cleaned : Settings → Cleaning → Store → Store
cleaned c k s = clean_task c k.active k.home_gone k.dir_gone s

-- commandRunning, for a ticket that opens the task or throws; any exception says `false`. The pid is
-- getpid. A store of
-- isRunning is one that a timeout may have cleaned.
unfoldable pub ask_running : Settings → Cleaning → Cleaning → Seen → Store → Disk × Bool
ask_running c k1 k2 w s =
    let (t, runs) = is_running (cleaned c k1) w s in
    if runs then (t.disk, true) else ((cleaned c k2 t).disk, false)

unfoldable pub command_running :
    ℕ → Settings → Cleaning → Cleaning → Seen → Info → Bytes → Disk → Disk × Bool
command_running pid c k1 k2 w blank ticket d =
    let (d', o) = open_ticket c pid blank ticket d in
    elim o [
      | thrown e ↦ (d', false)
      | returned m ↦ ask_running c k1 k2 w (record { disk = d'; me = m })
    ]

-- commandStop, in the child that it forks.
unfoldable pub command_stop : ℕ → Settings → Cleaning → Info → Bytes → Disk → Disk
command_stop pid c k blank ticket d =
    let (d', o) = open_ticket c pid blank ticket d in
    elim o [ thrown e ↦ d' | returned m ↦ (cleaned c k (record { disk = d'; me = m })).disk ]

-- commandGetResult: the result, and whether the task is interactive.
unfoldable pub command_get_result :
    ℕ → Settings → Info → Bytes → Disk → Disk × Outcome (Result × Bool)
command_get_result pid c blank ticket d =
    let (d', o) = open_ticket c pid blank ticket d in
    elim o [
      | thrown e ↦ (d', thrown e)
      | returned m ↦
          let (s, r) = get_result c (record { disk = d'; me = m }) in
          elim r [
            | thrown e ↦ (s.disk, thrown e)
            | returned x ↦ (s.disk, returned (x, s.me.info.interactive))
          ]
    ]

abbrev pub vpl_execution : Bytes
vpl_execution = codes "vpl_execution"

abbrev pub vpl_wexecution : Bytes
vpl_wexecution = codes "vpl_wexecution"

abbrev pub vpl_webexecution : Bytes
vpl_webexecution = codes "vpl_webexecution"

-- What the child of commandRequest is given: the limits before and behind the compilation, the
-- request, the clock and its pid, the home that a run of the script leaves and what the script
-- prints, the home behind the deletion of the marked files, and what a run of the program prints.
pub record Job : Type 0 where
  pub configured : ExecutionLimits
  pub asked : ExecutionLimits
  pub interactive : Bool
  pub lang : Bytes
  pub pid : ℕ
  pub compiled_at : ℕ
  pub run_at : ℕ
  pub files : Map Bytes Bytes
  pub compilation : Bytes
  pub kept : Map Bytes Bytes
  pub execution : Bytes

-- An executable of any kind.
unfoldable pub is_compiled : Store → Bool
is_compiled s =
    file_exists vpl_execution s || (file_exists vpl_wexecution s || file_exists vpl_webexecution s)

-- The part behind the compilation. The launcher that is installed is left out.
unfoldable pub run_compiled : Job → Store → Store × Outcome Unit
run_compiled j s = chain (set_extra_info j.asked j.interactive j.lang (set_home j.kept s)) (λ t.
    if not j.interactive && file_exists vpl_execution t
    then chain (set_runner j.run_at j.pid t) (λ u. set_execution_output j.execution true u)
    else (t, returned tt))

-- The child of commandRequest behind saveParseFiles; the wait for a monitor where nothing was compiled
-- is left out.
unfoldable pub run_job : Job → Store → Store × Outcome Unit
run_job j s = chain (set_extra_info j.configured j.interactive j.lang s) (λ a.
    chain (set_compiler j.compiled_at j.pid a) (λ b.
      chain (set_compilation_output j.compilation (set_home j.files b))
        (λ d. if is_compiled d then run_compiled j d else (d, returned tt))))

-- What commandExecute does for a ticket that opens a task.
pub data Executed : Type 0 where
  no_execution_ticket not_ready nothing_to_run vnc_not_installed : Executed
  terminal : Bytes → Executed
  vnc : Bytes → Executed

abbrev pub vpl_launcher : Bytes
vpl_launcher = codes ".vpl_launcher.sh"

-- The loop that waits while the task starts or compiles, on the states that getState answers; behind
-- the last of them the time is over.
unfoldable pub wait_ready : ProcessState → List ProcessState → ProcessState
wait_ready state [] = state
wait_ready starting (next ∷ more) = wait_ready next more
wait_ready compiling (next ∷ more) = wait_ready next more
wait_ready state (next ∷ more) = state

abbrev pub is_before_running : ProcessState → Bool
is_before_running before_running = true
is_before_running _ = false

-- The program that is run: whether a launcher of each kind is installed is an argument.
unfoldable pub program : Bool → Bool → Bool → Store → Executed
program batch_launcher web_launcher vnc_launcher s =
    if file_exists vpl_execution s
    then terminal (if batch_launcher then vpl_launcher else vpl_execution)
    else if file_exists vpl_webexecution s
    then terminal (if web_launcher then vpl_launcher else vpl_webexecution)
    else if file_exists vpl_wexecution s
    then if vnc_launcher then vnc vpl_launcher else vnc_not_installed
    else nothing_to_run

-- commandExecute up to the run, with the clock and the pid.
unfoldable pub command_execute :
    ℕ → ℕ → Bool → Bool → Bool → ProcessState → List ProcessState → Store → Store × Outcome Executed
command_execute now pid a b c first states s =
    if not (s.me.security == execute)
    then (s, returned no_execution_ticket)
    else if not (is_before_running (wait_ready first states))
    then (s, returned not_ready)
    else chain (set_runner now pid s) (λ t. (t, returned (program a b c t)))
