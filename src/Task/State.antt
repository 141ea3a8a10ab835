-- ===== src/Task/State.antt =====
-- getState, isRunning, isMonitored and hasActiveMonitor of class processMonitor of
-- src/processMonitor.cpp.
pub mod Timing
use vpl_jail_system.Prelude.{
  ltb, ◌==◌, if◌then◌else◌, ℕ, Bool, true, false, not, none, some, ◌+◌, ◌-◌, ◌&&◌, ◌||◌,
}
use vpl_jail_system.Prelude.Maps.{bytes_eq, nat_eq}
use vpl_jail_system.Util.Processes.{Processes, process_exists, process_exists_and_running}
use vpl_jail_system.Task.{
  Info, unreadable, Outcome, returned, thrown, Store, set_info, dir_of, config_of, read_info,
  has_monitor_ticket,
}

-- enum processState.
pub data ProcessState : Type 0 where
  prestarting starting compiling before_running running retrieve stopped : ProcessState

-- src/jail_limits.h.
abbrev pub jail_harvest_timeout : ℕ
jail_harvest_timeout = 30

abbrev pub jail_monitorstart_timeout : ℕ
jail_monitorstart_timeout = 10

-- What getState finds out while it runs: the time, which processes exist and run, and whether the files
-- it waits for are there at the end.
pub record Seen : Type 0 where
  pub now : ℕ
  pub processes : Processes
  pub compilation : Bool
  pub execution : Bool
  pub vpl_execution : Bool

-- A state, or a timeout, at which the task is cleaned.
pub data Verdict : Type 0 where
  is : ProcessState → Verdict
  timed_out : Verdict

-- The part of getState where runner_pid is 0.
unfoldable pub not_run : Seen → Info → Verdict
not_run w i =
    if i.monitor_pid == 0
      && (not (has_monitor_ticket i) && ltb jail_monitorstart_timeout (w.now - i.start_time))
    then timed_out
    else if i.interactive
    then is before_running
    else if w.compilation
    then if w.vpl_execution then is compiling else is retrieve
    else is stopped

-- The part where it is not.
unfoldable pub has_run : Seen → Info → Verdict
has_run w i =
    if process_exists_and_running w.processes i.runner_pid
    then is running
    else if i.interactive
    then is stopped
    else if w.execution
    then is retrieve
    else is stopped

-- The decisions of getState on the config of a task that is not being cleaned.
unfoldable pub judge : Seen → Info → Verdict
judge w i =
    if i.compiler_pid == 0
    then is starting
    else if ltb w.now i.start_time || i.start_time == 0
    then is starting
    else if ltb (i.start_time + i.limits.maxtime + jail_harvest_timeout) w.now
    then timed_out
    else if process_exists_and_running w.processes i.compiler_pid && i.runner_pid == 0
    then is compiling
    else if i.monitor_pid == 0
        && (has_monitor_ticket i && ltb jail_monitorstart_timeout (w.now - i.start_time))
    then timed_out
    else if i.runner_pid == 0
    then not_run w i
    else has_run w i

-- getState; the cleaning that a timeout starts is an argument.
unfoldable pub get_state : (Store → Store) → Seen → Store → Store × ProcessState
get_state clean w s = elim (config_of s.me.prisoner s.disk) [
  | none ↦ (s, stopped)
  | some i ↦ if i.cleaning then (set_info i s, stopped) else elim (judge w i) [
    | is x ↦ (set_info i s, x)
    | timed_out ↦ (clean (set_info i s), stopped)
  ]
]

abbrev pub is_stopped : ProcessState → Bool
is_stopped stopped = true
is_stopped _ = false

-- isRunning.
unfoldable pub is_running : (Store → Store) → Seen → Store → Store × Bool
is_running clean w s = let (t, x) = get_state clean w s in (t, not (is_stopped x))

-- What isMonitored says once the config is read.
unfoldable pub monitored_by : (Store → Store) → Seen → Store × Outcome Unit → Store × Outcome Bool
monitored_by clean w (t, thrown e) = (t, thrown e)
monitored_by clean w (t, returned x) =
    if has_monitor_ticket t.me.info
    then (
      t,
      returned
          (not (t.me.info.monitor_pid == 0) && process_exists w.processes t.me.info.monitor_pid),
    )
    else let (u, b) = is_running clean w t in (u, returned b)

-- isMonitored.
unfoldable pub is_monitored : (Store → Store) → Seen → Store → Store × Outcome Bool
is_monitored clean w s = elim (dir_of s.me.prisoner s.disk) [
  | none ↦ (s, returned false)
  | some dir ↦ monitored_by clean w (read_info s)
]

-- hasActiveMonitor, which takes a task that is being cleaned for monitored; `thrown` where the config
-- cannot be read.
unfoldable pub has_active_monitor : Seen → Store → Store × Outcome Bool
has_active_monitor w s = elim (dir_of s.me.prisoner s.disk) [
  | none ↦ (s, returned false)
  | some dir ↦ elim dir.config [
    | none ↦ (s, thrown unreadable)
    | some i ↦ (
      set_info i s,
      returned (
          if i.cleaning
          then true
          else has_monitor_ticket i
            && (not (i.monitor_pid == 0) && process_exists w.processes i.monitor_pid)),
    )
  ]
]
