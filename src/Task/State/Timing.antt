-- ===== src/Task/State/Timing.antt =====
-- When getState of src/processMonitor.cpp reports a task as running, and when it gives the task up.
use vpl_jail_system.Prelude.{refl, true, false, some, arith, ◌+◌, ◌-◌, ◌≤◌, ◌<◌, ◌≡◌, ◌≢◌, ◌↔◌, ◌⊎◌}
use vpl_jail_system.Prelude.Maps.{bytes_eq, nat_eq}
use vpl_jail_system.Util.Processes.{process_exists_and_running}
use vpl_jail_system.Task.{Info, Store, set_info, config_of, has_monitor_ticket}
use vpl_jail_system.Task.State.{
  running, stopped, Seen, Verdict, is, timed_out, not_run, has_run, judge, get_state,
}

-- The time that a task is given: it has started, not in the future, and not longer ago than its limit
-- and the 30 seconds of the harvest.
pub record IsInTime (w : Seen) (i : Info) : Type 0 where
  pub compiled : i.compiler_pid ≢ 0
  pub started : i.start_time ≢ 0
  pub past : i.start_time ≤ w.now
  pub limit : w.now ≤ i.start_time + i.limits.maxtime + 30

-- A monitor has signed up, none is to come, or the ten seconds for one are not over.
unfoldable pub IsAttended : Seen → Info → Type 0
IsAttended w i = (i.monitor_pid ≢ 0) ⊎ (has_monitor_ticket i ≡ false) ⊎ (w.now - i.start_time ≤ 10)

-- The runner has signed up and runs, within the time and with a monitor where one is due.
pub record IsRunning (w : Seen) (i : Info) : Type 0 where
  pub in_time : IsInTime w i
  pub attended : IsAttended w i
  pub registered : i.runner_pid ≢ 0
  pub alive : process_exists_and_running w.processes i.runner_pid ≡ true

judge-running : (w : Seen) (i : Info) → judge w i ≡ is running → IsRunning w i
unfolding judge IsAttended has_run not_run
judge-running w i h = record {
  in_time = record {
    compiled = ground arith;
    started = ground arith;
    past = ground arith;
    limit = ground arith;
  };
  attended = ground arith;
  registered = ground arith;
  alive = ground arith;
}

running-judge : (w : Seen) (i : Info) → IsRunning w i → judge w i ≡ is running
unfolding judge IsAttended has_run
running-judge w i h = ground (
  arith, h.in_time.compiled, h.in_time.started, h.in_time.past, h.in_time.limit, h.attended,
  h.registered, h.alive,
)

-- getState says `running` of a task that is not being cleaned exactly where its compiler and its runner
-- have signed up, the runner's process exists and is no zombie, the start of the task is neither missing
-- nor in the future, its time limit and 30 seconds more are not over, and a monitor is there or none is
-- due: one has signed up, the task has no ticket for one, or ten seconds have not passed.
pub get_state-running_iff :
    (clean : Store → Store) (w : Seen) (s : Store) (i : Info)
    → config_of s.me.prisoner s.disk ≡ some i
    → i.cleaning ≡ false
    → ((get_state clean w s).1 ≡ running) ↔ IsRunning w i
unfolding get_state
get_state-running_iff clean w s i e c = (
  λ h. judge-running w i (by_verdict (judge w i) refl h),
  λ h. let q = running-judge w i h in ground arith,
)
  where
    by_verdict :
        (v : Verdict) → judge w i ≡ v → (get_state clean w s).1 ≡ running → judge w i ≡ is running
    by_verdict timed_out q h = absurd (ground arith)
    by_verdict (is x) q h = ground arith

-- A task whose compiler has signed up is given up once its time limit and 30 seconds more have passed
-- since its start, whatever its processes do: getState cleans it and says `stopped`.
pub get_state-overdue :
    (clean : Store → Store) (w : Seen) (s : Store) (i : Info)
    → config_of s.me.prisoner s.disk ≡ some i
    → i.cleaning ≡ false
    → i.compiler_pid ≢ 0
    → i.start_time ≢ 0
    → i.start_time + i.limits.maxtime + 30 < w.now
    → get_state clean w s ≡ (clean (set_info i s), stopped)
unfolding get_state judge
get_state-overdue clean w s i e c nz st late = ground arith
