-- ===== src/Tests/Daemons.antt =====
-- Runs of the daemon of src/vpl-jail-server.h at concrete inputs.
use vpl_jail_system.Prelude.{
  Bytes, codes, All, refl, inl, true, false, Option, none, some, List, [], arith, ◌≡◌, ◌∷◌, ◌++◌,
}
use vpl_jail_system.Prelude.Maps.{bytes_eq, nat_eq, lookup, insert, erase, lookup_or}
use vpl_jail_system.Daemon.{
  success, internal_error, Daemon, clean_old, is_banned, logged, count_request, process_child_end,
  exited, harvest_one, harvest, forked, fork_failed, add_child, client, launch, nobody, ready,
  launch_all, accept, periodic_tasks, Round, close_sockets, daemon_of, upkeep, loop,
}
use vpl_jail_system.Daemon.Counts.{LogsAreCounts, IsCounting, IsCounting-loop}
use vpl_jail_system.Daemon.History.{
  Event, request, clean, after, forget, recent, misbehaves, is_banned-recent,
}
use vpl_jail_system.Daemon.FailedForks.{ForkFails, HasFailedFork-failed_round}
use vpl_jail_system.Daemon.Forks.{HasFailedFork, IsOfProcess}
use vpl_jail_system.Daemon.Checks.{
  Stat, check_path, check_if_there, check_jail, IsSecure, needed, IsSecureFile, IsSecure-check_jail,
}

abbrev idle : Daemon
idle = record {
  fail2ban = 1;
  n_sockets = 1;
  requests = 0;
  errors = 0;
  rejected = 0;
  logs = [];
  children = [];
  next_clear = 0;
  next_check = 0;
}

abbrev home : Bytes
home = codes "10.0.0.7"

-- A client, for which a process is forked; the child of the periodic tasks is 8.
abbrev one_client : Round
one_client = record {
  finish = false;
  now = 1000;
  polled = ready (some (client home (forked 7)) ∷ []);
  waits = [];
  periodic = forked 8;
}

-- Its process ends with an error.
abbrev one_end : Round
one_end = record {
  finish = false;
  now = 1001;
  polled = nobody;
  waits = exited 7 internal_error ∷ [];
  periodic = forked 9;
}

abbrev last_round : Round
last_round = record one_end { finish = true }

abbrev rounds : List Round
rounds = one_client ∷ one_end ∷ last_round ∷ []

idle-IsCounting : IsCounting idle
unfolding LogsAreCounts lookup
idle-IsCounting = record { by_address = λ ip l e. absurd cc; overall = omega arith }

IsCounting-loop_example : IsCounting (daemon_of (loop rounds idle))
IsCounting-loop_example = IsCounting-loop rounds idle idle-IsCounting

-- The error is counted.
test_errors : (daemon_of (loop rounds idle)).errors ≡ 1
unfolding loop accept launch_all launch is_banned clean_old lookup add_child insert upkeep harvest
    harvest_one process_child_end count_request lookup_or logged erase periodic_tasks close_sockets
test_errors = refl

abbrev failures_of_home : List Event
failures_of_home = clean 0 ∷ request home internal_error ∷ request home success ∷ []

is_banned-recent_example :
    (is_banned 10 home (after failures_of_home idle)).1
    ≡ misbehaves 1
        (forget 10
          (recent home failures_of_home (record { statuses = []; forget_at = 0 }))).statuses
is_banned-recent_example = is_banned-recent home 10 failures_of_home idle refl

abbrev failing_round : Round
failing_round = record one_end {
  polled = ready (none ∷ some (client home fork_failed) ∷ []);
  waits = [];
}

HasFailedFork-failed_round_example :
    HasFailedFork (daemon_of (loop (failing_round ∷ one_end ∷ []) idle))
unfolding ForkFails IsOfProcess launch_all is_banned clean_old lookup
HasFailedFork-failed_round_example =
    HasFailedFork-failed_round failing_round (one_end ∷ []) idle
      (refl, inl (none ∷ [], home, [], refl, refl)) (tt, ((omega arith, tt), tt))

-- A fork that fails for a client leaves that child.
test_failed_fork : HasFailedFork (launch 1000 (client home fork_failed) idle)
unfolding HasFailedFork launch is_banned clean_old lookup add_child insert
test_failed_fork = (record { ip = home; start = 1000 }, refl)

abbrev of_root : Bytes → Option Stat
of_root path = some (record { st_uid = 0; st_gid = 0; st_mode = 0o600 })

IsSecure-check_jail_example :
    All (λ f. IsSecureFile of_root (codes "/jail" ++ f)) needed
    × ((info : Stat) → of_root (codes "/jail/etc/shadow") ≡ some info → IsSecure info)
unfolding check_jail check_path check_if_there
IsSecure-check_jail_example = IsSecure-check_jail of_root (codes "/jail") (λ e. cc) refl
