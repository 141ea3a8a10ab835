-- ===== src/Tests/Tasks.antt =====
-- Tasks of src/processMonitor.cpp at concrete inputs.
use vpl_jail_system.Task.{
  admin, execute, Ticket, ExecutionLimits, Info, Dir, Disk, Monitor, Settings, ticket_not_found,
  Outcome, returned, thrown, Store, set_info, dir_of, put_dir, config_of, read_info, write_info,
  chain, monitorize, is_some,
}
use vpl_jail_system.Prelude.{
  Bytes, codes, ℕ, refl, inl, inr, true, false, none, some, [], ◌*◌, ◌≡◌, ◌≢◌, ◌↔◌, ◌∷◌,
}
use vpl_jail_system.Prelude.Maps.{bytes_eq, nat_eq, lookup, insert, erase}
use vpl_jail_system.Util.Processes.{Processes}
use vpl_jail_system.Util.Sizes.{decimal_loop, decimal}
use vpl_jail_system.Util.Trim.{trim_front, trim_back, is_quoted, trim_and_remove_quotes}
use vpl_jail_system.Task.{
  admin, execute, Ticket, ExecutionLimits, Info, Dir, Disk, Monitor, Settings, ticket_not_found,
  Outcome, returned, thrown, Store, set_info, dir_of, put_dir, config_of, read_info, write_info,
  chain, monitorize, is_some,
}
use vpl_jail_system.Task.Tickets.{
  is_ticket, prisoner_refusal, is_one_time, enter, object_of, open_ticket,
}
use vpl_jail_system.Task.Tickets.OneTime.{open_ticket-twice}
use vpl_jail_system.Task.State.{running, Seen, get_state}
use vpl_jail_system.Task.State.Timing.{IsRunning, get_state-running_iff}
use vpl_jail_system.Task.Clean.{clean_task}
use vpl_jail_system.Task.Clean.Gone.{Among, Named, gone-clean_task}
use vpl_jail_system.Task.Results.{
  limit_result_size, no_result, get_result, set_compilation_output, set_execution_output,
}
use vpl_jail_system.Task.Results.OneResult.{get_result-batch}
use vpl_jail_system.Task.Create.{
  Failing, abs_sum, make_home, empty_dir, try_home, try_prisoner, select_loop, select_prisoner,
  partial_ticket, Names, unused_names, write_tickets, new_info, equip, first_names, create,
}
use vpl_jail_system.Task.Create.Fresh.{create-keeps}

abbrev settings : Settings
settings = record {
  min_prisoner = 1000;
  max_prisoner = 1200;
  home_dir_owner_uid = 2;
  request_max_size = 4;
  log_level = 3;
}

abbrev some_limits : ExecutionLimits
some_limits = record { maxtime = 60; maxfilesize = 0; maxmemory = 0; maxprocesses = 0 }

-- A batch task that was started at 500 and has compiled.
abbrev some_info : Info
some_info = record {
  limits = some_limits;
  adminticket = codes "11";
  executionticket = codes "22";
  monitorticket = codes "33";
  http_passthroughticket = [];
  localwebserver = [];
  cleaning = false;
  start_time = 500;
  interactive = false;
  lang = [];
  compiler_pid = 70;
  runner_pid = 71;
  monitor_pid = 0;
}

abbrev dir : Dir
dir = record { config = some some_info; compilation = none; execution = none }

abbrev disk : Disk
disk = record {
  tickets =
      (codes "11", record { user_id = 1005; security = admin })
      ∷ (codes "22", record { user_id = 1005; security = execute })
      ∷ [];
  tasks = (1005, dir) ∷ [];
  homes = (1005, []) ∷ [];
}

abbrev me : Monitor
me = record { prisoner = 1005; security = admin; info = some_info }

abbrev store : Store
store = record { disk = disk; me = me }

open_ticket-twice_example :
    let after = (open_ticket settings 9 some_info (codes " 22") disk).0 in
    open_ticket settings 10 some_info (codes " 22") after ≡ (after, thrown ticket_not_found)
unfolding open_ticket trim_and_remove_quotes trim_front trim_back is_quoted is_ticket lookup
    prisoner_refusal object_of enter config_of dir_of is_one_time erase read_info chain monitorize
    set_info
open_ticket-twice_example =
    open_ticket-twice settings settings 9 10 some_info some_info (codes " 22") disk
      (record me { security = execute }) refl (inr refl)

abbrev all_run : Processes
all_run = record { kill = λ pid. true; stat = λ pid. some (codes "71 (sh) S") }

abbrev seen : ℕ → Seen
seen t = record {
  now = t;
  processes = all_run;
  compilation = false;
  execution = false;
  vpl_execution = false;
}

get_state-running_iff_example :
    ((get_state (λ s. s) (seen 505) store).1 ≡ running) ↔ IsRunning (seen 505) some_info
unfolding config_of dir_of lookup
get_state-running_iff_example = get_state-running_iff (λ s. s) (seen 505) store some_info refl refl

gone-clean_task_example :
    lookup (codes "22") (clean_task settings true false false store).disk.tickets ≡ none
unfolding Named Among
gone-clean_task_example =
    gone-clean_task settings true false false store (codes "22") (λ e. cc) (inl (inr (inl refl)))

get_result-batch_example :
    let compiled = set_compilation_output (codes "ok") store in
    let executed = set_execution_output (codes "12345") true compiled.0 in
    let first = get_result settings (record { disk = executed.0.disk; me = me }) in
    (first.1
      ≡ returned (record {
        compilation = limit_result_size 4 (codes "ok");
        execution = limit_result_size 4 (codes "12345");
        executed = true;
      }))
    × ((get_result settings first.0).1
        ≡ returned (record { compilation = no_result; execution = []; executed = false }))
unfolding dir_of lookup
get_result-batch_example =
    get_result-batch settings store dir (codes "ok") (codes "12345") me
      (record { info = some_info; there = refl; config = refl; not_cleaning = refl }) refl refl
      (record { admin_ticket = refl; batch = refl }) refl

abbrev working : Failing
working = record {
  mkdir_control = λ uid. false;
  mkdir_home = λ uid. false;
  chown_home = λ uid. false;
  chmod_home = λ uid. false;
}

abbrev random : ℕ → ℕ
random k = 127 * k

abbrev names : Names
names = record { admin_name = codes "06"; monitor_name = codes "15"; execution_name = codes "24" }

abbrev names_info : Info
unfolding new_info
names_info = new_info 600 names

abbrev new_disk : Disk
unfolding write_tickets insert
new_disk = record {
  tickets = write_tickets 1180 names disk.tickets;
  tasks = (1005, dir) ∷ (1180, record empty_dir { config = some names_info }) ∷ [];
  homes = (1005, []) ∷ (1180, []) ∷ [];
}

abbrev new_task : Monitor
new_task = record { prisoner = 1180; security = admin; info = names_info }

create-keeps_example :
    (dir_of 1180 disk ≡ none)
    × (prisoner_refusal settings 1180 ≡ none)
    × ((t : Bytes) (x : Ticket)
        → lookup t disk.tickets ≡ some x
        → lookup t new_disk.tickets ≡ some x)
    × ((v : ℕ) → v ≢ 1180 → dir_of v new_disk ≡ dir_of v disk)
    × (lookup 1180 new_disk.homes ≡ some [])
    × ((v : ℕ) → is_some (dir_of v disk) ≡ true → lookup v new_disk.homes ≡ lookup v disk.homes)
unfolding create select_prisoner select_loop try_prisoner prisoner_refusal try_home abs_sum
    make_home dir_of lookup put_dir insert unused_names first_names partial_ticket decimal
    decimal_loop equip write_info write_tickets new_info object_of new_disk names_info
create-keeps_example = create-keeps settings working random 2 600 disk new_disk new_task refl
