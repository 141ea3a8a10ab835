-- ===== src/Tests/Jails.antt =====
-- Requests and commands of src/jail.cpp at concrete inputs.
use vpl_jail_system.Task.Tickets.{
  is_ticket, prisoner_refusal, is_one_time, enter, object_of, open_ticket,
}
use vpl_jail_system.Util.Trim.{trim_front, trim_back, is_quoted, trim_and_remove_quotes}
use vpl_jail_system.Task.{
  admin, execute, ExecutionLimits, Info, Dir, Disk, Monitor, Settings, returned, Store, set_info,
  dir_of, config_of, read_info, chain, monitorize, has_monitor_ticket,
}
use vpl_jail_system.Prelude.{codes, refl, inl, inr, true, false, none, some, List, [], ◌≡◌, ◌∷◌}
use vpl_jail_system.Prelude.Maps.{bytes_eq, nat_eq, lookup}
use vpl_jail_system.Util.Processes.{process_exists, process_exists_and_running}
use vpl_jail_system.Task.State.{starting, Seen, is, timed_out, judge, get_state, is_running}
use vpl_jail_system.Task.Clean.Gone.{Among}
use vpl_jail_system.Task.Results.{limit_result_size, get_result}
use vpl_jail_system.Jail.Paths.{mangled, mangle}
use vpl_jail_system.Jail.Access.{
  begins_with, any_prefix, is_valid_ip, split_slash, two_parts, to_upper, to_uppercase, Asked,
  monitor_socket, serve_websocket, process,
}
use vpl_jail_system.Jail.Access.Permitted.{Permits, Permits-process}
use vpl_jail_system.Jail.Commands.{
  Cleaning, ask_running, command_running, vpl_execution, Job, run_job,
}
use vpl_jail_system.Jail.Commands.Stopped.{gone-command_running}
use vpl_jail_system.Jail.Commands.Whole.{get_result-run_job}
use vpl_jail_system.Jail.Monitoring.{
  send, close_and_wait, clean, give_up, Watch, Turn, new_state, given_up, enter_state, switched,
  turn, left, watch,
}
use vpl_jail_system.Jail.Monitoring.Cleaning.{cleans, timeouts, IsCleaned, watch-IsCleaned}
use vpl_jail_system.Jail.Monitoring.Ending.{IsQuiet, IsWatching, quiet-watch}
use vpl_jail_system.Jail.Limits

-- The space is written as an escape.
test_mangle : mangle (codes "a b") ≡ codes "a\\040b"
unfolding mangle mangled
test_mangle = refl

-- A request to monitor a task.
abbrev to_monitor : Asked
to_monitor = record {
  ip = codes "10.0.0.17";
  task_only_from = codes "10.0.0.1" ∷ [];
  http_method = codes "GET";
  upgrade = codes "websocket";
  url_path = codes "/123/monitor";
  passed_through = false;
  was_here = false;
  cookie_set = false;
  icon = codes "<svg>";
  challenge = [];
  expected_path = codes "/";
  method_name = [];
}

Permits-process_example : Permits to_monitor (process to_monitor)
Permits-process_example = Permits-process to_monitor

test_monitor : process to_monitor ≡ monitor_socket (codes "123")
unfolding process to_uppercase to_upper serve_websocket two_parts split_slash
test_monitor = refl

-- An address that begins with the text of the configured one.
test_other_address : is_valid_ip to_monitor.task_only_from to_monitor.ip ≡ true
unfolding is_valid_ip any_prefix begins_with
test_other_address = refl

abbrev settings : Settings
settings = record {
  min_prisoner = 1000;
  max_prisoner = 1200;
  home_dir_owner_uid = 2;
  request_max_size = 4;
  log_level = 3;
}

abbrev no_limits : ExecutionLimits
no_limits = record { maxtime = 60; maxfilesize = 0; maxmemory = 0; maxprocesses = 0 }

abbrev info : Info
info = record {
  limits = no_limits;
  adminticket = codes "11";
  executionticket = codes "22";
  monitorticket = codes "33";
  http_passthroughticket = [];
  localwebserver = [];
  cleaning = false;
  start_time = 500;
  interactive = false;
  lang = [];
  compiler_pid = 70;
  runner_pid = 71;
  monitor_pid = 0;
}

abbrev dir : Dir
dir = record { config = some info; compilation = none; execution = none }

abbrev me : Monitor
me = record { prisoner = 1005; security = admin; info = info }

abbrev store : Store
store = record {
  disk = record {
    tickets = (codes "22", record { user_id = 1005; security = execute }) ∷ [];
    tasks = (1005, dir) ∷ [];
    homes = [];
  };
  me = me;
}

abbrev none_left : Cleaning
none_left = record { active = false; home_gone = false; dir_gone = false }

-- Long behind the limit.
abbrev late : Seen
late = record {
  now = 9000;
  processes = record { kill = λ pid. false; stat = λ pid. none };
  compilation = false;
  execution = false;
  vpl_execution = false;
}

abbrev with_admin : Disk
with_admin = record store.disk {
  tickets =
      (codes "11", record { user_id = 1005; security = admin })
      ∷ (codes "22", record { user_id = 1005; security = execute })
      ∷ [];
}

gone-command_running_example :
    lookup
      (codes "22")
      (command_running 7 settings none_left none_left late info (codes "11") with_admin).0.tickets
    ≡ none
unfolding config_of dir_of lookup Among command_running ask_running is_running get_state judge
    process_exists_and_running process_exists has_monitor_ticket open_ticket enter object_of
    is_ticket trim_and_remove_quotes is_quoted trim_back trim_front prisoner_refusal is_one_time
    read_info monitorize chain set_info
gone-command_running_example =
    gone-command_running 7 settings none_left none_left late info (codes "11") with_admin with_admin
      me info (codes "22") refl refl (λ e. cc) (inr (inl refl)) refl

abbrev job : Job
job = record {
  configured = no_limits;
  asked = no_limits;
  interactive = false;
  lang = codes "es";
  pid = 70;
  compiled_at = 501;
  run_at = 502;
  files = (vpl_execution, codes "x") ∷ [];
  compilation = codes "ok";
  kept = (vpl_execution, codes "x") ∷ [];
  execution = codes "12345";
}

get_result-run_job_example :
    let end = run_job job store in
    (end.1 ≡ returned tt)
    × ((get_result settings (record { disk = end.0.disk; me = me })).1
        ≡ returned (record {
          compilation = limit_result_size 4 (codes "ok");
          execution = limit_result_size 4 (codes "12345");
          executed = true;
        }))
unfolding dir_of lookup
get_result-run_job_example =
    get_result-run_job settings job store dir me
      (record { info = info; there = refl; config = refl; not_cleaning = refl }) refl refl refl
      (record { batch = refl; made = refl; left = refl })
      (record { admin_ticket = refl; batch = refl }) refl

-- A turn of a batch task that starts.
abbrev starts : Turn
starts = record {
  found = is starting;
  now = 600;
  later = 9000;
  max_time = 60;
  interactive = false;
  execution = false;
  webexecution = false;
  wexecution = false;
  address = false;
  vnc_password = [];
  compilation = [];
  ticket = [];
  received = [];
  ws_closed = false;
  out_of_memory = false;
  memory_limit = [];
}

abbrev start_watch : Watch
start_watch = record {
  state = starting;
  webserver = false;
  run_browser = false;
  start_time = 500;
  last_message_time = 500;
  last_time = 500;
  timeout = 560;
  last_message = [];
}

abbrev gone_away : List Turn
gone_away = starts ∷ record starts { ws_closed = true } ∷ []

watch-IsCleaned_example : IsCleaned 0 (watch gone_away start_watch [])
unfolding cleans timeouts
watch-IsCleaned_example = watch-IsCleaned gone_away start_watch [] refl

-- A task that is given up is cleaned by getState and behind the loop.
test_given_up :
    watch (record starts { found = timed_out } ∷ []) start_watch []
    ≡ left (give_up ∷ send (codes "close:") ∷ close_and_wait ∷ close_and_wait ∷ clean ∷ [])
unfolding watch turn switched new_state given_up enter_state
test_given_up = refl

quiet-watch_example : IsWatching (watch (starts ∷ starts ∷ []) start_watch [])
unfolding IsQuiet
quiet-watch_example =
    quiet-watch (starts ∷ starts ∷ []) start_watch []
      ((refl, refl, refl, refl), ((refl, refl, refl, refl), tt)) refl

abbrev configured : Limits.Limits
configured = record {
  maxtime = Limits.nonneg 60;
  maxfilesize = Limits.nonneg 1000;
  maxmemory = Limits.nonneg 1000;
  maxprocesses = Limits.nonneg 9;
}

abbrev asked : Limits.Request
asked = record {
  maxtime = some (Limits.real (Limits.nonneg 90));
  maxfilesize = none;
  maxmemory = some (Limits.integer (Limits.minus 1));
  maxprocesses = none;
}

get_parse_execution_limits-AreLimits_example :
    Limits.AreLimits asked configured
      (Limits.get_parse_execution_limits Limits.minus asked configured)
get_parse_execution_limits-AreLimits_example =
    Limits.get_parse_execution_limits-AreLimits Limits.minus asked configured
