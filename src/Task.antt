-- ===== src/Task.antt =====
-- class processMonitor of src/processMonitor.h and src/processMonitor.cpp: the tasks, which processes
-- of the server share through files of the control directory and of the home directories. Each
-- operation runs under the locks of its task, as one step on the files.
--
-- The file "config" of a task keeps the fields of Info, written and read back by ConfigurationFile; the
-- numbers are those that Util::itos writes and atoi reads. Pids, times and what is alive are arguments.
pub mod Tickets
pub mod State
pub mod Results
pub mod Clean
pub mod Create
pub mod Isolation
use vpl_jail_system.Prelude.{
  ltb, ◌==◌, if◌then◌else◌, Bytes, codes, length, drop, str_eq, ℕ, Bool, true, false, not, Option,
  none, some, [], ◌-◌, ◌&&◌,
}
use vpl_jail_system.Prelude.Maps.{bytes_eq, nat_eq, Map, lookup, insert, erase, lookup_or}
use vpl_jail_system.Util.Text.{remove_crs}

-- enum securityLevel, by the numbers that a ticket's file keeps; 5 is the text of a missing level.
abbrev pub admin : ℕ
admin = 0

abbrev pub monitor : ℕ
monitor = 1

abbrev pub execute : ℕ
execute = 2

abbrev pub httppassthrough : ℕ
httppassthrough = 3

-- The file of a ticket.
pub record Ticket : Type 0 where
  pub user_id : ℕ
  pub security : ℕ

pub record ExecutionLimits : Type 0 where
  pub maxtime : ℕ
  pub maxfilesize : ℕ
  pub maxmemory : ℕ
  pub maxprocesses : ℕ

-- The fields that writeInfo and readInfo carry between the object and the file.
pub record Info : Type 0 where
  pub limits : ExecutionLimits
  pub adminticket : Bytes
  pub executionticket : Bytes
  pub monitorticket : Bytes
  pub http_passthroughticket : Bytes
  pub localwebserver : Bytes
  pub cleaning : Bool
  pub start_time : ℕ
  pub interactive : Bool
  pub lang : Bytes
  pub compiler_pid : ℕ
  pub runner_pid : ℕ
  pub monitor_pid : ℕ

-- The control directory of one task.
pub record Dir : Type 0 where
  pub config : Option Info
  pub compilation : Option Bytes
  pub execution : Option Bytes

pub record Disk : Type 0 where
  pub tickets : Map Bytes Ticket
  pub tasks : Map ℕ Dir
  pub homes : Map ℕ (Map Bytes Bytes)

-- The object, once a constructor has selected the prisoner.
pub record Monitor : Type 0 where
  pub prisoner : ℕ
  pub security : ℕ
  pub info : Info

-- What the configuration says of prisoners and sizes.
pub record Settings : Type 0 where
  pub min_prisoner : ℕ
  pub max_prisoner : ℕ
  pub home_dir_owner_uid : ℕ
  pub request_max_size : ℕ
  pub log_level : ℕ

-- The exceptions, and those of ConfigurationFile on a file that cannot be read or written.
pub data Error : Type 0 where
  ticket_invalid_format ticket_not_found configuration_lost reserved_prisoner invalid_prisoner :
      Error
  task_cleaning unreadable unwritable already_monitorized requires_admin requires_monitor
        bad_state :
      Error
  compilation_already_saved compilation_missing execution_already_saved : Error
  prisoner_range_too_small prisoner_range_out_of_limits no_free_prisoner : Error
  no_control_dir no_home_dir no_owner no_permissions : Error

pub data Outcome (A : Type 0) : Type 0 where
  returned : A → Outcome A
  thrown : Error → Outcome A

pub record Store : Type 0 where
  pub disk : Disk
  pub me : Monitor

unfoldable pub set_info : Info → Store → Store
set_info info s = record s { me = record s.me { info = info } }

unfoldable pub dir_of : ℕ → Disk → Option Dir
dir_of uid d = lookup uid d.tasks

unfoldable pub put_dir : ℕ → Dir → Disk → Disk
put_dir uid dir d = record d { tasks = insert uid dir d.tasks }

-- The file "config", where there is one.
unfoldable pub config_of : ℕ → Disk → Option Info
config_of uid d = elim (dir_of uid d) [ none ↦ none | some dir ↦ dir.config ]

-- The file is replaced in a directory that is there.
unfoldable pub set_config : ℕ → Info → Disk → Disk
set_config uid i d = elim (dir_of uid d) [
  | none ↦ d
  | some dir ↦ put_dir uid (record dir { config = some i }) d
]

-- readInfo: the fields are read before the exception is thrown.
unfoldable pub read_info : Store → Store × Outcome Unit
read_info s = elim (config_of s.me.prisoner s.disk) [
  | none ↦ (s, thrown unreadable)
  | some info ↦ (set_info info s, if info.cleaning then thrown task_cleaning else returned tt)
]

-- writeInfo: the file keeps no other field that is not set here.
unfoldable pub write_info : Store → Store × Outcome Unit
write_info s = elim (dir_of s.me.prisoner s.disk) [
  | none ↦ (s, thrown unwritable)
  | some dir ↦ (
    record s { disk = put_dir s.me.prisoner (record dir { config = some s.me.info }) s.disk },
    returned tt,
  )
]

-- What follows an operation that may have thrown.
unfoldable pub chain :
    {A B : Type 0} → Store × Outcome A → (Store → Store × Outcome B) → Store × Outcome B
chain (s, thrown e) k = (s, thrown e)
chain (s, returned a) k = k s

-- readInfo, a change of the object's fields, writeInfo.
unfoldable pub update : (Info → Info) → Store → Store × Outcome Unit
update f s = chain (read_info s) (λ t. write_info (set_info (f t.me.info) t))

-- setRunner.
unfoldable pub set_runner : ℕ → ℕ → Store → Store × Outcome Unit
set_runner now pid s =
    if s.me.security == monitor
    then (s, returned tt)
    else update (λ i. record i { start_time = now; runner_pid = pid }) s

-- setCompiler.
unfoldable pub set_compiler : ℕ → ℕ → Store → Store × Outcome Unit
set_compiler now pid s =
    if s.me.security == monitor
    then (s, returned tt)
    else update (λ i. record i { start_time = now; compiler_pid = pid }) s

-- monitorize.
unfoldable pub monitorize : ℕ → Store → Store × Outcome Unit
monitorize pid s =
    if not (s.me.security == monitor)
    then (s, returned tt)
    else chain (read_info s) (λ t.
      if not (t.me.info.monitor_pid == 0)
      then (t, thrown already_monitorized)
      else write_info (set_info (record t.me.info { monitor_pid = pid }) t))

-- setExtraInfo.
unfoldable pub set_extra_info : ExecutionLimits → Bool → Bytes → Store → Store × Outcome Unit
set_extra_info el ri lang s =
    update (λ i. record i { limits = el; interactive = ri; lang = lang }) s

-- hasMonitorTicket.
unfoldable pub has_monitor_ticket : Info → Bool
has_monitor_ticket i = not (str_eq i.monitorticket (codes "NO_MONITOR"))

abbrev pub is_some {ℓ} : {A : Type ℓ} → Option A → Bool
is_some none = false
is_some (some x) = true

-- FileExists, readFile, writeFile and deleteFile, in the home directory.
unfoldable pub home_of : Store → Map Bytes Bytes
home_of s = lookup_or [] s.me.prisoner s.disk.homes

unfoldable pub file_exists : Bytes → Store → Bool
file_exists name s = is_some (lookup name (home_of s))

unfoldable pub read_file : Bytes → Store → Bytes
read_file name s = lookup_or [] name (home_of s)

unfoldable pub set_home : Map Bytes Bytes → Store → Store
set_home files s = record s {
  disk = record s.disk { homes = insert s.me.prisoner files s.disk.homes };
}

unfoldable pub is_script : Bytes → Bool
is_script name = ltb 4 (length name) && str_eq (drop (length name - 3) name) (codes ".sh")

unfoldable pub write_file : Bytes → Bytes → Store → Store
write_file name content s =
    set_home (insert name (if is_script name then remove_crs content else content) (home_of s)) s

unfoldable pub delete_file : Bytes → Store → Store
delete_file name s = set_home (erase name (home_of s)) s
