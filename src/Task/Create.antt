-- ===== src/Task/Create.antt =====
-- selectPrisoner and the constructors of class processMonitor of src/processMonitor.cpp that make a
-- task. The calls of Util::random are numbered: `random k` is the value of the call with number k.
pub mod Prisoner
pub mod Fresh
use vpl_jail_system.Prelude.{
  ltb, if◌then◌else◌, Bytes, ℕ, zero, suc, Bool, false, Option, none, some, [], ◌+◌, ◌-◌, ◌*◌, ◌/◌,
  ◌%◌, ◌^◌, ◌||◌, ◌++◌,
}
use vpl_jail_system.Prelude.Maps.{bytes_eq, nat_eq, Map, lookup, insert, erase}
use vpl_jail_system.Util.Sizes.{decimal}
use vpl_jail_system.Task.{
  admin, monitor, execute, Ticket, Info, Dir, Disk, Monitor, Settings, prisoner_range_too_small,
  prisoner_range_out_of_limits, no_free_prisoner, no_control_dir, no_home_dir, no_owner,
  no_permissions, Outcome, returned, thrown, Store, dir_of, put_dir, write_info, is_some,
}
use vpl_jail_system.Task.Tickets.{prisoner_refusal, object_of}

-- src/jail_limits.h.
abbrev pub jail_min_prisoner_uid : ℕ
jail_min_prisoner_uid = 1000

abbrev pub jail_max_prisoner_uid : ℕ
jail_max_prisoner_uid = 64 * 1024 - 5900

-- The calls for a user id that fail for another reason than that the directory exists.
pub record Failing : Type 0 where
  pub mkdir_control : ℕ → Bool
  pub mkdir_home : ℕ → Bool
  pub chown_home : ℕ → Bool
  pub chmod_home : ℕ → Bool

-- The disk, the number of the next call of random, and the user id or the exception.
pub record Selected : Type 0 where
  pub disk : Disk
  pub next : ℕ
  pub outcome : Outcome ℕ

-- `abs(random() + i)` on 32 bits; the sum 2^31, whose abs is not defined, is left as it is.
unfoldable pub abs_sum : ℕ → ℕ → ℕ
abs_sum r i = let n = (r + i) % 2 ^ 32 in if ltb n (2 ^ 31) then n else 2 ^ 32 - n

unfoldable pub make_home : ℕ → Disk → Disk
make_home uid d = record d { homes = insert uid [] d.homes }

unfoldable pub remove_home : ℕ → Disk → Disk
remove_home uid d = record d { homes = erase uid d.homes }

abbrev pub empty_dir : Dir
empty_dir = record { config = none; compilation = none; execution = none }

-- What one try comes to: the next try, or the end.
pub data Try : Type 0 where
  again : Disk → Try
  done : Disk → Outcome ℕ → Try

-- A home directory without a control directory is removed, and the control directory with it.
unfoldable pub try_home : Failing → ℕ → Disk → Try
try_home f uid d =
    if is_some (lookup uid d.homes)
    then again (record (remove_home uid d) { tasks = erase uid d.tasks })
    else if f.mkdir_home uid
    then done d (thrown no_home_dir)
    else if f.chown_home uid
    then done d (thrown no_owner)
    else if f.chmod_home uid
    then done d (thrown no_permissions)
    else done (make_home uid d) (returned uid)

unfoldable pub try_prisoner : Settings → Failing → ℕ → Disk → Try
try_prisoner c f uid d = elim (prisoner_refusal c uid) [
  | some e ↦ done d (thrown e)
  | none ↦
      if is_some (dir_of uid d)
      then again d
      else if f.mkdir_control uid
      then done d (thrown no_control_dir)
      else try_home f uid (put_dir uid empty_dir d)
]

-- The loop, with the tries that are left, behind `i` of them.
unfoldable pub select_loop : Settings → Failing → (ℕ → ℕ) → ℕ → ℕ → ℕ → ℕ → Disk → Selected
select_loop c f random range zero i k d = record {
  disk = d;
  next = k;
  outcome = thrown no_free_prisoner;
}
select_loop c f random range (suc n) i k d =
    elim (try_prisoner c f (c.min_prisoner + abs_sum (random k) i % range) d) [
      | again d' ↦ select_loop c f random range n (i + 1) (k + 1) d'
      | done d' o ↦ record { disk = d'; next = k + 1; outcome = o }
    ]

-- selectPrisoner, for a configured range that is not empty.
unfoldable pub select_prisoner : Settings → Failing → (ℕ → ℕ) → ℕ → Disk → Selected
select_prisoner c f random k d =
    let range = c.max_prisoner + 1 - c.min_prisoner in
    if ltb range 100
    then record { disk = d; next = k; outcome = thrown prisoner_range_too_small }
    else if ltb c.min_prisoner jail_min_prisoner_uid || ltb jail_max_prisoner_uid c.max_prisoner
    then record { disk = d; next = k; outcome = thrown prisoner_range_out_of_limits }
    else select_loop c f random range range 0 k d

-- getPartialTicket, as the call with number k of random.
unfoldable pub partial_ticket : (ℕ → ℕ) → ℕ → Bytes
partial_ticket random k = decimal (random k / 127)

pub record Names : Type 0 where
  pub admin_name : Bytes
  pub monitor_name : Bytes
  pub execution_name : Bytes

-- The six calls of one round of the loop that looks for unused names.
unfoldable pub names_at : (ℕ → ℕ) → ℕ → Names
names_at random k = record {
  admin_name = partial_ticket random k ++ partial_ticket random (k + 5);
  monitor_name = partial_ticket random (k + 1) ++ partial_ticket random (k + 4);
  execution_name = partial_ticket random (k + 2) ++ partial_ticket random (k + 3);
}

abbrev pub is_taken : Map Bytes Ticket → Names → Bool
is_taken ts n =
    is_some (lookup n.monitor_name ts)
    || (is_some (lookup n.execution_name ts) || is_some (lookup n.admin_name ts))

-- The loop, for at most `fuel` rounds.
unfoldable pub unused_names : ℕ → (ℕ → ℕ) → ℕ → Map Bytes Ticket → Names → Option Names
unused_names zero random k ts n = none
unused_names (suc fuel) random k ts n =
    let more = unused_names fuel random (k + 6) ts (names_at random k) in
    if is_taken ts n then more else some n

-- The files of the three tickets.
unfoldable pub write_tickets : ℕ → Names → Map Bytes Ticket → Map Bytes Ticket
write_tickets uid n ts =
    insert n.execution_name (record { user_id = uid; security = execute })
      (insert n.monitor_name (record { user_id = uid; security = monitor })
        (insert n.admin_name (record { user_id = uid; security = admin }) ts))

unfoldable pub new_info : ℕ → Names → Info
new_info now n = record {
  limits = record { maxtime = 0; maxfilesize = 0; maxmemory = 0; maxprocesses = 0 };
  adminticket = n.admin_name;
  executionticket = n.execution_name;
  monitorticket = n.monitor_name;
  http_passthroughticket = [];
  localwebserver = [];
  cleaning = false;
  start_time = now;
  interactive = false;
  lang = [];
  compiler_pid = 0;
  runner_pid = 0;
  monitor_pid = 0;
}

-- The part behind selectPrisoner.
unfoldable pub equip : ℕ → ℕ → Names → Disk → Store × Outcome Unit
equip now uid n d = write_info (record {
  disk = record d { tickets = write_tickets uid n d.tickets };
  me = record { prisoner = uid; security = admin; info = new_info now n };
})

-- The first names, whose second halves are drawn behind the selection at `j`.
unfoldable pub first_names : (ℕ → ℕ) → ℕ → ℕ → Names
first_names random k j = record {
  admin_name = partial_ticket random k ++ partial_ticket random (j + 2);
  monitor_name = partial_ticket random (k + 1) ++ partial_ticket random (j + 1);
  execution_name = partial_ticket random (k + 2) ++ partial_ticket random j;
}

-- processMonitor(adminticket, monitorticket, executionticket); `none` where the fuel for the names ran
-- out.
unfoldable pub create :
    Settings → Failing → (ℕ → ℕ) → ℕ → ℕ → Disk → Option (Disk × Outcome Monitor)
create c f random fuel now d =
    let r = select_prisoner c f random 3 d in
    elim r.outcome [
      | thrown e ↦ some (r.disk, thrown e)
      | returned uid ↦
          elim (unused_names fuel random (r.next + 3) r.disk.tickets
            (first_names random 0 r.next)) [
              | none ↦ none
              | some n ↦ some (object_of (equip now uid n r.disk))
            ]
    ]
