-- ===== src/Task/Results.antt =====
-- The outputs of a task, its web server and its memory in class processMonitor of
-- src/processMonitor.cpp.
pub mod Cutting
pub mod OneResult
use vpl_jail_system.Prelude.{
  ltb, leb, ◌==◌, if◌then◌else◌, Bytes, codes, length, take, drop, str_eq, ℕ, max, Bool, true,
  false, not, Option, none, some, List, [], ◌-◌, ◌*◌, ◌/◌, ◌&&◌, ◌∷◌, ◌++◌,
}
use vpl_jail_system.Prelude.Maps.{bytes_eq, nat_eq, Map, lookup, insert}
use vpl_jail_system.Util.Sizes.{decimal}
use vpl_jail_system.Task.{
  admin, monitor, httppassthrough, Ticket, ExecutionLimits, Settings, unwritable, requires_admin,
  requires_monitor, bad_state, compilation_already_saved, compilation_missing,
  execution_already_saved, Outcome, returned, thrown, Store, set_info, dir_of, put_dir, read_info,
  write_info, chain, is_some, file_exists, read_file,
}

-- The text that stands where limitResultSize cuts.
unfoldable pub cut_notice : ℕ → ℕ → Bytes
cut_notice max_size size =
    codes "\nThis output has been cut to "
    ++ decimal (max_size / 1024)
    ++ codes "Kb"
    ++ codes ", its original size was "
    ++ decimal (size / 1024)
    ++ codes "Kb\n"

-- limitResultSize.
unfoldable pub limit_result_size : ℕ → Bytes → Bytes
limit_result_size max_size r =
    if leb max_size (length r)
    then (let men = cut_notice max_size (length r) in
        men ++ take (max_size / 2) r ++ men ++ drop (length r - max_size / 2) r)
    else r

pub record Result : Type 0 where
  pub compilation : Bytes
  pub execution : Bytes
  pub executed : Bool

abbrev pub no_result : Bytes
no_result = codes "The compilation process did not generate an executable nor error message."

abbrev pub limited : ℕ → Option Bytes → Bytes
limited max_size none = []
limited max_size (some r) = limit_result_size max_size r

-- The texts of the two files, which may be missing.
unfoldable pub result_of : ℕ → Option Bytes → Option Bytes → Result
result_of max_size compilation execution = record {
  compilation =
      if str_eq (limited max_size compilation) [] && not (is_some execution)
      then no_result
      else limited max_size compilation;
  execution = limited max_size execution;
  executed = is_some execution;
}

-- getResult.
unfoldable pub get_result : Settings → Store → Store × Outcome Result
get_result c s =
    if not (s.me.security == admin)
    then (s, thrown requires_admin)
    else if s.me.info.interactive
    then (s, thrown bad_state)
    else elim (dir_of s.me.prisoner s.disk) [
      | none ↦ (s, returned (result_of c.request_max_size none none))
      | some dir ↦ (
        record s {
          disk = put_dir s.me.prisoner (record dir { compilation = none; execution = none }) s.disk;
        },
        returned (result_of c.request_max_size dir.compilation dir.execution),
      )
    ]

-- getCompilation.
unfoldable pub get_compilation : Store → Outcome Bytes
get_compilation s =
    if not (s.me.security == monitor)
    then thrown requires_monitor
    else elim (dir_of s.me.prisoner s.disk) [
      | none ↦ returned []
      | some dir ↦ elim dir.compilation [ none ↦ returned [] | some text ↦ returned text ]
    ]

-- setCompilationOutput, behind readInfo.
unfoldable pub save_compilation : Bytes → Store → Store × Outcome Unit
save_compilation text s = elim (dir_of s.me.prisoner s.disk) [
  | none ↦ (s, thrown unwritable)
  | some dir ↦ if is_some dir.compilation then (s, thrown compilation_already_saved) else (
    record s { disk = put_dir s.me.prisoner (record dir { compilation = some text }) s.disk },
    returned tt,
  )
]

unfoldable pub set_compilation_output : Bytes → Store → Store × Outcome Unit
set_compilation_output text s = chain (read_info s) (save_compilation text)

-- setExecutionOutput, behind readInfo.
unfoldable pub save_execution : Bytes → Bool → Store → Store × Outcome Unit
save_execution text executed s = elim (dir_of s.me.prisoner s.disk) [
  | none ↦ (s, thrown compilation_missing)
  | some dir ↦
      if not (is_some dir.compilation)
      then (s, thrown compilation_missing)
      else if not executed
      then (s, returned tt)
      else if is_some dir.execution
      then (s, thrown execution_already_saved)
      else (
        record s { disk = put_dir s.me.prisoner (record dir { execution = some text }) s.disk },
        returned tt,
      )
]

unfoldable pub set_execution_output : Bytes → Bool → Store → Store × Outcome Unit
set_execution_output text executed s = chain (read_info s) (save_execution text executed)

-- The first of the random texts that names no file.
unfoldable pub unused : Map Bytes Ticket → List Bytes → Option Bytes
unused ts [] = none
unused ts (t ∷ more) = if is_some (lookup t ts) then unused ts more else some t

-- getHttpPassthroughTicket, behind readInfo; the random tickets that it tries are a list, and where
-- that ends, the loop goes on trying: `none`.
unfoldable pub make_passthrough : List Bytes → Store → Option (Store × Outcome Bytes)
make_passthrough random s =
    if str_eq s.me.info.http_passthroughticket []
    then elim (unused s.disk.tickets random) [
      | none ↦ none
      | some t ↦
          let ticket : Ticket = record { user_id = s.me.prisoner; security = httppassthrough } in
          let d = record s.disk { tickets = insert t ticket s.disk.tickets } in
          let m = record s.me { info = record s.me.info { http_passthroughticket = t } } in
          some (
            chain (write_info (record { disk = d; me = m }))
              (λ u. (u, returned u.me.info.http_passthroughticket)))
    ]
    else some (s, returned s.me.info.http_passthroughticket)

unfoldable pub get_http_passthrough_ticket : List Bytes → Store → Option (Store × Outcome Bytes)
get_http_passthrough_ticket random s = elim (read_info s).1 [
  | thrown e ↦ some ((read_info s).0, thrown e)
  | returned x ↦ make_passthrough random (read_info s).0
]

abbrev pub vpl_localserveraddressfile : Bytes
vpl_localserveraddressfile = codes ".vpl_localserveraddress"

-- getLocalWebServer.
unfoldable pub get_local_web_server : Store → Store × Outcome Bytes
get_local_web_server s = chain (read_info s) (λ t.
    if str_eq t.me.info.localwebserver [] && file_exists vpl_localserveraddressfile t
    then chain
        (write_info (
          set_info (record t.me.info { localwebserver = read_file vpl_localserveraddressfile t })
            t))
        (λ u. (u, returned u.me.info.localwebserver))
    else (t, returned t.me.info.localwebserver))

-- isOutOfMemory, on what the control group and /proc say: whether the group is used and was read, that
-- it is out of memory, and the two amounts.
unfoldable pub is_out_of_memory : ExecutionLimits → Bool → Bool → ℕ → ℕ → Bool
is_out_of_memory l use_cgroup oom by_cgroup by_proc =
    if l.maxmemory == 0
    then false
    else if use_cgroup && oom
    then true
    else ltb l.maxmemory (if use_cgroup then max by_cgroup by_proc else by_proc)

-- getMemoryLimit.
unfoldable pub get_memory_limit : ExecutionLimits → Bytes
get_memory_limit l =
    if l.maxmemory == 0
    then codes "unlimited"
    else decimal (l.maxmemory / (1024 * 1024)) ++ codes "MiB"
