-- ===== src/Task/Clean.antt =====
-- cleanTask and cleanPrisonerFiles of class processMonitor of src/processMonitor.cpp.
pub mod Gone
use vpl_jail_system.Prelude.{
  leb, if◌then◌else◌, Bytes, str_eq, ℕ, Bool, true, none, some, List, [], ◌&&◌, ◌∷◌,
}
use vpl_jail_system.Prelude.Maps.{bytes_eq, nat_eq, Map, erase}
use vpl_jail_system.Task.{Ticket, Info, Disk, Settings, Store, config_of, set_config}

-- removeTicketFile.
unfoldable pub remove_ticket_file : Bytes → Map Bytes Ticket → Map Bytes Ticket
remove_ticket_file ticket ts = if str_eq ticket [] then ts else erase ticket ts

unfoldable pub remove_ticket_files : List Bytes → Map Bytes Ticket → Map Bytes Ticket
remove_ticket_files [] ts = ts
remove_ticket_files (t ∷ more) ts = remove_ticket_files more (remove_ticket_file t ts)

-- In the order in which they are removed.
abbrev pub tickets_of : Info → List Bytes
tickets_of i = i.adminticket ∷ i.executionticket ∷ i.monitorticket ∷ i.http_passthroughticket ∷ []

unfoldable pub remove_tickets : Info → Map Bytes Ticket → Map Bytes Ticket
remove_tickets i ts = remove_ticket_files (tickets_of i) ts

-- The config with CLEANING set, and its tickets removed; a task without config has none.
unfoldable pub start_cleaning : ℕ → Disk → Disk
start_cleaning uid d = elim (config_of uid d) [
  | none ↦ d
  | some i ↦
      set_config uid (record i { cleaning = true })
        (record d { tickets = remove_tickets i d.tickets })
]

-- cleanPrisonerFilesLocked. Whether each directory could be removed is an argument.
unfoldable pub clean_prisoner_files : Settings → Bool → Bool → ℕ → Disk → Disk
clean_prisoner_files c home_gone dir_gone uid d =
    let d1 = start_cleaning uid d in
    let d2 =
      if leb c.log_level 7 && home_gone then record d1 { homes = erase uid d1.homes } else d1 in
    if dir_gone then record d2 { tasks = erase uid d2.tasks } else d2

-- cleanTask: `active` says whether a process of the prisoner is left after all attempts to stop them.
unfoldable pub clean_task : Settings → Bool → Bool → Bool → Store → Store
clean_task c active home_gone dir_gone s =
    let d1 = start_cleaning s.me.prisoner s.disk in
    let d2 = record d1 { tickets = remove_tickets s.me.info d1.tickets } in
    let me = record s.me { info = record s.me.info { cleaning = true } } in
    if active
    then record { disk = d2; me = me }
    else record { disk = clean_prisoner_files c home_gone dir_gone s.me.prisoner d2; me = me }
