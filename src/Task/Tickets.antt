-- ===== src/Task/Tickets.antt =====
-- The constructor of class processMonitor of src/processMonitor.cpp that finds a task by a ticket.
pub mod OneTime
use vpl_jail_system.Prelude.{
  ltb, ◌==◌, if◌then◌else◌, Bytes, str_eq, ℕ, Bool, true, not, Option, none, some, [], ◌&&◌, ◌||◌,
  ◌∷◌,
}
use vpl_jail_system.Prelude.Cstd.{is_digit}
use vpl_jail_system.Prelude.Maps.{bytes_eq, nat_eq, lookup, erase}
use vpl_jail_system.Util.Trim.{trim_and_remove_quotes}
use vpl_jail_system.Task.{
  monitor, execute, Ticket, Info, Disk, Monitor, Settings, Error, ticket_invalid_format,
  ticket_not_found, configuration_lost, reserved_prisoner, invalid_prisoner, Outcome, returned,
  thrown, Store, config_of, read_info, chain, monitorize,
}

abbrev pub all_digits : Bytes → Bool
all_digits [] = true
all_digits (c ∷ s) = is_digit c && all_digits s

-- The regular expression `^[0-9]+$`.
unfoldable pub is_ticket : Bytes → Bool
is_ticket t = not (str_eq t []) && all_digits t

unfoldable pub prisoner_refusal : Settings → ℕ → Option Error
prisoner_refusal c uid =
    if uid == c.home_dir_owner_uid
    then some reserved_prisoner
    else if ltb uid c.min_prisoner || ltb c.max_prisoner uid
    then some invalid_prisoner
    else none

-- A ticket of a monitor and one of an execution are used once.
unfoldable pub is_one_time : ℕ → Bool
is_one_time security = security == monitor || security == execute

-- The part behind setPrisonerID: the ticket is deleted, the task is read, and a monitor signs up.
unfoldable pub enter : ℕ → Bytes → Ticket → Disk → Info → Store × Outcome Unit
enter pid name ticket d blank =
    let d' =
      if is_one_time ticket.security then record d { tickets = erase name d.tickets } else d in
    let s : Store = record {
      disk = d';
      me = record { prisoner = ticket.user_id; security = ticket.security; info = blank };
    } in
    elim (config_of ticket.user_id d') [
      | none ↦ (s, thrown configuration_lost)
      | some info ↦ chain (read_info s) (monitorize pid)
    ]

-- What the constructor leaves on the disk, and the object.
unfoldable pub object_of : Store × Outcome Unit → Disk × Outcome Monitor
object_of (s, thrown e) = (s.disk, thrown e)
object_of (s, returned x) = (s.disk, returned s.me)

-- processMonitor(ticket): the disk that it leaves, and the object or the exception. `blank` stands for
-- the fields that are not set yet.
unfoldable pub open_ticket : Settings → ℕ → Info → Bytes → Disk → Disk × Outcome Monitor
open_ticket c pid blank text d =
    let name = trim_and_remove_quotes text in
    if not (is_ticket name)
    then (d, thrown ticket_invalid_format)
    else elim (lookup name d.tickets) [
      | none ↦ (d, thrown ticket_not_found)
      | some ticket ↦
          if ticket.user_id == 0 || ticket.security == 5
          then (d, thrown configuration_lost)
          else elim (prisoner_refusal c ticket.user_id) [
            | some e ↦ (d, thrown e)
            | none ↦ object_of (enter pid name ticket d blank)
          ]
    ]
