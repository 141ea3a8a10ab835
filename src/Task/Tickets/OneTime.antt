-- ===== src/Task/Tickets/OneTime.antt =====
-- Which tasks the tickets of class processMonitor of src/processMonitor.cpp open, and how often.
use vpl_jail_system.Prelude.{
  if◌then◌else◌, Option-cases, Bytes, str_eq_iff, ℕ, refl, sym, ap, subst, inl, inr, true, none,
  some, arith, ◌≤◌, ◌≡◌, ◌∙◌, ◌≢◌, ◌⊎◌,
}
use vpl_jail_system.Prelude.Maps.{bytes_eq, nat_eq, Map, lookup, erase, lookup-erase}
use vpl_jail_system.Util.Trim.{trim_and_remove_quotes}
use vpl_jail_system.Task.{
  monitor, execute, Ticket, Info, Disk, Monitor, Settings, ticket_not_found, Outcome, returned,
  thrown, Store, config_of, read_info, chain, monitorize,
}
use vpl_jail_system.Task.Tickets.{
  is_ticket, prisoner_refusal, is_one_time, enter, object_of, open_ticket,
}
use vpl_jail_system.Task.Isolation.{
  IsLocal, IsLocal-refl, IsLocal-read_info, IsLocal-chain, IsLocal-monitorize,
}

-- A ticket has been taken: the object has its user and level, which is a prisoner of the
-- configuration, and the file of a one-time ticket is gone.
pub record IsEntry (c : Settings) (name : Bytes) (d : Disk) (d' : Disk) (m : Monitor) : Type 0 where
  pub ticket : Ticket
  pub on_disk : lookup name d.tickets ≡ some ticket
  pub level : m.security ≡ ticket.security
  pub from : c.min_prisoner ≤ m.prisoner
  pub to : m.prisoner ≤ c.max_prisoner
  pub not_owner : m.prisoner ≢ c.home_dir_owner_uid
  pub used : is_one_time ticket.security ≡ true → lookup name d'.tickets ≡ none

pub in_range :
    (c : Settings) (uid : ℕ)
    → prisoner_refusal c uid ≡ none
    → (c.min_prisoner ≤ uid) × (uid ≤ c.max_prisoner) × (uid ≢ c.home_dir_owner_uid)
unfolding prisoner_refusal
in_range c uid h = ground arith

pub object_of-returned :
    (r : Store × Outcome Unit) (m : Monitor)
    → (object_of r).1 ≡ returned m
    → ((object_of r).0 ≡ r.0.disk) × (r.0.me ≡ m)
unfolding object_of
object_of-returned (s, thrown e) m h = absurd cc
object_of-returned (s, returned x) m h = (refl, cc)

IsLocal-chained_monitorize :
    (pid : ℕ) (s : Store) → IsLocal s (chain (read_info s) (monitorize pid)).0
IsLocal-chained_monitorize pid s =
    IsLocal-chain s (read_info s) (monitorize pid) (IsLocal-read_info s) (IsLocal-monitorize pid)

lookup-erase_same : (name : Bytes) (ts : Map Bytes Ticket) → lookup name (erase name ts) ≡ none
lookup-erase_same name ts = lookup-erase name name ts ∙ rw (str_eq_iff name name).1 refl

-- The store of `enter` before the task is read.
entered : Bytes → Ticket → Disk → Info → Store
entered name ticket d blank = record {
  disk = if is_one_time ticket.security then record d { tickets = erase name d.tickets } else d;
  me = record { prisoner = ticket.user_id; security = ticket.security; info = blank };
}

IsLocal-enter :
    (pid : ℕ) (name : Bytes) (ticket : Ticket) (d : Disk) (blank : Info)
    → IsLocal (entered name ticket d blank) (enter pid name ticket d blank).0
unfolding enter entered
IsLocal-enter pid name ticket d blank =
    elim (Option-cases (config_of ticket.user_id (entered name ticket d blank).disk)) [
      | inl e ↦ rw (enter, e) (IsLocal-refl (entered name ticket d blank))
      | inr (info, e) ↦ rw (enter, e) (IsLocal-chained_monitorize pid (entered name ticket d blank))
    ]

used_up :
    (name : Bytes) (ticket : Ticket) (d : Disk) (blank : Info)
    → is_one_time ticket.security ≡ true
    → lookup name (entered name ticket d blank).disk.tickets ≡ none
unfolding entered
used_up name ticket d blank h = rw h (lookup-erase_same name d.tickets)

IsEntry-enter :
    (c : Settings) (pid : ℕ) (name : Bytes) (ticket : Ticket) (d : Disk) (blank : Info)
    (m : Monitor)
    → lookup name d.tickets ≡ some ticket
    → prisoner_refusal c ticket.user_id ≡ none
    → (object_of (enter pid name ticket d blank)).1 ≡ returned m
    → IsEntry c name d (object_of (enter pid name ticket d blank)).0 m
unfolding entered
IsEntry-enter c pid name ticket d blank m at ok h =
    let same = object_of-returned (enter pid name ticket d blank) m h in
    let local = IsLocal-enter pid name ticket d blank in
    let uid : m.prisoner ≡ ticket.user_id =
      ap (λ (t : Monitor). t.prisoner) (sym same.1) ∙ local.prisoner in
    let range = in_range c ticket.user_id ok in
    record {
      ticket = ticket;
      on_disk = at;
      level = ap (λ (t : Monitor). t.security) (sym same.1) ∙ local.security;
      from = rw uid range.0;
      to = rw uid range.1;
      not_owner = rw uid range.2;
      used = λ one.
          ap (λ (t : Disk). lookup name t.tickets) same.0
          ∙ ap (lookup name) local.tickets
          ∙ used_up name ticket d blank one;
    }

-- The tests that a ticket has passed.
returned_by :
    (c : Settings) (pid : ℕ) (blank : Info) (text : Bytes) (d : Disk) (m : Monitor)
    → (open_ticket c pid blank text d).1 ≡ returned m
    → let name = trim_and_remove_quotes text in
      (ticket : Ticket) × (is_ticket name ≡ true)
      × (lookup name d.tickets ≡ some ticket)
      × (prisoner_refusal c ticket.user_id ≡ none)
      × (open_ticket c pid blank text d ≡ object_of (enter pid name ticket d blank))
unfolding open_ticket
returned_by c pid blank text d m h =
    let name = trim_and_remove_quotes text in
    elim (Option-cases (lookup name d.tickets)) [
      | inl e ↦ absurd (ground arith)
      | inr (ticket, e) ↦ elim (Option-cases (prisoner_refusal c ticket.user_id)) [
        | inl f ↦ (ticket, ground arith, e, f, ground arith)
        | inr (err, f) ↦ absurd (ground arith)
      ]
    ]

pub IsEntry-open_ticket :
    (c : Settings) (pid : ℕ) (blank : Info) (text : Bytes) (d : Disk) (m : Monitor)
    → (open_ticket c pid blank text d).1 ≡ returned m
    → IsEntry c (trim_and_remove_quotes text) d (open_ticket c pid blank text d).0 m
IsEntry-open_ticket c pid blank text d m h =
    let name = trim_and_remove_quotes text in
    let (ticket, form, at, ok, e) = returned_by c pid blank text d m h in
    subst (λ (r : Disk × Outcome Monitor). IsEntry c name d r.0 m) (sym e)
      (IsEntry-enter c pid name ticket d blank m at ok
        (ap (λ (r : Disk × Outcome Monitor). r.1) (sym e) ∙ h))

-- Each ticket that opens a task belongs to a prisoner of the configured range that does not own the
-- home directories.
pub IsWithin-open_ticket :
    (c : Settings) (pid : ℕ) (blank : Info) (text : Bytes) (d : Disk) (m : Monitor)
    → (open_ticket c pid blank text d).1 ≡ returned m
    → (c.min_prisoner ≤ m.prisoner)
      × (m.prisoner ≤ c.max_prisoner)
      × (m.prisoner ≢ c.home_dir_owner_uid)
IsWithin-open_ticket c pid blank text d m h =
    let e = IsEntry-open_ticket c pid blank text d m h in (e.from, e.to, e.not_owner)

missing :
    (c : Settings) (pid : ℕ) (blank : Info) (text : Bytes) (d : Disk)
    → is_ticket (trim_and_remove_quotes text) ≡ true
    → lookup (trim_and_remove_quotes text) d.tickets ≡ none
    → open_ticket c pid blank text d ≡ (d, thrown ticket_not_found)
unfolding open_ticket
missing c pid blank text d form gone = rw (form, gone) refl

one_time : (k : ℕ) → (k ≡ monitor) ⊎ (k ≡ execute) → is_one_time k ≡ true
unfolding is_one_time
one_time k (inl e) = rw e refl
one_time k (inr e) = rw e refl

-- A text that has opened a task with the level monitor or execute opens none again: whoever presents it
-- on the disk that the first opening left is told that the ticket is not found, and the disk stays as it
-- is.
pub open_ticket-twice :
    (c c' : Settings) (pid pid' : ℕ) (blank blank' : Info) (text : Bytes) (d : Disk) (m : Monitor)
    → (open_ticket c pid blank text d).1 ≡ returned m
    → (m.security ≡ monitor) ⊎ (m.security ≡ execute)
    → let after = (open_ticket c pid blank text d).0 in
      open_ticket c' pid' blank' text after ≡ (after, thrown ticket_not_found)
open_ticket-twice c c' pid pid' blank blank' text d m h one =
    let e = IsEntry-open_ticket c pid blank text d m h in
    let (ticket, form, at, ok, q) = returned_by c pid blank text d m h in
    missing c' pid' blank' text (open_ticket c pid blank text d).0 form
      (e.used (subst (λ (k : ℕ). is_one_time k ≡ true) e.level (one_time m.security one)))
