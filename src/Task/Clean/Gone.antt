-- ===== src/Task/Clean/Gone.antt =====
-- What cleanTask of src/processMonitor.cpp leaves of a task.
use vpl_jail_system.Prelude.{
  leb, if◌then◌else◌, ==_iff, Option-cases, Bytes, str_eq, str_eq_iff, ℕ, refl, sym, ap, inl, inr,
  Bool, true, false, none, some, List, [], arith, ◌≡◌, ◌∙◌, ◌≢◌, ◌⊎◌, ◌&&◌, ◌∷◌,
}
use vpl_jail_system.Prelude.Maps.{bytes_eq, nat_eq, Map, lookup, erase, lookup-erase}
use vpl_jail_system.Task.{
  Ticket, Info, Disk, Monitor, Settings, Store, dir_of, put_dir, config_of, set_config,
}
use vpl_jail_system.Task.Isolation.{config_of-put_dir, config_of-tasks}
use vpl_jail_system.Task.State.{stopped, Seen, get_state}
use mathlib.Core.Option.{some-injective}
use vpl_jail_system.Task.Clean.{
  remove_ticket_file, remove_ticket_files, tickets_of, remove_tickets, start_cleaning,
  clean_prisoner_files, clean_task,
}

-- The text is one of the list.
unfoldable pub Among : Bytes → List Bytes → Type 0
Among t [] = ⊥
Among t (x ∷ more) = (t ≡ x) ⊎ Among t more

lookup-remove_ticket_file :
    (t ticket : Bytes) (ts : Map Bytes Ticket)
    → t ≢ []
    → lookup t (remove_ticket_file ticket ts) ≡ (if str_eq ticket t then none else lookup t ts)
unfolding remove_ticket_file
lookup-remove_ticket_file t ticket ts ne =
    ground (arith, lookup-erase ticket t ts, str_eq_iff ticket t, str_eq_iff ticket [])

-- A file of a ticket that is not there is not made.
gone-remove_ticket_file :
    (t ticket : Bytes) (ts : Map Bytes Ticket)
    → t ≢ []
    → lookup t ts ≡ none
    → lookup t (remove_ticket_file ticket ts) ≡ none
gone-remove_ticket_file t ticket ts ne h = ground (arith, lookup-remove_ticket_file t ticket ts ne)

removed : (t : Bytes) (ts : Map Bytes Ticket) → t ≢ [] → lookup t (remove_ticket_file t ts) ≡ none
removed t ts ne = lookup-remove_ticket_file t t ts ne ∙ rw (str_eq_iff t t).1 refl

pub gone-remove_ticket_files :
    (t : Bytes) (l : List Bytes) (ts : Map Bytes Ticket)
    → t ≢ []
    → lookup t ts ≡ none
    → lookup t (remove_ticket_files l ts) ≡ none
unfolding remove_ticket_files
gone-remove_ticket_files t [] ts ne h = h
gone-remove_ticket_files t (x ∷ l) ts ne h =
    gone-remove_ticket_files t l _ ne (gone-remove_ticket_file t x ts ne h)

removed-remove_ticket_files :
    (t : Bytes) (l : List Bytes) (ts : Map Bytes Ticket)
    → t ≢ []
    → Among t l
    → lookup t (remove_ticket_files l ts) ≡ none
unfolding remove_ticket_files Among
removed-remove_ticket_files t [] ts ne m = elim m [ ]
removed-remove_ticket_files t (x ∷ l) ts ne (inl e) =
    gone-remove_ticket_files t l _ ne (rw⁻¹ e (removed t ts ne))
removed-remove_ticket_files t (x ∷ l) ts ne (inr m) =
    removed-remove_ticket_files t l (remove_ticket_file x ts) ne m

tickets-set_config : (uid : ℕ) (i : Info) (d : Disk) → (set_config uid i d).tickets ≡ d.tickets
unfolding set_config put_dir
tickets-set_config uid i d = ground arith

-- A directory that has a config has the new one.
config_of-set_config :
    (uid : ℕ) (i j : Info) (d : Disk)
    → config_of uid d ≡ some j
    → config_of uid (set_config uid i d) ≡ some i
unfolding config_of set_config
config_of-set_config uid i j d h = elim (Option-cases (dir_of uid d)) [
  | inl e ↦ absurd (ground arith)
  | inr (dir, e) ↦ rw (set_config, e) (config_of-put_dir uid (record dir { config = some i }) d)
]

pub gone-start_cleaning :
    (t : Bytes) (uid : ℕ) (d : Disk)
    → t ≢ []
    → lookup t d.tickets ≡ none
    → lookup t (start_cleaning uid d).tickets ≡ none
unfolding start_cleaning remove_tickets
gone-start_cleaning t uid d ne h = elim (Option-cases (config_of uid d)) [
  | inl e ↦ rw (start_cleaning, e) h
  | inr (i, e) ↦
      rw (start_cleaning, e)
        (ap (lookup t) (tickets-set_config _ _ _)
          ∙ gone-remove_ticket_files t (tickets_of i) d.tickets ne h)
]

removed-start_cleaning :
    (t : Bytes) (uid : ℕ) (i : Info) (d : Disk)
    → t ≢ []
    → config_of uid d ≡ some i
    → Among t (tickets_of i)
    → lookup t (start_cleaning uid d).tickets ≡ none
unfolding start_cleaning remove_tickets
removed-start_cleaning t uid i d ne e m =
    rw (start_cleaning, e)
      (ap (lookup t) (tickets-set_config _ _ _)
        ∙ removed-remove_ticket_files t (tickets_of i) d.tickets ne m)

gone-clean_prisoner_files :
    (c : Settings) (hg dg : Bool) (t : Bytes) (uid : ℕ) (d : Disk)
    → t ≢ []
    → lookup t d.tickets ≡ none
    → lookup t (clean_prisoner_files c hg dg uid d).tickets ≡ none
unfolding clean_prisoner_files
gone-clean_prisoner_files c hg dg t uid d ne h =
    let q = gone-start_cleaning t uid d ne h in ground arith

-- A config that is left says that the task is being cleaned.
pub IsCleaning : ℕ → Disk → Type 0
IsCleaning uid d = (i : Info) → config_of uid d ≡ some i → i.cleaning ≡ true

-- Nothing makes a config.
config_of-start_cleaning :
    (uid : ℕ) (d : Disk) (i : Info)
    → config_of uid (start_cleaning uid d) ≡ some i
    → i.cleaning ≡ true
unfolding start_cleaning config_of dir_of
config_of-start_cleaning uid d i h = elim (Option-cases (config_of uid d)) [
  | inl e ↦ let kept = ap (config_of uid) (sym (unchanged e)) ∙ h in absurd cc
  | inr (j, e) ↦
      let new : config_of uid (start_cleaning uid d) ≡ some (record j { cleaning = true }) =
        rw (start_cleaning, e)
          (config_of-set_config uid (record j { cleaning = true }) j
            (record d { tickets = remove_tickets j d.tickets }) e) in
      ap (λ (k : Info). k.cleaning) (some-injective _ _ (sym h ∙ new))
]
  where
    unchanged : config_of uid d ≡ none → start_cleaning uid d ≡ d
    unchanged e = rw (start_cleaning, e) refl

config_of-erased :
    (uid : ℕ) (d : Disk) → config_of uid (record d { tasks = erase uid d.tasks }) ≡ none
unfolding config_of dir_of
config_of-erased uid d =
    let q = lookup-erase uid uid d.tasks in let same = (==_iff uid uid).1 refl in ground arith

IsCleaning-clean_prisoner_files :
    (c : Settings) (hg dg : Bool) (uid : ℕ) (d : Disk)
    → IsCleaning uid (clean_prisoner_files c hg dg uid d)
unfolding IsCleaning clean_prisoner_files
IsCleaning-clean_prisoner_files c hg true uid d i h =
    let q = config_of-erased uid (
      if leb c.log_level 7 && hg
      then record (start_cleaning uid d) { homes = erase uid (start_cleaning uid d).homes }
      else start_cleaning uid d) in
    absurd cc
IsCleaning-clean_prisoner_files c hg false uid d i h =
    config_of-start_cleaning uid d i (config_of-tasks uid _ _ (ground arith) ∙ h)

IsCleaning-clean_task :
    (c : Settings) (active hg dg : Bool) (s : Store)
    → IsCleaning s.me.prisoner (clean_task c active hg dg s).disk
unfolding clean_task IsCleaning
IsCleaning-clean_task c true hg dg s i h =
    config_of-start_cleaning s.me.prisoner s.disk i (config_of-tasks _ _ _ refl ∙ h)
IsCleaning-clean_task c false hg dg s i h =
    IsCleaning-clean_prisoner_files c hg dg s.me.prisoner _ i h

-- After cleanTask the task is stopped for whoever asks, whether or not its processes could be ended and
-- its directories removed.
pub get_state-clean_task :
    (c : Settings) (active hg dg : Bool) (again : Store → Store) (w : Seen) (s : Store)
    (m : Monitor)
    → m.prisoner ≡ s.me.prisoner
    → (get_state again w (record { disk = (clean_task c active hg dg s).disk; me = m })).1 ≡ stopped
unfolding get_state IsCleaning
get_state-clean_task c active hg dg again w s m p =
    let after = (clean_task c active hg dg s).disk in
    elim (Option-cases (config_of m.prisoner after)) [
      | inl e ↦ rw (get_state, e) refl
      | inr (i, e) ↦
          let cleaned =
            IsCleaning-clean_task c active hg dg s i (ap (λ k. config_of k after) (sym p) ∙ e) in
          ground arith
    ]

-- The tickets that the config of the task names, and those that the object knows.
unfoldable pub Named : Bytes → Store → Type 0
Named t s =
    Among t (tickets_of s.me.info)
    ⊎ ((i : Info) × (config_of s.me.prisoner s.disk ≡ some i) × Among t (tickets_of i))

pub gone_behind :
    (c : Settings) (active hg dg : Bool) (s : Store) (t : Bytes)
    → t ≢ []
    → lookup t (remove_tickets s.me.info (start_cleaning s.me.prisoner s.disk).tickets) ≡ none
    → lookup t (clean_task c active hg dg s).disk.tickets ≡ none
unfolding clean_task
gone_behind c true hg dg s t ne q = q
gone_behind c false hg dg s t ne q =
    let d1 = start_cleaning s.me.prisoner s.disk in
    gone-clean_prisoner_files c hg dg t s.me.prisoner
      (record d1 { tickets = remove_tickets s.me.info d1.tickets }) ne q

-- After cleanTask there is no file for any ticket that the task's config or the object names, whether
-- or not its processes could be ended and its directories removed; no ticket is the empty text.
pub gone-clean_task :
    (c : Settings) (active hg dg : Bool) (s : Store) (t : Bytes)
    → t ≢ []
    → Named t s
    → lookup t (clean_task c active hg dg s).disk.tickets ≡ none
unfolding remove_tickets Named
gone-clean_task c active hg dg s t ne (inl m) = gone_behind c active hg dg s t ne (
    removed-remove_ticket_files t (tickets_of s.me.info)
      (start_cleaning s.me.prisoner s.disk).tickets ne m)
gone-clean_task c active hg dg s t ne (inr (i, e, m)) = gone_behind c active hg dg s t ne (
    gone-remove_ticket_files t (tickets_of s.me.info) _ ne
      (removed-start_cleaning t s.me.prisoner i s.disk ne e m))
