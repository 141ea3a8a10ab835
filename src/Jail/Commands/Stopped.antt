-- ===== src/Jail/Commands/Stopped.antt =====
-- What commandRunning of src/jail.cpp leaves of a task that does not run any more.
use vpl_jail_system.Task.{Info, Disk, Monitor, Settings, returned, Store, set_info, config_of}
use vpl_jail_system.Task.Tickets.{open_ticket}
use vpl_jail_system.Prelude.{
  Bool-cases, Bytes, ℕ, refl, sym, ap, subst, inl, inr, Bool, false, not, none, some, [], arith,
  ◌≡◌, ◌∙◌, ◌≢◌, ◌⊎◌,
}
use vpl_jail_system.Prelude.Maps.{bytes_eq, nat_eq, lookup}
use vpl_jail_system.Task.State.{
  Seen, Verdict, is, timed_out, judge, get_state, is_stopped, is_running,
}
use vpl_jail_system.Task.Clean.{tickets_of, remove_tickets}
use vpl_jail_system.Task.Clean.Gone.{
  Among, gone-remove_ticket_files, gone-start_cleaning, Named, gone_behind, gone-clean_task,
}
use vpl_jail_system.Jail.Commands.{Cleaning, cleaned, ask_running, command_running}

-- A second cleaning brings no ticket back.
gone_again :
    (c : Settings) (k : Cleaning) (s : Store) (t : Bytes)
    → t ≢ []
    → lookup t s.disk.tickets ≡ none
    → lookup t (cleaned c k s).disk.tickets ≡ none
unfolding cleaned remove_tickets
gone_again c k s t ne h = gone_behind c k.active k.home_gone k.dir_gone s t ne (
    gone-remove_ticket_files t (tickets_of s.me.info) _ ne
      (gone-start_cleaning t s.me.prisoner s.disk ne h))

-- getState reads the config and leaves the disk, or cleans the task.
store-get_state :
    (clean : Store → Store) (w : Seen) (s : Store) (i : Info)
    → config_of s.me.prisoner s.disk ≡ some i
    → ((get_state clean w s).0 ≡ set_info i s) ⊎ ((get_state clean w s).0 ≡ clean (set_info i s))
unfolding get_state
store-get_state clean w s i e = elim (Bool-cases i.cleaning) [
  | inl b ↦ inl (ground arith)
  | inr b ↦ by_verdict (judge w i) refl b
]
  where
    by_verdict :
        (v : Verdict)
        → judge w i ≡ v
        → i.cleaning ≡ false
        → ((get_state clean w s).0 ≡ set_info i s)
          ⊎ ((get_state clean w s).0 ≡ clean (set_info i s))
    by_verdict (is x) q b = inl (ground arith)
    by_verdict timed_out q b = inr (ground arith)

gone-cleaned :
    (c : Settings) (k : Cleaning) (s : Store) (t : Bytes)
    → t ≢ []
    → Among t (tickets_of s.me.info)
    → lookup t (cleaned c k s).disk.tickets ≡ none
unfolding cleaned Named
gone-cleaned c k s t ne m = gone-clean_task c k.active k.home_gone k.dir_gone s t ne (inl m)

Gone : Bytes → Store → Type 0
Gone t s = lookup t s.disk.tickets ≡ none

Gone-cleaned_twice :
    (c : Settings) (k1 k2 : Cleaning) (w : Seen) (s : Store) (i : Info) (t : Bytes)
    → config_of s.me.prisoner s.disk ≡ some i
    → t ≢ []
    → Among t (tickets_of i)
    → Gone t (cleaned c k2 (get_state (cleaned c k1) w s).0)
unfolding Gone set_info
Gone-cleaned_twice c k1 k2 w s i t e ne m = elim (store-get_state (cleaned c k1) w s i e) [
  | inl q ↦
      subst (λ (u : Store). Gone t (cleaned c k2 u)) (sym q)
        (gone-cleaned c k2 (set_info i s) t ne m)
  | inr q ↦
      subst (λ (u : Store). Gone t (cleaned c k2 u)) (sym q)
        (gone_again c k2 (cleaned c k1 (set_info i s)) t ne
          (gone-cleaned c k1 (set_info i s) t ne m))
]

gone-ask_running :
    (c : Settings) (k1 k2 : Cleaning) (w : Seen) (s : Store) (i : Info) (t : Bytes)
    → config_of s.me.prisoner s.disk ≡ some i
    → t ≢ []
    → Among t (tickets_of i)
    → (ask_running c k1 k2 w s).1 ≡ false
    → lookup t (ask_running c k1 k2 w s).0.tickets ≡ none
unfolding ask_running is_running Gone
gone-ask_running c k1 k2 w s i t e ne m h =
    elim (Bool-cases (not (is_stopped (get_state (cleaned c k1) w s).1))) [
      | inl r ↦ absurd (ground arith)
      | inr r ↦ rw r (Gone-cleaned_twice c k1 k2 w s i t e ne m)
    ]

-- When commandRunning is asked with a ticket that opens a task, and answers that the task does not run, no
-- ticket that the task's config named has a file any more, whether or not its processes could be ended
-- and its directories removed; no ticket is the empty text.
pub gone-command_running :
    (pid : ℕ) (c : Settings) (k1 k2 : Cleaning) (w : Seen) (blank : Info) (ticket : Bytes)
    (d d' : Disk) (m : Monitor) (i : Info) (t : Bytes)
    → open_ticket c pid blank ticket d ≡ (d', returned m)
    → config_of m.prisoner d' ≡ some i
    → t ≢ []
    → Among t (tickets_of i)
    → (command_running pid c k1 k2 w blank ticket d).1 ≡ false
    → lookup t (command_running pid c k1 k2 w blank ticket d).0.tickets ≡ none
unfolding command_running
gone-command_running pid c k1 k2 w blank ticket d d' m i t opened e ne among h =
    let s : Store = record { disk = d'; me = m } in
    let runs : command_running pid c k1 k2 w blank ticket d ≡ ask_running c k1 k2 w s =
      rw (command_running, opened) (rw opened refl) in
    let says : (ask_running c k1 k2 w s).1 ≡ false = ap (λ (r : Disk × Bool). r.1) (sym runs) ∙ h in
    ap (λ (r : Disk × Bool). lookup t r.0.tickets) runs
    ∙ gone-ask_running c k1 k2 w s i t e ne among says
