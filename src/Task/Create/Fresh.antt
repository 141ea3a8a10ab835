-- ===== src/Task/Create/Fresh.antt =====
-- What a new task of src/processMonitor.cpp leaves to the others.
use vpl_jail_system.Prelude.{
  Bool-cases, Option-cases, Bytes, str_eq, str_eq_iff, ℕ, zero, suc, refl, sym, ap, inl, inr, true,
  false, none, some, [], arith, ◌+◌, ◌≡◌, ◌∙◌, ◌≢◌, ◌⊎◌,
}
use vpl_jail_system.Prelude.Maps.{bytes_eq, nat_eq, Map, lookup, lookup-insert}
use vpl_jail_system.Task.{
  admin, monitor, execute, Ticket, Disk, Monitor, Settings, Error, Outcome, returned, thrown, Store,
  dir_of, is_some,
}
use vpl_jail_system.Task.Tickets.{prisoner_refusal, object_of}
use vpl_jail_system.Task.Tickets.OneTime.{object_of-returned}
use vpl_jail_system.Task.Isolation.{IsLocal, IsLocal-write_info}
use vpl_jail_system.Task.Create.{
  Failing, select_prisoner, Names, names_at, is_taken, unused_names, write_tickets, new_info, equip,
  first_names, create,
}
use vpl_jail_system.Task.Create.Prisoner.{IsTaken-select_prisoner}

-- No ticket that is there is taken for a new name.
unused-unused_names :
    (fuel : ℕ) (random : ℕ → ℕ) (k : ℕ) (ts : Map Bytes Ticket) (n m : Names)
    → unused_names fuel random k ts n ≡ some m
    → is_taken ts m ≡ false
unfolding unused_names
unused-unused_names zero random k ts n m h = absurd cc
unused-unused_names (suc fuel) random k ts n m h =
    ground (arith, unused-unused_names fuel random (k + 6) ts (names_at random k) m)

lookup-write_tickets :
    (uid : ℕ) (n : Names) (ts : Map Bytes Ticket) (t : Bytes) (x : Ticket)
    → is_taken ts n ≡ false
    → lookup t ts ≡ some x
    → lookup t (write_tickets uid n ts) ≡ some x
unfolding write_tickets
lookup-write_tickets uid n ts t x free there =
    let a : Ticket = record { user_id = uid; security = admin } in
    let b : Ticket = record { user_id = uid; security = monitor } in
    let e : Ticket = record { user_id = uid; security = execute } in
    lookup-insert n.execution_name t e _
    ∙ rw (differs n.execution_name (ground arith)) (
        lookup-insert n.monitor_name t b _
        ∙ rw (differs n.monitor_name (ground arith))
            (lookup-insert n.admin_name t a ts ∙ rw (differs n.admin_name (ground arith)) there))
  where
    differs : (k : Bytes) → is_some (lookup k ts) ≡ false → str_eq k t ≡ false
    differs k h = elim (Bool-cases (str_eq k t)) [
      | inr e ↦ e
      | inl e ↦ let same = ap (λ j. lookup j ts) ((str_eq_iff k t).0 e) in absurd (ground arith)
    ]

-- The store before the config is written.
equipped : ℕ → ℕ → Names → Disk → Store
equipped now uid n d = record {
  disk = record d { tickets = write_tickets uid n d.tickets };
  me = record { prisoner = uid; security = admin; info = new_info now n };
}

IsLocal-equip :
    (now uid : ℕ) (n : Names) (d : Disk) → IsLocal (equipped now uid n d) (equip now uid n d).0
unfolding equip equipped
IsLocal-equip now uid n d = IsLocal-write_info (equipped now uid n d)

tickets-equip :
    (now uid : ℕ) (n : Names) (d : Disk)
    → (equip now uid n d).0.disk.tickets ≡ write_tickets uid n d.tickets
unfolding equipped
tickets-equip now uid n d = (IsLocal-equip now uid n d).tickets

Outcome-cases :
    {A : Type 0} (o : Outcome A) → ((a : A) × (o ≡ returned a)) ⊎ ((e : Error) × (o ≡ thrown e))
Outcome-cases (returned a) = inl (a, refl)
Outcome-cases (thrown e) = inr (e, refl)

-- The steps behind a task that was made.
created_by :
    (c : Settings) (f : Failing) (random : ℕ → ℕ) (fuel now : ℕ) (d : Disk)
    (r : Disk × Outcome Monitor)
    → create c f random fuel now d ≡ some r
    → (m : Monitor) → r.1 ≡ returned m
    → let sel = select_prisoner c f random 3 d in
      (uid : ℕ) × (n : Names) × (sel.outcome ≡ returned uid)
      × (is_taken sel.disk.tickets n ≡ false)
      × (object_of (equip now uid n sel.disk) ≡ r)
unfolding create
created_by c f random fuel now d r h m q =
    let sel = select_prisoner c f random 3 d in
    elim (Outcome-cases sel.outcome) [
      | inr (e, o) ↦ absurd (ground arith)
      | inl (uid, o) ↦
          elim (Option-cases (
            unused_names fuel random (sel.next + 3) sel.disk.tickets
              (first_names random 0 sel.next))) [
                | inl u ↦ absurd (ground arith)
                | inr (n, u) ↦ (
                  uid,
                  n,
                  o,
                  unused-unused_names fuel random _ sel.disk.tickets _ n u,
                  ground arith,
                )
              ]
    ]

-- A task that the constructor has made belongs to a user of the configured range that had no directory
-- before, and has an empty home; the tickets of the other tasks are the files that they were, and so are
-- their directories, and the homes of the users that have a directory.
pub create-keeps :
    (c : Settings) (f : Failing) (random : ℕ → ℕ) (fuel now : ℕ) (d d' : Disk) (m : Monitor)
    → create c f random fuel now d ≡ some (d', returned m)
    → (dir_of m.prisoner d ≡ none)
      × (prisoner_refusal c m.prisoner ≡ none)
      × ((t : Bytes) (x : Ticket) → lookup t d.tickets ≡ some x → lookup t d'.tickets ≡ some x)
      × ((v : ℕ) → v ≢ m.prisoner → dir_of v d' ≡ dir_of v d)
      × (lookup m.prisoner d'.homes ≡ some [])
      × ((v : ℕ) → is_some (dir_of v d) ≡ true → lookup v d'.homes ≡ lookup v d.homes)
unfolding equipped dir_of
create-keeps c f random fuel now d d' m h =
    let (uid, n, selected, free, made) =
      created_by c f random fuel now d (d', returned m) h m refl in
    let sel = select_prisoner c f random 3 d in
    let taken = IsTaken-select_prisoner c f random 3 d uid selected in
    let (disk, me) =
      object_of-returned (equip now uid n sel.disk) m
        (ap (λ (r : Disk × Outcome Monitor). r.1) made) in
    let local = IsLocal-equip now uid n sel.disk in
    let prisoner : m.prisoner ≡ uid = ap (λ (k : Monitor). k.prisoner) (sym me) ∙ local.prisoner in
    let end : (equip now uid n sel.disk).0.disk ≡ d' =
      sym disk ∙ ap (λ (r : Disk × Outcome Monitor). r.0) made in
    let homes : d'.homes ≡ sel.disk.homes = ap (λ (k : Disk). k.homes) (sym end) ∙ local.homes in
    (
      ap (λ (k : ℕ). dir_of k d) prisoner ∙ taken.was_free,
      ap (λ (k : ℕ). prisoner_refusal c k) prisoner ∙ taken.allowed,
      λ t x there.
          ap (λ (k : Disk). lookup t k.tickets) (sym end)
          ∙ ap (lookup t) (tickets-equip now uid n sel.disk)
          ∙ lookup-write_tickets uid n sel.disk.tickets t x free
              (ap (lookup t) taken.tickets ∙ there),
      λ v other.
          let apart : v ≢ uid = λ e. other (e ∙ sym prisoner) in
          ap (dir_of v) (sym end) ∙ local.others v apart ∙ taken.others v apart,
      ap (λ (k : ℕ). lookup k d'.homes) prisoner ∙ ap (lookup uid) homes ∙ taken.home,
      λ v there. ap (lookup v) homes ∙ taken.homes v there,
    )

-- The names that the loop has behind a number of rounds, from those it starts with.
unfoldable pub drawn : (ℕ → ℕ) → ℕ → Names → ℕ → Names
drawn random k n zero = n
drawn random k n (suc j) = drawn random (k + 6) (names_at random k) j
