-- ===== src/Task/Create/Prisoner.antt =====
-- The user that selectPrisoner of src/processMonitor.cpp takes for a new task.
use vpl_jail_system.Prelude.{
  ltb, ◌==◌, if◌then◌else◌, ==_iff, Bool-cases, Option-cases, ℕ, zero, suc, refl, sym, ap, subst,
  inl, inr, Bool, true, false, none, some, [], arith, ◌+◌, ◌-◌, ◌%◌, ◌≡◌, ◌∙◌, ◌≢◌, ◌||◌,
}
use vpl_jail_system.Prelude.Maps.{
  bytes_eq, nat_eq, lookup, insert, erase, lookup-insert, lookup-erase,
}
use vpl_jail_system.Task.{
  Disk, Settings, prisoner_range_too_small, prisoner_range_out_of_limits, no_home_dir, no_owner,
  no_permissions, returned, thrown, dir_of, put_dir, is_some,
}
use vpl_jail_system.Task.Tickets.{prisoner_refusal}
use vpl_jail_system.Task.Create.{
  jail_min_prisoner_uid, jail_max_prisoner_uid, Failing, Selected, abs_sum, make_home, remove_home,
  empty_dir, Try, again, done, try_home, try_prisoner, select_loop, select_prisoner,
}

-- The directories and the tickets are the same, and so are the homes of those who have a directory.
record IsSame (d d' : Disk) : Type 0 where
  dirs : (uid : ℕ) → dir_of uid d' ≡ dir_of uid d
  homes : (v : ℕ) → is_some (dir_of v d) ≡ true → lookup v d'.homes ≡ lookup v d.homes
  tickets : d'.tickets ≡ d.tickets

-- The user was free and has an empty directory and an empty home now; no other directory, ticket or home of
-- one who has a directory has changed.
pub record IsTaken (c : Settings) (d : Disk) (d' : Disk) (uid : ℕ) : Type 0 where
  pub allowed : prisoner_refusal c uid ≡ none
  pub was_free : dir_of uid d ≡ none
  pub is_there : dir_of uid d' ≡ some empty_dir
  pub home : lookup uid d'.homes ≡ some []
  pub homes : (v : ℕ) → is_some (dir_of v d) ≡ true → lookup v d'.homes ≡ lookup v d.homes
  pub others : (v : ℕ) → v ≢ uid → dir_of v d' ≡ dir_of v d
  pub tickets : d'.tickets ≡ d.tickets

dir_of-erase :
    (uid v : ℕ) (d : Disk)
    → dir_of v (record d { tasks = erase uid d.tasks }) ≡ (if uid == v then none else dir_of v d)
unfolding dir_of
dir_of-erase uid v d = lookup-erase uid v d.tasks

apart_of_dirs :
    (uid v : ℕ) (d : Disk) → dir_of uid d ≡ none → is_some (dir_of v d) ≡ true → (uid == v) ≡ false
apart_of_dirs uid v d free there = elim (Bool-cases (uid == v)) [
  | inr e ↦ e
  | inl e ↦ let same = ap (λ (k : ℕ). dir_of k d) ((==_iff uid v).0 e) in absurd (ground arith)
]

-- A control directory that is made and removed again leaves what was there.
IsSame-undone :
    (uid : ℕ) (d : Disk)
    → dir_of uid d ≡ none
    → let p = remove_home uid (put_dir uid empty_dir d) in
      IsSame d (record p { tasks = erase uid p.tasks })
unfolding remove_home put_dir dir_of
IsSame-undone uid d free = record {
  dirs = λ v.
      let erased = lookup-erase uid v (insert uid empty_dir d.tasks) in
      let put = lookup-insert uid v empty_dir d.tasks in
      let same = ==_iff uid v in
      elim (Bool-cases (uid == v)) [
        | inl e ↦ erased ∙ rw e (sym (subst (λ (k : ℕ). dir_of k d ≡ none) (same.0 e) free))
        | inr e ↦ erased ∙ rw e (put ∙ rw e refl)
      ];
  homes = λ v there. lookup-erase uid v d.homes ∙ rw (apart_of_dirs uid v d free there) refl;
  tickets = refl;
}

-- What a try has done.
GoodTry : Settings → Disk → Try → Type 0
GoodTry c d (again d') = IsSame d d'
GoodTry c d (done d' (thrown e)) = Unit
GoodTry c d (done d' (returned u)) = IsTaken c d d' u

IsTaken-put_dir :
    (c : Settings) (uid : ℕ) (d : Disk)
    → prisoner_refusal c uid ≡ none
    → dir_of uid d ≡ none
    → IsTaken c d (make_home uid (put_dir uid empty_dir d)) uid
unfolding make_home dir_of put_dir
IsTaken-put_dir c uid d ok free = record {
  allowed = ok;
  was_free = free;
  is_there = lookup-insert uid uid empty_dir d.tasks ∙ rw ((==_iff uid uid).1 refl) refl;
  home = lookup-insert uid uid [] d.homes ∙ rw ((==_iff uid uid).1 refl) refl;
  homes = λ v there. lookup-insert uid v [] d.homes ∙ rw (apart_of_dirs uid v d free there) refl;
  others = λ v n. lookup-insert uid v empty_dir d.tasks ∙ elim (Bool-cases (uid == v)) [
    | inl e ↦ absurd (n (sym ((==_iff uid v).0 e)))
    | inr e ↦ rw e refl
  ];
  tickets = refl;
}

GoodTry-try_home :
    (c : Settings) (f : Failing) (uid : ℕ) (d : Disk)
    → prisoner_refusal c uid ≡ none
    → dir_of uid d ≡ none
    → GoodTry c d (try_home f uid (put_dir uid empty_dir d))
unfolding try_home GoodTry put_dir remove_home
GoodTry-try_home c f uid d ok free =
    by_home (is_some (lookup uid (put_dir uid empty_dir d).homes)) (f.mkdir_home uid)
      (f.chown_home uid) (f.chmod_home uid)
  where
    d1 : Disk
    d1 = put_dir uid empty_dir d

    by_home :
        (h a b e : Bool)
        → GoodTry c d (
            if h
            then again (record (remove_home uid d1) { tasks = erase uid d1.tasks })
            else if a
            then done d1 (thrown no_home_dir)
            else if b
            then done d1 (thrown no_owner)
            else if e
            then done d1 (thrown no_permissions)
            else done (make_home uid d1) (returned uid))
    by_home true a b e = IsSame-undone uid d free
    by_home false true b e = tt
    by_home false false true e = tt
    by_home false false false true = tt
    by_home false false false false = IsTaken-put_dir c uid d ok free

GoodTry-try_prisoner :
    (c : Settings) (f : Failing) (uid : ℕ) (d : Disk) → GoodTry c d (try_prisoner c f uid d)
unfolding try_prisoner GoodTry
GoodTry-try_prisoner c f uid d = elim (Option-cases (prisoner_refusal c uid)) [
  | inr (e, r) ↦ rw (try_prisoner, r) tt
  | inl ok ↦ elim (Option-cases (dir_of uid d)) [
    | inr (dir, there) ↦
        rw (try_prisoner, ok, there)
          (record { dirs = λ v. refl; homes = λ v h. refl; tickets = refl })
    | inl free ↦ elim (Bool-cases (f.mkdir_control uid)) [
      | inl no_dir ↦ rw (try_prisoner, ok, free, no_dir) tt
      | inr made ↦ rw (try_prisoner, ok, free, made) (GoodTry-try_home c f uid d ok free)
    ]
  ]
]

-- What is taken behind a try that has changed nothing was free before it.
IsTaken-behind :
    (c : Settings) (d d1 d2 : Disk) (uid : ℕ)
    → IsSame d d1
    → IsTaken c d1 d2 uid
    → IsTaken c d d2 uid
IsTaken-behind c d d1 d2 uid same t = record {
  allowed = t.allowed;
  was_free = sym (same.dirs uid) ∙ t.was_free;
  is_there = t.is_there;
  home = t.home;
  homes = λ v there. t.homes v (ap is_some (same.dirs v) ∙ there) ∙ same.homes v there;
  others = λ v n. t.others v n ∙ same.dirs v;
  tickets = t.tickets ∙ same.tickets;
}

IsTaken-select_loop :
    (c : Settings) (f : Failing) (random : ℕ → ℕ) (range n i k : ℕ) (d : Disk) (uid : ℕ)
    → (select_loop c f random range n i k d).outcome ≡ returned uid
    → IsTaken c d (select_loop c f random range n i k d).disk uid
unfolding select_loop GoodTry
IsTaken-select_loop c f random range zero i k d uid h = absurd cc
IsTaken-select_loop c f random range (suc n) i k d uid h =
    by_try (try_prisoner c f v d) (GoodTry-try_prisoner c f v d)
      (λ d'. IsTaken-select_loop c f random range n (i + 1) (k + 1) d' uid) h
  where
    v : ℕ
    v = c.min_prisoner + abs_sum (random k) i % range

    next : Try → Selected
    next t = elim t [
      | again d' ↦ select_loop c f random range n (i + 1) (k + 1) d'
      | done d' o ↦ record { disk = d'; next = k + 1; outcome = o }
    ]

    Later : Type 0
    Later =
        (d' : Disk)
        → (select_loop c f random range n (i + 1) (k + 1) d').outcome ≡ returned uid
        → IsTaken c d' (select_loop c f random range n (i + 1) (k + 1) d').disk uid

    by_try :
        (t : Try)
        → GoodTry c d t
        → Later
        → (next t).outcome ≡ returned uid
        → IsTaken c d (next t).disk uid
    by_try (again d') g ih e = IsTaken-behind c d d' _ uid g (ih d' e)
    by_try (done d' (thrown x)) g ih e = absurd cc
    by_try (done d' (returned u)) g ih e =
        let same : u ≡ uid = cc in subst (λ (j : ℕ). IsTaken c d d' j) same g

-- selectPrisoner takes a user that was free, gives it an empty directory and an empty home, and leaves the
-- tickets, the directories of the other users and the homes of those that have one as they were.
pub IsTaken-select_prisoner :
    (c : Settings) (f : Failing) (random : ℕ → ℕ) (k : ℕ) (d : Disk) (uid : ℕ)
    → (select_prisoner c f random k d).outcome ≡ returned uid
    → IsTaken c d (select_prisoner c f random k d).disk uid
unfolding select_prisoner
IsTaken-select_prisoner c f random k d uid h =
    by_range (ltb range 100)
      (ltb c.min_prisoner jail_min_prisoner_uid || ltb jail_max_prisoner_uid c.max_prisoner) h
  where
    range : ℕ
    range = c.max_prisoner + 1 - c.min_prisoner

    chosen : Bool → Bool → Selected
    chosen a b =
        if a
        then record { disk = d; next = k; outcome = thrown prisoner_range_too_small }
        else if b
        then record { disk = d; next = k; outcome = thrown prisoner_range_out_of_limits }
        else select_loop c f random range range 0 k d

    by_range :
        (a b : Bool) → (chosen a b).outcome ≡ returned uid → IsTaken c d (chosen a b).disk uid
    by_range true b e = absurd cc
    by_range false true e = absurd cc
    by_range false false e = IsTaken-select_loop c f random range range 0 k d uid e
