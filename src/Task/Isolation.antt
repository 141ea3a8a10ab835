-- ===== src/Task/Isolation.antt =====
-- What the steps of class processMonitor of src/processMonitor.cpp that only rewrite a task's config
-- leave as it was.
use vpl_jail_system.Prelude.{
  ◌==◌, if◌then◌else◌, ==_iff, Bool-cases, Option-cases, Bytes, ℕ, refl, sym, ap, subst, inl, inr,
  Bool, true, false, not, none, some, arith, ◌≡◌, ◌∙◌, ◌≢◌,
}
use vpl_jail_system.Prelude.Maps.{bytes_eq, nat_eq, lookup, lookup-insert}
use vpl_jail_system.Task.{
  monitor, ExecutionLimits, Info, Dir, Disk, already_monitorized, Outcome, returned, thrown, Store,
  set_info, dir_of, put_dir, config_of, read_info, write_info, chain, update, set_runner,
  set_compiler, monitorize, set_extra_info,
}

-- The object goes on with its task, and nothing but the directory of that task has changed.
pub record IsLocal (s t : Store) : Type 0 where
  pub prisoner : t.me.prisoner ≡ s.me.prisoner
  pub security : t.me.security ≡ s.me.security
  pub tickets : t.disk.tickets ≡ s.disk.tickets
  pub homes : t.disk.homes ≡ s.disk.homes
  pub others : (uid : ℕ) → uid ≢ s.me.prisoner → dir_of uid t.disk ≡ dir_of uid s.disk

pub IsLocal-same : (s : Store) (info : Info) → IsLocal s (set_info info s)
unfolding set_info
IsLocal-same s info = record {
  prisoner = refl;
  security = refl;
  tickets = refl;
  homes = refl;
  others = λ uid n. refl;
}

pub IsLocal-refl : (s : Store) → IsLocal s s
IsLocal-refl s = record {
  prisoner = refl;
  security = refl;
  tickets = refl;
  homes = refl;
  others = λ uid n. refl;
}

pub IsLocal-trans : (s t u : Store) → IsLocal s t → IsLocal t u → IsLocal s u
IsLocal-trans s t u p q = record {
  prisoner = q.prisoner ∙ p.prisoner;
  security = q.security ∙ p.security;
  tickets = q.tickets ∙ p.tickets;
  homes = q.homes ∙ p.homes;
  others = λ uid n. q.others uid (subst (λ (k : ℕ). uid ≢ k) (sym p.prisoner) n) ∙ p.others uid n;
}

pub dir_of-put_dir :
    (uid k : ℕ) (dir : Dir) (d : Disk)
    → dir_of k (put_dir uid dir d) ≡ (if uid == k then some dir else dir_of k d)
unfolding dir_of put_dir
dir_of-put_dir uid k dir d = lookup-insert uid k dir d.tasks

pub config_of-put_dir :
    (uid : ℕ) (dir : Dir) (d : Disk) → config_of uid (put_dir uid dir d) ≡ dir.config
unfolding config_of
config_of-put_dir uid dir d =
    let q = dir_of-put_dir uid uid dir d in let same = (==_iff uid uid).1 refl in ground arith

-- The configs depend on the directories only.
pub config_of-tasks : (uid : ℕ) (d e : Disk) → d.tasks ≡ e.tasks → config_of uid d ≡ config_of uid e
unfolding config_of dir_of
config_of-tasks uid d e h = ap (λ t. elim (lookup uid t) [ none ↦ none | some dir ↦ dir.config ]) h

pub IsLocal-put_dir :
    (s : Store) (dir : Dir) → IsLocal s (record s { disk = put_dir s.me.prisoner dir s.disk })
unfolding put_dir
IsLocal-put_dir s dir = record {
  prisoner = refl;
  security = refl;
  tickets = refl;
  homes = refl;
  others = λ uid n.
      dir_of-put_dir s.me.prisoner uid dir s.disk
      ∙ rw (the_false (s.me.prisoner == uid) (ground arith)) refl;
}
  where
    the_false : (b : Bool) → b ≢ true → b ≡ false
    the_false b h = ground arith

pub IsLocal-read_info : (s : Store) → IsLocal s (read_info s).0
unfolding read_info
IsLocal-read_info s = elim (Option-cases (config_of s.me.prisoner s.disk)) [
  | inl e ↦ rw (read_info, e) (IsLocal-refl s)
  | inr (info, e) ↦ rw (read_info, e) (IsLocal-same s info)
]

pub IsLocal-write_info : (s : Store) → IsLocal s (write_info s).0
unfolding write_info
IsLocal-write_info s = elim (Option-cases (dir_of s.me.prisoner s.disk)) [
  | inl e ↦ rw (write_info, e) (IsLocal-refl s)
  | inr (dir, e) ↦ rw (write_info, e) (IsLocal-put_dir s (record dir { config = some s.me.info }))
]

pub IsLocal-chain :
    {A B : Type 0} (s : Store) (r : Store × Outcome A) (k : Store → Store × Outcome B)
    → IsLocal s r.0
    → ((t : Store) → IsLocal t (k t).0)
    → IsLocal s (chain r k).0
unfolding chain
IsLocal-chain s (t, thrown e) k h hk = h
IsLocal-chain s (t, returned x) k h hk = IsLocal-trans s t (k t).0 h (hk t)

pub IsLocal-write_set : (s : Store) (info : Info) → IsLocal s (write_info (set_info info s)).0
IsLocal-write_set s info =
    IsLocal-trans s (set_info info s) _ (IsLocal-same s info) (IsLocal-write_info (set_info info s))

IsLocal-update : (f : Info → Info) (s : Store) → IsLocal s (update f s).0
unfolding update
IsLocal-update f s =
    IsLocal-chain s (read_info s) _ (IsLocal-read_info s) (λ t. IsLocal-write_set t (f t.me.info))

pub IsLocal-set_runner : (now pid : ℕ) (s : Store) → IsLocal s (set_runner now pid s).0
unfolding set_runner
IsLocal-set_runner now pid s = elim (Bool-cases (s.me.security == monitor)) [
  | inl e ↦ rw e (IsLocal-refl s)
  | inr e ↦ rw e (IsLocal-update (λ i. record i { start_time = now; runner_pid = pid }) s)
]

pub IsLocal-set_compiler : (now pid : ℕ) (s : Store) → IsLocal s (set_compiler now pid s).0
unfolding set_compiler
IsLocal-set_compiler now pid s = elim (Bool-cases (s.me.security == monitor)) [
  | inl e ↦ rw e (IsLocal-refl s)
  | inr e ↦ rw e (IsLocal-update (λ i. record i { start_time = now; compiler_pid = pid }) s)
]

pub IsLocal-set_extra_info :
    (el : ExecutionLimits) (ri : Bool) (lang : Bytes) (s : Store)
    → IsLocal s (set_extra_info el ri lang s).0
unfolding set_extra_info
IsLocal-set_extra_info el ri lang s =
    IsLocal-update (λ i. record i { limits = el; interactive = ri; lang = lang }) s

pub IsLocal-monitorize : (pid : ℕ) (s : Store) → IsLocal s (monitorize pid s).0
unfolding monitorize
IsLocal-monitorize pid s = elim (Bool-cases (s.me.security == monitor)) [
  | inl e ↦ rw e (IsLocal-chain s (read_info s) _ (IsLocal-read_info s) signed_up)
  | inr e ↦ rw e (IsLocal-refl s)
]
  where
    signed_up :
        (t : Store)
        → IsLocal t
            (if not (t.me.info.monitor_pid == 0)
              then (t, thrown already_monitorized)
              else write_info (set_info (record t.me.info { monitor_pid = pid }) t)).0
    signed_up t = elim (Bool-cases (t.me.info.monitor_pid == 0)) [
      | inl e ↦ rw e (IsLocal-write_set t (record t.me.info { monitor_pid = pid }))
      | inr e ↦ rw e (IsLocal-refl t)
    ]
