-- ===== src/Daemon/FailedForks.antt =====
-- The table of children of class Daemon of src/vpl-jail-server.h when fork has failed: launch and
-- periodicTasks take the -1 for a pid.
use vpl_jail_system.Prelude.{
  leb, Bytes, codes, All, ℕ, sym, ap, subst, inl, inr, true, false, Option, none, some, List, [],
  ◌≡◌, ◌⊎◌, ◌∷◌, ◌++◌,
}
use vpl_jail_system.Prelude.Maps.{bytes_eq, nat_eq, lookup-insert}
use vpl_jail_system.Daemon.{
  Daemon, is_banned, harvest, fork_failed, add_child, Incoming, client, launch, ready, launch_all,
  accept, periodic_tasks, Round, daemon_of, upkeep, loop,
}
use vpl_jail_system.Daemon.Forks.{
  HasFailedFork, IsOfProcess, HasFailedFork-harvest, HasFailedFork-launch_all,
  HasFailedFork-periodic_tasks, HasFailedFork-loop,
}

-- launch adds the child of a fork that fails, for an address that is not banned.
HasFailedFork-launch_fails :
    (now : ℕ) (ip : Bytes) (d : Daemon)
    → (is_banned now ip d).1 ≡ false
    → HasFailedFork (launch now (client ip fork_failed) d)
unfolding launch is_banned HasFailedFork add_child
HasFailedFork-launch_fails now ip d b =
    rw b (record { ip = ip; start = now }, lookup-insert _ _ _ _)

HasFailedFork-launch_all_fails :
    (now : ℕ) (before after : List (Option Incoming)) (ip : Bytes) (d : Daemon)
    → (is_banned now ip (launch_all now before d)).1 ≡ false
    → HasFailedFork (launch_all now (before ++ (some (client ip fork_failed) ∷ after)) d)
unfolding launch_all
HasFailedFork-launch_all_fails now [] after ip d b =
    HasFailedFork-launch_all now after _ (HasFailedFork-launch_fails now ip d b)
HasFailedFork-launch_all_fails now (none ∷ before) after ip d b =
    HasFailedFork-launch_all_fails now before after ip d b
HasFailedFork-launch_all_fails now (some c ∷ before) after ip d b =
    HasFailedFork-launch_all_fails now before after ip (launch now c d) b

-- In a round that the loop goes through, a fork fails: that of launch for a client, who is not banned when
-- his turn has come, or that of periodicTasks, which is due.
unfoldable pub ForkFails : Round → Daemon → Type 0
ForkFails e d =
    (e.finish ≡ false)
    × (((before : List (Option Incoming)) × (ip : Bytes) × (after : List (Option Incoming))
          × (e.polled ≡ ready (before ++ (some (client ip fork_failed) ∷ after)))
          × ((is_banned e.now ip (launch_all e.now before d)).1 ≡ false))
        ⊎ ((d' : Daemon) × (accept e.now e.polled d ≡ some d')
            × (leb (harvest e.waits d').next_check e.now ≡ true)
            × (e.periodic ≡ fork_failed)))

HasFailedFork-periodic_fails :
    (now : ℕ) (d : Daemon)
    → leb d.next_check now ≡ true
    → HasFailedFork (periodic_tasks now fork_failed d)
unfolding periodic_tasks HasFailedFork add_child
HasFailedFork-periodic_fails now d b =
    rw b (record { ip = codes "127.0.0.1"; start = now }, lookup-insert _ _ _ _)

HasFailedFork-round :
    (e : Round) (es : List Round) (d d' : Daemon)
    → e.finish ≡ false
    → accept e.now e.polled d ≡ some d'
    → All (λ (r : Round). All IsOfProcess r.waits) es
    → HasFailedFork (upkeep e d')
    → HasFailedFork (daemon_of (loop (e ∷ es) d))
unfolding loop
HasFailedFork-round e es d d' go a p h = rw (go, a) (HasFailedFork-loop es (upkeep e d') p h)

-- After a round in which a fork fails, of launch for a client who is not banned when his turn comes, or of
-- periodicTasks when it is due, and any rounds behind it, in all of which waitpid returns pids of
-- processes: the table of children holds a child with the pid -1.
pub HasFailedFork-failed_round :
    (e : Round) (es : List Round) (d : Daemon)
    → ForkFails e d
    → All (λ (r : Round). All IsOfProcess r.waits) (e ∷ es)
    → HasFailedFork (daemon_of (loop (e ∷ es) d))
unfolding upkeep ForkFails accept
HasFailedFork-failed_round e es d (go, inl (before, ip, after, polled, b)) p =
    let d' = launch_all e.now (before ++ (some (client ip fork_failed) ∷ after)) d in
    let a : accept e.now e.polled d ≡ some d' = ap (λ q. accept e.now q d) polled in
    HasFailedFork-round e es d d' go a p.1 (
      HasFailedFork-periodic_tasks e.now e.periodic _ (
        HasFailedFork-harvest e.waits d' p.0
          (HasFailedFork-launch_all_fails e.now before after ip d b)))
HasFailedFork-failed_round e es d (go, inr (d', a, due, fails)) p =
    let h = HasFailedFork-periodic_fails e.now (harvest e.waits d') due in
    HasFailedFork-round e es d d' go a p.1
      (subst (λ f. HasFailedFork (periodic_tasks e.now f (harvest e.waits d'))) (sym fails) h)
