-- ===== src/Daemon/Forks.antt =====
-- The child with the pid -1 in the table of children of class Daemon of src/vpl-jail-server.h: no step takes it
-- out.
use mathlib.Core.Option.{some-injective}
use vpl_jail_system.Prelude.{
  leb, ◌==◌, Bool-cases, Option-cases, Bytes, codes, All, ℕ, refl, ap, subst, inl, inr, Option,
  none, some, List, [], arith, ◌+◌, ◌*◌, ◌^◌, ◌<◌, ◌≡◌, ◌∙◌, ◌∷◌,
}
use vpl_jail_system.Prelude.Maps.{
  bytes_eq, nat_eq, lookup, erase, lookup_or, lookup-insert, lookup-erase,
}
use vpl_jail_system.Daemon.{
  internal_error, Child, new_child, Daemon, clean_old, is_banned, count_request, process_child_end,
  Wait, all_running, failed, signaled, exited, other, is_empty, harvest_one, harvest, Fork,
  minus_one, pid_of, add_child, Incoming, not_accepted, client, launch, Poll, interrupted,
  poll_failed, nobody, ready, launch_all, accept, periodic_tasks, Round, close_sockets, daemon_of,
  upkeep, loop,
}

-- The child with the pid -1.
unfoldable pub HasFailedFork : Daemon → Type 0
HasFailedFork d = (c : Child) × (lookup minus_one d.children ≡ some c)

-- waitpid returns the pids of processes, which are positive numbers of 32 bits with a sign.
unfoldable pub IsOfProcess : Wait → Type 0
IsOfProcess all_running = Unit
IsOfProcess failed = Unit
IsOfProcess (signaled pid) = pid < 2 ^ 31
IsOfProcess (exited pid es) = pid < 2 ^ 31
IsOfProcess (other pid) = pid < 2 ^ 31

pub children-count_request :
    (ip : Bytes) (es : ℕ) (d : Daemon) → (count_request ip es d).children ≡ d.children
unfolding count_request
children-count_request ip es d = ground arith

pub children-clean_old : (now : ℕ) (d : Daemon) → (clean_old now d).children ≡ d.children
unfolding clean_old
children-clean_old now d = ground arith

pub HasFailedFork-process_child_end :
    (pid es : ℕ) (d : Daemon)
    → pid < 2 ^ 31
    → HasFailedFork d
    → HasFailedFork (process_child_end pid es d)
unfolding HasFailedFork process_child_end
HasFailedFork-process_child_end pid es d h (c, e) = (
  c,
  ap (lookup minus_one) (
        children-count_request (lookup_or new_child pid d.children).ip es
          (record d { children = erase pid d.children }))
      ∙ lookup-erase pid minus_one d.children
      ∙ ground arith,
)

pub HasFailedFork-add_child :
    (f : Fork) (ip : Bytes) (now : ℕ) (d : Daemon)
    → HasFailedFork d
    → HasFailedFork (add_child f ip now d)
unfolding HasFailedFork add_child
HasFailedFork-add_child f ip now d (c, e) = elim (Bool-cases (pid_of f == minus_one)) [
  | inl b ↦ (record { ip = ip; start = now }, lookup-insert _ _ _ _ ∙ rw b refl)
  | inr b ↦ (c, lookup-insert _ _ _ _ ∙ rw b e)
]

pub HasFailedFork-harvest_one :
    (w : Wait) (d : Daemon) → IsOfProcess w → HasFailedFork d → HasFailedFork (harvest_one w d).0
unfolding harvest_one IsOfProcess HasFailedFork
HasFailedFork-harvest_one all_running d p h = h
HasFailedFork-harvest_one failed d p h = h
HasFailedFork-harvest_one (signaled pid) d p h =
    HasFailedFork-process_child_end pid internal_error (record d { requests = d.requests + 1 }) p h
HasFailedFork-harvest_one (exited pid es) d p h =
    HasFailedFork-process_child_end pid es (record d { requests = d.requests + 1 }) p h
HasFailedFork-harvest_one (other pid) d p h = h

pub HasFailedFork-harvest :
    (ws : List Wait) (d : Daemon)
    → All IsOfProcess ws
    → HasFailedFork d
    → HasFailedFork (harvest ws d)
unfolding harvest
HasFailedFork-harvest [] d p h = h
HasFailedFork-harvest (w ∷ ws) d p h =
    let h1 = HasFailedFork-harvest_one w d p.0 h in
    let h2 = HasFailedFork-harvest ws (harvest_one w d).0 p.1 h1 in
    elim (Bool-cases (is_empty d.children)) [
      | inl e ↦ rw e h
      | inr e ↦ elim (Bool-cases (harvest_one w d).1) [
        | inl m ↦ rw (e, m) h2
        | inr m ↦ rw (e, m) h1
      ]
    ]

pub HasFailedFork-launch :
    (now : ℕ) (c : Incoming) (d : Daemon) → HasFailedFork d → HasFailedFork (launch now c d)
unfolding launch is_banned HasFailedFork
HasFailedFork-launch now not_accepted d h = h
HasFailedFork-launch now (client ip f) d (c, e) =
    let d' = clean_old now d in
    let kept : lookup minus_one d'.children ≡ some c =
      ap (lookup minus_one) (children-clean_old now d) ∙ e in
    elim (Bool-cases (is_banned now ip d).1) [
      | inl b ↦ rw b (
        c,
        ap (lookup minus_one)
              (children-count_request ip internal_error (record d' { rejected = d'.rejected + 1 }))
            ∙ kept,
      )
      | inr b ↦ rw b (HasFailedFork-add_child f ip now d' (c, kept))
    ]

pub HasFailedFork-launch_all :
    (now : ℕ) (cs : List (Option Incoming)) (d : Daemon)
    → HasFailedFork d
    → HasFailedFork (launch_all now cs d)
unfolding launch_all
HasFailedFork-launch_all now [] d h = h
HasFailedFork-launch_all now (none ∷ cs) d h = HasFailedFork-launch_all now cs d h
HasFailedFork-launch_all now (some c ∷ cs) d h =
    HasFailedFork-launch_all now cs (launch now c d) (HasFailedFork-launch now c d h)

pub HasFailedFork-periodic_tasks :
    (now : ℕ) (f : Fork) (d : Daemon) → HasFailedFork d → HasFailedFork (periodic_tasks now f d)
unfolding periodic_tasks HasFailedFork
HasFailedFork-periodic_tasks now f d h = elim (Bool-cases (leb d.next_check now)) [
  | inl e ↦
      rw e (
        HasFailedFork-add_child f (codes "127.0.0.1") now (record d { next_check = now + 5 * 60 })
          h)
  | inr e ↦ rw e h
]

pub HasFailedFork-accept :
    (now : ℕ) (p : Poll) (d d' : Daemon)
    → accept now p d ≡ some d'
    → HasFailedFork d
    → HasFailedFork d'
unfolding accept
HasFailedFork-accept now interrupted d d' e h = subst HasFailedFork (some-injective _ _ e) h
HasFailedFork-accept now poll_failed d d' e h = absurd cc
HasFailedFork-accept now nobody d d' e h = subst HasFailedFork (some-injective _ _ e) h
HasFailedFork-accept now (ready cs) d d' e h =
    subst HasFailedFork (some-injective _ _ e) (HasFailedFork-launch_all now cs d h)

-- The child with the pid -1 stays over any rounds.
pub HasFailedFork-loop :
    (es : List Round) (d : Daemon)
    → All (λ (e : Round). All IsOfProcess e.waits) es
    → HasFailedFork d
    → HasFailedFork (daemon_of (loop es d))
unfolding loop close_sockets upkeep HasFailedFork
HasFailedFork-loop [] d p h = h
HasFailedFork-loop (e ∷ es) d p h = elim (Bool-cases e.finish) [
  | inl f ↦ rw f h
  | inr f ↦ elim (Option-cases (accept e.now e.polled d)) [
    | inl a ↦ rw (f, a) h
    | inr (d', a) ↦
        rw (f, a)
          (HasFailedFork-loop es (upkeep e d') p.1 (
            HasFailedFork-periodic_tasks e.now e.periodic _ (
              HasFailedFork-harvest e.waits d' p.0 (HasFailedFork-accept e.now e.polled d d' a h))))
  ]
]
