-- ===== src/Daemon/Counts.antt =====
-- The statistics of class Daemon of src/vpl-jail-server.h over the whole loop.
use vpl_jail_system.Prelude.{
  ltb, leb, Bool-cases, Option-cases, Bytes, ℕ, subst, inl, inr, Option, none, some, List, [],
  arith, ◌+◌, ◌≤◌, ◌<◌, ◌≡◌, ◌∷◌,
}
use mathlib.Core.Option.{some-injective}
use vpl_jail_system.Prelude.Maps.{
  bytes_eq, nat_eq, Map, lookup, insert, erase, lookup_or, lookup-insert,
}
use vpl_jail_system.Daemon.{
  internal_error, Log, new_log, new_child, Daemon, clean_old, is_banned, logged, count_request,
  process_child_end, Wait, all_running, failed, signaled, exited, other, harvest_one, harvest, Fork,
  add_child, Incoming, not_accepted, client, launch, Poll, interrupted, poll_failed, nobody, ready,
  launch_all, accept, periodic_tasks, Round, close_sockets, daemon_of, upkeep, loop,
}

-- No address, and not the server as a whole, has more errors than requests; a rejected client is one
-- that is counted as an error but not as a request.
unfoldable pub LogsAreCounts : Map Bytes Log → Type 0
LogsAreCounts logs = (ip : Bytes) (l : Log) → lookup ip logs ≡ some l → l.errors ≤ l.requests

pub record IsCounting (d : Daemon) : Type 0 where
  pub by_address : LogsAreCounts d.logs
  pub overall : d.errors ≤ d.requests + d.rejected

LogsAreCounts-empty : LogsAreCounts []
unfolding LogsAreCounts lookup
LogsAreCounts-empty ip l e = absurd cc

LogsAreCounts-insert :
    (ip : Bytes) (l : Log) (m : Map Bytes Log)
    → l.errors ≤ l.requests
    → LogsAreCounts m
    → LogsAreCounts (insert ip l m)
unfolding LogsAreCounts
LogsAreCounts-insert ip l m h hm j k e = ground (arith, lookup-insert ip j l m, hm j k)

LogsAreCounts-logged :
    (ip : Bytes) (es : ℕ) (m : Map Bytes Log)
    → LogsAreCounts m
    → let l = logged es (lookup_or new_log ip m) in l.errors ≤ l.requests
unfolding LogsAreCounts lookup_or logged
LogsAreCounts-logged ip es m hm = elim (Option-cases (lookup ip m)) [
  | inl e ↦ rw (lookup_or, e) (ground arith)
  | inr (l, e) ↦ rw (lookup_or, e) (ground (arith, hm ip l e))
]

LogsAreCounts-count_request :
    (ip : Bytes) (es : ℕ) (d : Daemon)
    → LogsAreCounts d.logs
    → LogsAreCounts (count_request ip es d).logs
unfolding count_request
LogsAreCounts-count_request ip es d h = ground (
  arith,
  LogsAreCounts-insert ip (logged es (lookup_or new_log ip d.logs)) d.logs,
  LogsAreCounts-logged ip es d.logs h,
)

-- One more request or rejected client pays for one more error.
IsCounting-count_request :
    (ip : Bytes) (es : ℕ) (d : Daemon)
    → LogsAreCounts d.logs
    → d.errors < d.requests + d.rejected
    → IsCounting (count_request ip es d)
unfolding count_request
IsCounting-count_request ip es d h lt = record {
  by_address = LogsAreCounts-count_request ip es d h;
  overall = ground arith;
}

IsCounting-process_child_end :
    (pid es : ℕ) (d : Daemon)
    → IsCounting d
    → IsCounting (process_child_end pid es (record d { requests = d.requests + 1 }))
unfolding process_child_end
IsCounting-process_child_end pid es d h =
    IsCounting-count_request (lookup_or new_child pid d.children).ip es
      (record d { requests = d.requests + 1; children = erase pid d.children }) h.by_address
      (omega (arith, h.overall))

IsCounting-harvest_one : (w : Wait) (d : Daemon) → IsCounting d → IsCounting (harvest_one w d).0
unfolding harvest_one
IsCounting-harvest_one all_running d h = h
IsCounting-harvest_one failed d h = h
IsCounting-harvest_one (signaled pid) d h = IsCounting-process_child_end pid internal_error d h
IsCounting-harvest_one (exited pid es) d h = IsCounting-process_child_end pid es d h
IsCounting-harvest_one (other pid) d h = record {
  by_address = h.by_address;
  overall = omega (arith, h.overall);
}

IsCounting-harvest : (ws : List Wait) (d : Daemon) → IsCounting d → IsCounting (harvest ws d)
unfolding harvest
IsCounting-harvest [] d h = h
IsCounting-harvest (w ∷ ws) d h =
    let h1 = IsCounting-harvest_one w d h in
    ground (arith, h1, IsCounting-harvest ws (harvest_one w d).0 h1)

IsCounting-clean_old : (now : ℕ) (d : Daemon) → IsCounting d → IsCounting (clean_old now d)
unfolding clean_old
IsCounting-clean_old now d h = elim (Bool-cases (ltb now d.next_clear)) [
  | inl e ↦ rw e h
  | inr e ↦ rw e (record { by_address = LogsAreCounts-empty; overall = h.overall })
]

IsCounting-launch :
    (now : ℕ) (c : Incoming) (d : Daemon) → IsCounting d → IsCounting (launch now c d)
unfolding launch is_banned add_child
IsCounting-launch now not_accepted d h = h
IsCounting-launch now (client ip f) d h =
    let d' = clean_old now d in
    let h' = IsCounting-clean_old now d h in
    elim (Bool-cases (is_banned now ip d).1) [
      | inl e ↦ rw e (
          IsCounting-count_request ip internal_error (record d' { rejected = d'.rejected + 1 })
            h'.by_address (omega (arith, h'.overall)))
      | inr e ↦ rw e (record { by_address = h'.by_address; overall = h'.overall })
    ]

IsCounting-launch_all :
    (now : ℕ) (cs : List (Option Incoming)) (d : Daemon)
    → IsCounting d
    → IsCounting (launch_all now cs d)
unfolding launch_all
IsCounting-launch_all now [] d h = h
IsCounting-launch_all now (none ∷ cs) d h = IsCounting-launch_all now cs d h
IsCounting-launch_all now (some c ∷ cs) d h =
    IsCounting-launch_all now cs (launch now c d) (IsCounting-launch now c d h)

IsCounting-periodic_tasks :
    (now : ℕ) (f : Fork) (d : Daemon) → IsCounting d → IsCounting (periodic_tasks now f d)
unfolding periodic_tasks add_child
IsCounting-periodic_tasks now f d h = elim (Bool-cases (leb d.next_check now)) [
  | inl e ↦ rw e (record { by_address = h.by_address; overall = h.overall })
  | inr e ↦ rw e h
]

IsCounting-upkeep : (e : Round) (d : Daemon) → IsCounting d → IsCounting (upkeep e d)
unfolding upkeep
IsCounting-upkeep e d h =
    IsCounting-periodic_tasks e.now e.periodic _ (IsCounting-harvest e.waits d h)

IsCounting-accept :
    (now : ℕ) (p : Poll) (d d' : Daemon) → accept now p d ≡ some d' → IsCounting d → IsCounting d'
unfolding accept
IsCounting-accept now interrupted d d' e h = subst IsCounting (some-injective _ _ e) h
IsCounting-accept now poll_failed d d' e h = absurd cc
IsCounting-accept now nobody d d' e h = subst IsCounting (some-injective _ _ e) h
IsCounting-accept now (ready cs) d d' e h =
    subst IsCounting (some-injective _ _ e) (IsCounting-launch_all now cs d h)

-- Whatever the system answers over any number of rounds, the counts stay right: when no address has
-- more errors than requests and the server not more errors than requests and rejected clients, that
-- holds of the daemon that the loop ends, throws or goes on with.
pub IsCounting-loop :
    (es : List Round) (d : Daemon) → IsCounting d → IsCounting (daemon_of (loop es d))
unfolding loop close_sockets
IsCounting-loop [] d h = h
IsCounting-loop (e ∷ es) d h = elim (Bool-cases e.finish) [
  | inl f ↦ rw f (record { by_address = h.by_address; overall = h.overall })
  | inr f ↦ elim (Option-cases (accept e.now e.polled d)) [
    | inl a ↦ rw (f, a) h
    | inr (d', a) ↦
        rw (f, a)
          (IsCounting-loop es (upkeep e d')
            (IsCounting-upkeep e d' (IsCounting-accept e.now e.polled d d' a h)))
  ]
]
