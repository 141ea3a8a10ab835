-- ===== src/Daemon.antt =====
-- class Daemon of src/vpl-jail-server.h: the main loop of the server, which accepts connections, forks a
-- child for each, reaps the children and counts what became of them. What the system answers to accept,
-- poll, fork, waitpid and time is an argument of each round.
pub mod Checks
pub mod Counts
pub mod History
pub mod Forks
pub mod FailedForks
use vpl_jail_system.Prelude.{
  ltb, leb, ◌==◌, if◌then◌else◌, Bytes, codes, ℕ, Bool, true, false, not, Option, none, some, List,
  [], ◌+◌, ◌-◌, ◌*◌, ◌/◌, ◌^◌, ◌&&◌, ◌∷◌,
}
use vpl_jail_system.Prelude.Maps.{bytes_eq, nat_eq, Map, lookup, insert, erase, lookup_or}

-- enum ExitStatus of src/util.h; a status is the byte that the child exits with.
abbrev pub success : ℕ
success = 0

abbrev pub internal_error : ℕ
internal_error = 1

abbrev pub neutral : ℕ
neutral = 2

-- struct Log, and its constructor.
pub record Log : Type 0 where
  pub requests : ℕ
  pub errors : ℕ

abbrev pub new_log : Log
new_log = record { requests = 0; errors = 0 }

pub record Child : Type 0 where
  pub ip : Bytes
  pub start : ℕ

abbrev pub new_child : Child
new_child = record { ip = []; start = 0 }

-- The fields that the loop changes, the statistics (requests, errors, rejected), the static nextClear and
-- nextCheckTime, and the configuration's fail2ban.
pub record Daemon : Type 0 where
  pub fail2ban : ℕ
  pub n_sockets : ℕ
  pub requests : ℕ
  pub errors : ℕ
  pub rejected : ℕ
  pub logs : Map Bytes Log
  pub children : Map ℕ Child
  pub next_clear : ℕ
  pub next_check : ℕ

unfoldable pub clean_old : ℕ → Daemon → Daemon
clean_old now d =
    if ltb now d.next_clear then d else record d { next_clear = now + 5 * 60; logs = [] }

-- The decision of isBanned on the log of an address.
unfoldable pub exceeds : ℕ → Log → Bool
exceeds fail2ban log = ltb (20 * fail2ban) log.errors && ltb (log.requests / 2) log.errors

unfoldable pub is_banned : ℕ → Bytes → Daemon → Daemon × Bool
is_banned now ip d =
    let d' = clean_old now d in
    (
      d',
      elim (lookup ip d'.logs) [
        | none ↦ false
        | some log ↦ not (d'.fail2ban == 0) && exceeds d'.fail2ban log
      ],
    )

-- What one more request with the status `es` makes of a log.
unfoldable pub logged : ℕ → Log → Log
logged es log = record {
  requests = log.requests + 1;
  errors = if es == success then log.errors else log.errors + 1;
}

unfoldable pub count_request : Bytes → ℕ → Daemon → Daemon
count_request ip es d = if es == neutral then d else record d {
  errors = if es == success then d.errors else d.errors + 1;
  logs = insert ip (logged es (lookup_or new_log ip d.logs)) d.logs;
}

unfoldable pub process_child_end : ℕ → ℕ → Daemon → Daemon
process_child_end pid es d =
    count_request (lookup_or new_child pid d.children).ip es
      (record d { children = erase pid d.children })

-- The result of waitpid: 0, -1, or a child that a signal ended, that exited, or that did neither.
pub data Wait : Type 0 where
  all_running failed : Wait
  signaled : ℕ → Wait
  exited : ℕ → ℕ → Wait
  other : ℕ → Wait

abbrev pub is_empty {ℓ} : {A : Type ℓ} → List A → Bool
is_empty [] = true
is_empty (x ∷ xs) = false

-- One turn of the loop of harvest: the daemon, and whether the loop goes on.
unfoldable pub harvest_one : Wait → Daemon → Daemon × Bool
harvest_one all_running d = (d, false)
harvest_one failed d = (d, false)
harvest_one (signaled pid) d =
    (process_child_end pid internal_error (record d { requests = d.requests + 1 }), true)
harvest_one (exited pid status) d =
    (process_child_end pid status (record d { requests = d.requests + 1 }), true)
harvest_one (other pid) d = (record d { requests = d.requests + 1 }, true)

-- The list is what waitpid returns, one call after the other; behind it, it returns 0.
unfoldable pub harvest : List Wait → Daemon → Daemon
harvest [] d = d
harvest (w ∷ ws) d =
    let r = harvest_one w d in
    let more = harvest ws r.0 in if is_empty d.children then d else if r.1 then more else r.0

-- fork: a pid, or -1, which stands as the 32-bit pattern of a pid_t.
pub data Fork : Type 0 where
  forked : ℕ → Fork
  fork_failed : Fork

abbrev pub minus_one : ℕ
minus_one = 2 ^ 32 - 1

abbrev pub pid_of : Fork → ℕ
pid_of (forked pid) = pid
pid_of fork_failed = minus_one

unfoldable pub add_child : Fork → Bytes → ℕ → Daemon → Daemon
add_child f ip now d = record d {
  children = insert (pid_of f) (record { ip = ip; start = now }) d.children;
}

-- accept: an error, or a client, and the fork for it.
pub data Incoming : Type 0 where
  not_accepted : Incoming
  client : Bytes → Fork → Incoming

unfoldable pub launch : ℕ → Incoming → Daemon → Daemon
launch now not_accepted d = d
launch now (client ip f) d =
    let (d', banned) = is_banned now ip d in
    if banned
    then count_request ip internal_error (record d' { rejected = d'.rejected + 1 })
    else add_child f ip now d'

-- poll: interrupted, another error, 0, or for each socket whether it has a client.
pub data Poll : Type 0 where
  interrupted poll_failed nobody : Poll
  ready : List (Option Incoming) → Poll

unfoldable pub launch_all : ℕ → List (Option Incoming) → Daemon → Daemon
launch_all now [] d = d
launch_all now (none ∷ cs) d = launch_all now cs d
launch_all now (some c ∷ cs) d = launch_all now cs (launch now c d)

-- `none` is the exception.
unfoldable pub accept : ℕ → Poll → Daemon → Option Daemon
accept now interrupted d = some d
accept now poll_failed d = none
accept now nobody d = some d
accept now (ready cs) d = some (launch_all now cs d)

-- The child that cleans the tasks of the dead.
unfoldable pub periodic_tasks : ℕ → Fork → Daemon → Daemon
periodic_tasks now f d =
    if leb d.next_check now
    then add_child f (codes "127.0.0.1") now (record d { next_check = now + 5 * 60 })
    else d

-- The answers of one round of the loop; `finish` is finishRequested at its start.
pub record Round : Type 0 where
  pub finish : Bool
  pub now : ℕ
  pub polled : Poll
  pub waits : List Wait
  pub periodic : Fork

unfoldable pub close_sockets : Daemon → Daemon
close_sockets d = record d { n_sockets = 0 }

-- The loop has ended, an exception left it, or the rounds are over and it goes on.
pub data Run : Type 0 where
  ended : Daemon → Run
  thrown : Daemon → Run
  goes_on : Daemon → Run

abbrev pub daemon_of : Run → Daemon
daemon_of (ended d) = d
daemon_of (thrown d) = d
daemon_of (goes_on d) = d

-- The round behind accept.
unfoldable pub upkeep : Round → Daemon → Daemon
upkeep e d = periodic_tasks e.now e.periodic (harvest e.waits d)

unfoldable pub loop : List Round → Daemon → Run
loop [] d = goes_on d
loop (e ∷ es) d = elim e.finish [
  | true ↦ ended (close_sockets d)
  | false ↦ elim (accept e.now e.polled d) [ none ↦ thrown d | some d' ↦ loop es (upkeep e d') ]
]
