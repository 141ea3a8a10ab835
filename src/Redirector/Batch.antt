-- ===== src/Redirector/Batch.antt =====
-- RedirectorTerminalBatch::advance of src/redirector.cpp.
use vpl_jail_system.Prelude.{not, ◌&&◌, [], ◌∷◌, ◌++◌, Bytes, codes, if◌then◌else◌}
use vpl_jail_system.Redirector.{
  States, Poll, begin, connecting, connected, ending, end, error, Redirector, add_output, Revents,
  failed, timed_out, ready, ReadResult, got, failed_read, Round, sleeps,
}
use vpl_jail_system.Redirector.Flow.{Flow, goes, breaks, leaves, to, Step}

-- read, where there is something to read.
unfoldable pub read_output : ReadResult → Redirector → Flow
read_output (got []) r = to end r
read_output (got (c ∷ s)) r = breaks (add_output r (c ∷ s)) []
read_output (failed_read eio) r = if eio then to end r else to error r

-- The tests of the events, in their order.
unfoldable pub events : ReadResult → Revents → Redirector → Flow
events readed p r =
    if p.err
    then to error r
    else if p.nval
    then to error r
    else if p.hup && not p.read
    then to end r
    else if p.read
    then read_output readed r
    else goes r []

-- The result of poll.
unfoldable pub polled : Poll → Round → Redirector → Flow
polled failed e r = to error r
polled timed_out e r = breaks r []
polled (ready p client) e r = events e.readed p r

unfoldable pub connected_round : Round → Redirector → Flow
unfolding polled
connected_round e r = polled e.polled e r

-- The switch on `state`.
unfoldable pub in_state : States → Step
in_state begin e r = leaves (if e.opened then to connected r else to error r)
in_state connecting e r = leaves (to connected r)
in_state connected e r = leaves (connected_round e r)
in_state ending e r = leaves (to end r)
in_state end e r = (r, sleeps ∷ [])
in_state error e r = (r, sleeps ∷ [])

unfoldable pub step : Step
unfolding in_state
step e r = in_state r.state e r

-- The messages of a batch have a form of their own.
unfoldable pub add_message : Redirector → Bytes → Redirector
add_message r to_add = record r {
  message_buf = r.message_buf ++ (codes "- Jail: " ++ (to_add ++ (10 ∷ [])));
}

unfoldable pub get_message : Redirector → Bytes
get_message r = elim r.message_buf [
  | [] ↦ []
  | c ∷ s ↦ (10 ∷ codes "<|--") ++ (10 ∷ ((c ∷ s) ++ (codes "--|>" ++ (10 ∷ []))))
]

unfoldable pub get_output : Redirector → Bytes
get_output r = r.netbuf ++ get_message r
