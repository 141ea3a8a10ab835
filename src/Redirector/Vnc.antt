-- ===== src/Redirector/Vnc.antt =====
-- RedirectorVNC::advance of src/redirector.cpp.
use vpl_jail_system.Prelude.{not, ◌&&◌, Option, none, some, List, [], ◌∷◌, Bytes, if◌then◌else◌}
use vpl_jail_system.Redirector.{
  States, Poll, begin, connecting, connected, ending, end, error, Redirector, add_vnc_input,
  Revents, failed, timed_out, ready, Round, Action, receives, sleeps,
}
use vpl_jail_system.Redirector.Flow.{Flow, goes, breaks, leaves, to, Step, ◌>>◌}
use vpl_jail_system.Redirector.Pieces.{hang_up, forward, is_empty, write_server, close_client}

-- `if (!addVNCInput(ws->receive())) { state = ending; break; }`
unfoldable pub take_input : Bytes → Redirector → Flow
take_input d r =
    let (r', fits) = add_vnc_input r d in
    if fits
    then goes r' (receives d ∷ [])
    else breaks (record r' { state = ending }) (receives d ∷ [])

unfoldable pub buffered_input : Option Bytes → Redirector → Flow
buffered_input none r = goes r []
buffered_input (some d) r = take_input d r

unfoldable pub events : Round → Revents → Revents → Redirector → Flow
events e p client r = (if p.read then forward e.readed r else goes r []) >> λ r.
    (if client.read then take_input e.received r else goes r []) >> λ r.
    (if not (is_empty r.netbuf) && p.out then write_server e.written r else goes r []) >> λ r.
    hang_up p r

-- The result of poll.
unfoldable pub polled : Poll → Round → Redirector → Flow
polled failed e r = to error r
polled timed_out e r = breaks r []
polled (ready p client) e r = events e p client r

unfoldable pub connected_round : Round → Redirector → Flow
connected_round e r =
    if e.is_closed then to end r else buffered_input e.buffered r >> λ r. polled e.polled e r

-- A failed connect waits a tenth of a second.
unfoldable pub connecting_round : Round → Redirector → Redirector × List Action
connecting_round e r =
    if e.connects
    then (record r { state = connected }, [])
    else if e.late
    then (record r { state = error }, sleeps ∷ [])
    else (r, sleeps ∷ [])

-- The switch on `state`.
unfoldable pub in_state : States → Step
in_state begin e r = leaves (if e.opened then to connecting r else to error r)
in_state connecting e r = connecting_round e r
in_state connected e r = leaves (connected_round e r)
in_state ending e r = leaves (to end r)
in_state end e r = (r, close_client e.is_closed)
in_state error e r = (r, close_client e.is_closed)

unfoldable pub step : Step
unfolding in_state
step e r = in_state r.state e r
