-- ===== src/Redirector/Terminal.antt =====
-- RedirectorTerminal::advance of src/redirector.cpp.
use vpl_jail_system.Prelude.{
  false, not, ◌&&◌, Option, none, some, List, [], ◌∷◌, Bytes, codes, if◌then◌else◌,
}
use vpl_jail_system.Redirector.{
  States, Poll, begin, connecting, connected, ending, end, error, Redirector, add_message,
  add_input, is_output_buffer_full, Revents, bad, failed, timed_out, ready, ReadResult, got,
  failed_read, Round, Action, sends, receives,
}
use vpl_jail_system.Redirector.Flow.{Flow, goes, breaks, leaves, to, Step, ◌>>◌}
use vpl_jail_system.Redirector.Pieces.{hang_up, is_empty, write_program, close_client}

-- `if (!addInput(ws->receive())) { state = ending; break; }`
unfoldable pub take_input : Bytes → Redirector → Flow
take_input d r =
    let (r', fits) = add_input r d in
    if fits
    then goes r' (receives d ∷ [])
    else breaks (record r' { state = ending }) (receives d ∷ [])

unfoldable pub buffered_input : Option Bytes → Redirector → Flow
buffered_input none r = goes r []
buffered_input (some d) r = take_input d r

unfoldable pub send_output : ReadResult → Redirector → Flow
send_output (got []) r = to ending r
send_output (got (c ∷ s)) r = goes (record r { no_output = false }) (sends (c ∷ s) ∷ [])
send_output (failed_read eio) r = to ending r

unfoldable pub read_program : ReadResult → Revents → Redirector → Flow
read_program readed p r =
    if p.read && not (is_output_buffer_full r) then send_output readed r else goes r []

unfoldable pub read_client : Bytes → Revents → Redirector → Flow
read_client received client r = if client.read then take_input received r else goes r []

unfoldable pub write_input : Round → Revents → Redirector → Flow
write_input e p r =
    if not (is_empty r.programbuf) && p.out then write_program e.written r else goes r []

-- Behind poll.
unfoldable pub events : Round → Revents → Revents → Redirector → Flow
events e p client r =
    if bad client
    then to ending r
    else read_program e.readed p r >> λ r.
        read_client e.received client r >> λ r. write_input e p r >> λ r. hang_up p r

-- The result of poll.
unfoldable pub polled : Poll → Round → Redirector → Flow
polled failed e r = to error r
polled timed_out e r = breaks r []
polled (ready p client) e r = events e p client r

unfoldable pub connected_round : Round → Redirector → Flow
connected_round e r = buffered_input e.buffered r >> λ r. polled e.polled e r

-- `if (isSilent()) …`, which adds a message in every round.
unfoldable pub silent_message : Redirector → Redirector
silent_message r =
    if r.no_output then add_message r (codes "program terminated with no output.") else r

-- The messages left are sent, and the client is closed.
unfoldable pub finished_round : Round → Redirector → Redirector × List Action
finished_round e r =
    let r' = silent_message r in
    if is_empty r'.message_buf
    then (r', close_client e.is_closed)
    else (record r' { message_buf = [] }, sends r'.message_buf ∷ close_client e.is_closed)

-- The switch on `state`.
unfoldable pub in_state : States → Step
in_state begin e r = leaves (if e.opened then to connected r else to error r)
in_state connecting e r = leaves (to connected r)
in_state connected e r = leaves (connected_round e r)
in_state ending e r = leaves (to end r)
in_state end e r = finished_round e r
in_state error e r = finished_round e r

unfoldable pub step : Step
unfolding in_state
step e r = in_state r.state e r
