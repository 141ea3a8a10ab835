-- ===== src/Redirector/Rounds.antt =====
-- One round of each `advance` of src/redirector.cpp never takes a redirector back to an earlier state.
use vpl_jail_system.Prelude.{
  ◌≤◌, ◌≡◌, refl, Bool, true, false, not, ◌&&◌, Option, none, some, [], ◌∷◌, Bytes, if◌then◌else◌,
  arith,
}
use vpl_jail_system.Redirector.{
  States, ending, end, error, Redirector, add_output, cut_output, add_message, Revents, Poll,
  failed, timed_out, ready, ReadResult, got, failed_read, Round, bad,
}
use vpl_jail_system.Redirector.Flow.{Step, rank}
use vpl_jail_system.Redirector.Batch
use vpl_jail_system.Redirector.Terminal
use vpl_jail_system.Redirector.Vnc
use vpl_jail_system.Redirector.Order.{
  Stays, Stays->>, Stays-if, Stays-to, Stays-goes, Stays-breaks, hang_up-Stays, forward-Stays,
  write_program-Stays, write_server-Stays, Terminal_take-Stays, Vnc_take-Stays,
}

-- A step that does not go back, and stays where it is at the end.
abbrev pub IsForward : Step → Type 0
IsForward s = (e : Round) (r : Redirector) → rank r.state ≤ rank (s e r).0.state

pub state-if :
    (s : States) (b : Bool) (x y : Redirector)
    → x.state ≡ s
    → y.state ≡ s
    → (if b then x else y).state ≡ s
state-if s true x y hx hy = hx
state-if s false x y hx hy = hy

cut_output-state : (r : Redirector) → (cut_output r).state ≡ r.state
unfolding cut_output add_message
cut_output-state r = state-if r.state r.output_buffer_cuted _ _ refl refl

pub add_output-state : (r : Redirector) (s : Bytes) → (add_output r s).state ≡ r.state
unfolding add_output
add_output-state r [] = refl
add_output-state r (c ∷ s) = state-if r.state _ _ _ (cut_output-state _) refl

Batch_read-Stays :
    (d : ReadResult) (r : Redirector) → rank r.state ≡ 2 → Stays 2 (Batch.read_output d r)
unfolding Batch.read_output Stays
Batch_read-Stays (got []) r h = omega arith
Batch_read-Stays (got (c ∷ s)) r h = rw (add_output-state r (c ∷ s)) (omega arith)
Batch_read-Stays (failed_read true) r h = omega arith
Batch_read-Stays (failed_read false) r h = omega arith

pub Batch_polled-Stays :
    (o : Poll) (e : Round) (r : Redirector) → rank r.state ≡ 2 → Stays 2 (Batch.polled o e r)
unfolding Batch.polled Batch.events
Batch_polled-Stays failed e r h = Stays-to 2 error r (omega arith)
Batch_polled-Stays timed_out e r h = Stays-breaks 2 r [] h
Batch_polled-Stays (ready p client) e r h =
    Stays-if 2 p.err _ _ (Stays-to 2 error r (omega arith)) (
      Stays-if 2 p.nval _ _ (Stays-to 2 error r (omega arith)) (
        Stays-if 2 (p.hup && not p.read) _ _ (Stays-to 2 end r (omega arith))
          (Stays-if 2 p.read _ _ (Batch_read-Stays e.readed r h) (Stays-goes 2 r [] h))))

Terminal_read-Stays :
    (d : ReadResult) (p : Revents) (r : Redirector)
    → rank r.state ≡ 2
    → Stays 2 (Terminal.read_program d p r)
unfolding Terminal.read_program Terminal.send_output Stays
Terminal_read-Stays d p r h = ground arith

Terminal_events-Stays :
    (e : Round) (p client : Revents) (r : Redirector)
    → rank r.state ≡ 2
    → Stays 2 (Terminal.events e p client r)
unfolding Terminal.events Terminal.read_client Terminal.write_input
Terminal_events-Stays e p client r h =
    Stays-if 2 (bad client) _ _ (Stays-to 2 ending r (omega arith)) (
      Stays->> 2 _ _ (Terminal_read-Stays e.readed p r h) (λ r h.
        Stays->> 2 _ _
          (Stays-if 2 client.read _ _ (Terminal_take-Stays e.received r h) (Stays-goes 2 r [] h))
          (λ r h.
            Stays->> 2 _ _
              (Stays-if 2 _ _ _ (write_program-Stays e.written r h) (Stays-goes 2 r [] h))
              (λ r h. hang_up-Stays p r h))))

Terminal_polled-Stays :
    (o : Poll) (e : Round) (r : Redirector) → rank r.state ≡ 2 → Stays 2 (Terminal.polled o e r)
unfolding Terminal.polled
Terminal_polled-Stays failed e r h = Stays-to 2 error r (omega arith)
Terminal_polled-Stays timed_out e r h = Stays-breaks 2 r [] h
Terminal_polled-Stays (ready p client) e r h = Terminal_events-Stays e p client r h

Terminal_buffered-Stays :
    (d : Option Bytes) (r : Redirector) → rank r.state ≡ 2 → Stays 2 (Terminal.buffered_input d r)
unfolding Terminal.buffered_input
Terminal_buffered-Stays none r h = Stays-goes 2 r [] h
Terminal_buffered-Stays (some d) r h = Terminal_take-Stays d r h

pub Terminal_connected-Stays :
    (e : Round) (r : Redirector) → rank r.state ≡ 2 → Stays 2 (Terminal.connected_round e r)
unfolding Terminal.connected_round
Terminal_connected-Stays e r h =
    Stays->> 2 _ _ (Terminal_buffered-Stays e.buffered r h)
      (λ r h. Terminal_polled-Stays e.polled e r h)

Vnc_events-Stays :
    (e : Round) (p client : Revents) (r : Redirector)
    → rank r.state ≡ 2
    → Stays 2 (Vnc.events e p client r)
unfolding Vnc.events
Vnc_events-Stays e p client r h =
    Stays->> 2 _ _ (Stays-if 2 p.read _ _ (forward-Stays e.readed r h) (Stays-goes 2 r [] h))
      (λ r h.
        Stays->> 2 _ _
          (Stays-if 2 client.read _ _ (Vnc_take-Stays e.received r h) (Stays-goes 2 r [] h))
          (λ r h.
            Stays->> 2 _ _
              (Stays-if 2 _ _ _ (write_server-Stays e.written r h) (Stays-goes 2 r [] h))
              (λ r h. hang_up-Stays p r h)))

Vnc_polled-Stays :
    (o : Poll) (e : Round) (r : Redirector) → rank r.state ≡ 2 → Stays 2 (Vnc.polled o e r)
unfolding Vnc.polled
Vnc_polled-Stays failed e r h = Stays-to 2 error r (omega arith)
Vnc_polled-Stays timed_out e r h = Stays-breaks 2 r [] h
Vnc_polled-Stays (ready p client) e r h = Vnc_events-Stays e p client r h

Vnc_buffered-Stays :
    (d : Option Bytes) (r : Redirector) → rank r.state ≡ 2 → Stays 2 (Vnc.buffered_input d r)
unfolding Vnc.buffered_input
Vnc_buffered-Stays none r h = Stays-goes 2 r [] h
Vnc_buffered-Stays (some d) r h = Vnc_take-Stays d r h

pub Vnc_connected-Stays :
    (e : Round) (r : Redirector) → rank r.state ≡ 2 → Stays 2 (Vnc.connected_round e r)
unfolding Vnc.connected_round
Vnc_connected-Stays e r h =
    Stays-if 2 e.is_closed _ _ (Stays-to 2 end r (omega arith))
      (Stays->> 2 _ _ (Vnc_buffered-Stays e.buffered r h) (λ r h. Vnc_polled-Stays e.polled e r h))
