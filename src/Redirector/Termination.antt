-- ===== src/Redirector/Termination.antt =====
-- The do-while loop of every `advance` of src/redirector.cpp ends, and no state comes back.
use vpl_jail_system.Prelude.{
  ℕ, zero, suc, ◌+◌, ◌≤◌, ◌<◌, ◌≡◌, refl, Bool, true, false, Option, none, some, List, [], ◌++◌,
  Bytes, ◌==◌, Bool-cases, inl, inr, if◌then◌else◌, arith,
}
use vpl_jail_system.Redirector.{
  States, begin, connecting, connected, ending, end, error, Redirector, add_message, Revents, Poll,
  failed, timed_out, ready, Round, Action, is_active,
}
use vpl_jail_system.Redirector.Flow.{Step, leaves, rank, to, advance_loop}
use vpl_jail_system.Redirector.Batch
use vpl_jail_system.Redirector.Terminal
use vpl_jail_system.Redirector.Vnc
use vpl_jail_system.Redirector.WebServer
use vpl_jail_system.Redirector.Order.{
  Stays, Stays->>, Stays-if, Stays-to, Stays-goes, Stays-breaks, Stays-leaves, hang_up-Stays,
  forward-Stays, write_server-Stays,
}
use vpl_jail_system.Redirector.Rounds.{
  state-if, Batch_polled-Stays, Terminal_connected-Stays, Vnc_connected-Stays,
}

WebServer_take-Stays :
    (d : Bytes) (r : Redirector) → rank r.state ≡ 2 → Stays 2 (WebServer.take_input d r)
unfolding WebServer.take_input
WebServer_take-Stays d r h = Stays-goes 2 _ _ h

WebServer_events-Stays :
    (e : Round) (p client : Revents) (r : Redirector)
    → rank r.state ≡ 2
    → Stays 2 (WebServer.events e p client r)
unfolding WebServer.events
WebServer_events-Stays e p client r h =
    Stays->> 2 _ _ (Stays-if 2 p.read _ _ (forward-Stays e.readed r h) (Stays-goes 2 r [] h))
      (λ r h.
        Stays->> 2 _ _
          (Stays-if 2 client.read _ _ (WebServer_take-Stays e.received r h) (Stays-goes 2 r [] h))
          (λ r h.
            Stays->> 2 _ _
              (Stays-if 2 _ _ _ (write_server-Stays e.written r h) (Stays-goes 2 r [] h))
              (λ r h. hang_up-Stays p r h)))

WebServer_polled-Stays :
    (o : Poll) (e : Round) (r : Redirector) → rank r.state ≡ 2 → Stays 2 (WebServer.polled o e r)
unfolding WebServer.polled
WebServer_polled-Stays failed e r h = Stays-to 2 error r (omega arith)
WebServer_polled-Stays timed_out e r h = Stays-breaks 2 r [] h
WebServer_polled-Stays (ready p client) e r h = WebServer_events-Stays e p client r h

WebServer_connected-Stays :
    (e : Round) (r : Redirector) → rank r.state ≡ 2 → Stays 2 (WebServer.connected_round e r)
unfolding WebServer.connected_round WebServer.buffered_input
WebServer_connected-Stays e r h =
    Stays-if 2 e.is_closed _ _ (Stays-to 2 end r (omega arith))
      (Stays->> 2 _ _ (buffered e.buffered) (λ r h. WebServer_polled-Stays e.polled e r h))
  where
    buffered : (d : Option Bytes) → Stays 2 (WebServer.buffered_input d r)
    buffered none = Stays-goes 2 r [] h
    buffered (some d) = WebServer_take-Stays d r h

-- What a round does from the state `s`: the state does not go back, and it stays where it is at the end.
abbrev pub IsForward : States → Redirector → Redirector → Type 0
IsForward s r r' = (rank s ≤ rank r'.state) × (is_active s ≡ false → r'.state ≡ r.state)

module _ (e : Round) (r : Redirector) where
  begin-IsForward :
      (s : States) (b : Bool)
      → r.state ≡ begin
      → IsForward begin r (leaves (if b then to s r else to error r)).0
  unfolding is_active
  begin-IsForward s true h = (omega arith, λ a. absurd (ground arith))
  begin-IsForward s false h = (omega arith, λ a. absurd (ground arith))

  Batch-IsForward : (s : States) → r.state ≡ s → IsForward s r (Batch.in_state s e r).0
  unfolding Batch.in_state Batch.connected_round is_active
  Batch-IsForward begin h = begin-IsForward connected e.opened h
  Batch-IsForward connecting h = (omega arith, λ a. absurd (ground arith))
  Batch-IsForward connected h = (
    Stays-leaves 2 _ (Batch_polled-Stays e.polled e r (rw h (omega arith))),
    λ a. absurd (ground arith),
  )
  Batch-IsForward ending h = (omega arith, λ a. absurd (ground arith))
  Batch-IsForward end h = (rw h (omega arith), λ a. refl)
  Batch-IsForward error h = (rw h (omega arith), λ a. refl)

  silent_message-state : (Terminal.silent_message r).state ≡ r.state
  unfolding Terminal.silent_message add_message
  silent_message-state = state-if r.state r.no_output _ _ refl refl

  finished-state : (Terminal.finished_round e r).0.state ≡ r.state
  unfolding Terminal.finished_round
  finished-state = result-if _ _ _ silent_message-state silent_message-state
    where
      result-if :
          (b : Bool) (x y : Redirector × List Action)
          → x.0.state ≡ r.state
          → y.0.state ≡ r.state
          → (if b then x else y).0.state ≡ r.state
      result-if true x y hx hy = hx
      result-if false x y hx hy = hy

  Terminal-IsForward : (s : States) → r.state ≡ s → IsForward s r (Terminal.in_state s e r).0
  unfolding Terminal.in_state is_active
  Terminal-IsForward begin h = begin-IsForward connected e.opened h
  Terminal-IsForward connecting h = (omega arith, λ a. absurd (ground arith))
  Terminal-IsForward connected h = (
    Stays-leaves 2 _ (Terminal_connected-Stays e r (rw h (omega arith))),
    λ a. absurd (ground arith),
  )
  Terminal-IsForward ending h = (omega arith, λ a. absurd (ground arith))
  Terminal-IsForward end h = (rw (finished-state, h) (omega arith), λ a. finished-state)
  Terminal-IsForward error h = (rw (finished-state, h) (omega arith), λ a. finished-state)

  Vnc-IsForward : (s : States) → r.state ≡ s → IsForward s r (Vnc.in_state s e r).0
  unfolding Vnc.in_state Vnc.connecting_round is_active
  Vnc-IsForward begin h = begin-IsForward connecting e.opened h
  Vnc-IsForward connecting h = (ground arith, λ a. absurd (ground arith))
  Vnc-IsForward connected h =
      (Stays-leaves 2 _ (Vnc_connected-Stays e r (rw h (omega arith))), λ a. absurd (ground arith))
  Vnc-IsForward ending h = (omega arith, λ a. absurd (ground arith))
  Vnc-IsForward end h = (rw h (omega arith), λ a. refl)
  Vnc-IsForward error h = (rw h (omega arith), λ a. refl)

  WebServer-IsForward : (s : States) → r.state ≡ s → IsForward s r (WebServer.in_state s e r).0
  unfolding WebServer.in_state WebServer.connecting_round is_active
  WebServer-IsForward begin h = begin-IsForward connecting e.opened h
  WebServer-IsForward connecting h = (ground arith, λ a. absurd (ground arith))
  WebServer-IsForward connected h = (
    Stays-leaves 2 _ (WebServer_connected-Stays e r (rw h (omega arith))),
    λ a. absurd (ground arith),
  )
  WebServer-IsForward ending h = (omega arith, λ a. absurd (ground arith))
  WebServer-IsForward end h = (rw h (omega arith), λ a. refl)
  WebServer-IsForward error h = (rw h (omega arith), λ a. refl)

pub terminal-forward :
    (e : Round) (r : Redirector) → rank r.state ≤ rank (Terminal.step e r).0.state
unfolding Terminal.step
terminal-forward e r = (Terminal-IsForward e r r.state refl).0

-- The classes that implement `advance`.
pub data Kind : Type 0 where
  batch terminal vnc web_server : Kind

unfoldable pub step_of : Kind → Step
step_of batch = Batch.step
step_of terminal = Terminal.step
step_of vnc = Vnc.step
step_of web_server = WebServer.step

-- One round of any of the four never takes a redirector back to an earlier state, and leaves the
-- state of one that is not active as it is.
pub step_of-IsForward :
    (k : Kind) (e : Round) (r : Redirector) → IsForward r.state r (step_of k e r).0
unfolding step_of Batch.step Terminal.step Vnc.step WebServer.step
step_of-IsForward batch e r = Batch-IsForward e r r.state refl
step_of-IsForward terminal e r = Terminal-IsForward e r r.state refl
step_of-IsForward vnc e r = Vnc-IsForward e r r.state refl
step_of-IsForward web_server e r = WebServer-IsForward e r r.state refl

rank_below : (s : States) → rank s ≤ 5
rank_below begin = omega arith
rank_below connecting = omega arith
rank_below connected = omega arith
rank_below ending = omega arith
rank_below end = omega arith
rank_below error = omega arith

advance_fuel :
    (k : Kind) (fuel : ℕ) (env : ℕ → Round) (r : Redirector)
    → 5 < fuel + rank r.state
    → (x : Redirector × List Action) × (advance_loop (step_of k) fuel env r ≡ some x)
      × (rank r.state ≤ rank x.0.state)
unfolding advance_loop
advance_fuel k zero env r h = absurd (omega (arith, rank_below r.state))
advance_fuel k (suc fuel) env r h =
    let now = step_of k (env 0) r in
    let forward = (step_of-IsForward k (env 0) r).0 in
    elim (Bool-cases (rank r.state == rank now.0.state)) [
      | inl same ↦ (now, rw same refl, forward)
      | inr changed ↦
          let (x, e, up) = advance_fuel k fuel (λ i. env (suc i)) now.0 (ground arith) in
          ((x.0, now.1 ++ x.1), rw (changed, e) refl, omega (arith, up, forward))
    ]

-- Whatever the system answers, the do-while loop of `advance` of each of the four classes ends after
-- at most six rounds, from any redirector, and not in an earlier state.
pub advance_ends :
    (k : Kind) (env : ℕ → Round) (r : Redirector)
    → (x : Redirector × List Action) × (advance_loop (step_of k) 6 env r ≡ some x)
      × (rank r.state ≤ rank x.0.state)
advance_ends k env r = advance_fuel k 6 env r (omega arith)
