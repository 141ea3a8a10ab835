-- ===== src/Redirector/Runs.antt =====
-- Runs of RedirectorTerminal::advance of src/redirector.cpp: the program is given what the client sent.
use vpl_jail_system.Prelude.{
  ◌≤◌, ◌≡◌, sym, ap, Bool, true, false, List, [], ◌∷◌, ◌++◌, append-nil, if◌then◌else◌, arith, inl,
  inr,
}
use vpl_jail_system.Redirector.{
  States, begin, connecting, connected, ending, end, error, Redirector, Round, Action,
}
use vpl_jail_system.Redirector.Flow.{Flow, goes, breaks, leaves, to, rank}
use vpl_jail_system.Redirector.Termination.{terminal-forward}
use vpl_jail_system.Redirector.Terminal.{in_state, step, connected_round}
use vpl_jail_system.Redirector.Input.{
  received, written, IsFifo, IsFifo-append, Keeps, connected_round-Keeps,
}

Keeps-leaves :
    (r : Redirector) (x : Flow)
    → Keeps r x
    → let y = leaves x in rank y.0.state ≤ 2 → IsFifo r y.1 y.0
unfolding Keeps
Keeps-leaves r (goes s xs) h l = h
Keeps-leaves r (breaks s xs) (inl h) l = h
Keeps-leaves r (breaks s xs) (inr h) l = absurd (omega arith)

step-IsFifo :
    (e : Round) (r : Redirector)
    → (s : States) → rank s ≤ 2
    → let y = in_state s e r in rank y.0.state ≤ 2 → IsFifo r y.1 y.0
unfolding in_state
step-IsFifo e r begin q l = by_opened e.opened
  where
    by_opened :
        (b : Bool) → let y = leaves (if b then to connected r else to error r) in IsFifo r y.1 y.0
    by_opened true = sym (append-nil r.programbuf)
    by_opened false = sym (append-nil r.programbuf)
step-IsFifo e r connecting q l = sym (append-nil r.programbuf)
step-IsFifo e r connected q l = Keeps-leaves r (connected_round e r) (connected_round-Keeps e r) l
step-IsFifo e r ending q l = absurd (omega arith)
step-IsFifo e r end q l = absurd (omega arith)
step-IsFifo e r error q l = absurd (omega arith)

-- Rounds of a redirector one after the other, over any number of calls of `advance`.
abbrev pub rounds : Redirector → List Round → Redirector × List Action
rounds r [] = (r, [])
rounds r (e ∷ es) = let now = step e r in let rest = rounds now.0 es in (rest.0, now.1 ++ rest.1)

rounds-forward : (r : Redirector) (es : List Round) → rank r.state ≤ rank (rounds r es).0.state
rounds-forward r [] = omega arith
rounds-forward r (e ∷ es) = omega (arith, (terminal-forward e r), rounds-forward (step e r).0 es)

-- Over any rounds of a terminal that is still connected behind them, the bytes written to the program
-- and those still in its buffer are, in order, those that were in the buffer and those received from
-- the client: none is lost, doubled or reordered.
pub rounds-IsFifo :
    (r : Redirector) (es : List Round)
    → (rounds r es).0.state ≡ connected
    → written (rounds r es).1 ++ (rounds r es).0.programbuf
      ≡ r.programbuf ++ received (rounds r es).1
unfolding step
rounds-IsFifo r [] h = sym (append-nil r.programbuf)
rounds-IsFifo r (e ∷ es) h =
    let now = step e r in
    let rest = rounds now.0 es in
    let up : rank now.0.state ≤ rank rest.0.state = rounds-forward now.0 es in
    let two : rank rest.0.state ≡ 2 = ap rank h in
    IsFifo-append r now.0 rest.0 now.1 rest.1
      (step-IsFifo e r r.state (omega (arith, terminal-forward e r)) (omega arith))
      (rounds-IsFifo now.0 es h)
