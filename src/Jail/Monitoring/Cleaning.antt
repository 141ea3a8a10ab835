-- ===== src/Jail/Monitoring/Cleaning.antt =====
-- How often the loop of commandMonitor in src/jail.cpp, with getState of src/processMonitor.cpp, cleans a task.
use vpl_jail_system.Prelude.{
  ltb, leb, ◌==◌, if◌then◌else◌, Bool-cases, codes, str_eq, ℕ, refl, sym, subst, inl, inr, Bool,
  true, false, not, List, [], arith, ◌+◌, ◌≤◌, ◌≡◌, ◌&&◌, ◌∷◌, ◌++◌,
}
use vpl_jail_system.Prelude.Maps.{bytes_eq, nat_eq}
use vpl_jail_system.Task.State.{
  ProcessState, prestarting, starting, compiling, before_running, running, retrieve, stopped,
  jail_harvest_timeout, Verdict, is, timed_out,
}
use vpl_jail_system.Jail.Monitoring.{
  Action, send, ws_close, close_and_wait, clean, give_up, Watch, Turn, new_state, given_up,
  Switched, stays, returns, compilation_text, no_executable, announce, enter_before_running,
  enter_running, enter_state, state_number, switched, Turned, goes, breaks, is_over, repeated,
  farewell, behind_wait, turn, Watched, watching, left, watch,
}

-- How often the task is cleaned.
unfoldable pub cleans : List Action → ℕ
cleans [] = 0
cleans (clean ∷ more) = cleans more + 1
cleans (give_up ∷ more) = cleans more + 1
cleans (send text ∷ more) = cleans more
cleans (ws_close ∷ more) = cleans more
cleans (close_and_wait ∷ more) = cleans more

cleans-append : (a b : List Action) → cleans (a ++ b) ≡ cleans a + cleans b
unfolding cleans
cleans-append [] b = omega arith
cleans-append (clean ∷ a) b = omega (arith, cleans-append a b)
cleans-append (give_up ∷ a) b = omega (arith, cleans-append a b)
cleans-append (send text ∷ a) b = cleans-append a b
cleans-append (ws_close ∷ a) b = cleans-append a b
cleans-append (close_and_wait ∷ a) b = cleans-append a b

SwitchCleans : Switched → Type 0
SwitchCleans (stays w done) = cleans done ≡ 0
SwitchCleans (returns done) = cleans done ≡ 1

TurnCleans : Turned → Type 0
TurnCleans (goes w done) = cleans done ≡ 0
TurnCleans (breaks done) = cleans done ≡ 0
TurnCleans (is_over done) = cleans done ≡ 1

SwitchCleans-enter_before_running : (t : Turn) (w : Watch) → SwitchCleans (enter_before_running t w)
unfolding enter_before_running SwitchCleans cleans
SwitchCleans-enter_before_running t w = by_files t.execution t.webexecution t.wexecution
  where
    w' : Watch
    w' = record w { timeout = t.now + 6 }

    told : List Action
    told = send (compilation_text t.compilation) ∷ []

    by_files :
        (a b c : Bool)
        → SwitchCleans (
            if a
            then stays w' (send (codes "run:terminal") ∷ told)
            else if b
            then stays (record w' { webserver = true }) (send (codes "run:webterminal") ∷ told)
            else if c
            then stays w' (send (codes "run:vnc:" ++ t.vnc_password) ∷ told)
            else returns (
                send (no_executable t.compilation)
                ∷ send (codes "close:")
                ∷ close_and_wait
                ∷ clean
                ∷ []))
    by_files true b c = refl
    by_files false true c = refl
    by_files false false true = refl
    by_files false false false = refl

SwitchCleans-as : (r q : Switched) → r ≡ q → SwitchCleans q → SwitchCleans r
SwitchCleans-as r q e h = subst SwitchCleans (sym e) h

SwitchCleans-enter_running : (t : Turn) (w : Watch) → SwitchCleans (enter_running t w)
unfolding enter_running SwitchCleans cleans
SwitchCleans-enter_running t w =
    let w1 = announce t (codes "message:running") w in
    let w2 =
      if t.interactive then w1 else record w1 { timeout = w1.timeout + jail_harvest_timeout } in
    elim (Bool-cases (w2.webserver && (not w2.run_browser && t.address))) [
      | inl e ↦
          SwitchCleans-as _
            (stays (record w2 { run_browser = true })
              (send (codes "message:running") ∷ send (codes "run:browser:" ++ t.ticket) ∷ []))
            (rw e refl) refl
      | inr e ↦ SwitchCleans-as _ (stays w2 (send (codes "message:running") ∷ [])) (rw e refl) refl
    ]

SwitchCleans-enter_state :
    (t : Turn) (x : ProcessState) (w : Watch) → SwitchCleans (enter_state t x w)
unfolding enter_state SwitchCleans cleans
SwitchCleans-enter_state t prestarting w = refl
SwitchCleans-enter_state t starting w = refl
SwitchCleans-enter_state t compiling w = refl
SwitchCleans-enter_state t before_running w = SwitchCleans-enter_before_running t w
SwitchCleans-enter_state t running w = SwitchCleans-enter_running t w
SwitchCleans-enter_state t retrieve w = refl
SwitchCleans-enter_state t stopped w = refl

SwitchCleans-switched : (t : Turn) (w : Watch) → SwitchCleans (switched t w)
unfolding switched SwitchCleans cleans
SwitchCleans-switched t w = by_state (state_number (new_state t) == state_number w.state)
  where
    w' : Watch
    w' = record w { state = new_state t }

    by_state : (b : Bool) → SwitchCleans (if b then stays w [] else enter_state t (new_state t) w')
    by_state true = refl
    by_state false = SwitchCleans-enter_state t (new_state t) w'

TurnCleans-behind_wait :
    (t : Turn) (w : Watch) (done : List Action)
    → cleans done ≡ 0
    → TurnCleans (behind_wait t w done)
unfolding behind_wait TurnCleans cleans
TurnCleans-behind_wait t w done h =
    by_tests t.ws_closed (state_number w.state == 5 && leb t.later w.timeout)
      (not (str_eq t.received [])) (not (state_number w.state == 1) && ltb w.timeout t.later)
      (t.interactive && (not (w.last_time == t.now) && t.out_of_memory))
  where
    plus : (more : List Action) → cleans more ≡ 0 → cleans (done ++ more) ≡ 0
    plus more m = omega (arith, cleans-append done more)

    by_tests :
        (a b c d e : Bool)
        → TurnCleans (
            if a
            then if b then goes w done else breaks done
            else if c
            then breaks (done ++ (ws_close ∷ []))
            else if d
            then breaks (done ++ farewell (codes "message:timeout"))
            else if e
            then breaks (done ++ farewell (codes "message:outofmemory:" ++ t.memory_limit))
            else goes (record w { last_time = t.now }) done)
    by_tests true true c d e = h
    by_tests true false c d e = h
    by_tests false b true d e = plus (ws_close ∷ []) refl
    by_tests false b false true e = plus (farewell (codes "message:timeout")) refl
    by_tests false b false false true =
        plus (farewell (codes "message:outofmemory:" ++ t.memory_limit)) refl
    by_tests false b false false false = h

cleans-repeated : (t : Turn) (w : Watch) → cleans (repeated t w).1 ≡ 0
unfolding repeated cleans
cleans-repeated t w =
    elim (Bool-cases (not (str_eq w.last_message []) && not (t.now == w.last_message_time))) [
      | inl e ↦ rw (repeated, e) refl
      | inr e ↦ rw (repeated, e) refl
    ]

TurnCleans-turn : (t : Turn) (w : Watch) → TurnCleans (turn t w)
unfolding turn TurnCleans SwitchCleans
TurnCleans-turn t w = by_switch (switched t w) (SwitchCleans-switched t w)
  where
    next : Switched → Turned
    next r = elim r [
      | returns done ↦ is_over done
      | stays w1 done ↦
          if state_number w1.state == 6
          then breaks done
          else let (w2, said) = repeated t w1 in behind_wait t w2 (done ++ said)
    ]

    by_switch : (r : Switched) → SwitchCleans r → TurnCleans (next r)
    by_switch (returns done) h = h
    by_switch (stays w1 done) h = by_stop (state_number w1.state == 6)
      where
        by_stop :
            (b : Bool)
            → TurnCleans (
                if b
                then breaks done
                else behind_wait t (repeated t w1).0 (done ++ (repeated t w1).1))
        by_stop true = h
        by_stop false =
            TurnCleans-behind_wait t (repeated t w1).0 (done ++ (repeated t w1).1)
              (omega (arith, cleans-append done (repeated t w1).1, cleans-repeated t w1))

-- Whether getState gives the task up in one of the turns.
unfoldable pub timeouts : List Turn → ℕ
timeouts [] = 0
timeouts (t ∷ ts) = elim t.found [ is x ↦ timeouts ts | timed_out ↦ 1 ]

-- A function that has returned has cleaned the task at least once, and at most once more; one that goes on
-- has not.
unfoldable pub IsCleaned : ℕ → Watched → Type 0
IsCleaned more (watching w done) = cleans done ≡ 0
IsCleaned more (left done) = (1 ≤ cleans done) × (cleans done ≤ 1 + more)

-- A task that is given up ends the loop.
breaks-given_up :
    (t : Turn) (w : Watch)
    → t.found ≡ timed_out
    → (more : List Action) × (turn t w ≡ breaks more) × (cleans more ≡ 0)
unfolding turn switched enter_state new_state cleans
breaks-given_up t w e = elim (Bool-cases (state_number stopped == state_number w.state)) [
  | inl q ↦ ([], ground arith, refl)
  | inr q ↦ (send (codes "close:") ∷ close_and_wait ∷ [], ground arith, refl)
]

-- Whatever the task, the clock and the client do in any number of turns in which no call throws:
-- while commandMonitor is in its loop, the task has not been cleaned; when it has returned, the task has been
-- cleaned exactly once, or, where getState has given it up in one of the turns, once or twice: by getState
-- and by commandMonitor.
pub watch-IsCleaned :
    (ts : List Turn) (w : Watch) (done : List Action)
    → cleans done ≡ 0
    → IsCleaned (timeouts ts) (watch ts w done)
unfolding watch IsCleaned TurnCleans cleans timeouts given_up
watch-IsCleaned [] w done h = h
watch-IsCleaned (t ∷ ts) w done h = by_verdict t.found refl (watch-IsCleaned ts)
  where
    next : List Action → Turned → Watched
    next asked r = elim r [
      | goes w' more ↦ watch ts w' (asked ++ more)
      | breaks more ↦ left ((asked ++ more) ++ (close_and_wait ∷ clean ∷ []))
      | is_over more ↦ left (asked ++ more)
    ]

    by_turn :
        (r : Turned)
        → TurnCleans r
        → ((w' : Watch) (d : List Action) → cleans d ≡ 0 → IsCleaned (timeouts ts) (watch ts w' d))
        → IsCleaned (timeouts ts) (next (done ++ []) r)
    by_turn (goes w' more) k ih =
        ih w' ((done ++ []) ++ more)
          (omega (arith, cleans-append done [], cleans-append (done ++ []) more))
    by_turn (breaks more) k ih =
        let a = cleans-append ((done ++ []) ++ more) (close_and_wait ∷ clean ∷ []) in
        let b = cleans-append (done ++ []) more in
        let c = cleans-append done [] in (omega arith, omega arith)
    by_turn (is_over more) k ih =
        let b = cleans-append (done ++ []) more in
        let c = cleans-append done [] in (omega arith, omega arith)

    by_verdict :
        (v : Verdict)
        → t.found ≡ v
        → ((w' : Watch) (d : List Action) → cleans d ≡ 0 → IsCleaned (timeouts ts) (watch ts w' d))
        → IsCleaned
            (elim v [ is x ↦ timeouts ts | timed_out ↦ 1 ])
            (next (done ++ given_up v) (turn t w))
    by_verdict (is x) e ih = by_turn (turn t w) (TurnCleans-turn t w) ih
    by_verdict timed_out e ih =
        let (more, q, clear) = breaks-given_up t w e in
        let asked = done ++ (give_up ∷ []) in
        let a = cleans-append (asked ++ more) (close_and_wait ∷ clean ∷ []) in
        let b = cleans-append asked more in
        let c = cleans-append done (give_up ∷ []) in rw q (omega arith, omega arith)
