-- ===== src/Jail/Monitoring.antt =====
-- commandMonitor of src/jail.cpp: what the client of a monitor's WebSocket is told of its task. What the
-- task, the clock and the WebSocket answer in one turn of the loop is a record; what the loop does is a
-- list of actions.
pub mod Cleaning
pub mod Ending
use vpl_jail_system.Prelude.{
  ltb, leb, ◌==◌, if◌then◌else◌, Bytes, codes, str_eq, ℕ, Bool, true, false, not, List, [], ◌+◌,
  ◌-◌, ◌&&◌, ◌∷◌, ◌++◌,
}
use vpl_jail_system.Util.Sizes.{decimal}
use vpl_jail_system.Task.State.{
  ProcessState, prestarting, starting, compiling, before_running, running, retrieve, stopped,
  jail_harvest_timeout, Verdict, is, timed_out,
}

pub data Action : Type 0 where
  send : Bytes → Action
  ws_close close_and_wait clean : Action
  -- cleanTask, called by getState.
  give_up : Action

-- The variables of the loop.
pub record Watch : Type 0 where
  pub state : ProcessState
  pub webserver : Bool
  pub run_browser : Bool
  pub start_time : ℕ
  pub last_message_time : ℕ
  pub last_time : ℕ
  pub timeout : ℕ
  pub last_message : Bytes

-- One turn: what getState finds, the clock at its start and behind the wait, the files of the home, the texts that
-- the task gives, what the client sent (empty for nothing), and what the memory says.
pub record Turn : Type 0 where
  pub found : Verdict
  pub now : ℕ
  pub later : ℕ
  pub max_time : ℕ
  pub interactive : Bool
  pub execution : Bool
  pub webexecution : Bool
  pub wexecution : Bool
  pub address : Bool
  pub vnc_password : Bytes
  pub compilation : Bytes
  pub ticket : Bytes
  pub received : Bytes
  pub ws_closed : Bool
  pub out_of_memory : Bool
  pub memory_limit : Bytes

-- The answer of getState, which cleans the task whose time is over.
unfoldable pub new_state : Turn → ProcessState
new_state t = elim t.found [ is x ↦ x | timed_out ↦ stopped ]

unfoldable pub given_up : Verdict → List Action
given_up (is x) = []
given_up timed_out = give_up ∷ []

-- The switch goes on with the loop, or returns from the function.
pub data Switched : Type 0 where
  stays : Watch → List Action → Switched
  returns : List Action → Switched

abbrev pub compilation_text : Bytes → Bytes
compilation_text text = codes "compilation:" ++ text

abbrev pub no_executable : Bytes → Bytes
no_executable text =
    if str_eq text []
    then codes
        "compilation:The compilation process did not generate an executable nor error message."
    else compilation_text text

-- A message that is repeated while the state stays.
unfoldable pub announce : Turn → Bytes → Watch → Watch
announce t text w = record w {
  start_time = t.now;
  timeout = t.now + t.max_time;
  last_message_time = t.now;
  last_message = text;
}

unfoldable pub enter_before_running : Turn → Watch → Switched
enter_before_running t w =
    let w' = record w { timeout = t.now + 6 } in
    let told = send (compilation_text t.compilation) ∷ [] in
    if t.execution
    then stays w' (send (codes "run:terminal") ∷ told)
    else if t.webexecution
    then stays (record w' { webserver = true }) (send (codes "run:webterminal") ∷ told)
    else if t.wexecution
    then stays w' (send (codes "run:vnc:" ++ t.vnc_password) ∷ told)
    else returns
        (send (no_executable t.compilation) ∷ send (codes "close:") ∷ close_and_wait ∷ clean ∷ [])

unfoldable pub enter_running : Turn → Watch → Switched
enter_running t w =
    let w1 = announce t (codes "message:running") w in
    let w2 =
      if t.interactive then w1 else record w1 { timeout = w1.timeout + jail_harvest_timeout } in
    let first = send (codes "message:running") in
    if w2.webserver && (not w2.run_browser && t.address)
    then stays (record w2 { run_browser = true })
        (first ∷ send (codes "run:browser:" ++ t.ticket) ∷ [])
    else stays w2 (first ∷ [])

-- The switch on a new state.
unfoldable pub enter_state : Turn → ProcessState → Watch → Switched
enter_state t prestarting w = stays w []
enter_state t starting w =
    stays (announce t (codes "message:starting") w) (send (codes "message:starting") ∷ [])
enter_state t compiling w =
    stays (announce t (codes "message:compilation") w) (send (codes "message:compilation") ∷ [])
enter_state t before_running w = enter_before_running t w
enter_state t running w = enter_running t w
enter_state t retrieve w =
    stays (record w { start_time = t.now; timeout = t.now + jail_harvest_timeout })
      (send (codes "retrieve:") ∷ [])
enter_state t stopped w = stays w (send (codes "close:") ∷ close_and_wait ∷ [])

abbrev pub state_number : ProcessState → ℕ
state_number prestarting = 0
state_number starting = 1
state_number compiling = 2
state_number before_running = 3
state_number running = 4
state_number retrieve = 5
state_number stopped = 6

unfoldable pub switched : Turn → Watch → Switched
switched t w =
    if state_number (new_state t) == state_number w.state
    then stays w []
    else enter_state t (new_state t) (record w { state = new_state t })

-- The next turn of the loop, a break, or a return.
pub data Turned : Type 0 where
  goes : Watch → List Action → Turned
  breaks : List Action → Turned
  is_over : List Action → Turned

-- The message of the state, once in a second.
unfoldable pub repeated : Turn → Watch → Watch × List Action
repeated t w =
    if not (str_eq w.last_message []) && not (t.now == w.last_message_time)
    then (
      record w { last_message_time = t.now },
      send ((w.last_message ++ codes ": ") ++ decimal (t.now - w.start_time) ++ codes " sec") ∷ [],
    )
    else (w, [])

abbrev pub farewell : Bytes → List Action
farewell text = send text ∷ send (codes "close:") ∷ close_and_wait ∷ []

-- The loop behind the wait for the client.
unfoldable pub behind_wait : Turn → Watch → List Action → Turned
behind_wait t w done =
    if t.ws_closed
    then if state_number w.state == 5 && leb t.later w.timeout then goes w done else breaks done
    else if not (str_eq t.received [])
    then breaks (done ++ (ws_close ∷ []))
    else if not (state_number w.state == 1) && ltb w.timeout t.later
    then breaks (done ++ farewell (codes "message:timeout"))
    else if t.interactive && (not (w.last_time == t.now) && t.out_of_memory)
    then breaks (done ++ farewell (codes "message:outofmemory:" ++ t.memory_limit))
    else goes (record w { last_time = t.now }) done

-- The body of the loop behind getState.
unfoldable pub turn : Turn → Watch → Turned
turn t w = elim (switched t w) [
  | returns done ↦ is_over done
  | stays w1 done ↦
      if state_number w1.state == 6
      then breaks done
      else let (w2, said) = repeated t w1 in behind_wait t w2 (done ++ said)
]

-- The loop goes on behind the turns, or the function has returned.
pub data Watched : Type 0 where
  watching : Watch → List Action → Watched
  left : List Action → Watched

unfoldable pub watch : List Turn → Watch → List Action → Watched
watch [] w done = watching w done
watch (t ∷ ts) w done =
    let asked = done ++ given_up t.found in
    elim (turn t w) [
      | goes w' more ↦ watch ts w' (asked ++ more)
      | breaks more ↦ left ((asked ++ more) ++ (close_and_wait ∷ clean ∷ []))
      | is_over more ↦ left (asked ++ more)
    ]

-- The variables at the start, for a task that was started at a time.
unfoldable pub first_watch : ℕ → ℕ → Watch
first_watch started max_time = record {
  state = prestarting;
  webserver = false;
  run_browser = false;
  start_time = 0;
  last_message_time = 0;
  last_time = started;
  timeout = started + max_time;
  last_message = [];
}
