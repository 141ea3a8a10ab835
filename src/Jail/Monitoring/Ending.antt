-- ===== src/Jail/Monitoring/Ending.antt =====
-- When the loop of commandMonitor in src/jail.cpp does not end.
use vpl_jail_system.Prelude.{
  ◌==◌, Bool-cases, All, str_eq, str_eq_iff, refl, sym, ap, subst, inl, inr, false, not, List, [],
  arith, ◌≡◌, ◌∙◌, ◌&&◌, ◌∷◌, ◌++◌,
}
use vpl_jail_system.Prelude.Maps.{bytes_eq, nat_eq}
use vpl_jail_system.Task.State.{starting, is}
use vpl_jail_system.Jail.Monitoring.{
  Action, Watch, Turn, new_state, given_up, stays, state_number, switched, goes, repeated,
  behind_wait, turn, Watched, watching, left, watch,
}

-- A client that stays and says nothing while the task starts.
unfoldable pub IsQuiet : Turn → Type 0
IsQuiet t =
    (t.found ≡ is starting) × (t.ws_closed ≡ false) × (t.received ≡ []) × (t.interactive ≡ false)

-- The loop goes on.
unfoldable pub IsWatching : Watched → Type 0
IsWatching (watching w done) = Unit
IsWatching (left done) = ⊥

state-repeated : (t : Turn) (w : Watch) → (repeated t w).0.state ≡ w.state
unfolding repeated
state-repeated t w =
    elim (Bool-cases (not (str_eq w.last_message []) && not (t.now == w.last_message_time))) [
      | inl e ↦ rw (repeated, e) refl
      | inr e ↦ rw (repeated, e) refl
    ]

quiet-behind_wait :
    (t : Turn) (w : Watch) (done : List Action)
    → IsQuiet t
    → w.state ≡ starting
    → behind_wait t w done ≡ goes (record w { last_time = t.now }) done
unfolding behind_wait IsQuiet
quiet-behind_wait t w done q e =
    let number : state_number w.state ≡ 1 = ap state_number e in
    let silent = (str_eq_iff t.received []).1 q.2 in
    let open_socket = q.1 in let batch = q.3 in ground arith

quiet-switched : (t : Turn) (w : Watch) → IsQuiet t → w.state ≡ starting → switched t w ≡ stays w []
unfolding switched IsQuiet new_state
quiet-switched t w q e =
    let old : state_number w.state ≡ 1 = ap state_number e in
    let new : state_number (new_state t) ≡ 1 =
      ap (λ v. state_number (new_state (record t { found = v }))) q.0 in
    ground arith

quiet-turn :
    (t : Turn) (w : Watch)
    → IsQuiet t
    → w.state ≡ starting
    → turn t w ≡ goes (record (repeated t w).0 { last_time = t.now }) (repeated t w).1
unfolding turn
quiet-turn t w q e =
    let same = state-repeated t w ∙ e in
    let number : state_number w.state ≡ 1 = ap state_number e in
    let behind = quiet-behind_wait t (repeated t w).0 (repeated t w).1 q same in
    rw (turn, quiet-switched t w q e) (rw number behind)

-- While getState says `starting` of a batch task, and its client stays and sends nothing, commandMonitor
-- does not return, however many turns pass and whatever the clock says.
pub quiet-watch :
    (ts : List Turn) (w : Watch) (done : List Action)
    → All IsQuiet ts
    → w.state ≡ starting
    → IsWatching (watch ts w done)
unfolding watch IsWatching IsQuiet given_up
quiet-watch [] w done q e = tt
quiet-watch (t ∷ ts) w done q e =
    let w' = record (repeated t w).0 { last_time = t.now } in
    let moved = quiet-turn t w q.0 e in
    let silent : given_up t.found ≡ [] = ap given_up (q.0).0 in
    let said = (done ++ given_up t.found) ++ (repeated t w).1 in
    let step : watch (t ∷ ts) w done ≡ watch ts w' said = ground arith in
    subst IsWatching (sym step) (quiet-watch ts w' said q.1 (state-repeated t w ∙ e))
