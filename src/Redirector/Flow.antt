-- ===== src/Redirector/Flow.antt =====
-- Statements in sequence, where a `break` leaves the round, in src/redirector.cpp; and its do-while loop.
use vpl_jail_system.Prelude.{ℕ, zero, suc, Option, none, some, List, [], ◌++◌, if◌then◌else◌, ◌==◌}
use vpl_jail_system.Redirector.{
  States, begin, connecting, connected, ending, end, error, Redirector, Round, Action,
}

-- What a statement did: it goes on to the next one, or breaks out of the switch.
pub data Flow : Type 0 where
  goes : Redirector → List Action → Flow
  breaks : Redirector → List Action → Flow

abbrev pub after_actions : List Action → Flow → Flow
after_actions xs (goes r ys) = goes r (xs ++ ys)
after_actions xs (breaks r ys) = breaks r (xs ++ ys)

infixr 20 ◌>>◌
abbrev pub ◌>>◌ : Flow → (Redirector → Flow) → Flow
(goes r xs) >> k = after_actions xs (k r)
(breaks r xs) >> k = breaks r xs

abbrev pub Step : Type 0
Step = Round → Redirector → Redirector × List Action

abbrev pub leaves : Flow → Redirector × List Action
leaves (goes r xs) = (r, xs)
leaves (breaks r xs) = (r, xs)

-- The order in which a redirector goes through its states.
abbrev pub rank : States → ℕ
rank begin = 0
rank connecting = 1
rank connected = 2
rank ending = 3
rank end = 4
rank error = 5

abbrev pub to : States → Redirector → Flow
to s r = breaks (record r { state = s }) []

-- `do … while (oldstate != state)`, with the answers of its rounds; `none` is that the fuel ran out.
unfoldable pub advance_loop :
    Step → ℕ → (ℕ → Round) → Redirector → Option (Redirector × List Action)
advance_loop step zero env r = none
advance_loop step (suc fuel) env r =
    let now = step (env 0) r in
    if rank r.state == rank now.0.state
    then some now
    else elim (advance_loop step fuel (λ i. env (suc i)) now.0) [
      | none ↦ none
      | some next ↦ some (next.0, now.1 ++ next.1)
    ]
