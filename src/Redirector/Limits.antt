-- ===== src/Redirector/Limits.antt =====
-- The bound of the buffer of a terminal's input in src/redirector.cpp.
use vpl_jail_system.Prelude.{
  ℕ, ◌+◌, ◌≤◌, ◌≡◌, refl, Bool, true, false, Option, none, some, List, [], ◌∷◌, Bytes, length,
  length-append, length-drop, if◌then◌else◌, arith, ltb,
}
use vpl_jail_system.Websocket.Frame.{frame_size_limit}
use vpl_jail_system.Redirector.{
  States, begin, connecting, connected, ending, end, error, Redirector, add_message, add_input,
  Revents, bad, Poll, failed, timed_out, ready, ReadResult, got, failed_read, Round, Action,
  receives,
}
use vpl_jail_system.Redirector.Flow.{Flow, goes, breaks, after_actions, ◌>>◌, leaves, to}
use vpl_jail_system.Redirector.Runs.{rounds}
use vpl_jail_system.Redirector.Pieces.{hang_up, write_program}
use vpl_jail_system.Redirector.Terminal.{
  take_input, buffered_input, send_output, read_program, read_client, write_input, events, polled,
  connected_round, silent_message, finished_round, in_state, step,
}

abbrev pub IsWithin : Redirector → Type 0
IsWithin r = length r.programbuf ≤ frame_size_limit

unfoldable pub Limits : Flow → Type 0
Limits (goes r xs) = IsWithin r
Limits (breaks r xs) = IsWithin r

Limits->> :
    (x : Flow) (k : Redirector → Flow)
    → Limits x
    → ((r : Redirector) → IsWithin r → Limits (k r))
    → Limits (x >> k)
unfolding Limits
Limits->> (goes r xs) k h hk = behind (k r) (hk r h)
  where
    behind : (y : Flow) → Limits y → Limits (after_actions xs y)
    behind (goes s ys) h = h
    behind (breaks s ys) h = h
Limits->> (breaks r xs) k h hk = h

Limits-if : (b : Bool) (x y : Flow) → Limits x → Limits y → Limits (if b then x else y)
Limits-if true x y hx hy = hx
Limits-if false x y hx hy = hy

Limits-goes : (r : Redirector) (xs : List Action) → IsWithin r → Limits (goes r xs)
unfolding Limits
Limits-goes r xs h = h

Limits-to : (s : States) (r : Redirector) → IsWithin r → Limits (to s r)
unfolding Limits
Limits-to s r h = h

Limits-leaves : (x : Flow) → Limits x → IsWithin (leaves x).0
unfolding Limits
Limits-leaves (goes r xs) h = h
Limits-leaves (breaks r xs) h = h

result-if :
    (b : Bool) (x y : Redirector × Bool)
    → IsWithin x.0
    → (b ≡ false → IsWithin y.0)
    → IsWithin (if b then x else y).0
result-if true x y hx hy = hx
result-if false x y hx hy = hy refl

add_input-IsWithin : (r : Redirector) (d : Bytes) → IsWithin r → IsWithin (add_input r d).0
unfolding add_input add_message
add_input-IsWithin r d h =
    result-if (ltb frame_size_limit (length d + length r.programbuf)) _ _ h
      (λ small. ground (arith, length-append r.programbuf d))

take_input-Limits : (d : Bytes) (r : Redirector) → IsWithin r → Limits (take_input d r)
unfolding take_input Limits
take_input-Limits d r h = by_result (add_input r d) (add_input-IsWithin r d h)
  where
    by_result :
        (x : Redirector × Bool)
        → IsWithin x.0
        → Limits (
            if x.1
            then goes x.0 (receives d ∷ [])
            else breaks (record x.0 { state = ending }) (receives d ∷ []))
    by_result (s, true) h = h
    by_result (s, false) h = h

write_program-Limits : (n : Option ℕ) (r : Redirector) → IsWithin r → Limits (write_program n r)
unfolding write_program Limits
write_program-Limits none r h = h
write_program-Limits (some n) r h = omega (arith, h, length-drop n r.programbuf)

send_output-Limits : (d : ReadResult) (r : Redirector) → IsWithin r → Limits (send_output d r)
unfolding send_output
send_output-Limits (got []) r h = Limits-to ending r h
send_output-Limits (got (c ∷ s)) r h = Limits-goes _ _ h
send_output-Limits (failed_read eio) r h = Limits-to ending r h

events-Limits :
    (e : Round) (p client : Revents) (r : Redirector) → IsWithin r → Limits (events e p client r)
unfolding events read_program read_client write_input hang_up
events-Limits e p client r h = Limits-if (bad client) _ _ (Limits-to ending r h) (
    Limits->> _ _ (Limits-if _ _ _ (send_output-Limits e.readed r h) (Limits-goes r [] h)) (λ r h.
      Limits->> _ _
        (Limits-if client.read _ _ (take_input-Limits e.received r h) (Limits-goes r [] h))
        (λ r h.
          Limits->> _ _ (Limits-if _ _ _ (write_program-Limits e.written r h) (Limits-goes r [] h))
            (λ r h. Limits-if _ _ _ (Limits-to ending r h) (Limits-goes r [] h)))))

polled-Limits : (o : Poll) (e : Round) (r : Redirector) → IsWithin r → Limits (polled o e r)
unfolding polled Limits
polled-Limits failed e r h = h
polled-Limits timed_out e r h = h
polled-Limits (ready p client) e r h = events-Limits e p client r h

buffered_input-Limits :
    (d : Option Bytes) (r : Redirector) → IsWithin r → Limits (buffered_input d r)
unfolding buffered_input
buffered_input-Limits none r h = Limits-goes r [] h
buffered_input-Limits (some d) r h = take_input-Limits d r h

IsWithin-if :
    (b : Bool) (x y : Redirector) → IsWithin x → IsWithin y → IsWithin (if b then x else y)
IsWithin-if true x y hx hy = hx
IsWithin-if false x y hx hy = hy

silent-IsWithin : (r : Redirector) → IsWithin r → IsWithin (silent_message r)
unfolding silent_message add_message
silent-IsWithin r h = IsWithin-if r.no_output _ _ h h

actions-if :
    (b : Bool) (x y : Redirector × List Action)
    → IsWithin x.0
    → IsWithin y.0
    → IsWithin (if b then x else y).0
actions-if true x y hx hy = hx
actions-if false x y hx hy = hy

finished-IsWithin : (e : Round) (r : Redirector) → IsWithin r → IsWithin (finished_round e r).0
unfolding finished_round
finished-IsWithin e r h = actions-if _ _ _ (silent-IsWithin r h) (silent-IsWithin r h)

in_state-IsWithin :
    (s : States) (e : Round) (r : Redirector) → IsWithin r → IsWithin (in_state s e r).0
unfolding in_state connected_round
in_state-IsWithin begin e r h =
    Limits-leaves _ (Limits-if e.opened _ _ (Limits-to connected r h) (Limits-to error r h))
in_state-IsWithin connecting e r h = h
in_state-IsWithin connected e r h =
    Limits-leaves _
      (Limits->> _ _ (buffered_input-Limits e.buffered r h) (λ r h. polled-Limits e.polled e r h))
in_state-IsWithin ending e r h = h
in_state-IsWithin end e r h = finished-IsWithin e r h
in_state-IsWithin error e r h = finished-IsWithin e r h

-- However much a client sends, and whatever the system answers, the buffer of a terminal's input that starts
-- within the limit on frames stays within it.
pub rounds-IsWithin :
    (es : List Round) (r : Redirector)
    → length r.programbuf ≤ frame_size_limit
    → length (rounds r es).0.programbuf ≤ frame_size_limit
unfolding step
rounds-IsWithin [] r h = h
rounds-IsWithin (e ∷ es) r h = rounds-IsWithin es (step e r).0 (in_state-IsWithin r.state e r h)
