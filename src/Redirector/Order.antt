-- ===== src/Redirector/Order.antt =====
-- The states of the redirectors of src/redirector.cpp in their order.
use vpl_jail_system.Prelude.{
  ℕ, ◌≤◌, ◌≡◌, Bool, true, false, Option, none, some, List, [], ◌∷◌, Bytes, if◌then◌else◌, arith,
}
use vpl_jail_system.Redirector.{
  States, ending, Redirector, add_input, add_vnc_input, add_message, Revents, ReadResult, got,
  failed_read, Action,
}
use vpl_jail_system.Redirector.Flow.{Flow, goes, breaks, after_actions, ◌>>◌, leaves, rank, to}
use vpl_jail_system.Redirector.Pieces.{hang_up, forward, write_program, write_server}
use vpl_jail_system.Redirector.Terminal
use vpl_jail_system.Redirector.Vnc

-- From a state of rank `n`: a statement that goes on leaves it, and one that breaks does not go back.
unfoldable pub Stays : ℕ → Flow → Type 0
Stays n (goes r xs) = rank r.state ≡ n
Stays n (breaks r xs) = n ≤ rank r.state

Stays-after : (n : ℕ) (xs : List Action) (x : Flow) → Stays n x → Stays n (after_actions xs x)
unfolding Stays
Stays-after n xs (goes r ys) h = h
Stays-after n xs (breaks r ys) h = h

pub Stays->> :
    (n : ℕ) (x : Flow) (k : Redirector → Flow)
    → Stays n x
    → ((r : Redirector) → rank r.state ≡ n → Stays n (k r))
    → Stays n (x >> k)
unfolding Stays
Stays->> n (goes r xs) k h hk = Stays-after n xs (k r) (hk r h)
Stays->> n (breaks r xs) k h hk = h

pub Stays-if :
    (n : ℕ) (b : Bool) (x y : Flow) → Stays n x → Stays n y → Stays n (if b then x else y)
Stays-if n true x y hx hy = hx
Stays-if n false x y hx hy = hy

pub Stays-to : (n : ℕ) (s : States) (r : Redirector) → n ≤ rank s → Stays n (to s r)
unfolding Stays
Stays-to n s r h = h

pub Stays-goes :
    (n : ℕ) (r : Redirector) (xs : List Action) → rank r.state ≡ n → Stays n (goes r xs)
unfolding Stays
Stays-goes n r xs h = h

pub Stays-breaks :
    (n : ℕ) (r : Redirector) (xs : List Action) → rank r.state ≡ n → Stays n (breaks r xs)
unfolding Stays
Stays-breaks n r xs h = omega arith

pub Stays-leaves : (n : ℕ) (x : Flow) → Stays n x → n ≤ rank (leaves x).0.state
unfolding Stays
Stays-leaves n (goes r xs) h = omega arith
Stays-leaves n (breaks r xs) h = h

pub hang_up-Stays : (p : Revents) (r : Redirector) → rank r.state ≡ 2 → Stays 2 (hang_up p r)
unfolding hang_up
hang_up-Stays p r h = Stays-if 2 _ _ _ (Stays-to 2 ending r (omega arith)) (Stays-goes 2 r [] h)

pub forward-Stays : (d : ReadResult) (r : Redirector) → rank r.state ≡ 2 → Stays 2 (forward d r)
unfolding forward
forward-Stays (got []) r h = Stays-to 2 ending r (omega arith)
forward-Stays (got (c ∷ s)) r h = Stays-goes 2 r _ h
forward-Stays (failed_read eio) r h = Stays-to 2 ending r (omega arith)

pub write_program-Stays :
    (n : Option ℕ) (r : Redirector) → rank r.state ≡ 2 → Stays 2 (write_program n r)
unfolding write_program
write_program-Stays none r h = Stays-to 2 ending r (omega arith)
write_program-Stays (some n) r h = Stays-goes 2 _ _ h

pub write_server-Stays :
    (n : Option ℕ) (r : Redirector) → rank r.state ≡ 2 → Stays 2 (write_server n r)
unfolding write_server
write_server-Stays none r h = Stays-to 2 ending r (omega arith)
write_server-Stays (some n) r h = Stays-goes 2 _ _ h

pub Terminal_take-Stays :
    (d : Bytes) (r : Redirector) → rank r.state ≡ 2 → Stays 2 (Terminal.take_input d r)
unfolding Terminal.take_input add_input add_message Stays
Terminal_take-Stays d r h = ground arith

pub Vnc_take-Stays : (d : Bytes) (r : Redirector) → rank r.state ≡ 2 → Stays 2 (Vnc.take_input d r)
unfolding Vnc.take_input add_vnc_input Stays
Vnc_take-Stays d r h = ground arith
