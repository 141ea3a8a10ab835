-- ===== src/Redirector/Input.antt =====
-- What the client sends on its way to the program, in RedirectorTerminal of src/redirector.cpp.
use vpl_jail_system.Prelude.{
  ℕ, ◌≤◌, ◌≡◌, refl, sym, ap, ◌∙◌, Bool, true, false, Option, none, some, List, [], ◌∷◌, ◌++◌,
  append-nil, append_assoc, Bytes, take, take-append-drop, if◌then◌else◌, arith, inl, inr, ◌⊎◌,
}
use vpl_jail_system.Redirector.{
  States, ending, Redirector, add_input, Revents, bad, Poll, failed, timed_out, ready, ReadResult,
  got, failed_read, Round, Action, sends, receives, writes, closes, sleeps,
}
use vpl_jail_system.Redirector.Flow.{Flow, goes, breaks, after_actions, ◌>>◌, to, rank}
use vpl_jail_system.Redirector.Pieces.{hang_up, write_program}
use vpl_jail_system.Redirector.Terminal.{
  take_input, buffered_input, read_program, send_output, read_client, write_input, events, polled,
  connected_round,
}

-- The bytes received from the client, and those written to the program.
abbrev pub received : List Action → Bytes
received [] = []
received (receives d ∷ xs) = d ++ received xs
received (sends d ∷ xs) = received xs
received (writes d ∷ xs) = received xs
received (closes ∷ xs) = received xs
received (sleeps ∷ xs) = received xs

abbrev pub written : List Action → Bytes
written [] = []
written (writes d ∷ xs) = d ++ written xs
written (receives d ∷ xs) = written xs
written (sends d ∷ xs) = written xs
written (closes ∷ xs) = written xs
written (sleeps ∷ xs) = written xs

received-append : (xs ys : List Action) → received (xs ++ ys) ≡ received xs ++ received ys
received-append [] ys = refl
received-append (receives d ∷ xs) ys = rw (received-append xs ys, append_assoc) refl
received-append (sends d ∷ xs) ys = received-append xs ys
received-append (writes d ∷ xs) ys = received-append xs ys
received-append (closes ∷ xs) ys = received-append xs ys
received-append (sleeps ∷ xs) ys = received-append xs ys

written-append : (xs ys : List Action) → written (xs ++ ys) ≡ written xs ++ written ys
written-append [] ys = refl
written-append (writes d ∷ xs) ys = rw (written-append xs ys, append_assoc) refl
written-append (sends d ∷ xs) ys = written-append xs ys
written-append (receives d ∷ xs) ys = written-append xs ys
written-append (closes ∷ xs) ys = written-append xs ys
written-append (sleeps ∷ xs) ys = written-append xs ys

-- Nothing is lost, doubled or reordered between `r` and `r'`.
abbrev pub IsFifo : Redirector → List Action → Redirector → Type 0
IsFifo r xs r' = written xs ++ r'.programbuf ≡ r.programbuf ++ received xs

pub IsFifo-append :
    (r s t : Redirector) (xs ys : List Action)
    → IsFifo r xs s
    → IsFifo s ys t
    → IsFifo r (xs ++ ys) t
IsFifo-append r s t xs ys h k =
    rw (written-append xs ys, received-append xs ys, append_assoc, k, ← append_assoc, h)
      (rw append_assoc refl)

-- A statement keeps the bytes in order, or ends the session.
unfoldable pub Keeps : Redirector → Flow → Type 0
Keeps r (goes s xs) = IsFifo r xs s
Keeps r (breaks s xs) = IsFifo r xs s ⊎ (3 ≤ rank s.state)

Keeps-after :
    (r s : Redirector) (xs : List Action) (x : Flow)
    → IsFifo r xs s
    → Keeps s x
    → Keeps r (after_actions xs x)
unfolding Keeps
Keeps-after r s xs (goes t ys) h k = IsFifo-append r s t xs ys h k
Keeps-after r s xs (breaks t ys) h (inl k) = inl (IsFifo-append r s t xs ys h k)
Keeps-after r s xs (breaks t ys) h (inr k) = inr k

Keeps->> :
    (r : Redirector) (x : Flow) (k : Redirector → Flow)
    → Keeps r x
    → ((s : Redirector) → Keeps s (k s))
    → Keeps r (x >> k)
unfolding Keeps
Keeps->> r (goes s xs) k h hk = Keeps-after r s xs (k s) h (hk s)
Keeps->> r (breaks s xs) k h hk = h

Keeps-if :
    (r : Redirector) (b : Bool) (x y : Flow) → Keeps r x → Keeps r y → Keeps r (if b then x else y)
Keeps-if r true x y hx hy = hx
Keeps-if r false x y hx hy = hy

Keeps-to : (r s : Redirector) (t : States) → 3 ≤ rank t → Keeps r (to t s)
unfolding Keeps
Keeps-to r s t h = inr h

-- A statement that neither receives nor writes.
Keeps-goes :
    (r s : Redirector) (xs : List Action)
    → s.programbuf ≡ r.programbuf
    → written xs ≡ []
    → received xs ≡ []
    → Keeps r (goes s xs)
unfolding Keeps
Keeps-goes r s xs h w v = rw (w, v, h) (sym (append-nil r.programbuf))

-- The result of addInput says whether the bytes were added.
add_input-appends :
    (d : Bytes) (r : Redirector)
    → (add_input r d).1 ≡ true
    → (add_input r d).0.programbuf ≡ r.programbuf ++ d
unfolding add_input
add_input-appends d r h = ground arith

take_input-Keeps : (d : Bytes) (r : Redirector) → Keeps r (take_input d r)
unfolding take_input Keeps
take_input-Keeps d r = by_result (add_input r d) (add_input-appends d r)
  where
    by_result :
        (x : Redirector × Bool)
        → (x.1 ≡ true → x.0.programbuf ≡ r.programbuf ++ d)
        → Keeps r (
            if x.1
            then goes x.0 (receives d ∷ [])
            else breaks (record x.0 { state = ending }) (receives d ∷ []))
    by_result (s, true) h = h refl ∙ ap (λ t. r.programbuf ++ t) (sym (append-nil d))
    by_result (s, false) h = inr (omega arith)

write_program-Keeps : (n : Option ℕ) (r : Redirector) → Keeps r (write_program n r)
unfolding write_program Keeps
write_program-Keeps none r = inr (omega arith)
write_program-Keeps (some n) r =
    rw (append-nil (take n r.programbuf), append-nil r.programbuf) (take-append-drop n r.programbuf)

hang_up-Keeps : (p : Revents) (r : Redirector) → Keeps r (hang_up p r)
unfolding hang_up
hang_up-Keeps p r =
    Keeps-if r _ _ _ (Keeps-to r r ending (omega arith)) (Keeps-goes r r [] refl refl refl)

send_output-Keeps : (d : ReadResult) (r : Redirector) → Keeps r (send_output d r)
unfolding send_output
send_output-Keeps (got []) r = Keeps-to r r ending (omega arith)
send_output-Keeps (got (c ∷ s)) r = Keeps-goes r _ _ refl refl refl
send_output-Keeps (failed_read eio) r = Keeps-to r r ending (omega arith)

read_program-Keeps : (d : ReadResult) (p : Revents) (r : Redirector) → Keeps r (read_program d p r)
unfolding read_program
read_program-Keeps d p r =
    Keeps-if r _ _ _ (send_output-Keeps d r) (Keeps-goes r r [] refl refl refl)

events-Keeps : (e : Round) (p client : Revents) (r : Redirector) → Keeps r (events e p client r)
unfolding events read_client write_input
events-Keeps e p client r = Keeps-if r (bad client) _ _ (Keeps-to r r ending (omega arith)) (
    Keeps->> r _ _ (read_program-Keeps e.readed p r) (λ r.
      Keeps->> r _ _
        (Keeps-if r client.read _ _ (take_input-Keeps e.received r)
          (Keeps-goes r r [] refl refl refl))
        (λ r.
          Keeps->> r _ _
            (Keeps-if r _ _ _ (write_program-Keeps e.written r) (Keeps-goes r r [] refl refl refl))
            (λ r. hang_up-Keeps p r))))

polled-Keeps : (o : Poll) (e : Round) (r : Redirector) → Keeps r (polled o e r)
unfolding polled Keeps
polled-Keeps failed e r = inr (omega arith)
polled-Keeps timed_out e r = inl (sym (append-nil r.programbuf))
polled-Keeps (ready p client) e r = events-Keeps e p client r

buffered_input-Keeps : (d : Option Bytes) (r : Redirector) → Keeps r (buffered_input d r)
unfolding buffered_input
buffered_input-Keeps none r = Keeps-goes r r [] refl refl refl
buffered_input-Keeps (some d) r = take_input-Keeps d r

pub connected_round-Keeps : (e : Round) (r : Redirector) → Keeps r (connected_round e r)
unfolding connected_round
connected_round-Keeps e r =
    Keeps->> r _ _ (buffered_input-Keeps e.buffered r) (λ r. polled-Keeps e.polled e r)
