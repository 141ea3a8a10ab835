-- ===== src/Socket/Receive/Enough.antt =====
-- How much Socket::receive of src/socket.cpp gives when it is asked for a number of bytes.
use vpl_jail_system.Prelude.{
  ltb, leb, ◌==◌, if◌then◌else◌, Bool-cases, Bytes, length, take, length-take, ℕ, refl, ap, inl,
  inr, Bool, true, false, List, [], arith, ◌≤◌, ◌<◌, ◌≡◌, ◌∙◌, ◌&&◌, ◌||◌, ◌∷◌, ◌++◌,
}
use vpl_jail_system.Socket.{Socket, net_buffer_size, Poll, failed, timed_out, ready}
use vpl_jail_system.Socket.Receive.{
  Read, gets, read_fails, ReceiveRound, ReadTurn, goes_on, breaks, gives_up, throws_up, hung_up,
  behind_read, Received, returns, raised, waits, after_turn, late_round, take_bytes, read_net,
  ready_round, polled_round, receive_round, receive_loop, receive,
}

-- A round that ends the loop leaves the connection closed, or as many bytes as were asked for.
unfoldable Fills : ℕ → ReadTurn → Type 0
Fills size (goes_on t) = (length t.header == 0) ≡ false
Fills size (breaks t) = t.closed ≡ false → size ≤ length t.read_buffer
Fills size (gives_up t) = ⊥
Fills size (throws_up t) = Unit

Fills-if :
    (size : ℕ) (b : Bool) (x y : ReadTurn)
    → (b ≡ true → Fills size x)
    → (b ≡ false → Fills size y)
    → Fills size (if b then x else y)
Fills-if size true x y hx hy = hx refl
Fills-if size false x y hx hy = hy refl

hung_up-Fills : (size : ℕ) (s : Socket) → Fills size (breaks (hung_up s))
unfolding Fills
hung_up-Fills size s c = absurd (ground arith)

throws_up-Fills : (size : ℕ) (s : Socket) → Fills size (throws_up s)
unfolding Fills
throws_up-Fills size s = tt

goes_on-Fills : (size : ℕ) (s : Socket) → (length s.header == 0) ≡ false → Fills size (goes_on s)
unfolding Fills
goes_on-Fills size s h = h

breaks-Fills : (size : ℕ) (s : Socket) → size ≤ length s.read_buffer → Fills size (breaks s)
unfolding Fills
breaks-Fills size s h c = h

behind_read-Fills :
    (size : ℕ) (s : Socket) (e : ReceiveRound)
    → (length s.header == 0) ≡ false
    → Fills size (behind_read s e)
unfolding behind_read
behind_read-Fills size s e h =
    Fills-if size e.hup _ _ (λ _. hung_up-Fills size s)
      (λ _.
        Fills-if size e.bad _ _
          (λ _.
            Fills-if size s.websocket_protocol _ _ (λ _. hung_up-Fills size s)
              (λ _. throws_up-Fills size s))
          (λ _. goes_on-Fills size s h))

late_round-Fills : (size : ℕ) (s : Socket) → 0 < size → Fills size (late_round size s)
unfolding late_round
late_round-Fills size s h =
    Fills-if size (size == 0) _ _ (λ z. absurd (ground arith))
      (λ _.
        Fills-if size s.websocket_protocol _ _ (λ _. hung_up-Fills size s)
          (λ _. throws_up-Fills size s))

text_of : Received → Bytes
text_of (returns s text wire) = text
text_of (raised s) = []
text_of waits = []

closed_of : Received → Bool
closed_of (returns s text wire) = s.closed
closed_of (raised s) = false
closed_of waits = false

after_turn-enough :
    (size : ℕ) (t : Socket) (wire text more : Bytes) (x : ReadTurn) (k : Socket → Bytes → Received)
    → Fills size x
    → t.closed ≡ false
    → ((u : Socket)
        → (length u.header == 0) ≡ false
        → k u wire ≡ returns t text more
        → size ≤ length text)
    → after_turn x wire k ≡ returns t text more
    → size ≤ length text
unfolding Fills text_of closed_of
after_turn-enough size t wire text more (goes_on u) k h c hk r = hk u h r
after_turn-enough size t wire text more (breaks u) k h c hk r =
    let e : u.read_buffer ≡ text = ap text_of r in rw (← e) (h (ap closed_of r ∙ c))
after_turn-enough size t wire text more (gives_up u) k h c hk r = absurd h
after_turn-enough size t wire text more (throws_up u) k h c hk r = absurd (ground arith)

module _ (process_headers : Bytes → Bool) where
  take_bytes-Fills :
      (size : ℕ) (s : Socket) (e : ReceiveRound)
      → 0 < size
      → (length s.header == 0) ≡ false
      → Fills size (take_bytes process_headers size s e)
  unfolding take_bytes
  take_bytes-Fills size s e pos h =
      Fills-if size (length s.header == 0) _ _ (λ z. absurd (ground arith))
        (λ _.
          Fills-if size (size == 0 || leb size (length s.read_buffer)) _ _
            (λ b. breaks-Fills size s (ground arith)) (λ _. behind_read-Fills size s e h))

  read_net-Fills :
      (size : ℕ) (s : Socket) (e : ReceiveRound) (r : Read)
      → 0 < size
      → (length s.header == 0) ≡ false
      → Fills size (read_net process_headers size s e r)
  unfolding read_net
  read_net-Fills size s e (gets []) pos h = hung_up-Fills size s
  read_net-Fills size s e (gets (c ∷ bytes)) pos h =
      take_bytes-Fills size
        (record s { read_buffer = s.read_buffer ++ take net_buffer_size (c ∷ bytes) }) e pos h
  read_net-Fills size s e (read_fails gone) pos h =
      Fills-if size (s.websocket_protocol && gone) _ _ (λ _. hung_up-Fills size s)
        (λ _. throws_up-Fills size s)

  polled_round-Fills :
      (size : ℕ) (s : Socket) (e : ReceiveRound) (p : Poll) (l : Bool)
      → 0 < size
      → (length s.header == 0) ≡ false
      → Fills size (polled_round process_headers size s e p l)
  unfolding polled_round ready_round
  polled_round-Fills size s e failed l pos h = throws_up-Fills size s
  polled_round-Fills size s e timed_out true pos h = late_round-Fills size s pos
  polled_round-Fills size s e ready true pos h = late_round-Fills size s pos
  polled_round-Fills size s e timed_out false pos h =
      Fills-if size (size == 0) _ _ (λ z. absurd (ground arith)) (λ _. goes_on-Fills size s h)
  polled_round-Fills size s e ready false pos h =
      Fills-if size e.inp _ _ (λ _. read_net-Fills size s e e.read pos h)
        (λ _. behind_read-Fills size s e h)

  receive_loop-enough :
      (size : ℕ) (s t : Socket) (wire text more : Bytes) (es : List ReceiveRound)
      → 0 < size
      → (length s.header == 0) ≡ false
      → t.closed ≡ false
      → receive_loop process_headers size s wire es ≡ returns t text more
      → size ≤ length text
  unfolding receive_loop receive_round
  receive_loop-enough size s t wire text more [] pos h c r = absurd (ground arith)
  receive_loop-enough size s t wire text more (e ∷ es) pos h c r =
      after_turn-enough size t _ text more _ _ (polled_round-Fills size s e e.polled e.late pos h) c
        (λ u hu. receive_loop-enough size u t _ text more es pos hu c) r

-- On a connection whose header has been read, whatever poll, the clock and netRead answer: a call of receive
-- that asks for a positive number of bytes and returns with the connection open returns that many at
-- least.
pub receive-enough :
    (process_headers : Bytes → Bool) (s t : Socket) (asked : ℕ) (es : List ReceiveRound)
    (text wire : Bytes)
    → 0 < asked
    → 0 < length s.header
    → receive process_headers s asked es ≡ returns t text wire
    → t.closed ≡ false
    → asked ≤ length text
unfolding receive text_of closed_of
receive-enough process_headers s t asked es text wire pos h r c =
    let started : (length s.header == 0) ≡ false = ground arith in
    let full = ltb 0 asked && leb asked (length s.read_buffer) in
    elim (Bool-cases s.closed) [
      | inl e ↦ absurd (cc (ap closed_of (rw e at r), c))
      | inr e ↦ elim (Bool-cases full) [
        | inl f ↦
            let same : take asked s.read_buffer ≡ text = ap text_of (rw (e, started, f) at r) in
            rw (← same) (ground (arith, length-take asked s.read_buffer))
        | inr f ↦
            receive_loop-enough process_headers asked (record s { closed = false }) t [] text wire
              es pos started c (rw (e, started, f) at r)
      ]
    ]
