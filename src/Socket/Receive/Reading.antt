-- ===== src/Socket/Receive/Reading.antt =====
-- What Socket::receive of src/socket.cpp gives of the bytes that come in.
use vpl_jail_system.Prelude.{
  ltb, leb, ◌==◌, if◌then◌else◌, Bytes, length, take, drop, take-append-drop, ℕ, refl, sym, ap,
  subst, Bool, true, false, not, Option, none, some, List, [], append_assoc, append-nil, arith, ◌+◌,
  ◌≡◌, ◌∙◌, ◌&&◌, ◌||◌, ◌∷◌, ◌++◌,
}
use vpl_jail_system.Socket.{Socket, net_buffer_size, Poll, failed, timed_out, ready}
use vpl_jail_system.Socket.Receive.{
  headers_size_limit, Read, gets, read_fails, ReceiveRound, ReadTurn, goes_on, breaks, gives_up,
  throws_up, hung_up, behind_read, find_blank_line, bytes_of, bytes_read, Received, returns, raised,
  waits, after_turn, late_round, read_header, take_bytes, read_net, ready_round, polled_round,
  receive_round, receive_loop, receive,
}

-- The header, and the bytes behind it that were not given out.
abbrev pub held : Socket → Bytes
held s = s.header ++ s.read_buffer

-- A round that does not throw leaves these bytes with the socket.
unfoldable Keeps : Bytes → ReadTurn → Type 0
Keeps whole (goes_on t) = held t ≡ whole
Keeps whole (breaks t) = held t ≡ whole
Keeps whole (gives_up t) = held t ≡ whole
Keeps whole (throws_up t) = Unit

throws_up-Keeps : (whole : Bytes) (s : Socket) → Keeps whole (throws_up s)
unfolding Keeps
throws_up-Keeps whole s = tt

breaks-Keeps : (whole : Bytes) (s : Socket) → held s ≡ whole → Keeps whole (breaks s)
unfolding Keeps
breaks-Keeps whole s h = h

Keeps-if :
    (whole : Bytes) (b : Bool) (x y : ReadTurn)
    → (b ≡ true → Keeps whole x)
    → (b ≡ false → Keeps whole y)
    → Keeps whole (if b then x else y)
Keeps-if whole true x y hx hy = hx refl
Keeps-if whole false x y hx hy = hy refl

behind_read-Keeps :
    (whole : Bytes) (s : Socket) (e : ReceiveRound) → held s ≡ whole → Keeps whole (behind_read s e)
unfolding behind_read Keeps
behind_read-Keeps whole s e h =
    Keeps-if whole e.hup _ _ (λ _. h)
      (λ _.
        Keeps-if whole e.bad _ _ (λ _. Keeps-if whole s.websocket_protocol _ _ (λ _. h) (λ _. tt))
          (λ _. h))

no_header : (xs : Bytes) → (length xs == 0) ≡ true → xs ≡ []
no_header [] h = refl
no_header (x ∷ xs) h = absurd (ground arith)

-- What a call comes to: the header, the text and what is left in the buffer are, in order, the header and
-- the bytes that were there before and those that were read.
unfoldable pub Gives : Bytes → Received → Type 0
Gives before (returns s text wire) = s.header ++ (text ++ s.read_buffer) ≡ before ++ wire
Gives before (raised s) = Unit
Gives before waits = Unit

Gives-if :
    (before : Bytes) (b : Bool) (x y : Received)
    → Gives before x
    → Gives before y
    → Gives before (if b then x else y)
Gives-if before true x y hx hy = hx
Gives-if before false x y hx hy = hy

module _ (process_headers : Bytes → Bool) where
  read_header-Keeps :
      (s : Socket) (e : ReceiveRound)
      → s.header ≡ []
      → Keeps s.read_buffer (read_header process_headers s e)
  unfolding read_header
  read_header-Keeps s e h = found (find_blank_line s.read_buffer)
    where
      found :
          (at : Option ℕ)
          → Keeps s.read_buffer (elim at [
            | none ↦
                if ltb headers_size_limit (length s.read_buffer)
                then throws_up s
                else behind_read s e
            | some pos ↦
                let s' = record s { header = take (pos + 4) s.read_buffer } in
                if process_headers s'.header
                then gives_up (record s' { read_buffer = drop (pos + 4) s.read_buffer })
                else throws_up s'
          ])
      found none =
          Keeps-if _ (ltb headers_size_limit (length s.read_buffer)) _ _ (λ _. throws_up-Keeps _ s)
            (λ _. behind_read-Keeps _ s e (ap (λ t. t ++ s.read_buffer) h))
      found (some pos) =
          Keeps-if _ (process_headers (take (pos + 4) s.read_buffer)) _ _
            (λ _. unfold Keeps in take-append-drop (pos + 4) s.read_buffer)
            (λ _. throws_up-Keeps _ _)

  take_bytes-Keeps :
      (whole : Bytes) (size : ℕ) (s : Socket) (e : ReceiveRound)
      → held s ≡ whole
      → Keeps whole (take_bytes process_headers size s e)
  unfolding take_bytes
  take_bytes-Keeps whole size s e h =
      Keeps-if _ (length s.header == 0) _ _
        (λ n.
          let z = no_header s.header n in
          subst (λ w. Keeps w (read_header process_headers s e))
            (ap (λ t. t ++ s.read_buffer) (sym z) ∙ h) (read_header-Keeps s e z))
        (λ _.
          Keeps-if _ (size == 0 || leb size (length s.read_buffer)) _ _ (λ _. breaks-Keeps _ s h)
            (λ _. behind_read-Keeps _ s e h))

  read_net-Keeps :
      (size : ℕ) (s : Socket) (e : ReceiveRound) (r : Read)
      → Keeps (held s ++ bytes_of ready false true r) (read_net process_headers size s e r)
  unfolding read_net
  read_net-Keeps size s e (gets []) = breaks-Keeps _ (hung_up s) (sym (append-nil (held s)))
  read_net-Keeps size s e (gets (c ∷ bytes)) =
      let more = take net_buffer_size (c ∷ bytes) in
      take_bytes-Keeps _ size (record s { read_buffer = s.read_buffer ++ more }) e
        (sym (append_assoc s.header s.read_buffer more))
  read_net-Keeps size s e (read_fails gone) =
      Keeps-if _ (s.websocket_protocol && gone) _ _
        (λ _. breaks-Keeps _ (hung_up s) (sym (append-nil (held s)))) (λ _. throws_up-Keeps _ s)

  late_round-Keeps :
      (whole : Bytes) (size : ℕ) (s : Socket) → held s ≡ whole → Keeps whole (late_round size s)
  unfolding late_round Keeps
  late_round-Keeps whole size s h =
      Keeps-if whole (size == 0) _ _ (λ _. h)
        (λ _. Keeps-if whole s.websocket_protocol _ _ (λ _. h) (λ _. tt))

  ready_round-Keeps :
      (size : ℕ) (s : Socket) (e : ReceiveRound) (b : Bool)
      → Keeps
          (held s ++ bytes_of ready false b e.read)
          (if b then read_net process_headers size s e e.read else behind_read s e)
  ready_round-Keeps size s e true = read_net-Keeps size s e e.read
  ready_round-Keeps size s e false = behind_read-Keeps _ s e (sym (append-nil (held s)))

  timely_round-Keeps :
      (size : ℕ) (s : Socket) (e : ReceiveRound) (p : Poll) (l : Bool)
      → Keeps (held s ++ bytes_of p l e.inp e.read) (polled_round process_headers size s e p l)
  unfolding polled_round Keeps ready_round
  timely_round-Keeps size s e failed l = tt
  timely_round-Keeps size s e timed_out true = late_round-Keeps _ size s (sym (append-nil (held s)))
  timely_round-Keeps size s e ready true = late_round-Keeps _ size s (sym (append-nil (held s)))
  timely_round-Keeps size s e timed_out false =
      Keeps-if _ (size == 0) _ _ (λ _. sym (append-nil (held s))) (λ _. sym (append-nil (held s)))
  timely_round-Keeps size s e ready false = ready_round-Keeps size s e e.inp

  after_turn-Gives :
      (before wire : Bytes) (x : ReadTurn) (k : Socket → Bytes → Received)
      → Keeps (before ++ wire) x
      → ((t : Socket) → held t ≡ before ++ wire → Gives before (k t wire))
      → Gives before (after_turn x wire k)
  unfolding Keeps Gives
  after_turn-Gives before wire (goes_on t) k h hk = hk t h
  after_turn-Gives before wire (breaks t) k h hk =
      ap (λ u. t.header ++ u) (append-nil t.read_buffer) ∙ h
  after_turn-Gives before wire (gives_up t) k h hk = h
  after_turn-Gives before wire (throws_up t) k h hk = tt

  receive_loop-Gives :
      (before wire : Bytes) (size : ℕ) (s : Socket) (es : List ReceiveRound)
      → held s ≡ before ++ wire
      → Gives before (receive_loop process_headers size s wire es)
  unfolding receive_loop Gives receive_round
  receive_loop-Gives before wire size s [] h = tt
  receive_loop-Gives before wire size s (e ∷ es) h =
      let w = wire ++ bytes_read e in
      after_turn-Gives before w (receive_round process_headers size s e) _
        (subst (λ u. Keeps u (polled_round process_headers size s e e.polled e.late))
          (ap (λ u. u ++ bytes_read e) h ∙ append_assoc before wire (bytes_read e))
          (timely_round-Keeps size s e e.polled e.late))
        (λ t ht. receive_loop-Gives before w size t es ht)

-- Whatever poll, the clock and netRead answer, and however much is asked for: when a call of receive returns,
-- the header, the text returned and the bytes left in the buffer are, in order, the header and the bytes
-- that were there before the call and all that were read in it.
pub receive-Gives :
    (process_headers : Bytes → Bool) (s : Socket) (asked : ℕ) (es : List ReceiveRound)
    → Gives (held s) (receive process_headers s asked es)
unfolding receive Gives
receive-Gives process_headers s asked es =
    let size = if length s.header == 0 then headers_size_limit else asked in
    let ready = ltb 0 size && leb size (length s.read_buffer) && not (length s.header == 0) in
    let all = ap (λ u. s.header ++ u) (append-nil s.read_buffer) ∙ sym (append-nil (held s)) in
    let part =
      ap (λ u. s.header ++ u) (take-append-drop size s.read_buffer) ∙ sym (append-nil (held s)) in
    Gives-if (held s) s.closed _ _ all (
      Gives-if (held s) ready _ _ part
        (receive_loop-Gives process_headers (held s) [] size s es (sym (append-nil (held s)))))
