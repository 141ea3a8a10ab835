-- ===== src/Socket/Sending.antt =====
-- What Socket::send of src/socket.cpp puts on the wire.
use vpl_jail_system.Prelude.{
  leb, ◌==◌, if◌then◌else◌, Bytes, length, take, drop, take-append-drop, ℕ, zero, suc, min, refl,
  sym, ap, Bool, true, false, List, [], append-nil, arith, ◌+◌, ◌-◌, ◌≤◌, ◌≡◌, ◌∙◌, ◌∷◌, ◌++◌,
}
use vpl_jail_system.Socket.{
  Socket, net_buffer_size, Poll, failed, timed_out, ready, Write, takes, fails, SendRound, RoundEnd,
  again, stops, throws, behind_write, write_round, send_round, Sent, returned, thrown, waiting,
  after_round, send_loop, send,
}

-- A round that starts at the offset `o` writes the bytes from there up to the new offset; a loop that is left
-- with the connection as it was has written all, or was asynchronous.
unfoldable pub Writes : Bool → Socket → ℕ → RoundEnd → Type 0
Writes async s o (again p bytes) = take o s.write_buffer ++ bytes ≡ take p s.write_buffer
Writes async s o (stops c p bytes) =
    (take o s.write_buffer ++ bytes ≡ take p s.write_buffer)
    × (async ≡ false → c ≡ false → length s.write_buffer ≤ p)
Writes async s o (throws bytes) = Unit

Writes-if :
    (a : Bool) (s : Socket) (o : ℕ) (b : Bool) (x y : RoundEnd)
    → (b ≡ true → Writes a s o x)
    → (b ≡ false → Writes a s o y)
    → Writes a s o (if b then x else y)
Writes-if a s o true x y hx hy = hx refl
Writes-if a s o false x y hx hy = hy refl

take-nil : (n : ℕ) → take {A = ℕ} n [] ≡ []
take-nil zero = refl
take-nil (suc n) = refl

pub take-more : (xs : Bytes) (o n : ℕ) → take o xs ++ take n (drop o xs) ≡ take (o + n) xs
take-more [] zero n = ap (λ t. take t []) (omega arith)
take-more [] (suc o) n = take-nil n ∙ sym (take-nil (suc o + n))
take-more (x ∷ xs) zero n = let e : n ≡ 0 + n = omega arith in ap (λ t. take t (x ∷ xs)) e
take-more (x ∷ xs) (suc o) n =
    let e : suc (o + n) ≡ suc o + n = omega arith in
    ap (λ t. x ∷ t) (take-more xs o n) ∙ ap (λ t. take t (x ∷ xs)) e

behind_write-Writes :
    (a : Bool) (s : Socket) (e : SendRound) (o p : ℕ) (bytes : Bytes)
    → take o s.write_buffer ++ bytes ≡ take p s.write_buffer
    → Writes a s o (behind_write s e p bytes)
unfolding behind_write Writes
behind_write-Writes a s e o p bytes h =
    Writes-if a s o e.hup _ _ (λ t. (h, λ _ c. absurd (ground arith)))
      (λ t.
        Writes-if a s o e.bad _ _
          (λ t.
            Writes-if a s o s.websocket_protocol _ _ (λ t. (h, λ _ c. absurd (ground arith)))
              (λ t. tt))
          (λ t.
            Writes-if a s o (leb (length s.write_buffer) p) _ _ (λ t. (h, λ _ _. ground arith))
              (λ t. h)))

stops-Writes : (a : Bool) (s : Socket) (o : ℕ) → Writes a s o (stops true o [])
unfolding Writes
stops-Writes a s o = (append-nil (take o s.write_buffer), λ _ c. absurd (ground arith))

throws-Writes : (a : Bool) (s : Socket) (o : ℕ) → Writes a s o (throws [])
unfolding Writes
throws-Writes a s o = tt

write_round-Writes :
    (a : Bool) (s : Socket) (e : SendRound) (o : ℕ) (w : Write) → Writes a s o (write_round s e o w)
unfolding write_round
write_round-Writes a s e o (takes n) =
    let k = min n (min net_buffer_size (length s.write_buffer - o)) in
    Writes-if a s o (k == 0) _ (behind_write s e (o + k) (take k (drop o s.write_buffer)))
      (λ t. stops-Writes a s o)
      (λ t. behind_write-Writes a s e o (o + k) _ (take-more s.write_buffer o k))
write_round-Writes a s e o (fails gone) =
    Writes-if a s o _ _ _ (λ t. stops-Writes a s o) (λ t. throws-Writes a s o)

send_round-Writes :
    (a : Bool) (s : Socket) (e : SendRound) (o : ℕ) (p : Poll) → Writes a s o (send_round a s e o p)
unfolding send_round Writes
send_round-Writes a s e o failed = throws-Writes a s o
send_round-Writes a s e o timed_out = waits a
  where
    waits : (b : Bool) → Writes b s o (if b then stops s.closed o [] else again o [])
    waits true = (append-nil (take o s.write_buffer), λ b _. absurd (ground arith))
    waits false = append-nil (take o s.write_buffer)
send_round-Writes a s e o ready =
    Writes-if a s o e.late _ _
      (λ t.
        Writes-if a s o s.websocket_protocol _ _ (λ t. stops-Writes a s o)
          (λ t. throws-Writes a s o))
      (λ t.
        Writes-if a s o e.out _ _ (λ t. write_round-Writes a s e o e.write)
          (λ t. behind_write-Writes a s e o o [] (append-nil (take o s.write_buffer))))

-- What a call of `send` on an open connection comes to: the bytes written and those left are all the bytes
-- in order; and nothing is left by a call that waits and leaves the connection open.
unfoldable pub Delivers : Bool → Bytes → Sent → Type 0
Delivers async whole (returned s wire) =
    (wire ++ s.write_buffer ≡ whole) × (async ≡ false → s.closed ≡ false → s.write_buffer ≡ [])
Delivers async whole (thrown s wire) = Unit
Delivers async whole waiting = Unit

pub drop-all : (n : ℕ) (xs : Bytes) → length xs ≤ n → drop n xs ≡ []
drop-all zero [] h = refl
drop-all zero (x ∷ xs) h = absurd (omega arith)
drop-all (suc n) [] h = refl
drop-all (suc n) (x ∷ xs) h = drop-all n xs (omega arith)

after_round-Delivers :
    (a : Bool) (s : Socket) (o : ℕ) (wire : Bytes) (x : RoundEnd) (k : ℕ → Bytes → Sent)
    → wire ≡ take o s.write_buffer
    → Writes a s o x
    → ((p : ℕ) (w : Bytes) → w ≡ take p s.write_buffer → Delivers a s.write_buffer (k p w))
    → Delivers a s.write_buffer (after_round s wire x k)
unfolding Writes Delivers
after_round-Delivers a s o wire (again p bytes) k hw h hk = hk p (wire ++ bytes) (rw hw h)
after_round-Delivers a s o wire (stops c p bytes) k hw h hk = (
  ap (λ t. t ++ drop p s.write_buffer) (rw hw h.0) ∙ take-append-drop p s.write_buffer,
  λ waits opened. drop-all p s.write_buffer (h.1 waits opened),
)
after_round-Delivers a s o wire (throws bytes) k hw h hk = tt

waiting-Delivers : (a : Bool) (whole : Bytes) → Delivers a whole waiting
unfolding Delivers
waiting-Delivers a whole = tt

send_loop-Delivers :
    (a : Bool) (s : Socket) (o : ℕ) (wire : Bytes) (es : List SendRound)
    → wire ≡ take o s.write_buffer
    → Delivers a s.write_buffer (send_loop a s o wire es)
unfolding send_loop
send_loop-Delivers a s o wire [] h = waiting-Delivers a s.write_buffer
send_loop-Delivers a s o wire (e ∷ es) h =
    after_round-Delivers a s o wire (send_round a s e o e.polled) _ h
      (send_round-Writes a s e o e.polled) (λ p w hw. send_loop-Delivers a s p w es hw)

-- On an open connection, whatever poll, the clock and netWrite answer: when a call of send returns, the bytes
-- that went out and those left in the buffer are, in order, those that were left before and the text; and a
-- call that is not asynchronous and leaves the connection open leaves none.
pub send-Delivers :
    (s : Socket) (text : Bytes) (async : Bool) (es : List SendRound)
    → s.closed ≡ false
    → Delivers async (s.write_buffer ++ text) (send s text async es)
unfolding send
send-Delivers s text async es h = rw h (
    send_loop-Delivers async (record s { write_buffer = s.write_buffer ++ text; closed = false }) 0
      [] es refl)
