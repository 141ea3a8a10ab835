-- ===== src/Socket/Progress.antt =====
-- When Socket::send of src/socket.cpp returns.
use vpl_jail_system.Prelude.{
  leb, ◌==◌, if◌then◌else◌, leb→le, Bool-cases, Bytes, length, take, drop, All, take-append-drop, ℕ,
  min, refl, sym, ap, inl, inr, Bool, true, false, List, [], append-nil, arith, ◌+◌, ◌-◌, ◌≤◌, ◌<◌,
  ◌≡◌, ◌∙◌, ◌∷◌, ◌++◌,
}
use vpl_jail_system.Socket.{
  Socket, net_buffer_size, timed_out, ready, takes, SendRound, again, stops, behind_write,
  write_round, send_round, returned, waiting, send_loop, send,
}
use vpl_jail_system.Socket.Sending.{take-more, drop-all}

-- A round in time, without errors, in which netWrite takes a byte at least.
abbrev pub IsWriting : SendRound → Type 0
IsWriting e =
    (e.polled ≡ ready)
    × (e.late ≡ false)
    × (e.out ≡ true)
    × (e.hup ≡ false)
    × (e.bad ≡ false)
    × ((n : ℕ) × (1 ≤ n) × (e.write ≡ takes n))

-- Such a round goes forward, and ends the loop at the end of the buffer.
writing_round :
    (a : Bool) (s : Socket) (e : SendRound) (o : ℕ)
    → IsWriting e
    → o < length s.write_buffer
    → (k : ℕ) × (1 ≤ k)
      × (o + k ≤ length s.write_buffer)
      × (send_round a s e o e.polled ≡ (
          if leb (length s.write_buffer) (o + k)
          then stops s.closed (o + k) (take k (drop o s.write_buffer))
          else again (o + k) (take k (drop o s.write_buffer))))
unfolding send_round write_round behind_write
writing_round a s e o (p, late, out, hup, bad, (n, one, w)) h =
    let k = min n (min net_buffer_size (length s.write_buffer - o)) in
    let some : 1 ≤ k = omega arith in
    let positive : (k == 0) ≡ false = ground arith in
    (k, some, omega arith, rw (p, late, out, w, positive, hup, bad) refl)

send_loop-writes :
    (a : Bool) (s : Socket) (o : ℕ) (wire : Bytes) (es : List SendRound)
    → wire ≡ take o s.write_buffer
    → o < length s.write_buffer
    → All IsWriting es
    → length s.write_buffer ≤ o + length es
    → send_loop a s o wire es ≡ returned (record s { write_buffer = [] }) s.write_buffer
unfolding send_loop
send_loop-writes a s o wire [] hw h all fits = absurd (omega arith)
send_loop-writes a s o wire (e ∷ es) hw h all fits =
    let (k, one, below, r) = writing_round a s e o all.0 h in
    let buffer = s.write_buffer in
    let step : wire ++ take k (drop o buffer) ≡ take (o + k) buffer =
      rw hw (take-more buffer o k) in
    elim (Bool-cases (leb (length buffer) (o + k))) [
      | inl last ↦
          let none_left : drop (o + k) buffer ≡ [] =
            drop-all (o + k) buffer (leb→le (length buffer) (o + k) last) in
          let whole : take (o + k) buffer ≡ buffer =
            sym (append-nil (take (o + k) buffer))
            ∙ ap (λ t. take (o + k) buffer ++ t) (sym none_left)
            ∙ take-append-drop (o + k) buffer in
          rw (r, last, none_left, step)
            (ap (λ t. returned (record s { write_buffer = [] }) t) whole)
      | inr more ↦
          rw (r, more)
            (send_loop-writes a s (o + k) (wire ++ take k (drop o buffer)) es step (ground arith)
              all.1 (omega arith))
    ]

-- On an open connection with something to send, as many rounds as there are bytes, each in time, without
-- errors and taking a byte at least, are enough: send returns, and all is written in order.
pub send-writes :
    (s : Socket) (text : Bytes) (async : Bool) (es : List SendRound)
    → s.closed ≡ false
    → 0 < length (s.write_buffer ++ text)
    → length (s.write_buffer ++ text) ≤ length es
    → All IsWriting es
    → send s text async es ≡ returned (record s { write_buffer = [] }) (s.write_buffer ++ text)
unfolding send
send-writes s text async es opened h fits all = rw opened (
    send_loop-writes async (record s { write_buffer = s.write_buffer ++ text; closed = false }) 0 []
      es refl h all (omega arith))

send_loop_waits :
    (s : Socket) (o : ℕ) (wire : Bytes) (es : List SendRound)
    → All (λ (e : SendRound). e.polled ≡ timed_out) es
    → send_loop false s o wire es ≡ waiting
unfolding send_loop send_round
send_loop_waits s o wire [] h = refl
send_loop_waits s o wire (e ∷ es) h = rw h.0 (send_loop_waits s o (wire ++ []) es h.1)

-- While poll answers 0, a call of send that is not asynchronous stays in its loop, however many rounds pass
-- and whether or not its time limits have passed.
pub send-waits :
    (s : Socket) (text : Bytes) (es : List SendRound)
    → s.closed ≡ false
    → All (λ (e : SendRound). e.polled ≡ timed_out) es
    → send s text false es ≡ waiting
unfolding send
send-waits s text es h all = rw h (
    send_loop_waits (record s { write_buffer = s.write_buffer ++ text; closed = false }) 0 [] es
      all)
