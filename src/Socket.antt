-- ===== src/Socket.antt =====
-- class Socket of src/socket.h and src/socket.cpp: its state, and what it sends. What poll, the clock and netWrite answer
-- is an argument, one answer for each round of the loop.
pub mod Sending
pub mod Progress
pub mod Receive
pub mod Headers
use vpl_jail_system.Prelude.{
  leb, ◌==◌, if◌then◌else◌, Bytes, length, take, drop, ℕ, min, Bool, true, List, [], ◌+◌, ◌-◌, ◌*◌,
  ◌&&◌, ◌∷◌, ◌++◌,
}

pub record Socket : Type 0 where
  pub closed : Bool
  pub websocket_protocol : Bool
  pub header : Bytes
  pub read_buffer : Bytes
  pub write_buffer : Bytes

-- JAIL_NET_BUFFER_SIZE of src/jail_limits.h.
abbrev pub net_buffer_size : ℕ
net_buffer_size = 256 * 1024

-- poll: -1, 0 or events.
pub data Poll : Type 0 where
  failed timed_out ready : Poll

-- netWrite: it takes the bytes it is offered up to a number, or fails, and `errno` may say that the peer is
-- gone (EPIPE, ECONNRESET, ECONNABORTED, ENOTCONN).
pub data Write : Type 0 where
  takes : ℕ → Write
  fails : Bool → Write

-- One round of the loop of `send`.
pub record SendRound : Type 0 where
  pub polled : Poll
  -- One of the two time limits has passed.
  pub late : Bool
  -- POLLOUT, POLLHUP, and POLLERR or POLLNVAL.
  pub out : Bool
  pub hup : Bool
  pub bad : Bool
  pub write : Write

-- How a round ends: `continue` and the end of the body, `break`, or an exception; with the offset, the bytes
-- written and, for `break`, what `closed` is then.
pub data RoundEnd : Type 0 where
  again : ℕ → Bytes → RoundEnd
  stops : Bool → ℕ → Bytes → RoundEnd
  throws : Bytes → RoundEnd

-- Behind the write: the events, and the test of the offset.
unfoldable pub behind_write : Socket → SendRound → ℕ → Bytes → RoundEnd
behind_write s e offset bytes =
    if e.hup
    then stops true offset bytes
    else if e.bad
    then if s.websocket_protocol then stops true offset bytes else throws bytes
    else if leb (length s.write_buffer) offset
    then stops s.closed offset bytes
    else again offset bytes

-- `if (devices[0].revents & POLLOUT)`: `toWrite` bytes are offered.
unfoldable pub write_round : Socket → SendRound → ℕ → Write → RoundEnd
write_round s e offset (takes n) =
    let size = length s.write_buffer in
    let to_write = min net_buffer_size (size - offset) in
    let size_written = min n to_write in
    if size_written == 0
    then stops true offset []
    else behind_write s e (offset + size_written) (take size_written (drop offset s.write_buffer))
write_round s e offset (fails gone) =
    if s.websocket_protocol && gone then stops true offset [] else throws []

unfoldable pub send_round : Bool → Socket → SendRound → ℕ → Poll → RoundEnd
send_round async s e offset failed = throws []
send_round async s e offset timed_out = if async then stops s.closed offset [] else again offset []
send_round async s e offset ready =
    if e.late
    then if s.websocket_protocol then stops true offset [] else throws []
    else if e.out
    then write_round s e offset e.write
    else behind_write s e offset []

-- A call of `send`: it returns, with the socket and the bytes that went out, it throws, or the rounds are over
-- and it is still in its loop.
pub data Sent : Type 0 where
  returned : Socket → Bytes → Sent
  thrown : Socket → Bytes → Sent
  waiting : Sent

abbrev pub after_round : Socket → Bytes → RoundEnd → (ℕ → Bytes → Sent) → Sent
after_round s wire (again offset bytes) k = k offset (wire ++ bytes)
after_round s wire (stops closed offset bytes) k =
    returned (record s { closed = closed; write_buffer = drop offset s.write_buffer })
      (wire ++ bytes)
after_round s wire (throws bytes) k = thrown s (wire ++ bytes)

unfoldable pub send_loop : Bool → Socket → ℕ → Bytes → List SendRound → Sent
send_loop async s offset wire [] = waiting
send_loop async s offset wire (e ∷ es) =
    after_round s wire (send_round async s e offset e.polled) (λ o w. send_loop async s o w es)

unfoldable pub send : Socket → Bytes → Bool → List SendRound → Sent
send s text async es =
    if s.closed
    then returned s []
    else send_loop async (record s { write_buffer = s.write_buffer ++ text }) 0 [] es
