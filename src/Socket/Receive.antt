-- ===== src/Socket/Receive.antt =====
-- Socket::receive of src/socket.cpp. What poll, the clock and netRead answer is an argument, one answer for
-- each round of the loop. So is whether processHeaders returns for a header: Socket.Headers has what it does.
pub mod Reading
pub mod Enough
use vpl_jail_system.Prelude.{
  ltb, leb, ◌==◌, if◌then◌else◌, Bytes, codes, length, take, drop, str_eq, ℕ, suc, Bool, true,
  false, not, Option, none, some, List, [], ◌+◌, ◌*◌, ◌&&◌, ◌||◌, ◌∷◌, ◌++◌,
}
use vpl_jail_system.Socket.{Socket, net_buffer_size, Poll, failed, timed_out, ready}

-- JAIL_HEADERS_SIZE_LIMIT of src/jail_limits.h.
abbrev pub headers_size_limit : ℕ
headers_size_limit = 8 * 1024

-- netRead: the bytes read, at most the size of the buffer and none at the end; or a failure, and `errno` may
-- say that the peer is gone.
pub data Read : Type 0 where
  gets : Bytes → Read
  read_fails : Bool → Read

-- One round of the loop of `receive`.
pub record ReceiveRound : Type 0 where
  pub polled : Poll
  -- One of the two time limits has passed.
  pub late : Bool
  -- POLLIN, POLLHUP, and POLLERR or POLLNVAL.
  pub inp : Bool
  pub hup : Bool
  pub bad : Bool
  pub read : Read

-- How a round ends, with the socket then: it goes on, `break`, `return ""`, or an exception.
pub data ReadTurn : Type 0 where
  goes_on : Socket → ReadTurn
  breaks : Socket → ReadTurn
  gives_up : Socket → ReadTurn
  throws_up : Socket → ReadTurn

abbrev pub hung_up : Socket → Socket
hung_up s = record s { closed = true }

-- Behind the read: the events.
unfoldable pub behind_read : Socket → ReceiveRound → ReadTurn
behind_read s e =
    if e.hup
    then breaks (hung_up s)
    else if e.bad
    then if s.websocket_protocol then breaks (hung_up s) else throws_up s
    else goes_on s

abbrev pub blank_line : Bytes
blank_line = codes "\r\n\r\n"

-- `find("\r\n\r\n")`.
unfoldable pub find_blank_line : Bytes → Option ℕ
find_blank_line [] = none
find_blank_line (c ∷ s) =
    let later : Option ℕ = elim (find_blank_line s) [ none ↦ none | some n ↦ some (suc n) ] in
    if str_eq (take 4 (c ∷ s)) blank_line then some 0 else later

-- The bytes that a round reads.
abbrev pub bytes_of : Poll → Bool → Bool → Read → Bytes
bytes_of ready false true (gets bytes) = take net_buffer_size bytes
bytes_of _ _ _ _ = []

abbrev pub bytes_read : ReceiveRound → Bytes
bytes_read e = bytes_of e.polled e.late e.inp e.read

-- A call of `receive`: it returns, with the socket, the text and the bytes that were read, it throws, or the
-- rounds are over and it is still in its loop.
pub data Received : Type 0 where
  returns : Socket → Bytes → Bytes → Received
  raised : Socket → Received
  waits : Received

-- `string ret = readBuffer; readBuffer = ""; return ret;`
abbrev pub give_all : Socket → Bytes → Received
give_all s wire = returns (record s { read_buffer = [] }) s.read_buffer wire

abbrev pub after_turn : ReadTurn → Bytes → (Socket → Bytes → Received) → Received
after_turn (goes_on s) wire k = k s wire
after_turn (breaks s) wire k = give_all s wire
after_turn (gives_up s) wire k = returns s [] wire
after_turn (throws_up s) wire k = raised s

-- One of the time limits has passed.
unfoldable pub late_round : ℕ → Socket → ReadTurn
late_round size s =
    if size == 0
    then gives_up s
    else if s.websocket_protocol
    then breaks (hung_up s)
    else throws_up s

-- `processHeaders` throws for some headers.
module _ (process_headers : Bytes → Bool) where
  -- Without a header yet: the header is split off where it is complete.
  unfoldable pub read_header : Socket → ReceiveRound → ReadTurn
  read_header s e = elim (find_blank_line s.read_buffer) [
    | none ↦ if ltb headers_size_limit (length s.read_buffer) then throws_up s else behind_read s e
    | some pos ↦
        let s' = record s { header = take (pos + 4) s.read_buffer } in
        if process_headers s'.header
        then gives_up (record s' { read_buffer = drop (pos + 4) s.read_buffer })
        else throws_up s'
  ]

  -- `if (sizeRead > 0)`, the bytes being in the buffer.
  unfoldable pub take_bytes : ℕ → Socket → ReceiveRound → ReadTurn
  take_bytes size s e =
      if length s.header == 0
      then read_header s e
      else if size == 0 || leb size (length s.read_buffer)
      then breaks s
      else behind_read s e

  unfoldable pub read_net : ℕ → Socket → ReceiveRound → Read → ReadTurn
  read_net size s e (gets []) = breaks (hung_up s)
  read_net size s e (gets (c ∷ bytes)) =
      take_bytes size (record s { read_buffer = s.read_buffer ++ take net_buffer_size (c ∷ bytes) })
        e
  read_net size s e (read_fails gone) =
      if s.websocket_protocol && gone then breaks (hung_up s) else throws_up s

  unfoldable pub ready_round : ℕ → Socket → ReceiveRound → ReadTurn
  ready_round size s e = if e.inp then read_net size s e e.read else behind_read s e

  -- Behind poll: the time limits, then what poll has reported.
  unfoldable pub polled_round : ℕ → Socket → ReceiveRound → Poll → Bool → ReadTurn
  unfolding late_round ready_round
  polled_round size s e failed late = throws_up s
  polled_round size s e timed_out true = late_round size s
  polled_round size s e ready true = late_round size s
  polled_round size s e timed_out false = if size == 0 then breaks s else goes_on s
  polled_round size s e ready false = ready_round size s e

  unfoldable pub receive_round : ℕ → Socket → ReceiveRound → ReadTurn
  receive_round size s e = polled_round size s e e.polled e.late

  unfoldable pub receive_loop : ℕ → Socket → Bytes → List ReceiveRound → Received
  receive_loop size s wire [] = waits
  receive_loop size s wire (e ∷ es) =
      after_turn (receive_round size s e) (wire ++ bytes_read e) (λ t w. receive_loop size t w es)

  unfoldable pub receive : Socket → ℕ → List ReceiveRound → Received
  receive s asked es =
      let size = if length s.header == 0 then headers_size_limit else asked in
      if s.closed
      then give_all s []
      else if ltb 0 size && leb size (length s.read_buffer) && not (length s.header == 0)
      then returns (record s { read_buffer = drop size s.read_buffer }) (take size s.read_buffer) []
      else receive_loop size s [] es
