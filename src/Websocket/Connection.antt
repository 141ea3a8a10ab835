-- ===== src/Websocket/Connection.antt =====
-- class webSocket of src/websocket.h: receive, send, close and wait of src/websocket.cpp. A call on the
-- socket is an action, and a method returns the actions in the order of its calls; what
-- `socket->receive()` returns is an argument of `receive`.
pub mod Closing
pub mod Fragments
use vpl_jail_system.Prelude.{
  ℕ, ◌+◌, ◌-◌, ◌/◌, ◌%◌, Bool, true, false, not, ◌&&◌, Option, none, some, List, [], ◌∷◌, ◌++◌,
  bit_and, Bytes, codes, length, str_eq, ltb, ◌==◌, if◌then◌else◌,
}
use vpl_jail_system.Utf8.{is_valid_utf8, sanitize_utf8}
use vpl_jail_system.Websocket.Frame.{
  text_frame, binary_frame, connection_close_frame, ping_frame, pong_frame, frame_size_limit,
  is_frame_complete, Decoded, decode_frame, encode_frame,
}

pub record WebSocket : Type 0 where
  pub close_sent : Bool
  pub base64 : Bool
  pub previous_data : Bytes
  pub receive_buffer : Bytes
  pub l_frame_type : ℕ

-- `socket->send(frame)` and `socket->close()`.
pub data Action : Type 0 where
  sent : Bytes → Action
  closed : Action

-- The object after a method, the calls on the socket and the string returned.
pub record Effect : Type 0 where
  pub state : WebSocket
  pub actions : List Action
  pub text : Bytes

-- The payload of a close frame: a status code and a text.
unfoldable pub bye : Bytes → Bytes
bye t =
    let code : ℕ = if str_eq t (codes "Error") then 1002 else 1000 in
    elim t [ [] ↦ [] | c ∷ r ↦ (code / 256) ∷ bit_and code 0xff ∷ c ∷ r ]

-- A close frame, unless one was sent.
unfoldable pub send_close : WebSocket → Bytes → WebSocket × List Action
send_close w payload = if w.close_sent then (w, []) else (
  record w { close_sent = true },
  sent (encode_frame w.base64 payload connection_close_frame) ∷ [],
)

unfoldable pub close : WebSocket → Bytes → WebSocket × List Action
close w t = send_close w (bye t)

-- A close frame, then `socket->close(); return "";`.
unfoldable pub hang_up : WebSocket → Bytes → Effect
hang_up w payload =
    let r = send_close w payload in
    record { state = r.0; actions = r.1 ++ (closed ∷ []); text = [] }

abbrev pub quiet : WebSocket → Effect
quiet w = record { state = w; actions = []; text = [] }

abbrev pub invalid_data : Bytes
invalid_data = 0x03 ∷ 0xef ∷ codes "Invalid UTF-8 data"

-- The first two cases of the switch: a text or binary frame.
unfoldable pub on_data : WebSocket → Bool → Bytes → Effect
on_data w fin d =
    let whole = w.previous_data ++ d in
    let w' = record w { previous_data = [] } in
    if fin
    then if w.l_frame_type == text_frame && not (is_valid_utf8 whole)
      then hang_up w' invalid_data
      else record { state = w'; actions = []; text = whole }
    else if ltb (frame_size_limit - length d) (length w.previous_data)
    then hang_up w (bye (codes "Error"))
    else quiet (record w { previous_data = w.previous_data ++ d })

-- The switch on `lFrameType`.
unfoldable pub on_frame : WebSocket → Bool → Bytes → Effect
on_frame w fin d =
    if w.l_frame_type == text_frame
    then on_data w fin d
    else if w.l_frame_type == binary_frame
    then on_data w fin d
    else if w.l_frame_type == connection_close_frame
    then hang_up w (bye (codes "Bye"))
    else if w.l_frame_type == ping_frame
    then record { state = w; actions = sent (encode_frame w.base64 d pong_frame) ∷ []; text = [] }
    else if w.l_frame_type == pong_frame
    then quiet w
    else hang_up w (bye (codes "Error"))

-- What is done with the buffer, once the chunk has been added; `none` is the exception of
-- Base64::decode. `fin` has no value before decodeFrame sets it, and none is read then.
unfoldable pub on_buffer : WebSocket → Option Effect
on_buffer w =
    if ltb (frame_size_limit + 14) (length w.receive_buffer)
      && not (is_frame_complete w.receive_buffer)
    then some (hang_up w (bye (codes "Error")))
    else if is_frame_complete w.receive_buffer
    then elim (decode_frame w.base64 w.receive_buffer w.l_frame_type false) [
      | none ↦ none
      | some d ↦ some (
          on_frame (record w { receive_buffer = d.rest; l_frame_type = d.frame_type }) d.fin d.text)
    ]
    else some (quiet w)

unfoldable pub receive : WebSocket → Bytes → Option Effect
receive w chunk = on_buffer (record w { receive_buffer = w.receive_buffer ++ chunk })

-- What `send` frames: a text that is not UTF-8 is mended first.
unfoldable pub sent_text : Bytes → ℕ → Bytes
sent_text s ft = if ft == text_frame && not (is_valid_utf8 s) then sanitize_utf8 s else s

unfoldable pub send : WebSocket → Bytes → ℕ → WebSocket × List Action
send w s ft = (w, sent (encode_frame w.base64 (sent_text s ft) ft) ∷ [])
