-- ===== src/Websocket/Connection/Closing.antt =====
-- The close frame of webSocket in src/websocket.cpp: sent at most once.
use vpl_jail_system.Prelude.{
  ℕ, ◌+◌, ◌<◌, ◌≡◌, ◌≢◌, refl, Bool, true, false, Option, none, some, List, [], ◌∷◌, ◌++◌, Bytes,
  codes, All, ◌==◌, if◌then◌else◌, arith, bit_or, ◌&&◌,
}
use vpl_jail_system.Prelude.Bits.{or_80}
use vpl_jail_system.Websocket.Frame.{
  connection_close_frame, pong_frame, ping_frame, text_frame, binary_frame, Decoded, decode_frame,
  encode_frame,
}
use vpl_jail_system.Websocket.Connection.{
  WebSocket, Action, sent, closed, Effect, bye, send_close, close, hang_up, on_data, on_frame,
  on_buffer, receive, sent_text, send,
}

abbrev pub flag : Bool → ℕ
flag b = if b then 1 else 0

-- The close frames among the actions.
abbrev pub closes : List Action → ℕ
closes [] = 0
closes (closed ∷ xs) = closes xs
closes (sent [] ∷ xs) = closes xs
closes (sent (b ∷ r) ∷ xs) = flag (b == 0x88) + closes xs

closes-append : (xs ys : List Action) → closes (xs ++ ys) ≡ closes xs + closes ys
closes-append [] ys = omega arith
closes-append (closed ∷ xs) ys = closes-append xs ys
closes-append (sent [] ∷ xs) ys = closes-append xs ys
closes-append (sent (b ∷ r) ∷ xs) ys = omega (arith, closes-append xs ys)

-- A close frame is sent when `closeSent` is set, and only then.
abbrev pub IsCounted : WebSocket → List Action → WebSocket → Type 0
IsCounted w xs w' = closes xs + flag w.close_sent ≡ flag w'.close_sent

encode_frame-close : (b : Bool) (d : Bytes) → closes (sent (encode_frame b d 8) ∷ []) ≡ 1
unfolding encode_frame
encode_frame-close false d = refl
encode_frame-close true d = refl

other_byte :
    (c : Bool) (ft : ℕ)
    → ft < 16
    → ft ≢ 8
    → flag (bit_or 0x80 (if c then text_frame else ft) == 0x88) + 0 ≡ 0
other_byte true ft h n = refl
other_byte false ft h n = rw (or_80 ft (omega arith)) (ground arith)

encode_frame-other :
    (b : Bool) (d : Bytes) (ft : ℕ)
    → ft < 16
    → ft ≢ 8
    → closes (sent (encode_frame b d ft) ∷ []) ≡ 0
unfolding encode_frame
encode_frame-other b d ft h n = other_byte (b && ft == binary_frame) ft h n

send_close-IsCounted : (w : WebSocket) (p : Bytes) → let r = send_close w p in IsCounted w r.1 r.0
unfolding send_close
send_close-IsCounted w p = ground (arith, encode_frame-close w.base64 p)

-- The same for what a method returns.
unfoldable pub IsKept : WebSocket → Effect → Type 0
IsKept w e = IsCounted w e.actions e.state

IsKept-if :
    (w : WebSocket) (b : Bool) (x y : Effect)
    → IsKept w x
    → IsKept w y
    → IsKept w (if b then x else y)
IsKept-if w true x y hx hy = hx
IsKept-if w false x y hx hy = hy

IsKept-silent :
    (w v : WebSocket) (t : Bytes)
    → v.close_sent ≡ w.close_sent
    → IsKept w (record { state = v; actions = []; text = t })
unfolding IsKept
IsKept-silent w v t h = rw h (omega arith)

hang_up-IsKept : (w : WebSocket) (p : Bytes) → IsKept w (hang_up w p)
unfolding IsKept hang_up
hang_up-IsKept w p =
    omega (arith, send_close-IsCounted w p, closes-append (send_close w p).1 (closed ∷ []))

hang_up-IsKept_reset :
    (w : WebSocket) (p : Bytes) → IsKept w (hang_up (record w { previous_data = [] }) p)
unfolding IsKept
hang_up-IsKept_reset w p = hang_up-IsKept (record w { previous_data = [] }) p

on_data-IsKept : (w : WebSocket) (f : Bool) (d : Bytes) → IsKept w (on_data w f d)
unfolding on_data
on_data-IsKept w f d =
    IsKept-if w _ _ _ (IsKept-if w _ _ _ (hang_up-IsKept_reset w _) (IsKept-silent w _ _ refl))
      (IsKept-if w _ _ _ (hang_up-IsKept w _) (IsKept-silent w _ _ refl))

pong-IsKept :
    (w : WebSocket) (d : Bytes)
    → IsKept w
        (record { state = w; actions = sent (encode_frame w.base64 d pong_frame) ∷ []; text = [] })
unfolding IsKept
pong-IsKept w d = omega (arith, encode_frame-other w.base64 d 10 (omega arith) (omega arith))

on_frame-IsKept : (w : WebSocket) (f : Bool) (d : Bytes) → IsKept w (on_frame w f d)
unfolding on_frame
on_frame-IsKept w f d =
    let data_kept = on_data-IsKept w f d in
    let t = w.l_frame_type in
    IsKept-if w (t == text_frame) _ _ data_kept (
      IsKept-if w (t == binary_frame) _ _ data_kept (
        IsKept-if w (t == connection_close_frame) _ _ (hang_up-IsKept w (bye (codes "Bye"))) (
          IsKept-if w (t == ping_frame) _ _ (pong-IsKept w d) (
            IsKept-if w (t == pong_frame) _ _ (IsKept-silent w w [] refl)
              (hang_up-IsKept w (bye (codes "Error")))))))

-- A result that is the exception keeps everything.
unfoldable pub IsKeptOption : WebSocket → Option Effect → Type 0
IsKeptOption w none = Unit
IsKeptOption w (some e) = IsKept w e

IsKeptOption-some : (w : WebSocket) (e : Effect) → IsKept w e → IsKeptOption w (some e)
unfolding IsKeptOption
IsKeptOption-some w e h = h

IsKeptOption-if :
    (w : WebSocket) (b : Bool) (x y : Option Effect)
    → IsKeptOption w x
    → IsKeptOption w y
    → IsKeptOption w (if b then x else y)
IsKeptOption-if w true x y hx hy = hx
IsKeptOption-if w false x y hx hy = hy

on_frame-IsKept_behind :
    (w : WebSocket) (d : Decoded)
    → IsKept w
        (on_frame (record w { receive_buffer = d.rest; l_frame_type = d.frame_type }) d.fin d.text)
unfolding IsKept
on_frame-IsKept_behind w d =
    on_frame-IsKept (record w { receive_buffer = d.rest; l_frame_type = d.frame_type }) d.fin d.text

on_decoded :
    (w : WebSocket) (o : Option Decoded)
    → IsKeptOption w (elim o [
      | none ↦ none
      | some d ↦ some (
          on_frame (record w { receive_buffer = d.rest; l_frame_type = d.frame_type }) d.fin d.text)
    ])
unfolding IsKeptOption
on_decoded w none = tt
on_decoded w (some d) = on_frame-IsKept_behind w d

on_buffer-IsKept : (w : WebSocket) → IsKeptOption w (on_buffer w)
unfolding on_buffer
on_buffer-IsKept w = IsKeptOption-if w _ _ _ (IsKeptOption-some w _ (hang_up-IsKept w _)) (
    IsKeptOption-if w _ _ _
      (on_decoded w (decode_frame w.base64 w.receive_buffer w.l_frame_type false))
      (IsKeptOption-some w _ (IsKept-silent w _ _ refl)))

receive-IsKept : (w : WebSocket) (chunk : Bytes) → IsKeptOption w (receive w chunk)
unfolding receive IsKeptOption IsKept
receive-IsKept w chunk = on_buffer-IsKept (record w { receive_buffer = w.receive_buffer ++ chunk })

-- A call of a method of the connection.
pub data Call : Type 0 where
  receives : Bytes → Call
  sends : Bytes → ℕ → Call
  closes_with : Bytes → Call

abbrev plainly : WebSocket × List Action → Option Effect
plainly r = some (record { state = r.0; actions = r.1; text = [] })

unfoldable pub call : WebSocket → Call → Option Effect
call w (receives chunk) = receive w chunk
call w (sends s ft) = plainly (send w s ft)
call w (closes_with t) = plainly (close w t)

abbrev after_call :
    Option Effect
    → (WebSocket → WebSocket × List Action)
    → WebSocket × List Action
    → WebSocket × List Action
after_call none k z = z
after_call (some e) k z = ((k e.state).0, e.actions ++ (k e.state).1)

-- The calls one after the other; an exception ends the connection.
unfoldable pub calls : WebSocket → List Call → WebSocket × List Action
calls w [] = (w, [])
calls w (c ∷ cs) = after_call (call w c) (λ w'. calls w' cs) (w, [])

-- `send` is called with a type of data, or a ping: never with a close frame.
abbrev pub IsData : Call → Type 0
IsData (receives chunk) = Unit
IsData (sends s ft) = (ft < 16) × (ft ≢ 8)
IsData (closes_with t) = Unit

call-IsKept : (w : WebSocket) (c : Call) → IsData c → IsKeptOption w (call w c)
unfolding call send close IsKeptOption IsKept
call-IsKept w (receives chunk) h = receive-IsKept w chunk
call-IsKept w (sends s ft) h =
    omega (arith, encode_frame-other w.base64 (sent_text s ft) ft h.0 h.1)
call-IsKept w (closes_with t) h = send_close-IsCounted w (bye t)

after_call-IsCounted :
    (w : WebSocket) (o : Option Effect) (k : WebSocket → WebSocket × List Action)
    → IsKeptOption w o
    → ((v : WebSocket) → IsCounted v (k v).1 (k v).0)
    → let r = after_call o k (w, []) in IsCounted w r.1 r.0
unfolding IsKeptOption IsKept
after_call-IsCounted w none k h hk = omega arith
after_call-IsCounted w (some e) k h hk =
    omega (arith, h, hk e.state, closes-append e.actions (k e.state).1)

-- Over any run of calls of receive, send and close on a connection, send called with no close frame,
-- the close frames sent, one more when closeSent was set before, are one when closeSent is set after,
-- and none otherwise: so no close frame is sent twice, and none without the flag.
pub calls-IsCounted :
    (w : WebSocket) (cs : List Call)
    → All IsData cs
    → let r = calls w cs in closes r.1 + flag w.close_sent ≡ flag r.0.close_sent
unfolding calls
calls-IsCounted w [] h = omega arith
calls-IsCounted w (c ∷ cs) h =
    after_call-IsCounted w (call w c) (λ v. calls v cs) (call-IsKept w c h.0)
      (λ v. calls-IsCounted v cs h.1)
