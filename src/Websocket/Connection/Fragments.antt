-- ===== src/Websocket/Connection/Fragments.antt =====
-- webSocket::receive of src/websocket.cpp on messages that come in fragments.
use vpl_jail_system.Prelude.{
  ℕ, ◌+◌, ◌/◌, ◌%◌, ◌≤◌, ◌<◌, ◌≡◌, ◌⊎◌, refl, ap, ◌∙◌, inl, inr, Bool, true, false, Option, none,
  some, List, [], ◌∷◌, ◌++◌, append-nil, append_assoc, Bytes, length, length-append, All, leb,
  leb-false, ◌==◌, if◌then◌else◌, arith,
}
use vpl_jail_system.Utf8.{is_valid_utf8}
use vpl_jail_system.Websocket.Frame.{
  ping_frame, pong_frame, frame_size_limit, is_frame_complete, Decoded, decode_frame, encode_frame,
}
use vpl_jail_system.Websocket.Frame.RoundTrip.{
  IsAllowed, client_frame, decode_frame-client_frame, is_frame_complete-client_frame,
}
use vpl_jail_system.Websocket.Connection.{
  WebSocket, sent, Effect, quiet, on_data, on_frame, on_buffer, receive,
}

-- A connection that did not negotiate base64.
abbrev pub plain : Bool → Bytes → Bytes → ℕ → WebSocket
plain cs prev buf ft = record {
  close_sent = cs;
  base64 = false;
  previous_data = prev;
  receive_buffer = buf;
  l_frame_type = ft;
}

abbrev then_effect : Effect → Option Effect → Option Effect
then_effect e none = none
then_effect e (some r) =
    some (record { state = r.state; actions = e.actions ++ r.actions; text = e.text ++ r.text })

abbrev pub after_receive : Option Effect → (WebSocket → Option Effect) → Option Effect
after_receive none k = none
after_receive (some e) k = then_effect e (k e.state)

-- Calls of receive, one for each chunk the socket returns; the strings returned are joined.
unfoldable pub receive_all : WebSocket → List Bytes → Option Effect
receive_all w [] = some (quiet w)
receive_all w (c ∷ cs) = after_receive (receive w c) (λ w'. receive_all w' cs)

-- A payload and the key that masks it.
pub record Fragment : Type 0 where
  pub key : Bytes
  pub payload : Bytes

abbrev pub HasKey : Fragment → Type 0
HasKey f = length f.key ≡ 4

-- The continuation frames of a message, the last with FIN.
abbrev pub continuations : List Fragment → Fragment → List Bytes
continuations [] last = client_frame 0x80 last.key last.payload ∷ []
continuations (p ∷ ps) last = client_frame 0 p.key p.payload ∷ continuations ps last

abbrev pub concat : List Fragment → Fragment → Bytes
concat [] last = last.payload
concat (p ∷ ps) last = p.payload ++ concat ps last

frame_buffered :
    (w : WebSocket) (d : Decoded)
    → is_frame_complete w.receive_buffer ≡ true
    → decode_frame w.base64 w.receive_buffer w.l_frame_type false ≡ some d
    → on_buffer w
      ≡ some (
          on_frame (record w { receive_buffer = d.rest; l_frame_type = d.frame_type }) d.fin d.text)
unfolding on_buffer
frame_buffered w d hc hd = rw (hc, hd) (ground arith)

-- One client frame that comes whole.
pub receive-client_frame :
    (cs : Bool) (prev key payload : Bytes) (first ft : ℕ)
    → first < 256
    → first / 16 % 8 ≡ 0
    → length key ≡ 4
    → length payload ≤ frame_size_limit
    → IsAllowed first (length payload)
    → receive (plain cs prev [] ft) (client_frame first key payload)
      ≡ some (
          on_frame
            (plain cs prev [] (if first % 16 == 0 then ft else first % 16))
            (leb 128 first)
            payload)
unfolding receive
receive-client_frame cs prev key payload first ft hf ext hk hn ok =
    let hc = is_frame_complete-client_frame first key payload [] hf hk hn ok in
    let hd = decode_frame-client_frame first key payload [] ft false hf ext hk hn ok in
    let nil = append-nil (client_frame first key payload) in
    frame_buffered (plain cs prev (client_frame first key payload) ft) _ (rw nil at hc)
      (rw nil at hd)

-- A data frame without FIN is kept, and one with FIN ends the message.
on_frame-kept :
    (cs : Bool) (prev p : Bytes) (ft : ℕ)
    → (ft ≡ 1) ⊎ (ft ≡ 2)
    → length prev + length p ≤ frame_size_limit
    → on_frame (plain cs prev [] ft) false p ≡ quiet (plain cs (prev ++ p) [] ft)
unfolding on_frame on_data
on_frame-kept cs prev p ft h hl = ground arith

on_frame-ended :
    (cs : Bool) (prev p : Bytes) (ft : ℕ)
    → ((ft ≡ 1) × (is_valid_utf8 (prev ++ p) ≡ true)) ⊎ (ft ≡ 2)
    → on_frame (plain cs prev [] ft) true p
      ≡ record { state = plain cs [] [] ft; actions = []; text = prev ++ p }
unfolding on_frame on_data
on_frame-ended cs prev p ft h = ground arith

abbrev pub IsMessage : ℕ → Bytes → Type 0
IsMessage ft s = ((ft ≡ 1) × (is_valid_utf8 s ≡ true)) ⊎ (ft ≡ 2)

pub receive_all-continuations :
    (cs : Bool) (prev : Bytes) (ps : List Fragment) (last : Fragment) (ft : ℕ)
    → All HasKey ps
    → HasKey last
    → length prev + length (concat ps last) ≤ frame_size_limit
    → IsMessage ft (prev ++ concat ps last)
    → receive_all (plain cs prev [] ft) (continuations ps last)
      ≡ some (record { state = plain cs [] [] ft; actions = []; text = prev ++ concat ps last })
unfolding receive_all
receive_all-continuations cs prev [] last ft hp hk hl hm =
    rw
      (
        receive-client_frame cs prev last.key last.payload 0x80 ft (omega arith) refl hk
            (omega arith) (inl (omega arith)),
        on_frame-ended cs prev last.payload ft hm,
      )
      (rw (append-nil (prev ++ last.payload)) refl)
receive_all-continuations cs prev (p ∷ ps) last ft hp hk hl hm =
    let n = length-append p.payload (concat ps last) in
    rw
      (
        receive-client_frame cs prev p.key p.payload 0 ft (omega arith) refl (hp.0)
            (omega (arith, n)) (inl (omega arith)),
        on_frame-kept cs prev p.payload ft (ground arith) (omega (arith, n)),
        receive_all-continuations cs (prev ++ p.payload) ps last ft (hp.1) hk
            (omega (arith, n, length-append prev p.payload)) (rw append_assoc hm),
      )
      (rw append_assoc refl)

module _ (cs : Bool) (p last : Fragment) (old : ℕ) (hk : HasKey p) (hd : HasKey last) where
  -- On a connection without base64, a text or binary message that a client sends as a masked first
  -- fragment, any number of continuation frames and a last one with FIN, each with a key of its own and
  -- read whole by one call of receive, is returned as the join of the fragments, when that is within the
  -- frame size limit and, for text, valid UTF-8; nothing is sent, and nothing stays in the buffers.
  pub receive_all-message :
      (ps : List Fragment) (ft : ℕ)
      → All HasKey ps
      → length (concat (p ∷ ps) last) ≤ frame_size_limit
      → IsMessage ft (concat (p ∷ ps) last)
      → receive_all (plain cs [] [] old) (client_frame ft p.key p.payload ∷ continuations ps last)
        ≡ some (record { state = plain cs [] [] ft; actions = []; text = concat (p ∷ ps) last })
  unfolding receive_all
  receive_all-message ps ft hp hl hm =
      let n = length-append p.payload (concat ps last) in
      let two : (ft ≡ 1) ⊎ (ft ≡ 2) = ground arith in
      let type_kept : (if ft % 16 == 0 then old else ft % 16) ≡ ft = ground arith in
      let not_fin : leb 128 ft ≡ false = leb-false 128 ft (omega arith) in
      let start : receive (plain cs [] [] old) (client_frame ft p.key p.payload)
          ≡ some (quiet (plain cs p.payload [] ft)) =
        receive-client_frame cs [] p.key p.payload ft old (omega arith) (omega arith) hk
          (omega (arith, n)) (inl (omega arith))
        ∙ ap some
            (rw (type_kept, not_fin) (on_frame-kept cs [] p.payload ft two (omega (arith, n)))) in
      rw (start, receive_all-continuations cs p.payload ps last ft hp hd (omega (arith, n)) hm) refl

  -- A ping between the first fragment of a text and the last one, each with a key of its own and read
  -- whole by one call of receive, on a connection without base64: the last fragment, read with the type of
  -- the ping, is answered with a pong that carries its payload, and the message is never returned.
  pub receive_all-ping_between :
      (ping : Fragment)
      → HasKey ping
      → length p.payload ≤ frame_size_limit
      → length ping.payload ≤ 125
      → length last.payload ≤ frame_size_limit
      → receive_all (plain cs [] [] old) (
          client_frame 1 p.key p.payload
          ∷ client_frame 0x89 ping.key ping.payload
          ∷ client_frame 0x80 last.key last.payload
          ∷ [])
        ≡ some (record {
          state = plain cs p.payload [] ping_frame;
          actions =
              sent (encode_frame false ping.payload pong_frame)
              ∷ sent (encode_frame false last.payload pong_frame)
              ∷ [];
          text = [];
        })
  unfolding receive_all on_frame
  receive_all-ping_between ping hi hp hg hl =
      rw
        (
          receive-client_frame cs [] p.key p.payload 1 old (omega arith) refl hk hp
              (inl (omega arith)),
          on_frame-kept cs [] p.payload 1 (inl refl) (omega arith),
          receive-client_frame cs p.payload ping.key ping.payload 0x89 1 (omega arith) refl hi
              (omega arith) (inr (omega arith, hg, inl (omega arith))),
          receive-client_frame cs p.payload last.key last.payload 0x80 9 (omega arith) refl hd hl
              (inl (omega arith)),
        )
        refl
