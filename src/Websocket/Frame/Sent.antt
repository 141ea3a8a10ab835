-- ===== src/Websocket/Frame/Sent.antt =====
-- What encodeFrame of src/websocket.cpp sends, as a reader of RFC 6455 frames sees it.
use vpl_jail_system.Prelude.{
  ℕ, ◌+◌, ◌^◌, ◌≤◌, ◌<◌, ◌≡◌, refl, Bool, false, ◌∷◌, ◌++◌, append_assoc, Bytes, codes, length,
  length-append, take, drop, arith, ◌∙◌, ap, take-append, drop_behind,
}
use vpl_jail_system.Prelude.Bits.{or_80}
use vpl_jail_system.Websocket.Frame.{
  complete, FrameSize, sized, frame_size, frame_size_limit, failed, decode_payload, decode_frame,
  encode_frame,
}
use vpl_jail_system.Websocket.Frame.Header.{
  length_header, control_of, length-length_header, length_bytes-header, frame_size-header,
}
use vpl_jail_system.Websocket.Frame.RoundTrip.{IsAllowed, checks_allowed, decode_complete}

-- The frame is one byte with FIN and the type, the unmasked header, and the payload.
pub encode_frame-parts :
    (payload : Bytes) (ft : ℕ)
    → ft < 16
    → length payload < 2 ^ 63
    → encode_frame false payload ft ≡ (128 + ft) ∷ (length_header 0 (length payload) ++ payload)
unfolding encode_frame
encode_frame-parts payload ft h n =
    rw (or_80 ft (omega arith), length_bytes-header (length payload) n)

module _ (payload more : Bytes) (ft : ℕ) (h : ft < 16) (fits : length payload ≤ frame_size_limit)
    (ok : IsAllowed (128 + ft) (length payload)) where
  sent_tail :
      encode_frame false payload ft ++ more
      ≡ (128 + ft) ∷ (length_header 0 (length payload) ++ (payload ++ more))
  sent_tail = rw (encode_frame-parts payload ft h (omega arith)) (rw append_assoc)

  -- With base64 off, and a type and size that RFC 6455 allows, within the limit, what encodeFrame sends
  -- is one whole frame for frameSize: its size is its length whatever follows it, it is not masked, and
  -- its payload is the text that was sent.
  pub frame_size-encode_frame :
      let d = encode_frame false payload ft in
      let f = frame_size (d ++ more) in
      (f ≡ sized (complete (length d)) (control_of (length payload)) 0 (length payload))
      × (take (length payload) (drop (control_of (length payload)) (d ++ more)) ≡ payload)
  frame_size-encode_frame =
      let n = length payload in
      let t : Bytes = length_header 0 n ++ (payload ++ more) in
      let e = length-length_header 0 n in
      let total : length (encode_frame false payload ft) ≡ control_of n + 0 + n =
        ap length (encode_frame-parts payload ft h (omega arith))
        ∙ omega (arith, e, length-append (length_header 0 n) payload) in
      let long : control_of n + 0 + n ≤ length t + 1 = omega (
        arith,
        e,
        length-append (length_header 0 n) (payload ++ more),
        length-append payload more,
      ) in
      rw (sent_tail, total)
        (
          frame_size-header (128 + ft) 0 n (payload ++ more) (omega arith) (omega arith)
              ∙ checks_allowed (128 + ft) t (control_of n) 0 n (omega arith) fits ok long,
          rw
              (drop_behind ((128 + ft) ∷ length_header 0 n) (payload ++ more) (control_of n) 0
                (omega (arith, e)))
              (take-append payload more),
        )

  -- With base64 off, decodeFrame refuses what encodeFrame makes for a type and size that RFC 6455
  -- allows, within the limit, since it is not masked, and leaves the buffer as it is.
  pub decode_frame-encode_frame :
      (ft' : ℕ) (f : Bool)
      → decode_frame false (encode_frame false payload ft ++ more) ft' f
        ≡ failed (encode_frame false payload ft ++ more) f (codes "Frame must be masked")
  decode_frame-encode_frame ft' f =
      let (e, _) = frame_size-encode_frame in
      let d = encode_frame false payload ft ++ more in
      decode_complete false d (length (encode_frame false payload ft)) ft' f
        (ap (λ (t : FrameSize). t.size) e)
        (omega (arith, length-append (encode_frame false payload ft) more))
      ∙ ap (λ t. decode_payload false d t (length (encode_frame false payload ft)) ft' f) e
      ∙ (unfold decode_payload in refl)
