-- ===== src/Websocket/Frame/Stream.antt =====
-- decodeFrame of src/websocket.cpp on a buffer that grows: how the network cuts the stream does not
-- matter.
use vpl_jail_system.Prelude.{
  ℕ, ◌+◌, ◌≤◌, ◌≡◌, refl, ◌⊎◌, inl, inr, bit_and, ◌%◌, Bool, Option, none, length-append,
  drop-append_le, take-append_le, some, ◌∷◌, [], ◌++◌, Bytes, length, take, drop, arith, ◌∙◌, ap,
  sym, get_or-append, length-drop,
}
use vpl_jail_system.Websocket.Frame.{
  complete, FrameSize, frame_size, size_coded, size_checks, unmask, Decoded, decode_payload, finish,
  decode_frame, byte, length16, length64,
}
use vpl_jail_system.Websocket.Frame.Extent.{frame_size-Extent, frame_size-append}
use vpl_jail_system.Websocket.Frame.RoundTrip.{decode_complete}

-- The same answer, with `more` left in the buffer.
abbrev pub then_more : Bytes → Option Decoded → Option Decoded
then_more more none = none
then_more more (some d) = some (record d { rest = d.rest ++ more })

unmask_cut :
    (mask more : Bytes) (i : ℕ) (p : Bytes)
    → 4 ≤ length mask
    → unmask (mask ++ more) i p ≡ unmask mask i p
unfolding unmask
unmask_cut mask more i [] h = refl
unmask_cut mask more i (x ∷ p) h =
    rw (get_or-append mask more (i % 4) 0 (omega arith), unmask_cut mask more (i + 1) p h)

checks-mask : (d : Bytes) (c m n : ℕ) → (size_checks d c m n).mask_size ≡ m
unfolding size_checks
checks-mask d c m n = ground arith

coded-mask : (d : Bytes) (m code : ℕ) → (size_coded d m code).mask_size ≡ m
unfolding size_coded
coded-mask d m code =
    ground (
      arith,
      checks-mask d 2 m code,
      checks-mask d 4 m (length16 d),
      checks-mask d 10 m (length64 d),
    )

-- A mask has no bytes or four.
frame_size-mask : (d : Bytes) → ((frame_size d).mask_size ≡ 0) ⊎ ((frame_size d).mask_size ≡ 4)
unfolding frame_size
frame_size-mask d =
    ground
      (arith, coded-mask d 0 (bit_and (byte d 1) 0x7f), coded-mask d 4 (bit_and (byte d 1) 0x7f))

unmasked-append :
    (base64 : Bool) (d more : Bytes) (sizes : FrameSize) (total ft : ℕ) (f : Bool)
    → sizes.mask_size ≡ 0
    → decode_payload base64 (d ++ more) sizes total ft f
      ≡ then_more more (decode_payload base64 d sizes total ft f)
unfolding decode_payload
unmasked-append base64 d more sizes total ft f h = ground arith

finish-append :
    (base64 : Bool) (ft : ℕ) (f : Bool) (ret rest more : Bytes)
    → finish base64 ft f ret (rest ++ more) ≡ then_more more (finish base64 ft f ret rest)
unfolding finish
finish-append base64 ft f ret rest more = ground arith

masked-append :
    (base64 : Bool) (d more : Bytes) (sizes : FrameSize) (total ft : ℕ) (f : Bool)
    → sizes.mask_size ≡ 4
    → sizes.control_size + 4 + sizes.payload_size ≤ length d
    → total ≤ length d
    → decode_payload base64 (d ++ more) sizes total ft f
      ≡ then_more more (decode_payload base64 d sizes total ft f)
unfolding decode_payload
masked-append base64 d more sizes total ft f h fits l =
    rw
      (
        h,
        get_or-append d more 0 0 (omega arith),
        drop-append_le sizes.control_size d more (omega arith),
        drop-append_le (sizes.control_size + 4) d more (omega arith),
        take-append_le sizes.payload_size (drop (sizes.control_size + 4) d) more
            (omega (arith, length-drop (sizes.control_size + 4) d)),
        drop-append_le total d more l,
        unmask_cut (drop sizes.control_size d) more 0
            (take sizes.payload_size (drop (sizes.control_size + 4) d))
            (omega (arith, length-drop sizes.control_size d)),
        finish-append,
      )
      (ground arith)

-- Once a frame is there whole, bytes behind it change nothing but what is left in the buffer.
pub decode_frame-append :
    (base64 : Bool) (d more : Bytes) (n ft : ℕ) (f : Bool)
    → (frame_size d).size ≡ complete n
    → decode_frame base64 (d ++ more) ft f ≡ then_more more (decode_frame base64 d ft f)
decode_frame-append base64 d more n ft f h =
    let (sum, within, limited, lo, hi) = frame_size-Extent d n h in
    let same = frame_size-append d more n h in
    let whole = decode_complete base64 d n ft f h within in
    let longer =
      decode_complete base64 (d ++ more) n ft f (ap (λ (t : FrameSize). t.size) same ∙ h)
        (omega (arith, length-append d more)) in
    longer
    ∙ ap (λ t. decode_payload base64 (d ++ more) t n ft f) same
    ∙ (elim (frame_size-mask d) [
      | inl empty ↦ unmasked-append base64 d more (frame_size d) n ft f empty
      | inr four ↦ masked-append base64 d more (frame_size d) n ft f four (omega arith) within
    ])
    ∙ ap (then_more more) (sym whole)
