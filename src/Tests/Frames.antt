-- ===== src/Tests/Frames.antt =====
-- Frames of src/websocket.cpp at concrete inputs: the masked and unmasked "Hello" of RFC 6455.
use vpl_jail_system.Prelude.{
  Bytes, codes, length, take, drop, refl, inl, true, false, some, [], arith, ◌≡◌, ◌∷◌, ◌++◌,
}
use vpl_jail_system.Websocket.Frame.{
  text_frame, complete, sized, size_checks, size_coded, frame_size, unmask, finish, decode_payload,
  decode_frame, encode_frame,
}
use vpl_jail_system.Websocket.Frame.Header.{control_of}
use vpl_jail_system.Websocket.Frame.RoundTrip.{client_frame, decode_frame-client_frame}
use vpl_jail_system.Websocket.Frame.Sent.{frame_size-encode_frame}
use vpl_jail_system.Websocket.Frame.Stream.{then_more, decode_frame-append}

-- The masked "Hello" of RFC 6455 section 5.7.
abbrev hello : Bytes
hello = 0x81 ∷ 0x85 ∷ 0x37 ∷ 0xfa ∷ 0x21 ∷ 0x3d ∷ 0x7f ∷ 0x9f ∷ 0x4d ∷ 0x51 ∷ 0x58 ∷ []

test_hello :
    decode_frame false (hello ++ (1 ∷ [])) 0 false
    ≡ some (record { text = codes "Hello"; rest = 1 ∷ []; frame_type = text_frame; fin = true })
unfolding decode_frame decode_payload finish frame_size size_coded size_checks unmask
test_hello = refl

abbrev key : Bytes
key = 0x37 ∷ 0xfa ∷ 0x21 ∷ 0x3d ∷ []

decode_frame-client_frame_example :
    decode_frame false (client_frame 0x81 key (codes "Hello") ++ (1 ∷ [])) 0 false
    ≡ some (record { text = codes "Hello"; rest = 1 ∷ []; frame_type = text_frame; fin = true })
decode_frame-client_frame_example =
    decode_frame-client_frame 0x81 key (codes "Hello") (1 ∷ []) 0 false (omega arith) refl refl
      (omega arith) (inl (omega arith))

hello_complete : (frame_size hello).size ≡ complete 11
unfolding frame_size size_coded size_checks
hello_complete = refl

decode_frame-append_example :
    decode_frame false (hello ++ (1 ∷ [])) 0 false
    ≡ then_more (1 ∷ []) (decode_frame false hello 0 false)
decode_frame-append_example = decode_frame-append false hello (1 ∷ []) 11 0 false hello_complete

frame_size-encode_frame_example :
    (frame_size (encode_frame false (codes "Hello") 1 ++ (9 ∷ []))
      ≡ sized (complete (length (encode_frame false (codes "Hello") 1))) (control_of 5) 0 5)
    × (take 5 (drop (control_of 5) (encode_frame false (codes "Hello") 1 ++ (9 ∷ [])))
        ≡ codes "Hello")
frame_size-encode_frame_example =
    frame_size-encode_frame (codes "Hello") (9 ∷ []) 1 (omega arith) (omega arith)
      (inl (omega arith))
