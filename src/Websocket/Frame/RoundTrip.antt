-- ===== src/Websocket/Frame/RoundTrip.antt =====
-- Frames through encodeFrame and decodeFrame of src/websocket.cpp.
use vpl_jail_system.Prelude.{
  ℕ, suc, ◌+◌, ◌/◌, ◌%◌, ◌≤◌, ◌<◌, ◌≡◌, ◌≢◌, ◌⊎◌, refl, Bool, true, false, some, [], ◌∷◌, ◌++◌,
  append_assoc, Bytes, length, length-append, take, drop, leb, le→leb, ◌==◌, if◌then◌else◌, arith,
  ◌∙◌, ap, take-append, drop-append, get_or-append, drop_behind,
}
use vpl_jail_system.Prelude.Bits.{and_80, and_0f, and_70}
use vpl_jail_system.Prelude.Xor.{xor_xor}
use vpl_jail_system.Websocket.Frame.{
  complete, FrameSize, sized, size_checks, frame_size, is_frame_complete, frame_size_limit, unmask,
  decode_payload, finish, decode_frame,
}
use vpl_jail_system.Websocket.Frame.Header.{
  length_header, control_of, length-length_header, frame_size-header,
}

pub length-unmask : (key : Bytes) (i : ℕ) (p : Bytes) → length (unmask key i p) ≡ length p
unfolding unmask
length-unmask key i [] = refl
length-unmask key i (x ∷ p) = ap suc (length-unmask key (i + 1) p)

-- Masking is its own inverse.
pub unmask-unmask : (key : Bytes) (i : ℕ) (p : Bytes) → unmask key i (unmask key i p) ≡ p
unfolding unmask
unmask-unmask key i [] = refl
unmask-unmask key i (x ∷ p) = rw (xor_xor, unmask-unmask key (i + 1) p)

-- What RFC 6455 section 5.5 allows behind a first byte: a control frame is not fragmented and carries at
-- most 125 bytes, and a close frame not a single one.
abbrev pub IsAllowed : ℕ → ℕ → Type 0
IsAllowed first n = (first % 16 < 8) ⊎ ((128 ≤ first) × (n ≤ 125) × ((first % 16 ≢ 8) ⊎ (n ≢ 1)))

pub checks_allowed :
    (first : ℕ) (tail : Bytes) (control mask n : ℕ)
    → first < 256
    → n ≤ frame_size_limit
    → IsAllowed first n
    → control + mask + n ≤ length tail + 1
    → size_checks (first ∷ tail) control mask n
      ≡ sized (complete (control + mask + n)) control mask n
unfolding size_checks
checks_allowed first tail control mask n hf hn ok fits = ground (arith, and_0f first, and_80 first)

-- A frame as a client sends it: masked by `key`.
unfoldable pub client_frame : ℕ → Bytes → Bytes → Bytes
client_frame first key payload =
    (first ∷ length_header 1 (length payload)) ++ (key ++ unmask key 0 payload)

-- `unmask` reads four bytes of its mask.
unmask-append :
    (key more : Bytes) (i : ℕ) (p : Bytes)
    → length key ≡ 4
    → unmask (key ++ more) i p ≡ unmask key i p
unfolding unmask
unmask-append key more i [] h = refl
unmask-append key more i (x ∷ p) h =
    rw (get_or-append key more (i % 4) 0 (omega arith), unmask-append key more (i + 1) p h)

-- The parts of a frame behind its first byte and its header.
frame_parts :
    (first m n : ℕ) (key body rest : Bytes)
    → length body ≡ n
    → let d : Bytes = (first ∷ length_header m n) ++ (key ++ (body ++ rest)) in
      (drop (control_of n) d ≡ key ++ (body ++ rest))
      × (take n (drop (control_of n + length key) d) ≡ body)
      × (drop (control_of n + length key + n) d ≡ rest)
frame_parts first m n key body rest eb =
    let e = length-length_header m n in
    let h : Bytes = first ∷ length_header m n in
    let t : Bytes = key ++ (body ++ rest) in
    let front = take-append body rest in
    (
      drop_behind h t (control_of n) 0 (omega (arith, e)),
      rw
          (
            drop_behind h t (control_of n + length key) (length key) (omega (arith, e)),
            drop-append key (body ++ rest),
            ← eb,
          )
          front,
      drop_behind h t (control_of n + length key + n) (length key + n) (omega (arith, e))
          ∙ drop_behind key (body ++ rest) (length key + n) n refl
          ∙ drop_behind body rest n 0 (omega arith),
    )

pub decode_complete :
    (base64 : Bool) (d : Bytes) (total ft : ℕ) (f : Bool)
    → (frame_size d).size ≡ complete total
    → total ≤ length d
    → decode_frame base64 d ft f ≡ decode_payload base64 d (frame_size d) total ft f
unfolding decode_frame
decode_complete base64 d total ft f c l = rw (c, decode_frame) (ground arith)

-- The end of decodeFrame on a masked frame without extensions, its parts given.
payload_decoded :
    (first : ℕ) (tail key body more rest : Bytes) (sizes : FrameSize) (total ft : ℕ) (f : Bool)
    → first < 256
    → first / 16 % 8 ≡ 0
    → sizes.mask_size ≡ 4
    → drop sizes.control_size (first ∷ tail) ≡ key ++ more
    → length key ≡ 4
    → take sizes.payload_size (drop (sizes.control_size + 4) (first ∷ tail)) ≡ body
    → drop total (first ∷ tail) ≡ rest
    → decode_payload false (first ∷ tail) sizes total ft f
      ≡ some (record {
        text = unmask key 0 body;
        rest = rest;
        frame_type = if first % 16 == 0 then ft else first % 16;
        fin = leb 128 first;
      })
unfolding decode_payload finish
payload_decoded first tail key body more rest sizes total ft f hf ext hm hk key4 hb hr =
    rw
      (
        hm,
        hk,
        hb,
        hr,
        unmask-append key more 0 body key4,
        and_0f first hf,
        and_70 first hf,
        and_80 first hf,
      )
      (ground arith)

-- decodeFrame, with base64 off, reads back the payload of a masked frame that RFC 6455 allows, of at
-- most the frame size limit and without extension bits, with its type (the one before, for a
-- continuation) and FIN, and leaves what follows in the buffer.
pub decode_frame-client_frame :
    (first : ℕ) (key payload rest : Bytes) (ft : ℕ) (f : Bool)
    → first < 256
    → first / 16 % 8 ≡ 0
    → length key ≡ 4
    → length payload ≤ frame_size_limit
    → IsAllowed first (length payload)
    → decode_frame false (client_frame first key payload ++ rest) ft f
      ≡ some (record {
        text = payload;
        rest = rest;
        frame_type = if first % 16 == 0 then ft else first % 16;
        fin = leb 128 first;
      })
unfolding client_frame
decode_frame-client_frame first key payload rest ft f hf ext hk hn ok =
    let n = length payload in
    let body = unmask key 0 payload in
    let e : length body ≡ n = length-unmask key 0 payload in
    let tail : Bytes = length_header 1 n ++ (key ++ (body ++ rest)) in
    let sizes = sized (complete (control_of n + 4 + n)) (control_of n) 4 n in
    let assoc : ((first ∷ length_header 1 n) ++ (key ++ body)) ++ rest ≡ first ∷ tail =
      rw (append_assoc, append_assoc) in
    let long : control_of n + 4 + n ≤ length tail + 1 = omega (
      arith,
      length-append (length_header 1 n) (key ++ (body ++ rest)),
      length-append key (body ++ rest),
      length-append body rest,
      length-length_header 1 n,
    ) in
    let size : frame_size (first ∷ tail) ≡ sizes =
      frame_size-header first 1 n _ (omega arith) (omega arith)
      ∙ checks_allowed first tail (control_of n) 4 n hf hn ok long in
    let (k, b, r) = frame_parts first 1 n key body rest e in
    rw assoc (
      decode_complete false (first ∷ tail) (control_of n + 4 + n) ft f
        (ap (λ (t : FrameSize). t.size) size) (omega (arith, long))
      ∙ ap (λ t. decode_payload false (first ∷ tail) t (control_of n + 4 + n) ft f) size
      ∙ payload_decoded first tail key body (body ++ rest) rest sizes (control_of n + 4 + n) ft f hf
          ext refl k hk (rw hk at b) (rw hk at r)
      ∙ rw (unmask-unmask key 0 payload))

complete-is_frame :
    (d : Bytes) (n : ℕ)
    → (frame_size d).size ≡ complete n
    → n ≤ length d
    → is_frame_complete d ≡ true
unfolding is_frame_complete
complete-is_frame d n c l = rw (c, is_frame_complete) (le→leb n (length d) l)

-- isFrameComplete sees such a frame in a buffer.
pub is_frame_complete-client_frame :
    (first : ℕ) (key payload rest : Bytes)
    → first < 256
    → length key ≡ 4
    → length payload ≤ frame_size_limit
    → IsAllowed first (length payload)
    → is_frame_complete (client_frame first key payload ++ rest) ≡ true
unfolding client_frame
is_frame_complete-client_frame first key payload rest hf hk hn ok =
    let n = length payload in
    let body = unmask key 0 payload in
    let e : length body ≡ n = length-unmask key 0 payload in
    let tail : Bytes = length_header 1 n ++ (key ++ (body ++ rest)) in
    let assoc : ((first ∷ length_header 1 n) ++ (key ++ body)) ++ rest ≡ first ∷ tail =
      rw (append_assoc, append_assoc) in
    let long : control_of n + 4 + n ≤ length tail + 1 = omega (
      arith,
      length-append (length_header 1 n) (key ++ (body ++ rest)),
      length-append key (body ++ rest),
      length-append body rest,
      length-length_header 1 n,
    ) in
    let size : frame_size (first ∷ tail)
        ≡ sized (complete (control_of n + 4 + n)) (control_of n) 4 n =
      frame_size-header first 1 n _ (omega arith) (omega arith)
      ∙ checks_allowed first tail (control_of n) 4 n hf hn ok long in
    rw assoc (
      complete-is_frame (first ∷ tail) (control_of n + 4 + n) (ap (λ (t : FrameSize). t.size) size)
        (omega (arith, long)))
