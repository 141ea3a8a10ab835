-- ===== src/Websocket/Frame.antt =====
-- frameSize, isFrameComplete, decodeFrame and encodeFrame of src/websocket.cpp. A FrameType is its
-- number, since the code casts any `rawdata[0] & 0x0f` to one.
pub mod Extent
pub mod Header
pub mod RoundTrip
pub mod Sent
pub mod Stream
use vpl_jail_system.Prelude.{
  ℕ, ◌+◌, ◌*◌, ◌/◌, ◌%◌, ◌^◌, Bool, true, false, not, ◌&&◌, Option, none, some, [], ◌∷◌, ◌++◌,
  bit_and, bit_or, bit_xor, ◌≡◌, refl, Bytes, codes, length, get_or, take, drop, ltb, leb, ◌==◌,
  if◌then◌else◌,
}
use vpl_jail_system.Base64

abbrev pub continuation_frame : ℕ
continuation_frame = 0x00

abbrev pub text_frame : ℕ
text_frame = 0x01

abbrev pub binary_frame : ℕ
binary_frame = 0x02

abbrev pub connection_close_frame : ℕ
connection_close_frame = 0x08

abbrev pub ping_frame : ℕ
ping_frame = 0x09

abbrev pub pong_frame : ℕ
pong_frame = 0x0a

abbrev pub error_frame : ℕ
error_frame = 0xff

-- JAIL_WEBSOCKET_FRAME_SIZE_LIMIT of src/jail_limits.h.
abbrev pub frame_size_limit : ℕ
frame_size_limit = 20 * 1024 * 1024

-- -1, -2 or a size.
pub data Size : Type 0 where
  incomplete invalid : Size
  complete : ℕ → Size

-- The result and the three reference parameters.
pub record FrameSize : Type 0 where
  pub size : Size
  pub control_size : ℕ
  pub mask_size : ℕ
  pub payload_size : ℕ

abbrev pub sized : Size → ℕ → ℕ → ℕ → FrameSize
sized s control mask payload = record {
  size = s;
  control_size = control;
  mask_size = mask;
  payload_size = payload;
}

abbrev pub byte : Bytes → ℕ → ℕ
byte rawdata i = get_or rawdata i 0

-- From the check of the decoded size against the limit on.
unfoldable pub size_checks : Bytes → ℕ → ℕ → ℕ → FrameSize
size_checks rawdata control mask decoded =
    let opcode = bit_and (byte rawdata 0) 0x0f in
    let refused = sized invalid control mask 0 in
    let total = control + mask + decoded in
    if ltb frame_size_limit decoded
    then refused
    else if leb 8 opcode && bit_and (byte rawdata 0) 0x80 == 0
    then refused
    else if leb 8 opcode && ltb 125 decoded
    then refused
    else if opcode == connection_close_frame && decoded == 1
    then refused
    else if ltb (length rawdata) total
    then sized incomplete control mask decoded
    else sized (complete total) control mask decoded

-- The 64-bit length: bytes 2 to 9, the highest first.
unfoldable pub length64 : Bytes → ℕ
length64 rawdata =
    bit_or
      (bit_or
        (bit_or
          (bit_or
            (bit_or
              (bit_or (bit_or (byte rawdata 2 * 2 ^ 56) (byte rawdata 3 * 2 ^ 48))
                (byte rawdata 4 * 2 ^ 40))
              (byte rawdata 5 * 2 ^ 32))
            (byte rawdata 6 * 2 ^ 24))
          (byte rawdata 7 * 2 ^ 16))
        (byte rawdata 8 * 2 ^ 8))
      (byte rawdata 9)

unfoldable pub length16 : Bytes → ℕ
length16 rawdata = bit_or (byte rawdata 2 * 256) (byte rawdata 3)

-- From the test of `lengthCode` on; `mask` is the mask's size.
unfoldable pub size_coded : Bytes → ℕ → ℕ → FrameSize
size_coded rawdata mask code =
    if ltb code 126
    then size_checks rawdata 2 mask code
    else if code == 126
    then if ltb (length rawdata) 4
      then sized incomplete 4 mask 0
      else if ltb (length16 rawdata) 126
      then sized invalid 4 mask 0
      else size_checks rawdata 4 mask (length16 rawdata)
    else if ltb (length rawdata) 10
    then sized incomplete 10 mask 0
    else if not (bit_and (byte rawdata 2) 0x80 == 0)
    then sized invalid 10 mask 0
    else if leb (length64 rawdata) 0xffff
    then sized invalid 10 mask 0
    else size_checks rawdata 10 mask (length64 rawdata)

unfoldable pub frame_size : Bytes → FrameSize
frame_size rawdata =
    if ltb (length rawdata) 2
    then sized incomplete 2 0 0
    else size_coded rawdata (if bit_and (byte rawdata 1) 0x80 == 0 then 0 else 4)
        (bit_and (byte rawdata 1) 0x7f)

unfoldable pub is_frame_complete : Bytes → Bool
is_frame_complete rawdata = elim (frame_size rawdata).size [
  | incomplete ↦ false
  | invalid ↦ true
  | complete n ↦ leb n (length rawdata)
]

-- `ret[i] = payload[i] ^ mask[i%4]`, from round `i` on.
unfoldable pub unmask : Bytes → ℕ → Bytes → Bytes
unmask mask i [] = []
unmask mask i (p ∷ ps) = bit_xor p (get_or mask (i % 4) 0) ∷ unmask mask (i + 1) ps

-- The string that decodeFrame returns, and its reference parameters.
pub record Decoded : Type 0 where
  pub text : Bytes
  pub rest : Bytes
  pub frame_type : ℕ
  pub fin : Bool

-- An error leaves the data and `fin` as they are.
abbrev pub failed : Bytes → Bool → Bytes → Option Decoded
failed rawdata fin s =
    some (record { text = s; rest = rawdata; frame_type = error_frame; fin = fin })

-- The end of decodeFrame: a text frame carries base64 where that was negotiated.
unfoldable pub finish : Bool → ℕ → Bool → Bytes → Bytes → Option Decoded
finish base64 ft fin ret rest =
    if base64 && ft == text_frame
    then elim (Base64.decode ret) [
      | none ↦ none
      | some ret64 ↦
          some (record { text = ret64; rest = rest; frame_type = binary_frame; fin = fin })
    ]
    else some (record { text = ret; rest = rest; frame_type = ft; fin = fin })

-- The part behind the size checks, with `frame_type` and `fin` still those of before.
unfoldable pub decode_payload : Bool → Bytes → FrameSize → ℕ → ℕ → Bool → Option Decoded
decode_payload base64 rawdata sizes total ft fin =
    let opcode = bit_and (byte rawdata 0) 0x0f in
    let fin' = not (bit_and (byte rawdata 0) 0x80 == 0) in
    let ft' = if opcode == continuation_frame then ft else opcode in
    let mask = drop sizes.control_size rawdata in
    let payload = take sizes.payload_size (drop (sizes.control_size + sizes.mask_size) rawdata) in
    let ret = unmask mask 0 payload in
    let rest = drop total rawdata in
    if sizes.mask_size == 0
    then failed rawdata fin (codes "Frame must be masked")
    else if not (bit_and (byte rawdata 0) 0x70 == 0)
    then failed rawdata fin (codes "Websocket extensions unsupported")
    else finish base64 ft' fin' ret rest

-- `none` is the exception of Base64::decode.
unfoldable pub decode_frame : Bool → Bytes → ℕ → Bool → Option Decoded
decode_frame base64 rawdata ft fin = elim (frame_size rawdata).size [
  | incomplete ↦ failed rawdata fin (codes "Frame size too large")
  | invalid ↦ failed rawdata fin (codes "Invalid frame length")
  | complete total ↦
      if ltb (length rawdata) total
      then failed rawdata fin (codes "Frame size too large")
      else decode_payload base64 rawdata (frame_size rawdata) total ft fin
]

-- The length bytes: `ret[1]`, and `ret[2]` to `ret[9]` where there are any.
unfoldable pub length_bytes : ℕ → Bytes
length_bytes n =
    if leb n 125
    then n ∷ []
    else if leb n 0xffff
    then 126 ∷ (n / 2 ^ 8 % 256) ∷ bit_and n 0xff ∷ []
    else 127
      ∷ bit_and (n / 2 ^ 56) 0xff
      ∷ bit_and (n / 2 ^ 48) 0xff
      ∷ bit_and (n / 2 ^ 40) 0xff
      ∷ bit_and (n / 2 ^ 32) 0xff
      ∷ bit_and (n / 2 ^ 24) 0xff
      ∷ bit_and (n / 2 ^ 16) 0xff
      ∷ bit_and (n / 2 ^ 8) 0xff
      ∷ bit_and n 0xff
      ∷ []

unfoldable pub encode_frame : Bool → Bytes → ℕ → Bytes
encode_frame base64 rdata ft =
    let wrap = base64 && ft == binary_frame in
    let d = if wrap then Base64.encode rdata else rdata in
    let ft' = if wrap then text_frame else ft in bit_or 0x80 ft' ∷ (length_bytes (length d) ++ d)
