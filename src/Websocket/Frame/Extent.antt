-- ===== src/Websocket/Frame/Extent.antt =====
-- What frameSize of src/websocket.cpp reports, and that bytes behind a frame do not change it.
use vpl_jail_system.Prelude.{
  ℕ, ◌+◌, ◌≤◌, ◌<◌, ◌≡◌, ◌++◌, bit_and, Bytes, length, length-append, get_or-append, ◌==◌,
  if◌then◌else◌, arith,
}
use vpl_jail_system.Websocket.Frame.{
  complete, FrameSize, byte, size_checks, length64, length16, size_coded, frame_size,
  frame_size_limit,
}

-- What is so of a frame that is there whole: its size adds up, and it is within the data.
abbrev Extent : Bytes → ℕ → FrameSize → Type 0
Extent rawdata n f =
    (n ≡ f.control_size + f.mask_size + f.payload_size)
    × (n ≤ length rawdata)
    × (f.payload_size ≤ frame_size_limit)
    × (2 ≤ f.control_size)
    × (f.control_size ≤ 10)

checks-Extent :
    (rawdata : Bytes) (control mask decoded n : ℕ)
    → 2 ≤ control
    → control ≤ 10
    → (size_checks rawdata control mask decoded).size ≡ complete n
    → Extent rawdata n (size_checks rawdata control mask decoded)
unfolding size_checks
checks-Extent rawdata control mask decoded n lo hi h = ground arith

coded-Extent :
    (rawdata : Bytes) (mask code n : ℕ)
    → (size_coded rawdata mask code).size ≡ complete n
    → Extent rawdata n (size_coded rawdata mask code)
unfolding size_coded
coded-Extent rawdata mask code n h = ground (
  arith,
  checks-Extent rawdata 2 mask code n,
  checks-Extent rawdata 4 mask (length16 rawdata) n,
  checks-Extent rawdata 10 mask (length64 rawdata) n,
)

-- A frame that is there whole is its header of 2 to 10 bytes, its mask and its payload, which is
-- within the limit, and it is within the data.
pub frame_size-Extent :
    (rawdata : Bytes) (n : ℕ)
    → (frame_size rawdata).size ≡ complete n
    → Extent rawdata n (frame_size rawdata)
unfolding frame_size
frame_size-Extent rawdata n h = ground (
  arith,
  coded-Extent rawdata (if bit_and (byte rawdata 1) 0x80 == 0 then 0 else 4)
      (bit_and (byte rawdata 1) 0x7f) n,
)

byte-append : (d more : Bytes) (i : ℕ) → i < length d → byte (d ++ more) i ≡ byte d i
byte-append d more i h = get_or-append d more i 0 h

length16-append : (d more : Bytes) → 4 ≤ length d → length16 (d ++ more) ≡ length16 d
unfolding length16
length16-append d more h =
    rw (byte-append d more 2 (omega arith), byte-append d more 3 (omega arith))

length64-append : (d more : Bytes) → 10 ≤ length d → length64 (d ++ more) ≡ length64 d
unfolding length64
length64-append d more h = cc (
  byte-append d more 2 (omega arith),
  byte-append d more 3 (omega arith),
  byte-append d more 4 (omega arith),
  byte-append d more 5 (omega arith),
  byte-append d more 6 (omega arith),
  byte-append d more 7 (omega arith),
  byte-append d more 8 (omega arith),
  byte-append d more 9 (omega arith),
)

checks-append :
    (d more : Bytes) (control mask decoded n : ℕ)
    → 1 ≤ length d
    → (size_checks d control mask decoded).size ≡ complete n
    → size_checks (d ++ more) control mask decoded ≡ size_checks d control mask decoded
unfolding size_checks
checks-append d more control mask decoded n l h =
    rw (byte-append d more 0 (omega arith)) (ground (arith, length-append d more))

coded-append :
    (d more : Bytes) (mask code n : ℕ)
    → 2 ≤ length d
    → (size_coded d mask code).size ≡ complete n
    → size_coded (d ++ more) mask code ≡ size_coded d mask code
unfolding size_coded
coded-append d more mask code n l h = ground (
  arith,
  length-append d more,
  byte-append d more 2,
  length16-append d more,
  length64-append d more,
  checks-append d more 2 mask code n,
  checks-append d more 4 mask (length16 d) n,
  checks-append d more 10 mask (length64 d) n,
)

-- Bytes behind a whole frame do not change what is read of it.
pub frame_size-append :
    (d more : Bytes) (n : ℕ)
    → (frame_size d).size ≡ complete n
    → frame_size (d ++ more) ≡ frame_size d
unfolding frame_size
frame_size-append d more n h = ground (
  arith,
  length-append d more,
  byte-append d more 1,
  coded-append d more (if bit_and (byte d 1) 0x80 == 0 then 0 else 4) (bit_and (byte d 1) 0x7f) n,
)
