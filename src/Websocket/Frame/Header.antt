-- ===== src/Websocket/Frame/Header.antt =====
-- RFC 6455 section 5.2: the header that announces a payload of `n` bytes, and that frameSize of
-- src/websocket.cpp reads it back.
use vpl_jail_system.Prelude.{
  ℕ, ◌+◌, ◌*◌, ◌/◌, ◌%◌, ◌^◌, ◌≤◌, ◌<◌, ◌≡◌, [], ◌∷◌, ◌++◌, bit_or, Bytes, length, leb,
  if◌then◌else◌, arith, ◌∙◌, Bool-cases, inl, inr,
}
use vpl_jail_system.Prelude.Bits.{and_80, and_7f, and_ff, or_join, bit_or_shifted}
use vpl_jail_system.Websocket.Frame.{
  size_checks, length64, length16, size_coded, frame_size, length_bytes,
}

-- A length in eight bytes, the highest first.
abbrev pub big_endian : ℕ → Bytes → Bytes
big_endian n tail =
    (n / 2 ^ 56)
    ∷ (n / 2 ^ 48 % 256)
    ∷ (n / 2 ^ 40 % 256)
    ∷ (n / 2 ^ 32 % 256)
    ∷ (n / 2 ^ 24 % 256)
    ∷ (n / 2 ^ 16 % 256)
    ∷ (n / 2 ^ 8 % 256)
    ∷ (n % 256)
    ∷ tail

-- The length, `m` being 1 where the payload is masked.
unfoldable pub length_header : ℕ → ℕ → Bytes
length_header m n =
    if leb n 125
    then (m * 128 + n) ∷ []
    else if leb n 0xffff
    then (m * 128 + 126) ∷ (n / 256) ∷ (n % 256) ∷ []
    else (m * 128 + 127) ∷ big_endian n []

-- The size of the header, with its first byte.
abbrev pub control_of : ℕ → ℕ
control_of n = if leb n 125 then 2 else if leb n 0xffff then 4 else 10

pub length-length_header : (m n : ℕ) → length (length_header m n) + 1 ≡ control_of n
unfolding length_header
length-length_header m n = ground arith

-- encodeFrame writes the unmasked header.
pub length_bytes-header : (n : ℕ) → n < 2 ^ 63 → length_bytes n ≡ length_header 0 n
unfolding length_bytes length_header
length_bytes-header n h = ground (
  arith,
  and_ff n,
  and_ff (n / 2 ^ 8),
  and_ff (n / 2 ^ 16),
  and_ff (n / 2 ^ 24),
  and_ff (n / 2 ^ 32),
  and_ff (n / 2 ^ 40),
  and_ff (n / 2 ^ 48),
  and_ff (n / 2 ^ 56),
)

length16_lem :
    (b0 b1 hi lo : ℕ) (t : Bytes) → lo < 256 → length16 (b0 ∷ b1 ∷ hi ∷ lo ∷ t) ≡ hi * 256 + lo
unfolding length16
length16_lem b0 b1 hi lo t h = bit_or_shifted 8 hi lo h

length64_lem : (b0 b1 n : ℕ) (t : Bytes) → length64 (b0 ∷ b1 ∷ big_endian n t) ≡ n
unfolding length64
length64_lem b0 b1 n t =
    let e48 : bit_or (n / 2 ^ 56 * 2 ^ 56) (n / 2 ^ 48 % 256 * 2 ^ 48) ≡ n / 2 ^ 48 * 2 ^ 48 =
      or_join 48 (n / 2 ^ 56) (n / 2 ^ 48 % 256) (omega arith) ∙ omega arith in
    let e40 : bit_or (n / 2 ^ 48 * 2 ^ 48) (n / 2 ^ 40 % 256 * 2 ^ 40) ≡ n / 2 ^ 40 * 2 ^ 40 =
      or_join 40 (n / 2 ^ 48) (n / 2 ^ 40 % 256) (omega arith) ∙ omega arith in
    let e32 : bit_or (n / 2 ^ 40 * 2 ^ 40) (n / 2 ^ 32 % 256 * 2 ^ 32) ≡ n / 2 ^ 32 * 2 ^ 32 =
      or_join 32 (n / 2 ^ 40) (n / 2 ^ 32 % 256) (omega arith) ∙ omega arith in
    let e24 : bit_or (n / 2 ^ 32 * 2 ^ 32) (n / 2 ^ 24 % 256 * 2 ^ 24) ≡ n / 2 ^ 24 * 2 ^ 24 =
      or_join 24 (n / 2 ^ 32) (n / 2 ^ 24 % 256) (omega arith) ∙ omega arith in
    let e16 : bit_or (n / 2 ^ 24 * 2 ^ 24) (n / 2 ^ 16 % 256 * 2 ^ 16) ≡ n / 2 ^ 16 * 2 ^ 16 =
      or_join 16 (n / 2 ^ 24) (n / 2 ^ 16 % 256) (omega arith) ∙ omega arith in
    let e8 : bit_or (n / 2 ^ 16 * 2 ^ 16) (n / 2 ^ 8 % 256 * 2 ^ 8) ≡ n / 2 ^ 8 * 2 ^ 8 =
      or_join 8 (n / 2 ^ 16) (n / 2 ^ 8 % 256) (omega arith) ∙ omega arith in
    let e0 : bit_or (n / 2 ^ 8 * 2 ^ 8) (n % 256) ≡ n =
      bit_or_shifted 8 (n / 2 ^ 8) (n % 256) (omega arith) ∙ omega arith in
    rw (e48, e40, e32, e24, e16, e8) e0

-- The second byte: the mask's size and the length code.
coded_second :
    (first m code : ℕ) (tail : Bytes)
    → m < 2
    → code < 128
    → frame_size (first ∷ (m * 128 + code) ∷ tail)
      ≡ size_coded (first ∷ (m * 128 + code) ∷ tail) (4 * m) code
unfolding frame_size
coded_second first m code tail hm hc =
    let f : (m * 128 + code) < 256 = omega arith in
    ground (arith, and_80 (m * 128 + code), and_7f (m * 128 + code))

coded_short : (d : Bytes) (mask n : ℕ) → n ≤ 125 → size_coded d mask n ≡ size_checks d 2 mask n
unfolding size_coded
coded_short d mask n h = ground arith

coded_16 :
    (first second mask n : ℕ) (tail : Bytes)
    → 126 ≤ n
    → n ≤ 0xffff
    → let d : Bytes = first ∷ second ∷ (n / 256) ∷ (n % 256) ∷ tail in
      size_coded d mask 126 ≡ size_checks d 4 mask n
unfolding size_coded
coded_16 first second mask n tail lo hi =
    let e : length16 (first ∷ second ∷ (n / 256) ∷ (n % 256) ∷ tail) ≡ n =
      length16_lem first second (n / 256) (n % 256) tail (omega arith) ∙ omega arith in
    ground (arith, e)

coded_64 :
    (first second mask n : ℕ) (tail : Bytes)
    → 0xffff < n
    → n < 2 ^ 63
    → let d : Bytes = first ∷ second ∷ big_endian n tail in
      size_coded d mask 127 ≡ size_checks d 10 mask n
unfolding size_coded
coded_64 first second mask n tail lo hi =
    ground (arith, length64_lem first second n tail, and_80 (n / 2 ^ 56))

header_short : (m n : ℕ) → n ≤ 125 → length_header m n ≡ (m * 128 + n) ∷ []
unfolding length_header
header_short m n h = ground arith

header_16 :
    (m n : ℕ)
    → 125 < n
    → n ≤ 0xffff
    → length_header m n ≡ (m * 128 + 126) ∷ (n / 256) ∷ (n % 256) ∷ []
unfolding length_header
header_16 m n lo hi = ground arith

header_64 : (m n : ℕ) → 0xffff < n → length_header m n ≡ (m * 128 + 127) ∷ big_endian n []
unfolding length_header
header_64 m n lo = ground arith

control_short : (n : ℕ) → n ≤ 125 → control_of n ≡ 2
control_short n h = ground arith

control_16 : (n : ℕ) → 125 < n → n ≤ 0xffff → control_of n ≡ 4
control_16 n h k = ground arith

control_64 : (n : ℕ) → 0xffff < n → control_of n ≡ 10
control_64 n h = ground arith

-- frameSize goes on to its checks with the size of the header, the mask and the payload announced.
pub frame_size-header :
    (first m n : ℕ) (tail : Bytes)
    → m < 2
    → n < 2 ^ 63
    → frame_size (first ∷ (length_header m n ++ tail))
      ≡ size_checks (first ∷ (length_header m n ++ tail)) (control_of n) (4 * m) n
frame_size-header first m n tail hm hn = elim (Bool-cases (leb n 125)) [
  | inl short ↦
      rw (header_short m n (ground arith), control_short n (ground arith))
        (coded_second first m n tail hm (ground arith) ∙ coded_short _ (4 * m) n (ground arith))
  | inr long ↦ elim (Bool-cases (leb n 0xffff)) [
    | inl two ↦
        rw (header_16 m n (ground arith) (ground arith), control_16 n (ground arith) (ground arith))
          (coded_second first m 126 ((n / 256) ∷ (n % 256) ∷ tail) hm (omega arith)
            ∙ coded_16 first _ (4 * m) n tail (ground arith) (ground arith))
    | inr eight ↦
        rw (header_64 m n (ground arith), control_64 n (ground arith))
          (coded_second first m 127 _ hm (omega arith)
            ∙ coded_64 first _ (4 * m) n tail (ground arith) hn)
  ]
]
