-- ===== src/Utf8/Sequences.antt =====
-- One multi-byte sequence of src/websocket.cpp's UTF-8 loops against its encoding.
use vpl_jail_system.Prelude.{
  ℕ, suc, ◌+◌, ◌-◌, ◌*◌, ◌/◌, ◌%◌, ◌≤◌, ◌<◌, ◌≡◌, refl, ◌⊎◌, inl, inr, true, false, ◌&&◌, Option,
  none, some, [], ◌∷◌, ◌++◌, Bytes, IsByte, All, length, take, ltb, leb, if◌then◌else◌, arith,
  Bool-cases,
}
use vpl_jail_system.Prelude.Bits.{
  and_e0, and_f0, and_f8, and_c0, and_3f, and_1f, and_0f, and_07, bit_or_shifted,
}
use vpl_jail_system.Utf8.{leading, continuation, rejected, sequence_valid}
use vpl_jail_system.Utf8.Spec.{IsScalar, utf8}

-- The leading byte's masks as ranges.
pub leading_arith : ℕ → Option (ℕ × ℕ)
leading_arith b =
    if leb 0xc0 b && ltb b 0xe0
    then some (1, b - 0xc0)
    else if leb 0xe0 b && ltb b 0xf0
    then some (2, b - 0xe0)
    else if leb 0xf0 b && ltb b 0xf8
    then some (3, b - 0xf0)
    else none

pub leading-arith : (b : ℕ) → b < 256 → leading b ≡ leading_arith b
unfolding leading leading_arith
leading-arith b h = ground (arith, and_e0 b, and_f0 b, and_f8 b, and_1f b, and_0f b, and_07 b)

pub continuation_zero : (cp : ℕ) (bs : Bytes) → continuation 0 cp bs ≡ some cp
unfolding continuation
continuation_zero cp bs = refl

-- One round of the inner loop: the byte is 10xxxxxx, and its six bits are shifted in.
pub continuation_step :
    (n cp cb : ℕ) (bs : Bytes)
    → cb < 256
    → continuation (suc n) cp (cb ∷ bs)
      ≡ (if leb 0x80 cb && ltb cb 0xc0 then continuation n (cp * 64 + (cb - 0x80)) bs else none)
unfolding continuation
continuation_step n cp cb bs h = ground (arith, and_c0 cb, and_3f cb, bit_or_shifted 6 cp (cb % 64))

abbrev point2 : ℕ → ℕ → ℕ
point2 b c1 = (b - 0xc0) * 64 + (c1 - 0x80)

abbrev point3 : ℕ → ℕ → ℕ → ℕ
point3 b c1 c2 = ((b - 0xe0) * 64 + (c1 - 0x80)) * 64 + (c2 - 0x80)

abbrev point4 : ℕ → ℕ → ℕ → ℕ → ℕ
point4 b c1 c2 c3 = (((b - 0xf0) * 64 + (c1 - 0x80)) * 64 + (c2 - 0x80)) * 64 + (c3 - 0x80)

abbrev IsTail : ℕ → Type 0
IsTail cb = (0x80 ≤ cb) × (cb < 0xc0)

utf8_two :
    (b c1 : ℕ)
    → 0xc0 ≤ b
    → b < 0xe0
    → IsTail c1
    → 0x80 ≤ point2 b c1
    → utf8 (point2 b c1) ≡ b ∷ c1 ∷ []
unfolding utf8
utf8_two b c1 lo hi t m = ground arith

utf8_three :
    (b c1 c2 : ℕ)
    → 0xe0 ≤ b
    → b < 0xf0
    → IsTail c1
    → IsTail c2
    → 0x800 ≤ point3 b c1 c2
    → utf8 (point3 b c1 c2) ≡ b ∷ c1 ∷ c2 ∷ []
unfolding utf8
utf8_three b c1 c2 lo hi t t' m = ground arith

utf8_four :
    (b c1 c2 c3 : ℕ)
    → 0xf0 ≤ b
    → b < 0xf8
    → IsTail c1
    → IsTail c2
    → IsTail c3
    → 0x10000 ≤ point4 b c1 c2 c3
    → utf8 (point4 b c1 c2 c3) ≡ b ∷ c1 ∷ c2 ∷ c3 ∷ []
unfolding utf8
utf8_four b c1 c2 c3 lo hi t t' t'' m = ground arith

-- What a test by the code says of a sequence of two bytes, and of three and four below.
abbrev pub Encodes : Bytes → Type 0
Encodes bs = (c : ℕ) × IsScalar c × (bs ≡ utf8 c)

IsScalar-rejected : (extra c : ℕ) → rejected extra c ≡ false → IsScalar c
unfolding rejected
IsScalar-rejected extra c h = ground arith

two_sound :
    (b : ℕ) (rest : Bytes)
    → All IsByte rest
    → 0xc0 ≤ b
    → b < 0xe0
    → sequence_valid 1 (b - 0xc0) rest ≡ true
    → Encodes (b ∷ take 1 rest)
unfolding sequence_valid
two_sound b [] bytes lo hi v = ground arith
two_sound b (c1 ∷ bs) bytes lo hi v =
    let step = continuation_step 0 (b - 0xc0) c1 bs bytes.0 in
    let z = continuation_zero (point2 b c1) bs in
    (
      point2 b c1,
      ground (arith, step, z, IsScalar-rejected 1 (point2 b c1)),
      ground (arith, step, z, utf8_two b c1),
    )

three_sound :
    (b : ℕ) (rest : Bytes)
    → All IsByte rest
    → 0xe0 ≤ b
    → b < 0xf0
    → sequence_valid 2 (b - 0xe0) rest ≡ true
    → Encodes (b ∷ take 2 rest)
unfolding sequence_valid
three_sound b [] bytes lo hi v = ground arith
three_sound b (c1 ∷ []) bytes lo hi v = ground arith
three_sound b (c1 ∷ c2 ∷ bs) bytes lo hi v =
    let one = continuation_step 1 (b - 0xe0) c1 (c2 ∷ bs) bytes.0 in
    let two = continuation_step 0 (point2 (b - 0x20) c1) c2 bs bytes.1.0 in
    let z = continuation_zero (point3 b c1 c2) bs in
    (
      point3 b c1 c2,
      ground (arith, one, two, z, IsScalar-rejected 2 (point3 b c1 c2)),
      ground (arith, one, two, z, utf8_three b c1 c2),
    )

four_sound :
    (b : ℕ) (rest : Bytes)
    → All IsByte rest
    → 0xf0 ≤ b
    → b < 0xf8
    → sequence_valid 3 (b - 0xf0) rest ≡ true
    → Encodes (b ∷ take 3 rest)
unfolding sequence_valid
four_sound b [] bytes lo hi v = ground arith
four_sound b (c1 ∷ []) bytes lo hi v = ground arith
four_sound b (c1 ∷ c2 ∷ []) bytes lo hi v = ground arith
four_sound b (c1 ∷ c2 ∷ c3 ∷ bs) bytes lo hi v =
    let one = continuation_step 2 (b - 0xf0) c1 (c2 ∷ c3 ∷ bs) bytes.0 in
    let two = continuation_step 1 (point2 (b - 0x30) c1) c2 (c3 ∷ bs) bytes.1.0 in
    let three = continuation_step 0 (point3 (b - 0x10) c1 c2) c3 bs bytes.1.1.0 in
    let z = continuation_zero (point4 b c1 c2 c3) bs in
    (
      point4 b c1 c2 c3,
      ground (arith, one, two, three, z, IsScalar-rejected 3 (point4 b c1 c2 c3)),
      ground (arith, one, two, three, z, utf8_four b c1 c2 c3),
    )

leading_cases :
    (b extra cp : ℕ)
    → b < 256
    → leading b ≡ some (extra, cp)
    → ((extra ≡ 1) × (cp ≡ b - 0xc0) × (0xc0 ≤ b) × (b < 0xe0))
      ⊎ (((extra ≡ 2) × (cp ≡ b - 0xe0) × (0xe0 ≤ b) × (b < 0xf0))
          ⊎ ((extra ≡ 3) × (cp ≡ b - 0xf0) × (0xf0 ≤ b) × (b < 0xf8)))
unfolding leading_arith
leading_cases b extra cp h l = ground (arith, leading-arith b h)

-- A sequence that the code accepts is the encoding of one scalar value.
pub sequence_sound :
    (b extra cp : ℕ) (rest : Bytes)
    → b < 256
    → All IsByte rest
    → leading b ≡ some (extra, cp)
    → sequence_valid extra cp rest ≡ true
    → Encodes (b ∷ take extra rest)
sequence_sound b extra cp rest h bytes l v = elim (leading_cases b extra cp h l) [
  | inl (e, c, lo, hi) ↦ rw e (two_sound b rest bytes lo hi (rw (e, c) at v))
  | inr (inl (e, c, lo, hi)) ↦ rw e (three_sound b rest bytes lo hi (rw (e, c) at v))
  | inr (inr (e, c, lo, hi)) ↦ rw e (four_sound b rest bytes lo hi (rw (e, c) at v))
]

-- The bytes of a scalar value above 0x7f: a leading byte, and a sequence that the code accepts
-- whatever follows.
pub record Accepted (c : ℕ) : Type 0 where
  pub lead : ℕ
  pub extra : ℕ
  pub bits : ℕ
  pub tail : Bytes
  pub encoded : utf8 c ≡ lead ∷ tail
  pub high : 0x80 ≤ lead
  pub leads : leading lead ≡ some (extra, bits)
  pub long : length tail ≡ extra
  pub passes : (rest : Bytes) → sequence_valid extra bits (tail ++ rest) ≡ true

two_complete : (c : ℕ) → 0x80 ≤ c → c < 0x800 → Accepted c
unfolding leading_arith sequence_valid utf8
two_complete c lo hi = record {
  lead = 0xc0 + c / 64;
  extra = 1;
  bits = c / 64;
  tail = (0x80 + c % 64) ∷ [];
  encoded = ground arith;
  high = omega arith;
  leads = ground (arith, leading-arith (0xc0 + c / 64) (omega arith));
  long = refl;
  passes = λ rest. ground (
    arith,
    continuation_step 0 (c / 64) (0x80 + c % 64) rest (omega arith),
    continuation_zero (c / 64 * 64 + c % 64) rest,
  );
}

three_complete : (c : ℕ) → 0x800 ≤ c → c < 0x10000 → IsScalar c → Accepted c
unfolding leading_arith sequence_valid utf8
three_complete c lo hi sc = record {
  lead = 0xe0 + c / 4096;
  extra = 2;
  bits = c / 4096;
  tail = (0x80 + c / 64 % 64) ∷ (0x80 + c % 64) ∷ [];
  encoded = ground arith;
  high = omega arith;
  leads = ground (arith, leading-arith (0xe0 + c / 4096) (omega arith));
  long = refl;
  passes = λ rest. ground (
    arith,
    continuation_step 1 (c / 4096) (0x80 + c / 64 % 64) ((0x80 + c % 64) ∷ rest) (omega arith),
    continuation_step 0 (c / 64) (0x80 + c % 64) rest (omega arith),
    continuation_zero c rest,
  );
}

four_complete : (c : ℕ) → 0x10000 ≤ c → IsScalar c → Accepted c
unfolding leading_arith sequence_valid utf8
four_complete c lo sc = record {
  lead = 0xf0 + c / 262144;
  extra = 3;
  bits = c / 262144;
  tail = (0x80 + c / 4096 % 64) ∷ (0x80 + c / 64 % 64) ∷ (0x80 + c % 64) ∷ [];
  encoded = ground arith;
  high = omega arith;
  leads = ground (arith, leading-arith (0xf0 + c / 262144) (omega arith));
  long = refl;
  passes = λ rest. ground (
    arith,
    continuation_step 2 (c / 262144) (0x80 + c / 4096 % 64)
        ((0x80 + c / 64 % 64) ∷ (0x80 + c % 64) ∷ rest) (omega arith),
    continuation_step 1 (c / 4096) (0x80 + c / 64 % 64) ((0x80 + c % 64) ∷ rest) (omega arith),
    continuation_step 0 (c / 64) (0x80 + c % 64) rest (omega arith),
    continuation_zero c rest,
  );
}

pub sequence_complete : (c : ℕ) → 0x80 ≤ c → IsScalar c → Accepted c
sequence_complete c m sc = elim (Bool-cases (ltb c 0x800)) [
  | inl small ↦ two_complete c m (ground arith)
  | inr large ↦ elim (Bool-cases (ltb c 0x10000)) [
    | inl mid ↦ three_complete c (ground arith) (ground arith) sc
    | inr huge ↦ four_complete c (ground arith) sc
  ]
]
