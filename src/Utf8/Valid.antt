-- ===== src/Utf8/Valid.antt =====
-- isValidUTF8 of src/websocket.cpp accepts exactly the texts of scalar values.
use vpl_jail_system.Prelude.{
  ℕ, zero, suc, ◌≤◌, ◌<◌, ◌≡◌, refl, inl, inr, true, false, none, some, List, [], ◌∷◌, ◌++◌, Bytes,
  IsByte, All, length, length-append, take, drop, take-append-drop, drop-append, ltb, arith,
  Bool-cases, Option-cases, ap, ◌∙◌, sym,
}
use vpl_jail_system.Utf8.{leading, sequence_valid, valid_loop, is_valid_utf8}
use vpl_jail_system.Utf8.Spec.{IsScalar, utf8, utf8_text, Text, Text-nil, Text-cons}
use vpl_jail_system.Utf8.Sequences.{sequence_sound, sequence_complete}

-- The bytes behind a prefix of a text of bytes.
pub drop-IsByte : (n : ℕ) (s : Bytes) → All IsByte s → All IsByte (drop n s)
drop-IsByte zero s h = h
drop-IsByte (suc n) [] h = tt
drop-IsByte (suc n) (x ∷ s) h = drop-IsByte n s h.1

pub utf8-ascii : (c : ℕ) → c < 0x80 → utf8 c ≡ c ∷ []
unfolding utf8
utf8-ascii c h = ground arith

pub loop_ascii :
    (fuel b : ℕ) (rest : Bytes) → b < 0x80 → valid_loop (suc fuel) (b ∷ rest) ≡ valid_loop fuel rest
unfolding valid_loop
loop_ascii fuel b rest h = ground arith

pub loop_sequence :
    (fuel b extra cp : ℕ) (rest : Bytes)
    → 0x80 ≤ b
    → leading b ≡ some (extra, cp)
    → sequence_valid extra cp rest ≡ true
    → valid_loop (suc fuel) (b ∷ rest) ≡ valid_loop fuel (drop extra rest)
unfolding valid_loop
loop_sequence fuel b extra cp rest h l v = ground arith

pub loop_no_lead :
    (fuel b : ℕ) (rest : Bytes)
    → 0x80 ≤ b
    → leading b ≡ none
    → valid_loop (suc fuel) (b ∷ rest) ≡ false
unfolding valid_loop
loop_no_lead fuel b rest h l = ground arith

pub loop_bad_sequence :
    (fuel b extra cp : ℕ) (rest : Bytes)
    → 0x80 ≤ b
    → leading b ≡ some (extra, cp)
    → sequence_valid extra cp rest ≡ false
    → valid_loop (suc fuel) (b ∷ rest) ≡ false
unfolding valid_loop
loop_bad_sequence fuel b extra cp rest h l v = ground arith

pub loop_sequence_inv :
    (fuel b : ℕ) (rest : Bytes)
    → 0x80 ≤ b
    → valid_loop (suc fuel) (b ∷ rest) ≡ true
    → (extra : ℕ) × (cp : ℕ) × (leading b ≡ some (extra, cp))
      × (sequence_valid extra cp rest ≡ true)
      × (valid_loop fuel (drop extra rest) ≡ true)
loop_sequence_inv fuel b rest h v = elim (Option-cases (leading b)) [
  | inl e ↦ absurd (cc (loop_no_lead fuel b rest h e))
  | inr ((extra, cp), e) ↦ elim (Bool-cases (sequence_valid extra cp rest)) [
    | inl q ↦ (extra, cp, e, q, cc (loop_sequence fuel b extra cp rest h e q))
    | inr q ↦ absurd (cc (loop_bad_sequence fuel b extra cp rest h e q))
  ]
]

-- One round on the bytes of a scalar value.
pub valid_round :
    (fuel c : ℕ) (rest : Bytes)
    → IsScalar c
    → valid_loop (suc fuel) (utf8 c ++ rest) ≡ valid_loop fuel rest
valid_round fuel c rest sc = elim (Bool-cases (ltb c 0x80)) [
  | inl ascii ↦ rw (utf8-ascii c (ground arith)) (loop_ascii fuel c rest (ground arith))
  | inr high ↦
      let a = sequence_complete c (ground arith) sc in
      rw a.encoded (
        loop_sequence fuel a.lead a.extra a.bits (a.tail ++ rest) a.high a.leads (a.passes rest)
        ∙ ap (valid_loop fuel) (rw (← a.long) (drop-append a.tail rest)))
]

pub length-utf8 : (c : ℕ) → 1 ≤ length (utf8 c)
unfolding utf8
length-utf8 c = ground arith

valid_loop_complete :
    (cs : List ℕ) (fuel : ℕ)
    → All IsScalar cs
    → length (utf8_text cs) ≤ fuel
    → valid_loop fuel (utf8_text cs) ≡ true
unfolding utf8_text
valid_loop_complete [] fuel h m = unfold valid_loop in refl
valid_loop_complete (c ∷ cs) zero h m =
    absurd (omega (arith, length-append (utf8 c) (utf8_text cs), length-utf8 c))
valid_loop_complete (c ∷ cs) (suc fuel) h m =
    valid_round fuel c (utf8_text cs) h.0
    ∙ valid_loop_complete cs fuel h.1
        (omega (arith, length-append (utf8 c) (utf8_text cs), length-utf8 c))

-- The encoding of any list of Unicode scalar values is accepted.
pub is_valid_utf8-utf8_text : (cs : List ℕ) → All IsScalar cs → is_valid_utf8 (utf8_text cs) ≡ true
unfolding is_valid_utf8
is_valid_utf8-utf8_text cs h = valid_loop_complete cs _ h (omega arith)

valid_loop_sound : (fuel : ℕ) (s : Bytes) → All IsByte s → valid_loop fuel s ≡ true → Text s
valid_loop_sound fuel [] bytes v = Text-nil
valid_loop_sound zero (b ∷ rest) bytes v = unfold valid_loop in cc
valid_loop_sound (suc fuel) (b ∷ rest) bytes v = elim (Bool-cases (ltb b 0x80)) [
  | inl ascii ↦
      let low : b < 0x80 = ground arith in
      Text-cons b (b ∷ []) rest (ground arith) (sym (utf8-ascii b low))
        (valid_loop_sound fuel rest bytes.1 (rw (loop_ascii fuel b rest low) at v))
  | inr high ↦
      let (extra, cp, l, q, w) = loop_sequence_inv fuel b rest (ground arith) v in
      let (c, sc, e) = sequence_sound b extra cp rest bytes.0 bytes.1 l q in
      let t =
        Text-cons c (b ∷ take extra rest) (drop extra rest) sc e
          (valid_loop_sound fuel (drop extra rest) (drop-IsByte extra rest bytes.1) w) in
      rw (take-append-drop extra rest) at t
]

-- A text of bytes that is accepted is the encoding of a list of Unicode scalar values.
pub is_valid_utf8_sound :
    (s : Bytes)
    → All IsByte s
    → is_valid_utf8 s ≡ true
    → (cs : List ℕ) × All IsScalar cs × (s ≡ utf8_text cs)
unfolding is_valid_utf8
is_valid_utf8_sound s bytes v = valid_loop_sound (length s) s bytes v
