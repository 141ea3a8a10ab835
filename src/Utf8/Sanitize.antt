-- ===== src/Utf8/Sanitize.antt =====
-- sanitizeUTF8 of src/websocket.cpp: what it returns is accepted by isValidUTF8.
use vpl_jail_system.Prelude.{
  ℕ, zero, suc, ◌≤◌, ◌<◌, ◌≡◌, refl, inl, inr, true, some, [], ◌∷◌, ◌++◌, Bytes, IsByte, All,
  length, length-append, take, drop, take-append-drop, ltb, arith, Bool-cases, Option-cases, ap,
  ◌∙◌, sym, length-drop, length-take,
}
use vpl_jail_system.Utf8.{
  leading, sequence_valid, valid_loop, is_valid_utf8, sanitize_loop, sanitize_utf8,
}
use vpl_jail_system.Utf8.Spec.{Text, Text-nil, Text-cons}
use vpl_jail_system.Utf8.Sequences.{sequence_sound}
use vpl_jail_system.Utf8.Valid.{
  drop-IsByte, utf8-ascii, loop_ascii, loop_sequence_inv, is_valid_utf8-utf8_text,
}

sequence_fits :
    (extra cp : ℕ) (rest : Bytes) → sequence_valid extra cp rest ≡ true → extra ≤ length rest
unfolding sequence_valid
sequence_fits extra cp rest v = ground arith

sanitize_ascii :
    (fuel b : ℕ) (rest : Bytes)
    → b < 0x80
    → sanitize_loop (suc fuel) (b ∷ rest) ≡ b ∷ sanitize_loop fuel rest
unfolding sanitize_loop
sanitize_ascii fuel b rest h = ground arith

sanitize_sequence :
    (fuel b extra cp : ℕ) (rest : Bytes)
    → 0x80 ≤ b
    → leading b ≡ some (extra, cp)
    → sequence_valid extra cp rest ≡ true
    → sanitize_loop (suc fuel) (b ∷ rest)
      ≡ b ∷ (take extra rest ++ sanitize_loop fuel (drop extra rest))
unfolding sanitize_loop
sanitize_sequence fuel b extra cp rest h l v = ground arith

-- What else can happen at a byte that is not ASCII: it is replaced, or a sequence is copied.
data RoundCase (fuel b : ℕ) (rest : Bytes) : Type 0 where
  replaced :
      sanitize_loop (suc fuel) (b ∷ rest) ≡ b'?' ∷ sanitize_loop fuel rest → RoundCase fuel b rest
  copied :
      (extra cp : ℕ)
      → leading b ≡ some (extra, cp)
      → sequence_valid extra cp rest ≡ true
      → RoundCase fuel b rest

case_of : (fuel b : ℕ) (rest : Bytes) → 0x80 ≤ b → RoundCase fuel b rest
case_of fuel b rest h = elim (Option-cases (leading b)) [
  | inl e ↦ replaced (unfold sanitize_loop in ground arith)
  | inr ((extra, cp), e) ↦ elim (Bool-cases (sequence_valid extra cp rest)) [
    | inl q ↦ copied extra cp e q
    | inr q ↦ replaced (unfold sanitize_loop in ground arith)
  ]
]

length-sanitize_loop :
    (fuel : ℕ) (s : Bytes) → length s ≤ fuel → length (sanitize_loop fuel s) ≡ length s
length-sanitize_loop fuel [] h = unfold sanitize_loop in refl
length-sanitize_loop zero (b ∷ rest) h = absurd (omega arith)
length-sanitize_loop (suc fuel) (b ∷ rest) h = elim (Bool-cases (ltb b 0x80)) [
  | inl ascii ↦
      rw (sanitize_ascii fuel b rest (ground arith))
        (omega (arith, length-sanitize_loop fuel rest (omega arith)))
  | inr high ↦ elim (case_of fuel b rest (ground arith)) [
    | replaced e ↦ rw e (omega (arith, length-sanitize_loop fuel rest (omega arith)))
    | copied extra cp l q ↦ rw (sanitize_sequence fuel b extra cp rest (ground arith) l q) (
        omega (
          arith,
          length-append (take extra rest) (sanitize_loop fuel (drop extra rest)),
          length-take extra rest,
          length-drop extra rest,
          sequence_fits extra cp rest q,
          length-sanitize_loop fuel (drop extra rest) (omega (arith, length-drop extra rest)),
        ))
  ]
]

-- The result has as many bytes as the input.
pub length-sanitize_utf8 : (s : Bytes) → length (sanitize_utf8 s) ≡ length s
unfolding sanitize_utf8
length-sanitize_utf8 s = length-sanitize_loop (length s) s (omega arith)

sanitize_loop_id : (fuel : ℕ) (s : Bytes) → valid_loop fuel s ≡ true → sanitize_loop fuel s ≡ s
sanitize_loop_id fuel [] v = unfold sanitize_loop in refl
sanitize_loop_id zero (b ∷ rest) v = unfold valid_loop in cc
sanitize_loop_id (suc fuel) (b ∷ rest) v = elim (Bool-cases (ltb b 0x80)) [
  | inl ascii ↦
      let low : b < 0x80 = ground arith in
      sanitize_ascii fuel b rest low
      ∙ ap (λ t. b ∷ t) (sanitize_loop_id fuel rest (rw (loop_ascii fuel b rest low) at v))
  | inr high ↦
      let (extra, cp, l, q, w) = loop_sequence_inv fuel b rest (ground arith) v in
      sanitize_sequence fuel b extra cp rest (ground arith) l q
      ∙ ap (λ t. b ∷ t)
          (ap (λ t. take extra rest ++ t) (sanitize_loop_id fuel (drop extra rest) w)
            ∙ take-append-drop extra rest)
]

-- A text that is accepted is left as it is.
pub sanitize_utf8_id : (s : Bytes) → is_valid_utf8 s ≡ true → sanitize_utf8 s ≡ s
unfolding sanitize_utf8 is_valid_utf8
sanitize_utf8_id s v = sanitize_loop_id (length s) s v

sanitize_loop-Text : (fuel : ℕ) (s : Bytes) → All IsByte s → Text (sanitize_loop fuel s)
sanitize_loop-Text fuel [] h = unfold sanitize_loop in Text-nil
sanitize_loop-Text zero (b ∷ rest) h = unfold sanitize_loop in Text-nil
sanitize_loop-Text (suc fuel) (b ∷ rest) h = elim (Bool-cases (ltb b 0x80)) [
  | inl ascii ↦
      let low : b < 0x80 = ground arith in
      rw (sanitize_ascii fuel b rest low) (
        Text-cons b (b ∷ []) _ (ground arith) (sym (utf8-ascii b low))
          (sanitize_loop-Text fuel rest h.1))
  | inr high ↦ elim (case_of fuel b rest (ground arith)) [
    | replaced e ↦ rw e (
        Text-cons b'?' (b'?' ∷ []) _ (omega arith) (sym (utf8-ascii b'?' (omega arith)))
          (sanitize_loop-Text fuel rest h.1))
    | copied extra cp l q ↦
        let (c, sc, e) = sequence_sound b extra cp rest h.0 h.1 l q in
        rw (sanitize_sequence fuel b extra cp rest (ground arith) l q) (
          Text-cons c (b ∷ take extra rest) _ sc e
            (sanitize_loop-Text fuel (drop extra rest) (drop-IsByte extra rest h.1)))
  ]
]

-- Whatever bytes go in, isValidUTF8 accepts what comes out.
pub is_valid_utf8-sanitize_utf8 :
    (s : Bytes) → All IsByte s → is_valid_utf8 (sanitize_utf8 s) ≡ true
unfolding sanitize_utf8
is_valid_utf8-sanitize_utf8 s h =
    let (cs, scalars, e) = sanitize_loop-Text (length s) s h in
    rw e (is_valid_utf8-utf8_text cs scalars)
