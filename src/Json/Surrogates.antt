-- ===== src/Json/Surrogates.antt =====
-- Surrogates in decodeHexaUnicodeToUTF8 of src/json.h.
use vpl_jail_system.Prelude.{
  ℕ, suc, ◌+◌, ◌-◌, ◌≡◌, ◌≢◌, ◌≤◌, ◌<◌, ◌⊎◌, refl, Option, none, some, [], ◌∷◌, ◌++◌, Bytes, length,
  take, arith, ◌∙◌, ap,
}
use vpl_jail_system.Json.{
  extracted, decode_hexa, decode_surrogates, replacement, after, decode_loop,
}
use vpl_jail_system.Json.RoundTrip.{decode_unicode, decode_plain}

surrogates_at :
    (unset high : ℕ) (s : Bytes)
    → extracted unset (take 4 s) ≡ high
    → 0xd800 ≤ high
    → high < 0xdc00
    → 4 ≤ length s
    → decode_hexa unset s ≡ decode_surrogates unset high s
unfolding decode_hexa
surrogates_at unset high s e lo hi l = ground arith

-- The digits behind a backslash and 'u', and again, with the text that follows.
abbrev pair_text : Bytes → ℕ → ℕ → ℕ → ℕ → Bytes → Bytes
pair_text h a b c d rest = h ++ (b'\\' ∷ b'u' ∷ a ∷ b ∷ c ∷ d ∷ rest)

bad_low :
    (unset high low h0 h1 h2 h3 a b c d : ℕ) (rest : Bytes)
    → extracted unset (a ∷ b ∷ c ∷ d ∷ []) ≡ low
    → (low < 0xdc00) ⊎ (0xdfff < low)
    → decode_surrogates unset high (h0 ∷ h1 ∷ h2 ∷ h3 ∷ b'\\' ∷ b'u' ∷ a ∷ b ∷ c ∷ d ∷ rest)
      ≡ (replacement ++ replacement, 7)
unfolding decode_surrogates
bad_low unset high low h0 h1 h2 h3 a b c d rest e out = ground arith

three_more :
    (unset fuel n b c d : ℕ) (rest : Bytes)
    → (b ≢ b'\\') × (b ≢ b'"')
    → (c ≢ b'\\') × (c ≢ b'"')
    → (d ≢ b'\\') × (d ≢ b'"')
    → decode_loop unset (suc (suc (suc fuel))) (b ∷ c ∷ d ∷ rest) (suc (suc (suc n)))
      ≡ after (b ∷ c ∷ d ∷ []) (decode_loop unset fuel rest n)
three_more unset fuel n b c d rest p q r =
    decode_plain unset _ b _ _ p.0 p.1
    ∙ ap (after (b ∷ [])) (
        decode_plain unset _ c _ _ q.0 q.1
        ∙ ap (after (c ∷ [])) (decode_plain unset fuel d n rest r.0 r.1))
    ∙ after_three (decode_loop unset fuel rest n)
  where
    after_three :
        (o : Option Bytes)
        → after (b ∷ []) (after (c ∷ []) (after (d ∷ []) o)) ≡ after (b ∷ c ∷ d ∷ []) o
    after_three none = refl
    after_three (some r) = refl

-- Behind a high surrogate, an escape of four digits, the last three neither backslash nor quote, that
-- is no low surrogate gives two replacement characters, and its
-- last three digits stay in the text: `i` moves by 7 where the two escapes have 10 characters left.
pub decode_bad_low :
    (unset fuel n high low h0 h1 h2 h3 a b c d : ℕ) (rest : Bytes)
    → extracted unset (h0 ∷ h1 ∷ h2 ∷ h3 ∷ []) ≡ high
    → 0xd800 ≤ high
    → high < 0xdc00
    → extracted unset (a ∷ b ∷ c ∷ d ∷ []) ≡ low
    → (low < 0xdc00) ⊎ (0xdfff < low)
    → (b ≢ b'\\') × (b ≢ b'"')
    → (c ≢ b'\\') × (c ≢ b'"')
    → (d ≢ b'\\') × (d ≢ b'"')
    → decode_loop unset
        (suc (suc (suc (suc fuel))))
        (b'\\' ∷ b'u' ∷ h0 ∷ h1 ∷ h2 ∷ h3 ∷ b'\\' ∷ b'u' ∷ a ∷ b ∷ c ∷ d ∷ rest)
        (12 + n)
      ≡ after (replacement ++ replacement) (after (b ∷ c ∷ d ∷ []) (decode_loop unset fuel rest n))
decode_bad_low unset fuel n high low h0 h1 h2 h3 a b c d rest eh lo hi el out p q r =
    let u : Bytes = h0 ∷ h1 ∷ h2 ∷ h3 ∷ b'\\' ∷ b'u' ∷ a ∷ b ∷ c ∷ d ∷ rest in
    let e : decode_hexa unset u ≡ (replacement ++ replacement, 7) =
      surrogates_at unset high u eh lo hi (omega arith)
      ∙ bad_low unset high low h0 h1 h2 h3 a b c d rest el out in
    let m : suc (10 + n) - 1 - 7 ≡ suc (suc (suc n)) = omega arith in
    let k : 12 + n ≡ suc (suc (10 + n)) = omega arith in
    rw k (
      decode_unicode unset (suc (suc (suc fuel))) (10 + n) u
      ∙ rw (e, m)
          (ap (after (replacement ++ replacement)) (three_more unset fuel n b c d rest p q r)))
