-- ===== src/Xml/RoundTrip.antt =====
-- decodeXML of src/xml.h undoes encodeXML.
use vpl_jail_system.Prelude.{
  ℕ, zero, suc, ◌≡◌, ◌≢◌, ◌≤◌, refl, true, some, [], ◌∷◌, ◌++◌, Bytes, IsByte, All, All-append,
  codes, length, length-append, ◌==◌, arith, ◌∙◌, ap, ◌⊎◌, inl, inr, Bool-cases,
}
use vpl_jail_system.Utf8.{is_valid_utf8}
use vpl_jail_system.Utf8.Clean.{clean_utf8}
use vpl_jail_system.Utf8.Clean.Valid.{clean_utf8_id}
use vpl_jail_system.Xml.{
  escaped, escape, encode_xml, until_semicolon, entity, after, decode_loop, decode_xml,
}

-- What one byte is written as.
data ByteForm (c : ℕ) : Type 0 where
  amp : c ≡ b'&' → escaped c ≡ codes "&amp;" → ByteForm c
  lt : c ≡ b'<' → escaped c ≡ codes "&lt;" → ByteForm c
  gt : c ≡ b'>' → escaped c ≡ codes "&gt;" → ByteForm c
  apos : c ≡ b'\'' → escaped c ≡ codes "&apos;" → ByteForm c
  quot : c ≡ b'"' → escaped c ≡ codes "&quot;" → ByteForm c
  itself : c ≢ b'&' → c ≢ b'<' → c ≢ b'>' → c ≢ b'\'' → c ≢ b'"' → escaped c ≡ c ∷ [] → ByteForm c

byte_form : (c : ℕ) → ByteForm c
unfolding escaped
byte_form c = elim (Bool-cases (c == b'&')) [
  | inl e ↦ amp (ground arith) (rw e)
  | inr a ↦ elim (Bool-cases (c == b'<')) [
    | inl e ↦ lt (ground arith) (rw (a, e))
    | inr b ↦ elim (Bool-cases (c == b'>')) [
      | inl e ↦ gt (ground arith) (rw (a, b, e))
      | inr g ↦ elim (Bool-cases (c == b'\'')) [
        | inl e ↦ apos (ground arith) (rw (a, b, g, e))
        | inr q ↦ elim (Bool-cases (c == b'"')) [
          | inl e ↦ quot (ground arith) (rw (a, b, g, q, e))
          | inr r ↦
              itself (ground arith) (ground arith) (ground arith) (ground arith) (ground arith)
                (rw (a, b, g, q, r))
        ]
      ]
    ]
  ]
]

decode_plain :
    (fuel c : ℕ) (rest : Bytes)
    → c ≢ b'&'
    → decode_loop (suc fuel) (c ∷ rest) ≡ after (c ∷ []) (decode_loop fuel rest)
unfolding decode_loop
decode_plain fuel c rest h = ground arith

-- One round of the decoder on what one round of the encoder appended.
decode_byte :
    (fuel c : ℕ) (rest : Bytes)
    → ByteForm c
    → decode_loop (suc fuel) (escaped c ++ rest) ≡ after (c ∷ []) (decode_loop fuel rest)
unfolding decode_loop until_semicolon entity
decode_byte fuel c rest (amp e w) = rw (w, e)
decode_byte fuel c rest (lt e w) = rw (w, e)
decode_byte fuel c rest (gt e w) = rw (w, e)
decode_byte fuel c rest (apos e w) = rw (w, e)
decode_byte fuel c rest (quot e w) = rw (w, e)
decode_byte fuel c rest (itself h _ _ _ _ w) = rw w (decode_plain fuel c rest h)

length-escaped : (c : ℕ) → ByteForm c → 1 ≤ length (escaped c)
length-escaped c (amp e w) = rw w (omega arith)
length-escaped c (lt e w) = rw w (omega arith)
length-escaped c (gt e w) = rw w (omega arith)
length-escaped c (apos e w) = rw w (omega arith)
length-escaped c (quot e w) = rw w (omega arith)
length-escaped c (itself _ _ _ _ _ w) = rw w (omega arith)

decode_escape :
    (s : Bytes) (fuel : ℕ) → length (escape s) ≤ fuel → decode_loop fuel (escape s) ≡ some s
unfolding escape
decode_escape [] fuel h = unfold decode_loop in refl
decode_escape (c ∷ s) zero h =
    absurd (omega (arith, length-append (escaped c) (escape s), length-escaped c (byte_form c)))
decode_escape (c ∷ s) (suc fuel) h =
    decode_byte fuel c (escape s) (byte_form c)
    ∙ ap (after (c ∷ [])) (
        decode_escape s fuel
          (omega (arith, length-append (escaped c) (escape s), length-escaped c (byte_form c))))

-- Decoding gives back the cleaned text, whatever bytes went in.
pub decode_xml-encode_xml : (s : Bytes) → decode_xml (encode_xml s) ≡ some (clean_utf8 s)
unfolding decode_xml encode_xml
decode_xml-encode_xml s = decode_escape (clean_utf8 s) _ (omega arith)

-- Valid UTF-8 comes back as it was.
pub decode_xml-encode_xml_valid :
    (s : Bytes) → All IsByte s → is_valid_utf8 s ≡ true → decode_xml (encode_xml s) ≡ some s
decode_xml-encode_xml_valid s bytes v = decode_xml-encode_xml s ∙ ap some (clean_utf8_id s bytes v)

-- A byte that can end or open markup.
abbrev pub IsMarkup : ℕ → Type 0
IsMarkup c = (c ≡ b'<') ⊎ ((c ≡ b'>') ⊎ ((c ≡ b'\'') ⊎ (c ≡ b'"')))

abbrev pub Inert : ℕ → Type 0
Inert c = ¬ (IsMarkup c)

escaped-Inert : (c : ℕ) → ByteForm c → All Inert (escaped c)
escaped-Inert c (amp e w) = rw w (ground arith)
escaped-Inert c (lt e w) = rw w (ground arith)
escaped-Inert c (gt e w) = rw w (ground arith)
escaped-Inert c (apos e w) = rw w (ground arith)
escaped-Inert c (quot e w) = rw w (ground arith)
escaped-Inert c (itself _ a b d e w) = rw w (ground arith)

escape-Inert : (s : Bytes) → All Inert (escape s)
unfolding escape
escape-Inert [] = tt
escape-Inert (c ∷ s) =
    All-append Inert (escaped c) (escape s) (escaped-Inert c (byte_form c)) (escape-Inert s)

-- Encoded text holds no '<', no '>' and no quote.
pub encode_xml-Inert : (s : Bytes) → All Inert (encode_xml s)
unfolding encode_xml
encode_xml-Inert s = escape-Inert (clean_utf8 s)
