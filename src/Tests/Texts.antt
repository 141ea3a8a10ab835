-- ===== src/Tests/Texts.antt =====
-- Texts through the codecs of src/websocket.cpp, src/util.h, src/xml.h and src/json.h.
use vpl_jail_system.Prelude.{
  ℕ, ◌≡◌, refl, inl, inr, true, some, List, [], ◌∷◌, Bytes, codes, All, arith,
}
use vpl_jail_system.Utf8.{is_valid_utf8, valid_loop, leading, sequence_valid, sanitize_utf8}
use vpl_jail_system.Utf8.Spec.{IsScalar, utf8_text}
use vpl_jail_system.Utf8.Valid.{is_valid_utf8_sound, is_valid_utf8-utf8_text}
use vpl_jail_system.Utf8.Sanitize.{is_valid_utf8-sanitize_utf8}
use vpl_jail_system.Utf8.Clean.{clean_utf8}
use vpl_jail_system.Xml.{encode_xml, decode_xml}
use vpl_jail_system.Xml.RoundTrip.{decode_xml-encode_xml}

-- "é", and a lone continuation byte.
abbrev accent : Bytes
accent = 0xc3 ∷ 0xa9 ∷ []

accent_valid : is_valid_utf8 accent ≡ true
unfolding is_valid_utf8 valid_loop leading sequence_valid
accent_valid = refl

is_valid_utf8_sound_example : (cs : List ℕ) × All IsScalar cs × (accent ≡ utf8_text cs)
is_valid_utf8_sound_example = is_valid_utf8_sound accent (omega arith) accent_valid

is_valid_utf8-utf8_text_example : is_valid_utf8 (utf8_text (0xe9 ∷ 0x1f600 ∷ [])) ≡ true
is_valid_utf8-utf8_text_example =
    is_valid_utf8-utf8_text (0xe9 ∷ 0x1f600 ∷ [])
      (inl (omega arith), (inr (omega arith, omega arith), tt))

is_valid_utf8-sanitize_utf8_example : is_valid_utf8 (sanitize_utf8 (0xe9 ∷ b'a' ∷ [])) ≡ true
is_valid_utf8-sanitize_utf8_example = is_valid_utf8-sanitize_utf8 (0xe9 ∷ b'a' ∷ []) (omega arith)

decode_xml-encode_xml_example :
    decode_xml (encode_xml (codes "<a&b>")) ≡ some (clean_utf8 (codes "<a&b>"))
decode_xml-encode_xml_example = decode_xml-encode_xml (codes "<a&b>")
