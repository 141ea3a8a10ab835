-- ===== src/Xml.antt =====
-- encodeXML and decodeXML of src/xml.h.
pub mod RoundTrip
pub mod Parser
use vpl_jail_system.Prelude.{
  ℕ, zero, suc, ◌≡◌, refl, Bool, true, false, Option, none, some, [], ◌∷◌, ◌++◌, Bytes, codes,
  length, str_eq, ◌==◌, if◌then◌else◌,
}
use vpl_jail_system.Prelude.Cstd.{atoi_byte}
use vpl_jail_system.Utf8.Clean.{clean_utf8, nbytes}

-- What one round of the loop of encodeXML appends.
unfoldable pub escaped : ℕ → Bytes
escaped c =
    if c == b'&'
    then codes "&amp;"
    else if c == b'<'
    then codes "&lt;"
    else if c == b'>'
    then codes "&gt;"
    else if c == b'\''
    then codes "&apos;"
    else if c == b'"'
    then codes "&quot;"
    else c ∷ []

unfoldable pub escape : Bytes → Bytes
escape [] = []
escape (c ∷ s) = escaped c ++ escape s

unfoldable pub encode_xml : Bytes → Bytes
unfolding escape
encode_xml rawdata = escape (clean_utf8 rawdata)

-- The inner loop: the text before the next ';', and what is behind it; `none` if there is none.
unfoldable pub until_semicolon : Bytes → Option (Bytes × Bytes)
until_semicolon [] = none
until_semicolon (c ∷ s) =
    let more : Option (Bytes × Bytes) = elim (until_semicolon s) [
      | none ↦ none
      | some (code, rest) ↦ some (c ∷ code, rest)
    ] in
    if c == b';' then some ([], s) else more

-- What a code stands for; `none` is the exception "XML string decode error".
unfoldable pub entity : Bytes → Option Bytes
entity [] = none
entity (c ∷ s) =
    let code = c ∷ s in
    if c == b'#'
    then some (atoi_byte s ∷ [])
    else if str_eq code (codes "amp")
    then some (b'&' ∷ [])
    else if str_eq code (codes "lt")
    then some (b'<' ∷ [])
    else if str_eq code (codes "gt")
    then some (b'>' ∷ [])
    else if str_eq code (codes "apos")
    then some (b'\'' ∷ [])
    else if str_eq code (codes "quot")
    then some (b'"' ∷ [])
    else none

-- `ret += …`, before what the rest of the loop appends.
abbrev pub after : Bytes → Option Bytes → Option Bytes
after bs none = none
after bs (some r) = some (bs ++ r)

-- A round reads one byte at least, so the length is fuel enough.
unfoldable pub decode_loop : ℕ → Bytes → Option Bytes
decode_loop fuel [] = some []
decode_loop zero (c ∷ s) = none
decode_loop (suc fuel) (c ∷ s) = elim (c == b'&') [
  | true ↦ elim (until_semicolon s) [
    | none ↦ none
    | some (code, rest) ↦ elim (entity code) [
      | none ↦ none
      | some bs ↦ after bs (decode_loop fuel rest)
    ]
  ]
  | false ↦ after (c ∷ []) (decode_loop fuel s)
]

unfoldable pub decode_xml : Bytes → Option Bytes
unfolding decode_loop
decode_xml s = decode_loop (length s) s

test_encode : encode_xml (codes "a<'b'>&") ≡ codes "a&lt;&apos;b&apos;&gt;&amp;"
unfolding encode_xml escaped clean_utf8 nbytes
test_encode = refl

test_decode : decode_xml (codes "a&lt;&#39;&amp;") ≡ some (codes "a<'&")
unfolding decode_xml until_semicolon entity atoi_byte
test_decode = refl
