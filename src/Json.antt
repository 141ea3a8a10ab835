-- ===== src/Json.antt =====
-- The strings of src/json.h: encodeJSONString, decodeHexaUnicodeToUTF8 and decodeJSONString.
pub mod Parser
pub mod Printed
pub mod RoundTrip
pub mod Surrogates
use vpl_jail_system.Prelude.{
  ℕ, zero, suc, ◌+◌, ◌-◌, ◌*◌, ◌/◌, ◌%◌, ◌^◌, ◌≡◌, refl, Bool, true, false, not, ◌&&◌, ◌||◌, Option,
  none, some, [], ◌∷◌, ◌++◌, Bytes, codes, length, take, drop, str_eq, ltb, leb, ◌==◌,
  if◌then◌else◌, bit_and, bit_or,
}
use vpl_jail_system.Prelude.Cstd.{extract_hex, hex_digit}

-- `"\\u" << setfill('0') << setw(4) << hex << c`, for a `c` of at most four digits.
unfoldable pub char_to_hex : ℕ → Bytes
char_to_hex c =
    b'\\'
    ∷ b'u'
    ∷ hex_digit (c / 4096 % 16)
    ∷ hex_digit (c / 256 % 16)
    ∷ hex_digit (c / 16 % 16)
    ∷ hex_digit (c % 16)
    ∷ []

-- What one round of the loop of encodeJSONString appends.
unfoldable pub escaped : ℕ → Bytes
escaped c =
    if leb 0x80 c
    then c ∷ []
    else if c == b'"'
    then codes "\\\""
    else if c == b'\\'
    then codes "\\\\"
    else if c == b'/'
    then codes "\\/"
    else if c == 8
    then codes "\\b"
    else if c == 12
    then codes "\\f"
    else if c == 10
    then codes "\\n"
    else if c == 13
    then codes "\\r"
    else if c == 9
    then codes "\\t"
    else if c == 127
    then char_to_hex (bit_and 0x00ff c)
    else if leb c 31
    then char_to_hex (bit_and 0x00ff c)
    else c ∷ []

unfoldable pub encode_json_string : Bytes → Bytes
encode_json_string [] = []
encode_json_string (c ∷ s) = escaped c ++ encode_json_string s

-- The replacement character, U+FFFD.
abbrev pub replacement : Bytes
replacement = 0xef ∷ 0xbf ∷ 0xbd ∷ []

-- The one-byte escapes of the switch.
unfoldable pub simple_escape : ℕ → Option ℕ
simple_escape next =
    if next == b'\\' || next == b'"' || next == b'/'
    then some next
    else if next == b'b'
    then some 8
    else if next == b'f'
    then some 12
    else if next == b'n'
    then some 10
    else if next == b'r'
    then some 13
    else if next == b't'
    then some 9
    else none

abbrev pub after : Bytes → Option Bytes → Option Bytes
after bs none = none
after bs (some r) = some (bs ++ r)

-- The four bytes of a supplementary code point.
unfoldable pub supplementary : ℕ → Bytes
supplementary u =
    bit_or (bit_and (u / 2 ^ 18) 0x07) 0xf0
    ∷ bit_or (bit_and (u / 2 ^ 12) 0x3f) 0x80
    ∷ bit_or (bit_and (u / 2 ^ 6) 0x3f) 0x80
    ∷ bit_or (bit_and u 0x3f) 0x80
    ∷ []

module _ (unset : ℕ) where
  -- A size_t that is declared without a value and then extracted; `unset` is what it holds before.
  unfoldable pub extracted : Bytes → ℕ
  extracted s = elim (extract_hex s) [ none ↦ unset | some n ↦ n ]

  -- A high surrogate `high`, with the data from the four digits on: what is returned, and by how many bytes
  -- the caller's `i` has moved when its loop goes on.
  unfoldable pub decode_surrogates : ℕ → Bytes → Bytes × ℕ
  unfolding supplementary
  decode_surrogates high s =
      let low = extracted (take 4 (drop 6 s)) in
      if not (str_eq (take 2 (drop 4 s)) (codes "\\u")) || ltb (length s) 10
      then (replacement, 4)
      else if not (leb 0xdc00 low && leb low 0xdfff)
      then (replacement ++ replacement, 7)
      else (supplementary (bit_or (bit_and high 0x3ff * 2 ^ 10) (bit_and low 0x3ff) + 0x10000), 10)

  -- decodeHexaUnicodeToUTF8, on the data from position `i` on.
  unfoldable pub decode_hexa : Bytes → Bytes × ℕ
  decode_hexa s =
      let u = extracted (take 4 s) in
      if ltb (length s) 4
      then (replacement, length s)
      else if leb u 0x7f
      then (u ∷ [], 4)
      else if leb u 0x7ff
      then (bit_or (bit_and (u / 2 ^ 6) 0x1f) 0xc0 ∷ bit_or (bit_and u 0x3f) 0x80 ∷ [], 4)
      else if leb 0xd800 u && ltb u 0xdc00
      then decode_surrogates u s
      else if leb 0xdc00 u && leb u 0xdfff
      then (replacement, 4)
      else (
        bit_or (bit_and (u / 2 ^ 12) 0x0f) 0xe0
            ∷ bit_or (bit_and (u / 2 ^ 6) 0x3f) 0x80
            ∷ bit_or (bit_and u 0x3f) 0x80
            ∷ [],
        4,
      )

  -- The switch on the character behind a backslash, `n` being `limit - i` and `u` the data behind it;
  -- `loop` is the rest of the loop.
  unfoldable pub escape_round : (Bytes → ℕ → Option Bytes) → ℕ → Bytes → ℕ → Option Bytes
  escape_round loop next u n = elim (simple_escape next) [
    | some b ↦ after (b ∷ []) (loop u (n - 1))
    | none ↦ elim (next == b'u') [
      | true ↦ after (decode_hexa u).0 (loop (drop (decode_hexa u).1 u) (n - 1 - (decode_hexa u).1))
      | false ↦ none
    ]
  ]

  -- The loop of decodeJSONString: the data from `i` on, and `limit - i`. `none` is the exception "bad
  -- escape sequence". A round moves `i` by one at least, so `limit - i` is fuel enough.
  unfoldable pub decode_loop : ℕ → Bytes → ℕ → Option Bytes
  decode_loop fuel s zero = some []
  decode_loop zero s (suc n) = some []
  decode_loop (suc fuel) [] (suc n) = some []
  decode_loop (suc fuel) (c ∷ t) (suc n) = elim (c == b'\\') [
    | true ↦ elim (n == 0) [
      | true ↦ some []
      | false ↦ elim t [ [] ↦ some [] | next ∷ u ↦ escape_round (decode_loop fuel) next u n ]
    ]
    | false ↦ elim (c == b'"') [ true ↦ some [] | false ↦ after (c ∷ []) (decode_loop fuel t n) ]
  ]

  -- `limit` is `i + len`, or the end of the data.
  unfoldable pub decode_json_string : Bytes → ℕ → ℕ → Option Bytes
  decode_json_string s i len =
      let n = if leb (i + len) (length s) then len else length s - i in decode_loop n (drop i s) n

test_encode : encode_json_string (codes "a\"\n/" ++ (1 ∷ [])) ≡ codes "a\\\"\\n\\/\\u0001"
unfolding encode_json_string escaped char_to_hex
test_encode = refl

test_decode :
    decode_json_string 0 (codes "x\\n\\u00e9\\ud83d\\ude00\"") 0 25
    ≡ some (codes "x\n" ++ (0xc3 ∷ 0xa9 ∷ 0xf0 ∷ 0x9f ∷ 0x98 ∷ 0x80 ∷ []))
unfolding decode_json_string decode_loop escape_round decode_hexa decode_surrogates supplementary
    extracted extract_hex simple_escape
test_decode = refl
