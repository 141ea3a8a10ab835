-- ===== src/Json/RoundTrip.antt =====
-- decodeJSONString of src/json.h undoes encodeJSONString.
use vpl_jail_system.Prelude.{
  leb, ◌==◌, le→leb, Bool-cases, Bytes, length, take, drop, length-append, drop-append, ℕ, zero,
  suc, bit_and, refl, ap, inl, inr, true, false, some, [], append_assoc, arith, ◌+◌, ◌-◌, ◌*◌, ◌/◌,
  ◌%◌, ◌≤◌, ◌<◌, ◌≡◌, ◌∙◌, ◌≢◌, ◌∷◌, ◌++◌,
}
use vpl_jail_system.Prelude.Bits.{and_low}
use vpl_jail_system.Prelude.Cstd.{hex_value, hex_digits, extract_hex, hex_digit}
use vpl_jail_system.Json.{
  char_to_hex, escaped, encode_json_string, simple_escape, after, extracted, decode_hexa,
  escape_round, decode_loop, decode_json_string,
}

hex_value-hex_digit : (d : ℕ) → d < 16 → hex_value (hex_digit d) ≡ some d
hex_value-hex_digit d h = ground arith

hex_digits-step :
    (n d : ℕ) (s : Bytes) → d < 16 → hex_digits n (hex_digit d ∷ s) ≡ hex_digits (n * 16 + d) s
unfolding hex_digits
hex_digits-step n d s h = rw (hex_value-hex_digit d h, hex_digits)

extract_two :
    (a b : ℕ)
    → a < 16
    → b < 16
    → extract_hex (b'0' ∷ b'0' ∷ hex_digit a ∷ hex_digit b ∷ []) ≡ some (a * 16 + b)
unfolding extract_hex
extract_two a b ha hb =
    ap some (
      hex_digits-step 0 a (hex_digit b ∷ []) ha
      ∙ hex_digits-step (0 * 16 + a) b [] hb
      ∙ omega arith)

decode_hexa_ascii :
    (unset c : ℕ) (s : Bytes)
    → extracted unset (take 4 s) ≡ c
    → c < 128
    → 4 ≤ length s
    → decode_hexa unset s ≡ (c ∷ [], 4)
unfolding decode_hexa
decode_hexa_ascii unset c s e h l = ground arith

-- The four digits of a small character come back as that character.
decode_hexa_small :
    (unset c : ℕ) (rest : Bytes)
    → c < 128
    → decode_hexa unset (b'0' ∷ b'0' ∷ hex_digit (c / 16 % 16) ∷ hex_digit (c % 16) ∷ rest)
      ≡ (c ∷ [], 4)
decode_hexa_small unset c rest h =
    let e : extract_hex (b'0' ∷ b'0' ∷ hex_digit (c / 16 % 16) ∷ hex_digit (c % 16) ∷ []) ≡ some c =
      extract_two (c / 16 % 16) (c % 16) (omega arith) (omega arith) ∙ ap some (omega arith) in
    decode_hexa_ascii unset c _ (unfold extracted in rw (e, extracted)) h (omega arith)

char_to_hex_small :
    (c : ℕ)
    → c < 128
    → char_to_hex (bit_and 0x00ff c)
      ≡ b'\\' ∷ b'u' ∷ b'0' ∷ b'0' ∷ hex_digit (c / 16 % 16) ∷ hex_digit (c % 16) ∷ []
unfolding char_to_hex
char_to_hex_small c h =
    let e : bit_and 0xff c ≡ c = and_low c h in
    let z : c / 4096 % 16 ≡ 0 = omega arith in
    let z' : c / 256 % 16 ≡ 0 = omega arith in rw (e, z, z')

-- What one byte is written as.
pub data ByteForm (c : ℕ) : Type 0 where
  itself : c ≢ b'\\' → c ≢ b'"' → escaped c ≡ c ∷ [] → ByteForm c
  short : (next : ℕ) → simple_escape next ≡ some c → escaped c ≡ b'\\' ∷ next ∷ [] → ByteForm c
  hex :
      c < 128
      → escaped c ≡ b'\\' ∷ b'u' ∷ b'0' ∷ b'0' ∷ hex_digit (c / 16 % 16) ∷ hex_digit (c % 16) ∷ []
      → ByteForm c

-- The characters below 0x80, in the order of the switch.
low_form : (c : ℕ) → leb 0x80 c ≡ false → ByteForm c
unfolding escaped simple_escape
low_form c low = elim (Bool-cases (c == b'"')) [
  | inl e ↦ short b'"' (ground arith) (rw (low, e))
  | inr n0 ↦ elim (Bool-cases (c == b'\\')) [
    | inl e ↦ short b'\\' (ground arith) (rw (low, n0, e))
    | inr n1 ↦ elim (Bool-cases (c == b'/')) [
      | inl e ↦ short b'/' (ground arith) (rw (low, n0, n1, e))
      | inr n2 ↦ elim (Bool-cases (c == 8)) [
        | inl e ↦ short b'b' (ground arith) (rw (low, n0, n1, n2, e))
        | inr n3 ↦ elim (Bool-cases (c == 12)) [
          | inl e ↦ short b'f' (ground arith) (rw (low, n0, n1, n2, n3, e))
          | inr n4 ↦ elim (Bool-cases (c == 10)) [
            | inl e ↦ short b'n' (ground arith) (rw (low, n0, n1, n2, n3, n4, e))
            | inr n5 ↦ elim (Bool-cases (c == 13)) [
              | inl e ↦ short b'r' (ground arith) (rw (low, n0, n1, n2, n3, n4, n5, e))
              | inr n6 ↦ elim (Bool-cases (c == 9)) [
                | inl e ↦ short b't' (ground arith) (rw (low, n0, n1, n2, n3, n4, n5, n6, e))
                | inr n7 ↦ elim (Bool-cases (c == 127)) [
                  | inl e ↦ hex (ground arith) (
                      rw (low, n0, n1, n2, n3, n4, n5, n6, n7, e)
                        (char_to_hex_small c (ground arith)))
                  | inr del ↦ elim (Bool-cases (leb c 31)) [
                    | inl e ↦ hex (ground arith) (
                        rw (low, n0, n1, n2, n3, n4, n5, n6, n7, del, e)
                          (char_to_hex_small c (ground arith)))
                    | inr e ↦
                        itself (ground arith) (ground arith)
                          (rw (low, n0, n1, n2, n3, n4, n5, n6, n7, del, e))
                  ]
                ]
              ]
            ]
          ]
        ]
      ]
    ]
  ]
]

pub byte_form : (c : ℕ) → ByteForm c
byte_form c = elim (Bool-cases (leb 0x80 c)) [
  | inl e ↦ itself (ground arith) (ground arith) (unfold escaped in rw e)
  | inr low ↦ low_form c low
]

pub decode_plain :
    (unset fuel c n : ℕ) (rest : Bytes)
    → c ≢ b'\\'
    → c ≢ b'"'
    → decode_loop unset (suc fuel) (c ∷ rest) (suc n)
      ≡ after (c ∷ []) (decode_loop unset fuel rest n)
unfolding decode_loop
decode_plain unset fuel c n rest h k = ground arith

escape_at :
    (unset fuel next n : ℕ) (u : Bytes)
    → decode_loop unset (suc fuel) (b'\\' ∷ next ∷ u) (suc (suc n))
      ≡ escape_round unset (decode_loop unset fuel) next u (suc n)
unfolding decode_loop
escape_at unset fuel next n u = ground arith

decode_short :
    (unset fuel c next n : ℕ) (rest : Bytes)
    → simple_escape next ≡ some c
    → decode_loop unset (suc fuel) (b'\\' ∷ next ∷ rest) (suc (suc n))
      ≡ after (c ∷ []) (decode_loop unset fuel rest n)
unfolding escape_round
decode_short unset fuel c next n rest h =
    escape_at unset fuel next n rest ∙ rw (h, escape_round) (ground arith)

pub decode_unicode :
    (unset fuel m : ℕ) (u : Bytes)
    → decode_loop unset (suc fuel) (b'\\' ∷ b'u' ∷ u) (suc (suc m))
      ≡ after (decode_hexa unset u).0 (
          decode_loop unset fuel
            (drop (decode_hexa unset u).1 u)
            (suc m - 1 - (decode_hexa unset u).1))
unfolding escape_round simple_escape
decode_unicode unset fuel m u = escape_at unset fuel b'u' m u

decode_hex :
    (unset fuel c m n : ℕ) (u rest : Bytes)
    → decode_hexa unset u ≡ (c ∷ [], 4)
    → drop 4 u ≡ rest
    → m ≡ n + 4
    → decode_loop unset (suc fuel) (b'\\' ∷ b'u' ∷ u) (suc (suc m))
      ≡ after (c ∷ []) (decode_loop unset fuel rest n)
decode_hex unset fuel c m n u rest h e k =
    let e' : suc m - 1 - 4 ≡ n = omega arith in decode_unicode unset fuel m u ∙ rw (h, e, e')

-- One round of the decoder on what one round of the encoder appended.
decode_byte :
    (unset fuel c n m : ℕ) (rest : Bytes)
    → ByteForm c
    → m ≡ length (escaped c) + n
    → decode_loop unset (suc fuel) (escaped c ++ rest) m
      ≡ after (c ∷ []) (decode_loop unset fuel rest n)
decode_byte unset fuel c n m rest (itself p q w) e =
    let e' : m ≡ suc n = e ∙ rw w (omega arith) in rw (w, e') (decode_plain unset fuel c n rest p q)
decode_byte unset fuel c n m rest (short next p w) e =
    let e' : m ≡ suc (suc n) = e ∙ rw w (omega arith) in
    rw (w, e') (decode_short unset fuel c next n rest p)
decode_byte unset fuel c n m rest (hex p w) e =
    let e' : m ≡ suc (suc (n + 4)) = e ∙ rw w (omega arith) in
    rw (w, e')
      (decode_hex unset fuel c (n + 4) n _ rest (decode_hexa_small unset c rest p) refl refl)

length-escaped : (c : ℕ) → ByteForm c → 1 ≤ length (escaped c)
length-escaped c (itself _ _ w) = rw w (omega arith)
length-escaped c (short _ _ w) = rw w (omega arith)
length-escaped c (hex _ w) = rw w (omega arith)

loop_end : (unset fuel : ℕ) (s : Bytes) → decode_loop unset fuel s 0 ≡ some []
unfolding decode_loop
loop_end unset zero s = refl
loop_end unset (suc fuel) [] = refl
loop_end unset (suc fuel) (c ∷ s) = refl

pub decode_encoded :
    (unset : ℕ) (s rest : Bytes) (fuel : ℕ)
    → length (encode_json_string s) ≤ fuel
    → decode_loop unset fuel (encode_json_string s ++ rest) (length (encode_json_string s)) ≡ some s
unfolding encode_json_string
decode_encoded unset [] rest fuel h = loop_end unset fuel rest
decode_encoded unset (c ∷ s) rest zero h = absurd (
    omega (arith, length-append (escaped c) (encode_json_string s), length-escaped c (byte_form c)))
decode_encoded unset (c ∷ s) rest (suc fuel) h =
    let n = length (encode_json_string s) in
    let e = length-append (escaped c) (encode_json_string s) in
    rw append_assoc (
      decode_byte unset fuel c n _ (encode_json_string s ++ rest) (byte_form c) e
      ∙ ap (after (c ∷ []))
          (decode_encoded unset s rest fuel (omega (arith, e, length-escaped c (byte_form c)))))

-- A text is read back from the middle of a message: behind `front`, and whatever follows it.
pub decode-encode_json_string :
    (unset : ℕ) (front s rest : Bytes)
    → decode_json_string unset
        (front ++ (encode_json_string s ++ rest))
        (length front)
        (length (encode_json_string s))
      ≡ some s
unfolding decode_json_string
decode-encode_json_string unset front s rest =
    let e = encode_json_string s in
    let fits : leb (length front + length e) (length (front ++ (e ++ rest))) ≡ true =
      le→leb _ _ (omega (arith, length-append front (e ++ rest), length-append e rest)) in
    rw (fits, drop-append) (decode_encoded unset s rest (length e) (omega arith))
