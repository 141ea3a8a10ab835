-- ===== src/Base64.antt =====
-- class Base64 of src/util.h. The table C642int holds `none` for -1; `none` as the result of `decode`
-- is the std::length_error that `string res(size, …)` throws at a negative size.
use vpl_jail_system.Prelude.{
  ℕ, ◌+◌, ◌-◌, ◌*◌, ◌/◌, ◌%◌, ◌^◌, Bool, true, false, ◌&&◌, Option, none, some, List, [], ◌∷◌, ◌++◌,
  bit_and, bit_or, ◌≡◌, refl, Bytes, codes, length, get_or, set, replicate, ltb, leb, ◌==◌,
  if◌then◌else◌,
}

abbrev pub char_set : Bytes
char_set = codes "ABCDEFGHIJKLMNOPQRSTUVWXYZabcdefghijklmnopqrstuvwxyz0123456789+/"

-- `C642int[charSet[i]] = i << 2` for each `i`.
init_loop : Bytes → ℕ → List (Option ℕ) → List (Option ℕ)
init_loop [] i table = table
init_loop (c ∷ cs) i table = init_loop cs (i + 1) (set table c (some (i * 4)))

unfoldable pub c64_to_int : List (Option ℕ)
unfolding init_loop
c64_to_int = init_loop char_set 0 (replicate 256 none)

unfoldable pub decode_char : ℕ → Option ℕ
decode_char c = get_or c64_to_int c none

unfoldable pub is64 : ℕ → Bool
is64 c = elim (decode_char c) [ none ↦ false | some v ↦ true ]

-- The loop of decodeSize: the characters of the alphabet and the '=' signs.
unfoldable pub count_loop : Bytes → ℕ → ℕ → ℕ × ℕ
count_loop [] s eque = (s, eque)
count_loop (c ∷ cs) s eque =
    count_loop cs (if is64 c then s + 1 else s)
      (if is64 c then eque else if c == b'=' then eque + 1 else eque)

-- `(s+eque)/4*3-eque`; `none` where that is negative.
unfoldable pub decode_size : Bytes → Option ℕ
unfolding count_loop
decode_size d =
    let (s, eque) = count_loop d 0 0 in
    if ltb ((s + eque) / 4 * 3) eque then none else some ((s + eque) / 4 * 3 - eque)

-- `rawdata[ibyte] |= …`, and the bits that run over into the next byte.
unfoldable pub set_data : Bytes → ℕ → ℕ → Bytes
set_data res pos dc =
    let ibyte = pos / 8 in
    let ides = pos % 8 in
    let size = length res in
    let first = set res ibyte (bit_or (get_or res ibyte 0) (dc / 2 ^ ides % 256)) in
    if leb size ibyte
    then res
    else if ltb 2 ides && ltb (ibyte + 1) size
    then set first (ibyte + 1) (bit_or (get_or first (ibyte + 1) 0) (dc * 2 ^ (8 - ides) % 256))
    else first

unfoldable pub decode_loop : Bytes → Bytes → ℕ → Bytes
decode_loop [] res pos = res
decode_loop (c ∷ cs) res pos = elim (decode_char c) [
  | none ↦ decode_loop cs res pos
  | some dc ↦ decode_loop cs (set_data res pos dc) (pos + 6)
]

unfoldable pub decode : Bytes → Option Bytes
decode d = elim (decode_size d) [
  | none ↦ none
  | some size ↦ if size == 0 then some [] else some (decode_loop d (replicate size 0) 0)
]

-- One round of the loop of `encode`, on three input bytes (0 behind the end).
unfoldable pub encode_group : ℕ → ℕ → ℕ → Bytes
encode_group in1 in2 in3 =
    get_or char_set (bit_and (in1 / 4) 0x3f) 0
    ∷ get_or char_set (bit_and in1 0x3 * 16 + in2 / 16) 0
    ∷ get_or char_set (bit_and in2 0xf * 4 + in3 / 64) 0
    ∷ get_or char_set (bit_and in3 0x3f) 0
    ∷ []

unfoldable pub encode_loop : Bytes → Bytes
encode_loop [] = []
encode_loop (a ∷ []) = encode_group a 0 0
encode_loop (a ∷ b ∷ []) = encode_group a b 0
encode_loop (a ∷ b ∷ c ∷ rest) = encode_group a b c ++ encode_loop rest

unfoldable pub encode : Bytes → Bytes
encode d =
    let in_size = length d in
    let out_size = (in_size + 2) / 3 * 4 in
    let ret = encode_loop d in
    if in_size % 3 == 2
    then set ret (out_size - 1) b'='
    else if in_size % 3 == 1
    then set (set ret (out_size - 2) b'=') (out_size - 1) b'='
    else ret

test_encode : encode (codes "Hola") ≡ codes "SG9sYQ=="
unfolding encode encode_loop encode_group
test_encode = refl

test_decode : decode (codes "SG9sYQ==") ≡ some (codes "Hola")
unfolding decode decode_size decode_loop set_data decode_char c64_to_int is64
test_decode = refl
