-- ===== src/Utf8.antt =====
-- UTF-8 in src/websocket.cpp (isValidUTF8, sanitizeUTF8) and src/util.h (get_utf8_nbytes_char,
-- get_clean_utf8). A loop over `s[i]` is a recursion on the bytes from position `i` on; its fuel is
-- the number of bytes, and each round takes one at least.
pub mod Spec
pub mod Sequences
pub mod Valid
pub mod Sanitize
pub mod Clean
use vpl_jail_system.Prelude.{
  ℕ, zero, suc, ◌*◌, Bool, true, false, not, ◌&&◌, ◌||◌, Option, none, some, [], ◌∷◌, ◌++◌, bit_and,
  bit_or, Bytes, length, take, drop, ltb, leb, ◌==◌, if◌then◌else◌,
}

-- The `else if` chain on the leading byte: (extra, codepoint); `none` is its last `else`.
unfoldable pub leading : ℕ → Option (ℕ × ℕ)
leading b =
    if bit_and b 0xe0 == 0xc0
    then some (1, bit_and b 0x1f)
    else if bit_and b 0xf0 == 0xe0
    then some (2, bit_and b 0x0f)
    else if bit_and b 0xf8 == 0xf0
    then some (3, bit_and b 0x07)
    else none

-- The rounds `j = 1 … extra` over the bytes behind the leading one; `none` is a byte that does not
-- match 10xxxxxx.
unfoldable pub continuation : ℕ → ℕ → Bytes → Option ℕ
continuation zero codepoint bs = some codepoint
continuation (suc n) codepoint [] = none
continuation (suc n) codepoint (cb ∷ bs) =
    let next = continuation n (bit_or (codepoint * 64) (bit_and cb 0x3f)) bs in
    if bit_and cb 0xc0 == 0x80 then next else none

-- The checks behind the loop, on the codepoint: overlong forms, the upper bound and surrogates.
unfoldable pub rejected : ℕ → ℕ → Bool
rejected extra codepoint =
    (extra == 1 && ltb codepoint 0x80)
    || (extra == 2 && ltb codepoint 0x800)
    || (extra == 3 && ltb codepoint 0x10000)
    || ltb 0x10ffff codepoint
    || (leb 0xd800 codepoint && leb codepoint 0xdfff)

-- The sequence of `extra` bytes behind the leading byte, of which `rest` are all those left in `s`.
-- `i + extra >= len` is `length rest < extra`.
unfoldable pub sequence_valid : ℕ → ℕ → Bytes → Bool
unfolding continuation rejected
sequence_valid extra codepoint rest =
    if ltb (length rest) extra
    then false
    else elim (continuation extra codepoint rest) [ none ↦ false | some c ↦ not (rejected extra c) ]

unfoldable pub valid_loop : ℕ → Bytes → Bool
valid_loop fuel [] = true
valid_loop zero (b ∷ rest) = false
valid_loop (suc fuel) (b ∷ rest) = elim (ltb b 0x80) [
  | true ↦ valid_loop fuel rest
  | false ↦ elim (leading b) [
    | none ↦ false
    | some (extra, cp) ↦ elim (sequence_valid extra cp rest) [
      | true ↦ valid_loop fuel (drop extra rest)
      | false ↦ false
    ]
  ]
]

unfoldable pub is_valid_utf8 : Bytes → Bool
unfolding valid_loop
is_valid_utf8 s = valid_loop (length s) s

unfoldable pub sanitize_loop : ℕ → Bytes → Bytes
sanitize_loop fuel [] = []
sanitize_loop zero (b ∷ rest) = []
sanitize_loop (suc fuel) (b ∷ rest) = elim (ltb b 0x80) [
  | true ↦ b ∷ sanitize_loop fuel rest
  | false ↦ elim (leading b) [
    | none ↦ b'?' ∷ sanitize_loop fuel rest
    | some (extra, cp) ↦ elim (sequence_valid extra cp rest) [
      | true ↦ b ∷ (take extra rest ++ sanitize_loop fuel (drop extra rest))
      | false ↦ b'?' ∷ sanitize_loop fuel rest
    ]
  ]
]

unfoldable pub sanitize_utf8 : Bytes → Bytes
unfolding sanitize_loop
sanitize_utf8 s = sanitize_loop (length s) s
