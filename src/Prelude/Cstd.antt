-- ===== src/Prelude/Cstd.antt =====
-- What the code takes from the C library on numbers in text: atoi, atol and atoll, and the extraction
-- of an unsigned number in base 16 from a stringstream.
use Prim.Native.Nat.{ℕ, ◌+◌, ◌-◌, ◌*◌, ◌%◌, ◌^◌, min}
use mathlib.Core.Bool.{Bool, true, false, ◌&&◌, ◌||◌}
use mathlib.Core.Path.{◌≡◌, refl}
use mathlib.Core.List.{[], ◌∷◌}
use mathlib.Core.Option.{Option, none, some}
use vpl_jail_system.Prelude.Tests.{ltb, leb, ◌==◌, if◌then◌else◌}
use vpl_jail_system.Prelude.Lists.{Bytes, codes}

-- isspace in the C locale.
abbrev pub is_space : ℕ → Bool
is_space c = c == 0x20 || (leb 0x09 c && leb c 0x0d)

unfoldable pub skip_spaces : Bytes → Bytes
skip_spaces [] = []
skip_spaces (c ∷ s) = let more = skip_spaces s in if is_space c then more else c ∷ s

abbrev pub is_digit : ℕ → Bool
is_digit c = leb b'0' c && leb c b'9'

-- The number that the leading digits spell behind `n`.
unfoldable pub digits_value : ℕ → Bytes → ℕ
digits_value n [] = n
digits_value n (c ∷ s) =
    let more = digits_value (n * 10 + (c - b'0')) s in if is_digit c then more else n

-- A sign and a magnitude: `true` is minus.
unfoldable pub signed_value : Bytes → Bool × ℕ
unfolding digits_value
signed_value [] = (false, 0)
signed_value (c ∷ s) =
    if c == b'-'
    then (true, digits_value 0 s)
    else if c == b'+'
    then (false, digits_value 0 s)
    else (false, digits_value 0 (c ∷ s))

-- strtoll in base 10, which stops at the bounds of a long long.
unfoldable pub strtoll : Bytes → Bool × ℕ
unfolding skip_spaces signed_value
strtoll s =
    let (minus, n) = signed_value (skip_spaces s) in
    if minus then (true, min n (2 ^ 63)) else (false, min n (2 ^ 63 - 1))

-- `(unsigned char) atoi(s)`: the low byte of two's complement.
unfoldable pub atoi_byte : Bytes → ℕ
unfolding strtoll
atoi_byte s = let (minus, n) = strtoll s in if minus then (256 - n % 256) % 256 else n % 256

test_atoi_byte : atoi_byte (codes " 39;") ≡ 39
unfolding atoi_byte
test_atoi_byte = refl

-- The value of a hexadecimal digit.
abbrev pub hex_value : ℕ → Option ℕ
hex_value c =
    if is_digit c
    then some (c - b'0')
    else if leb b'a' c && leb c b'f'
    then some (c - b'a' + 10)
    else if leb b'A' c && leb c b'F'
    then some (c - b'A' + 10)
    else none

-- The number that the leading hexadecimal digits spell behind `n`.
unfoldable pub hex_digits : ℕ → Bytes → ℕ
hex_digits n [] = n
hex_digits n (c ∷ s) = elim (hex_value c) [ none ↦ n | some d ↦ hex_digits (n * 16 + d) s ]

-- A prefix "0x" or "0X" is skipped.
unfoldable pub hex_prefixed : Bytes → ℕ
unfolding hex_digits
hex_prefixed [] = 0
hex_prefixed (a ∷ []) = hex_digits 0 (a ∷ [])
hex_prefixed (a ∷ b ∷ s) =
    if a == b'0' && (b == b'x' || b == b'X') then hex_digits 0 s else hex_digits 0 (a ∷ b ∷ s)

unfoldable pub hex_signed : Bytes → ℕ
unfolding hex_prefixed
hex_signed [] = 0
hex_signed (c ∷ s) =
    if c == b'-'
    then (2 ^ 64 - hex_prefixed s) % 2 ^ 64
    else if c == b'+'
    then hex_prefixed s
    else hex_prefixed (c ∷ s)

-- `ss >> std::hex >> n` for a size_t, on at most 16 digits: `none` where nothing but spaces is there,
-- which leaves `n` as it was. A text without digits gives 0.
unfoldable pub extract_hex : Bytes → Option ℕ
unfolding skip_spaces hex_signed
extract_hex s = elim (skip_spaces s) [ [] ↦ none | c ∷ r ↦ some (hex_signed (c ∷ r)) ]

-- A hexadecimal digit as `std::hex` writes it.
abbrev pub hex_digit : ℕ → ℕ
hex_digit d = if ltb d 10 then b'0' + d else b'a' + (d - 10)
