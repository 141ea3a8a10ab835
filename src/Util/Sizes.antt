-- ===== src/Util/Sizes.antt =====
-- Sizes of memory in text: bytesToMemSize of src/util.h.
use vpl_jail_system.Prelude.{
  ℕ, zero, suc, ◌+◌, ◌*◌, ◌/◌, ◌%◌, ◌≡◌, refl, true, false, [], ◌∷◌, ◌++◌, Bytes, codes, ltb, leb,
  if◌then◌else◌,
}

-- "%lld" of a number that is not negative; a number has no more digits than its value and one.
unfoldable pub decimal_loop : ℕ → ℕ → Bytes
decimal_loop zero n = []
decimal_loop (suc fuel) n = elim (ltb n 10) [
  | true ↦ (b'0' + n) ∷ []
  | false ↦ decimal_loop fuel (n / 10) ++ ((b'0' + n % 10) ∷ [])
]

unfoldable pub decimal : ℕ → Bytes
unfolding decimal_loop
decimal n = decimal_loop (n + 1) n

abbrev pub kb : ℕ
kb = 1024

abbrev pub mb : ℕ
mb = 1024 * kb

abbrev pub gb : ℕ
gb = 1024 * mb

unfoldable pub bytes_to_mem_size : ℕ → Bytes
unfolding decimal
bytes_to_mem_size bytes =
    if leb (16 * gb) bytes
    then decimal (bytes / gb) ++ codes "G"
    else if leb (16 * mb) bytes
    then decimal (bytes / mb) ++ codes "M"
    else if leb (16 * kb) bytes
    then decimal (bytes / kb) ++ codes "K"
    else decimal bytes ++ codes "B"

-- The limit of the output buffer.
test_output_buffer : bytes_to_mem_size (10 * mb) ≡ codes "10240K"
unfolding bytes_to_mem_size
test_output_buffer = refl
