-- ===== src/Utf8/Clean.antt =====
-- get_utf8_nbytes_char and get_clean_utf8 of src/util.h. A text from position `pos` on is the list of
-- its bytes.
pub mod Valid
pub mod Twice
use vpl_jail_system.Prelude.{
  ℕ, zero, suc, ◌+◌, ◌-◌, ◌*◌, ◌/◌, ◌%◌, ◌≤◌, ◌<◌, ◌≡◌, refl, Bool, true, false, ◌&&◌, Option, none,
  some, List, [], ◌∷◌, ◌++◌, Bytes, IsByte, All, codes, length, take, drop, ltb, leb, ◌==◌,
  if◌then◌else◌, arith, ◌⊎◌, inl, inr, ◌∙◌, ap, sym, Bool-cases, drop-append, take-append,
  length-append, length-take,
}

-- The `int` that get_utf8_nbytes_char returns: a positive size, 0, or the negated number of bytes to skip.
pub data Nbytes : Type 0 where
  good : ℕ → Nbytes
  at_end : Nbytes
  bad : ℕ → Nbytes

-- The loop over `i`, with the number of rounds left.
unfoldable pub nbytes_loop : ℕ → ℕ → ℕ → Bytes → Nbytes
nbytes_loop zero i num_bytes rest = good num_bytes
nbytes_loop (suc n) i num_bytes [] = good num_bytes
nbytes_loop (suc n) i num_bytes (c ∷ rest) =
    let next = nbytes_loop n (i + 1) num_bytes rest in if c / 64 == 0x2 then next else bad (i + 1)

-- `size` is what the first byte announces, and the bytes behind it are `rest`.
unfoldable pub nbytes_rest : ℕ → Bytes → Nbytes
unfolding nbytes_loop
nbytes_rest size rest =
    if ltb (length rest + 1) size then bad 1 else nbytes_loop (size - 1) 1 size rest

unfoldable pub nbytes : Bytes → Nbytes
unfolding nbytes_rest
nbytes [] = at_end
nbytes (c ∷ rest) =
    if c / 128 == 0
    then good 1
    else if c / 32 == 0x6
    then nbytes_rest 2 rest
    else if c / 16 == 0xe
    then nbytes_rest 3 rest
    else if c / 8 == 0x1e
    then nbytes_rest 4 rest
    else bad 1

unfoldable pub clean_loop : ℕ → Bytes → Bytes
clean_loop zero s = []
clean_loop (suc fuel) s = elim (nbytes s) [
  | good n ↦ take n s ++ clean_loop fuel (drop n s)
  | at_end ↦ []
  | bad n ↦ clean_loop fuel (drop n s)
]

unfoldable pub clean_utf8 : Bytes → Bytes
unfolding clean_loop
clean_utf8 s = clean_loop (length s) s

test_clean :
    clean_utf8 (codes "a" ++ (0xc3 ∷ 0x28 ∷ 0x80 ∷ 0xc3 ∷ 0xa9 ∷ [])) ≡ b'a' ∷ 0xc3 ∷ 0xa9 ∷ []
unfolding clean_utf8 nbytes
test_clean = refl
