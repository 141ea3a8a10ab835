-- ===== src/Util/Text.antt =====
-- Helpers on text in class Util of src/util.h: compareConstantTime and removeCRs.
use Prim.Native.Nat.{bit_xor-bitwise}
use vpl_jail_system.Prelude.{
  ℕ, zero, suc, ◌+◌, ◌-◌, ◌/◌, ◌%◌, ◌≤◌, ◌≡◌, ◌≢◌, ◌↔◌, inl, inr, refl, sym, ap, ◌∙◌, Bool, true,
  false, [], ◌∷◌, Bytes, All, bit_or, bit_xor, length, ltb, ◌==◌, if◌then◌else◌, arith, Bool-cases,
}
use vpl_jail_system.Prelude.Bits.{bit_or_step, bit_or-zero}
use vpl_jail_system.Prelude.Xor.{xor_xor}

-- The loop of compareConstantTime, with `n` rounds left: the bytes behind the end of a text are 0.
unfoldable pub compare_loop : ℕ → Bytes → Bytes → ℕ → ℕ
compare_loop zero a b result = result
compare_loop (suc n) [] [] result = compare_loop n [] [] (bit_or result (bit_xor 0 0))
compare_loop (suc n) [] (y ∷ b) result = compare_loop n [] b (bit_or result (bit_xor 0 y))
compare_loop (suc n) (x ∷ a) [] result = compare_loop n a [] (bit_or result (bit_xor x 0))
compare_loop (suc n) (x ∷ a) (y ∷ b) result = compare_loop n a b (bit_or result (bit_xor x y))

-- The longer size, rounded up to a multiple of 32.
unfoldable pub work_size : Bytes → Bytes → ℕ
work_size a b =
    let size = if ltb (length b) (length a) then length a else length b in
    if size % 32 == 0 then size else size + (32 - size % 32)

unfoldable pub compare_constant_time : Bytes → Bytes → Bool
unfolding compare_loop work_size
compare_constant_time a b =
    let result = compare_loop (work_size a b) a b 0 in
    bit_or result (if length a == length b then 0 else 1) == 0

bit_or-zero_iff_fuel : (n a b : ℕ) → a ≤ n → b ≤ n → bit_or a b ≡ 0 → (a ≡ 0) × (b ≡ 0)
bit_or-zero_iff_fuel zero a b p q h = (omega arith, omega arith)
bit_or-zero_iff_fuel (suc n) a b p q h =
    let e = bit_or_step a b in
    let halves =
      bit_or-zero_iff_fuel n (a / 2) (b / 2) (omega arith) (omega arith) (omega (arith, e)) in
    (omega (arith, e, halves.0), omega (arith, e, halves.1))

-- `|` is 0 for two zeros only.
bit_or_zero : (a b : ℕ) → bit_or a b ≡ 0 → (a ≡ 0) × (b ≡ 0)
bit_or_zero a b h = bit_or-zero_iff_fuel (a + b) a b (omega arith) (omega arith) h

bit_xor_zero : (x y : ℕ) → bit_xor x y ≡ 0 → x ≡ y
bit_xor_zero x y h = sym (xor_xor x y) ∙ ap (λ t. bit_xor t y) h ∙ bit_xor-bitwise 0 y

bit_xor_same : (x : ℕ) → bit_xor x x ≡ 0
bit_xor_same x = ap (λ t. bit_xor t x) (sym (bit_xor-bitwise 0 x)) ∙ xor_xor 0 x

-- No round clears a bit, and texts of one size that leave none set are the same.
compare_loop-zero :
    (n : ℕ) (a b : Bytes) (result : ℕ)
    → length a ≡ length b
    → length a ≤ n
    → compare_loop n a b result ≡ 0
    → (result ≡ 0) × (a ≡ b)
unfolding compare_loop
compare_loop-zero zero [] [] r e l h = (h, refl)
compare_loop-zero zero [] (y ∷ b) r e l h = absurd (omega arith)
compare_loop-zero zero (x ∷ a) b r e l h = absurd (omega arith)
compare_loop-zero (suc n) [] [] r e l h =
    ((bit_or_zero r _ (compare_loop-zero n [] [] _ refl (omega arith) h).0).0, refl)
compare_loop-zero (suc n) [] (y ∷ b) r e l h = absurd (omega arith)
compare_loop-zero (suc n) (x ∷ a) [] r e l h = absurd (omega arith)
compare_loop-zero (suc n) (x ∷ a) (y ∷ b) r e l h =
    let (z, same) = compare_loop-zero n a b _ (omega arith) (omega arith) h in
    let (first, byte) = bit_or_zero r (bit_xor x y) z in
    (first, rw (bit_xor_zero x y byte, same) refl)

compare_loop-same : (n : ℕ) (a : Bytes) → compare_loop n a a 0 ≡ 0
unfolding compare_loop
compare_loop-same zero a = refl
compare_loop-same (suc n) [] = compare_loop-same n []
compare_loop-same (suc n) (x ∷ a) = rw (bit_xor_same x, bit_or-zero 0) (compare_loop-same n a)

length-work_size : (a b : Bytes) → length a ≤ work_size a b
unfolding work_size
length-work_size a b = ground arith

-- compareConstantTime says of two texts whether they are the same.
pub compare_constant_time_iff : (a b : Bytes) → (compare_constant_time a b ≡ true) ↔ (a ≡ b)
unfolding compare_constant_time
compare_constant_time_iff a b = (to, from)
  where
    to : compare_constant_time a b ≡ true → a ≡ b
    to h =
        let result = compare_loop (work_size a b) a b 0 in
        let (clear, sizes) =
          bit_or_zero result (if length a == length b then 0 else 1) (ground arith) in
        (compare_loop-zero (work_size a b) a b 0 (ground arith) (length-work_size a b) clear).1

    from : a ≡ b → compare_constant_time a b ≡ true
    from e = rw e at_same
      where
        at_same : compare_constant_time b b ≡ true
        at_same = rw (compare_loop-same (work_size b b) b) (ground arith)

-- The first loop of removeCRs: whether there is no line feed.
unfoldable pub no_nl : Bytes → Bool
no_nl [] = true
no_nl (c ∷ s) = let rest = no_nl s in if c == 10 then false else rest

unfoldable pub crs_to_nls : Bytes → Bytes
crs_to_nls [] = []
crs_to_nls (c ∷ s) = (if c == 13 then 10 else c) ∷ crs_to_nls s

unfoldable pub drop_crs : Bytes → Bytes
drop_crs [] = []
drop_crs (c ∷ s) = let rest = drop_crs s in if c == 13 then rest else c ∷ rest

unfoldable pub remove_crs : Bytes → Bytes
unfolding no_nl crs_to_nls drop_crs
remove_crs text = if no_nl text then crs_to_nls text else drop_crs text

abbrev pub NoCr : Bytes → Type 0
NoCr = All (λ (c : ℕ). c ≢ 13)

crs_to_nls-NoCr : (s : Bytes) → NoCr (crs_to_nls s)
unfolding crs_to_nls
crs_to_nls-NoCr [] = tt
crs_to_nls-NoCr (c ∷ s) = (ground arith, crs_to_nls-NoCr s)

drop_crs-NoCr : (s : Bytes) → NoCr (drop_crs s)
unfolding drop_crs
drop_crs-NoCr [] = tt
drop_crs-NoCr (c ∷ s) = elim (Bool-cases (c == 13)) [
  | inl cr ↦ rw cr (drop_crs-NoCr s)
  | inr other ↦ rw other (ground arith, drop_crs-NoCr s)
]

-- Whatever the text, removeCRs leaves no carriage return in it.
pub remove_crs-NoCr : (s : Bytes) → NoCr (remove_crs s)
unfolding remove_crs
remove_crs-NoCr s = by_lines (no_nl s)
  where
    by_lines : (b : Bool) → NoCr (if b then crs_to_nls s else drop_crs s)
    by_lines true = crs_to_nls-NoCr s
    by_lines false = drop_crs-NoCr s
