-- ===== src/Utf8/Clean/Twice.antt =====
-- get_clean_utf8 of src/util.h on what it returned.
use vpl_jail_system.Prelude.{
  ℕ, zero, suc, ◌/◌, ◌≤◌, ◌≡◌, refl, [], ◌∷◌, ◌++◌, Bytes, length, take, drop, arith, ◌⊎◌, inl, inr,
  ◌∙◌, ap, drop-append, take-append, length-append, length-take,
}
use vpl_jail_system.Utf8.Clean.{Nbytes, good, at_end, bad, nbytes, clean_loop, clean_utf8}

-- A chunk that the loop copies is within the text, and is copied again whatever follows it.
abbrev Chunk : ℕ → Bytes → Type 0
Chunk n s = (1 ≤ n) × (n ≤ length s) × ((more : Bytes) → nbytes (take n s ++ more) ≡ good n)

nbytes_size :
    (a : ℕ) (s : Bytes) (n : ℕ)
    → nbytes (a ∷ s) ≡ good n
    → ((n ≡ 1) × (a / 128 ≡ 0))
      ⊎ (((n ≡ 2) × (a / 32 ≡ 6)) ⊎ (((n ≡ 3) × (a / 16 ≡ 14)) ⊎ ((n ≡ 4) × (a / 8 ≡ 30))))
unfolding nbytes
nbytes_size a [] n h = ground arith
nbytes_size a (b ∷ []) n h = ground arith
nbytes_size a (b ∷ c ∷ []) n h = ground arith
nbytes_size a (b ∷ c ∷ d ∷ s) n h = ground arith

good_two : (a : ℕ) (s : Bytes) → nbytes (a ∷ s) ≡ good 2 → Chunk 2 (a ∷ s)
unfolding nbytes
good_two a [] h = absurd (ground arith)
good_two a (b ∷ s) h = (omega arith, omega arith, λ more. ground arith)

good_three : (a : ℕ) (s : Bytes) → nbytes (a ∷ s) ≡ good 3 → Chunk 3 (a ∷ s)
unfolding nbytes
good_three a [] h = absurd (ground arith)
good_three a (b ∷ []) h = absurd (ground arith)
good_three a (b ∷ c ∷ s) h = (omega arith, omega arith, λ more. ground arith)

good_four : (a : ℕ) (s : Bytes) → nbytes (a ∷ s) ≡ good 4 → Chunk 4 (a ∷ s)
unfolding nbytes
good_four a [] h = absurd (ground arith)
good_four a (b ∷ []) h = absurd (ground arith)
good_four a (b ∷ c ∷ []) h = absurd (ground arith)
good_four a (b ∷ c ∷ d ∷ s) h = (omega arith, omega arith, λ more. ground arith)

good_one : (a : ℕ) (s : Bytes) → a / 128 ≡ 0 → Chunk 1 (a ∷ s)
unfolding nbytes
good_one a s h = (omega arith, omega arith, λ more. ground arith)

nbytes-Chunk : (a : ℕ) (s : Bytes) (n : ℕ) → nbytes (a ∷ s) ≡ good n → Chunk n (a ∷ s)
nbytes-Chunk a s n h = elim (nbytes_size a s n h) [
  | inl (e, r) ↦ rw e (good_one a s r)
  | inr (inl (e, r)) ↦ rw e (good_two a s (rw e at h))
  | inr (inr (inl (e, r))) ↦ rw e (good_three a s (rw e at h))
  | inr (inr (inr (e, r))) ↦ rw e (good_four a s (rw e at h))
]

nbytes_more : (a : ℕ) (s : Bytes) → ¬ (nbytes (a ∷ s) ≡ at_end)
unfolding nbytes
nbytes_more a [] e = ground arith
nbytes_more a (b ∷ []) e = ground arith
nbytes_more a (b ∷ c ∷ []) e = ground arith
nbytes_more a (b ∷ c ∷ d ∷ s) e = ground arith

clean_good :
    (fuel n : ℕ) (s : Bytes)
    → nbytes s ≡ good n
    → clean_loop (suc fuel) s ≡ take n s ++ clean_loop fuel (drop n s)
unfolding clean_loop
clean_good fuel n s e = rw (e, clean_loop)

clean_bad :
    (fuel n : ℕ) (s : Bytes)
    → nbytes s ≡ bad n
    → clean_loop (suc fuel) s ≡ clean_loop fuel (drop n s)
unfolding clean_loop
clean_bad fuel n s e = rw (e, clean_loop)

clean_end : (fuel : ℕ) → clean_loop fuel [] ≡ []
unfolding clean_loop nbytes
clean_end zero = refl
clean_end (suc fuel) = refl

nbytes-cases :
    (s : Bytes)
    → ((n : ℕ) × (nbytes s ≡ good n)) ⊎ ((nbytes s ≡ at_end) ⊎ ((n : ℕ) × (nbytes s ≡ bad n)))
nbytes-cases s = go (nbytes s) refl
  where
    go :
        (r : Nbytes)
        → nbytes s ≡ r
        → ((n : ℕ) × (nbytes s ≡ good n)) ⊎ ((nbytes s ≡ at_end) ⊎ ((n : ℕ) × (nbytes s ≡ bad n)))
    go (good n) e = inl (n, e)
    go at_end e = inr (inl e)
    go (bad n) e = inr (inr (n, e))

-- The chunk `u` is copied again, and the rest as the rest is.
copy_again :
    (fuel n : ℕ) (a : ℕ) (s r : Bytes)
    → Chunk n (a ∷ s)
    → length (take n (a ∷ s) ++ r) ≤ fuel
    → ((k : ℕ) → length r ≤ k → clean_loop k r ≡ r)
    → clean_loop fuel (take n (a ∷ s) ++ r) ≡ take n (a ∷ s) ++ r
copy_again zero n a s r (lo, hi, again) h ih =
    absurd (omega (arith, length-append (take n (a ∷ s)) r, length-take n (a ∷ s)))
copy_again (suc fuel) n a s r (lo, hi, again) h ih =
    let u = take n (a ∷ s) in
    let lu : length u ≡ n = length-take n (a ∷ s) ∙ omega arith in
    clean_good fuel n (u ++ r) (again r)
    ∙ rw (rw lu at (take-append u r), rw lu at (drop-append u r))
        (ap (λ t. u ++ t) (ih fuel (omega (arith, length-append u r))))

clean_loop_again :
    (fuel : ℕ) (s : Bytes) (k : ℕ)
    → length (clean_loop fuel s) ≤ k
    → clean_loop k (clean_loop fuel s) ≡ clean_loop fuel s
clean_loop_again zero s k h = unfold clean_loop in clean_end k
clean_loop_again (suc fuel) [] k h = rw clean_end (clean_end k)
clean_loop_again (suc fuel) (a ∷ s) k h = elim (nbytes-cases (a ∷ s)) [
  | inl (n, e) ↦
      let g = clean_good fuel n (a ∷ s) e in
      rw g (
        copy_again k n a s (clean_loop fuel (drop n (a ∷ s))) (nbytes-Chunk a s n e) (rw g at h)
          (clean_loop_again fuel (drop n (a ∷ s))))
  | inr (inl e) ↦ absurd (nbytes_more a s e)
  | inr (inr (n, e)) ↦
      let g = clean_bad fuel n (a ∷ s) e in
      rw g (clean_loop_again fuel (drop n (a ∷ s)) k (rw g at h))
]

-- A cleaned text is left as it is by a second pass.
pub clean_utf8_twice : (s : Bytes) → clean_utf8 (clean_utf8 s) ≡ clean_utf8 s
unfolding clean_utf8
clean_utf8_twice s = clean_loop_again (length s) s _ (omega arith)
