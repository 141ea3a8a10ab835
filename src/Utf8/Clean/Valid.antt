-- ===== src/Utf8/Clean/Valid.antt =====
-- get_clean_utf8 of src/util.h on valid UTF-8.
use vpl_jail_system.Prelude.{
  ℕ, zero, suc, ◌≤◌, ◌<◌, ◌≡◌, refl, true, List, [], ◌∷◌, ◌++◌, Bytes, IsByte, All, length, arith,
  ◌∙◌, ap, drop-append, take-append, length-append,
}
use vpl_jail_system.Utf8.{is_valid_utf8}
use vpl_jail_system.Utf8.Spec.{IsScalar, utf8, utf8_text}
use vpl_jail_system.Utf8.Valid.{length-utf8, is_valid_utf8_sound}
use vpl_jail_system.Utf8.Clean.{good, nbytes, clean_loop, clean_utf8}

nbytes-utf8 : (c : ℕ) (rest : Bytes) → IsScalar c → nbytes (utf8 c ++ rest) ≡ good (length (utf8 c))
unfolding nbytes utf8
nbytes-utf8 c rest sc = ground arith

clean_round :
    (fuel c : ℕ) (rest : Bytes)
    → IsScalar c
    → clean_loop (suc fuel) (utf8 c ++ rest) ≡ utf8 c ++ clean_loop fuel rest
unfolding clean_loop
clean_round fuel c rest sc =
    rw (nbytes-utf8 c rest sc, clean_loop)
      (rw (take-append (utf8 c) rest, drop-append (utf8 c) rest))

utf8_text-cons : (c : ℕ) (cs : List ℕ) → utf8_text (c ∷ cs) ≡ utf8 c ++ utf8_text cs
unfolding utf8_text
utf8_text-cons c cs = refl

text_longer : (c : ℕ) (cs : List ℕ) → length (utf8_text cs) < length (utf8_text (c ∷ cs))
text_longer c cs =
    rw utf8_text-cons (omega (arith, length-append (utf8 c) (utf8_text cs), length-utf8 c))

clean_loop-utf8_text :
    (cs : List ℕ) (fuel : ℕ)
    → All IsScalar cs
    → length (utf8_text cs) ≤ fuel
    → clean_loop fuel (utf8_text cs) ≡ utf8_text cs
clean_loop-utf8_text [] zero h m = unfold clean_loop utf8_text in refl
clean_loop-utf8_text [] (suc fuel) h m = unfold clean_loop utf8_text nbytes in refl
clean_loop-utf8_text (c ∷ cs) zero h m = absurd (omega (arith, text_longer c cs))
clean_loop-utf8_text (c ∷ cs) (suc fuel) h m =
    let ih = clean_loop-utf8_text cs fuel h.1 (omega (arith, text_longer c cs)) in
    rw utf8_text-cons (clean_round fuel c (utf8_text cs) h.0 ∙ ap (λ t. utf8 c ++ t) ih)

-- A text that isValidUTF8 accepts is left as it is.
pub clean_utf8_id : (s : Bytes) → All IsByte s → is_valid_utf8 s ≡ true → clean_utf8 s ≡ s
unfolding clean_utf8
clean_utf8_id s bytes v =
    let (cs, scalars, e) = is_valid_utf8_sound s bytes v in
    rw e (clean_loop-utf8_text cs _ scalars (omega arith))
