-- ===== src/Util/Decimal.antt =====
-- The digits of a number in text: Util::itos of src/util.h.
use vpl_jail_system.Prelude.{
  ltb, ltb→lt, Bool-cases, All, All-append, ℕ, zero, suc, inl, inr, arith, ◌+◌, ◌/◌, ◌%◌, ◌<◌,
}
use vpl_jail_system.Util.Sizes.{decimal_loop}

-- What holds of every digit holds of each byte.
pub decimal_loop-All :
    (P : ℕ → Type 0)
    → ((d : ℕ) → d < 10 → P (b'0' + d))
    → (fuel n : ℕ) → All P (decimal_loop fuel n)
unfolding decimal_loop
decimal_loop-All P digit zero n = tt
decimal_loop-All P digit (suc fuel) n = elim (Bool-cases (ltb n 10)) [
  | inl e ↦ rw (e, decimal_loop) (digit n (ltb→lt n 10 e), tt)
  | inr e ↦
      rw (e, decimal_loop)
        (All-append P (decimal_loop fuel (n / 10)) _ (decimal_loop-All P digit fuel (n / 10))
          (digit (n % 10) (omega arith), tt))
]
