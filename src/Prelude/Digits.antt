-- ===== src/Prelude/Digits.antt =====
-- A native bit operation, defined on its binary digits, splits off the lowest one. Each operation is
-- given by what it does on two digits (`f`) and once the first number has run out (`z`).
use Prim.Native.Nat.{ℕ, zero, suc, ◌+◌, ◌*◌, ◌/◌, ◌%◌, ◌≤◌, digits, bitwise}
use mathlib.Core.Path.{◌≡◌, refl, sym, ap, ◌∙◌}
use native.Mathlib.Omega.{arith}

module _ (z : ℕ → ℕ) (f : ℕ → ℕ → ℕ) where
  ran_out : (n b : ℕ) → digits z f n 0 b ≡ z b
  ran_out zero b = refl
  ran_out (suc n) b = refl

  -- Any two counts of digits that reach the last one agree.
  enough : (n m a b : ℕ) → a ≤ n → a ≤ m → digits z f n a b ≡ digits z f m a b
  enough n m zero b hn hm = ran_out n b ∙ sym (ran_out m b)
  enough zero m (suc a) b hn hm = absurd (omega arith)
  enough (suc n) zero (suc a) b hn hm = absurd (omega arith)
  enough (suc n) (suc m) (suc a) b hn hm =
      ap (λ t. t * 2 + f (suc a % 2) (b % 2))
        (enough n m (suc a / 2) (b / 2) (omega arith) (omega arith))

  pub bitwise-step :
      ((b : ℕ) → z b ≡ z (b / 2) * 2 + f 0 (b % 2))
      → (a b : ℕ) → bitwise z f a b ≡ bitwise z f (a / 2) (b / 2) * 2 + f (a % 2) (b % 2)
  bitwise-step h zero b = h b
  bitwise-step h (suc a) b =
      let half = suc a / 2 in
      ap (λ t. t * 2 + f (suc a % 2) (b % 2))
        (enough a half half (b / 2) (omega arith) (omega arith))
