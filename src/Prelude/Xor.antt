-- ===== src/Prelude/Xor.antt =====
-- `^` (exclusive or) at variables: the law for the lowest digit, and that a mask applied twice is
-- undone.
use Prim.Native.Nat.{
  ℕ, zero, suc, ◌+◌, ◌*◌, ◌/◌, ◌%◌, ◌^◌, ◌≤◌, ◌<◌, bit_xor, differ, bit_xor-bitwise,
}
use mathlib.Core.Path.{◌≡◌, refl, sym, ap, ◌∙◌}
use vpl_jail_system.Prelude.Digits.{bitwise-step}
use native.Mathlib.Omega.{arith}
use native.Mathlib.Nat.{pow-suc}

pub bit_xor_step : (a b : ℕ) → bit_xor a b ≡ bit_xor (a / 2) (b / 2) * 2 + differ (a % 2) (b % 2)
bit_xor_step a b =
    bit_xor-bitwise a b
    ∙ bitwise-step (λ t. t) differ (λ t. omega arith) a b
    ∙ ap (λ t. t * 2 + differ (a % 2) (b % 2)) (sym (bit_xor-bitwise (a / 2) (b / 2)))

differ_digits : (x y : ℕ) → x < 2 → y < 2 → (differ x y < 2) × (differ (differ x y) y ≡ x)
differ_digits zero zero p q = (omega arith, refl)
differ_digits zero (suc zero) p q = (omega arith, refl)
differ_digits (suc zero) zero p q = (omega arith, refl)
differ_digits (suc zero) (suc zero) p q = (omega arith, refl)
differ_digits (suc (suc x)) y p q = absurd (omega arith)
differ_digits x (suc (suc y)) p q = absurd (omega arith)

xor_halves :
    (a b : ℕ)
    → (bit_xor a b / 2 ≡ bit_xor (a / 2) (b / 2)) × (bit_xor a b % 2 ≡ differ (a % 2) (b % 2))
xor_halves a b =
    let d = differ_digits (a % 2) (b % 2) (omega arith) (omega arith) in
    (omega (arith, bit_xor_step a b, d.0), omega (arith, bit_xor_step a b, d.0))

xor_xor_fuel : (n a m : ℕ) → a ≤ n → m ≤ n → bit_xor (bit_xor a m) m ≡ a
xor_xor_fuel zero zero zero p q = refl
xor_xor_fuel zero (suc a) m p q = absurd (omega arith)
xor_xor_fuel zero a (suc m) p q = absurd (omega arith)
xor_xor_fuel (suc n) a m p q =
    let (half, low) = xor_halves a m in
    let d = differ_digits (a % 2) (m % 2) (omega arith) (omega arith) in
    let ih = xor_xor_fuel n (a / 2) (m / 2) (omega arith) (omega arith) in
    bit_xor_step (bit_xor a m) m ∙ rw (half, low, ih, d.1) (omega arith)

-- A mask applied twice is undone.
pub xor_xor : (a m : ℕ) → bit_xor (bit_xor a m) m ≡ a
xor_xor a m = xor_xor_fuel (a + m) a m (omega arith) (omega arith)

xor-lt : (k a b : ℕ) → a < 2 ^ k → b < 2 ^ k → bit_xor a b < 2 ^ k
xor-lt zero zero zero p q = omega arith
xor-lt zero (suc a) b p q = absurd (omega arith)
xor-lt zero a (suc b) p q = absurd (omega arith)
xor-lt (suc k) a b p q =
    let e = pow-suc 2 k in
    let d = differ_digits (a % 2) (b % 2) (omega arith) (omega arith) in
    let ih = xor-lt k (a / 2) (b / 2) (omega (arith, e)) (omega (arith, e)) in
    omega (arith, e, ih, d.0, bit_xor_step a b)

pub bit_xor-lt_byte : (a b : ℕ) → a < 256 → b < 256 → bit_xor a b < 256
bit_xor-lt_byte a b p q = xor-lt 8 a b p q
